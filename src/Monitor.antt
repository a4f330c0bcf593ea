-- ===== src/Monitor.antt =====
-- workflow-monitor-bff/src: the read-only HTTP back end of the monitor. Its query text, its page
-- cursors and the evidence on running steps; the controllers pass their arguments on.
pub mod Request
pub mod Sql
pub mod Paging
pub mod Instances
pub mod Executions
pub mod Incidents
pub mod Context
pub mod Detail
pub mod Variables
pub mod Overview
mod Samples
mod Tests
