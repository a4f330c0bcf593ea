-- ===== src/Sdk.antt =====
-- The worker library for Node (workflow-sdk-node/src).
pub mod Backoff
pub mod Dedup
pub mod Heartbeat
pub mod Kafka
pub mod Registry
pub mod Runner
pub mod Callback
pub mod Tests
