-- ===== src/Modeller.antt =====
-- The workflow modeller: the editor of workflow definitions (workflow-modeller/src).
pub mod Types
pub mod Graph
pub mod Validate
pub mod Expression
pub mod Rename
pub mod References
pub mod Store
pub mod Io
pub mod Samples
pub mod Tests
