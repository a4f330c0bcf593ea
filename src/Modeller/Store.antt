-- ===== src/Modeller/Store.antt =====
-- workflow-modeller/src/store/workflowStore.ts: the editor's state and its actions.
pub mod State
pub mod Scrub
pub mod NewStep
pub mod Actions
pub mod Editing
