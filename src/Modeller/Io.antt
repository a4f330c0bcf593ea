-- ===== src/Modeller/Io.antt =====
-- workflow-modeller/src/io: import, export and drafts.
pub mod Json
pub mod Embed
pub mod Import
pub mod Drafts
