-- ===== src/Engine.antt =====
-- crates/terratranslate-engine/src/lib.rs: one turn of the translation engine.
pub mod Data
pub mod Context
pub mod Stages
pub mod Gather
pub mod Request
pub mod Turn
pub mod Keeping
pub mod Advance
pub mod Failure
pub mod Scratchpad
