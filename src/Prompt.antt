-- ===== src/Prompt.antt =====
-- crates/terratranslate-core/src/prompt.rs: prompt templates.
pub mod Data
pub mod Macros
pub mod Values
pub mod Render
pub mod Sizes
pub mod Fuel
pub mod Ending
pub use Data.*
