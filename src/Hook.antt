-- ===== src/Hook.antt =====
-- crates/terratranslate-wine-hook/src: the candidates of a hooked process.
pub mod Book
pub mod Session
pub mod Keys
pub mod Limits
pub mod Announced
pub mod Sound
