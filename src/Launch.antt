-- ===== src/Launch.antt =====
-- crates/terratranslate-platform-linux/src/native_launch.rs: launching a native application with the
-- hook library.
pub mod Arguments
pub mod Elf
pub mod Plan
pub mod Checks
pub mod Bare
pub mod Quoting
pub mod Headers
