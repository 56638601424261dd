-- ===== src/Bridge.antt =====
-- crates/terratranslate-platform-linux/src/wine_bridge.rs: the host's side of the connections to the
-- hooks in games.
pub mod Data
pub mod Validate
pub mod Handshake
pub mod Service
pub mod Tasks
pub mod Run
pub mod Invariant
pub mod Keeping
pub mod Sound
pub mod Advance
pub mod Calls
pub mod Safety
pub mod Tokens
pub mod Frames
pub mod Admission
pub mod Quiet
pub mod Mute
pub mod Commands
pub mod Silence
