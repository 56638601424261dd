-- ===== src/Replay.antt =====
-- crates/terratranslate-engine/src/replay.rs: cursors over a replay path, and the search for the
-- position at which a history is resumed.
pub mod Cursor
pub mod Steps
pub mod Resume
pub mod Reading
pub mod Located
pub mod Occurrences
pub mod Candidates
pub mod Ranking
