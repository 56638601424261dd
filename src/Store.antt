-- ===== src/Store.antt =====
-- crates/terratranslate-store/src/lib.rs: the session store.
pub mod Schema
pub mod Read
pub mod Exec
pub mod Write
pub mod Open
pub mod Integrity
pub mod Keeping
pub mod Respects
pub mod Heads
pub mod Branches
pub mod RoundTrip
pub mod History
pub mod Blobs
pub mod Content
pub mod Walk
pub mod Lineage
