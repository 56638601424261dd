-- ===== src/Model.antt =====
-- crates/terratranslate-core/src/model.rs: the data of a translation history. A newtype around a
-- `String` is its text, a `Uuid` is a number of 128 bits, and bytes are numbers below 256.
pub mod Data
mod Commit
mod Address
pub use Data.*
unfoldable pub use Data.{Entity-discrete, Modality-discrete}
unfoldable pub use Commit.{check_parents, create, verify_id}
pub use Address.{IsCollisionFree, HasParents, create_ok_iff, verify_id-create, verified_same_id}
