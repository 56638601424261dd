-- ===== src/Store/Schema.antt =====
-- crates/terratranslate-store/src/lib.rs: the tables of the SQLite database, the blob directory and
-- the errors. A row is a record, a table is the list of its rows (commits newest first, the others
-- in the order of insertion), and the blob directory maps a digest, which is the path below the
-- root, to the bytes of the file.
use terra_translate.Base.{ℕ, ℤ, Text, txt, List}
use terra_translate.Model.{GameId, GameIdentity, CommitId, TranslationCommit, Bytes, BranchRef}

pub data StoreError : Type 0 where
  json io_not_found no_merge_base invalid_game_id invalid_branch_name : StoreError
  invalid_commit_id invalid_digest : StoreError
  commit_not_found missing_parent : CommitId → StoreError
  branch_not_found : Text → StoreError
  game_not_found : GameId → StoreError

pub record CommitRow : Type 0 where
  pub id : CommitId
  pub created_at_ms : ℤ
  pub body_json : Text

pub record ParentRow : Type 0 where
  pub child_id : CommitId
  pub parent_id : CommitId
  pub position : ℕ

pub record BranchRow : Type 0 where
  pub game_id : GameId
  pub name : Text
  pub head_id : CommitId
  pub updated_at_ms : ℤ

pub record GameRow : Type 0 where
  pub identity : GameIdentity
  pub open identity use *
  pub updated_at_ms : ℤ

pub record SessionStore : Type 0 where
  pub commits : List CommitRow
  pub commit_parents : List ParentRow
  -- the unscoped table of databases that are older than game namespaces
  pub branches : List BranchRef
  pub games : List GameRow
  pub game_branches : List BranchRow
  pub blobs : List (Text × Bytes)

pub record ReplayPath : Type 0 where
  pub branch : BranchRef
  pub commits : List TranslationCommit

-- DEFAULT_GAME_ID and `default_game_id`
abbrev pub default_game_id : GameId
default_game_id = txt "default"

abbrev pub main_branch : Text
main_branch = txt "main"
