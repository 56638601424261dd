-- ===== src/Store/Open.antt =====
-- crates/terratranslate-store/src/lib.rs: `initialize`, which `open` and `in_memory` run: the default
-- game, and the refs of a database that is older than game namespaces. The tables themselves are
-- the fields of `SessionStore`.
use terra_translate.Base.{txt, List, [], ◌∷◌, ◌++◌, none, some, pos}
use terra_translate.Model.{GameIdentity, BranchRef}
use terra_translate.Store.Schema.{GameRow, BranchRow, SessionStore, default_game_id}
use terra_translate.Store.Read.{find_game}
use terra_translate.Store.Write.{insert_or_ignore_branch}

abbrev pub default_game : GameIdentity
default_game = record {
  id = default_game_id;
  name = txt "Default session";
  executable_path = [];
  image_id = none;
  platform = txt "unknown";
  runtime = txt "unknown";
}

-- INSERT OR IGNORE INTO games
unfoldable pub insert_or_ignore_game : GameRow → List GameRow → List GameRow
unfolding find_game
insert_or_ignore_game row rows = elim (find_game row.id rows) [
  | none ↦ rows ++ row ∷ []
  | some r ↦ rows
]

-- INSERT OR IGNORE INTO game_branches … SELECT … FROM branches
unfoldable pub copy_branches : List BranchRef → List BranchRow → List BranchRow
unfolding insert_or_ignore_branch
copy_branches [] rows = rows
copy_branches (b ∷ bs) rows = copy_branches bs (
    insert_or_ignore_branch
      (record {
        game_id = default_game_id;
        name = b.name;
        head_id = b.head;
        updated_at_ms = b.updated_at_ms;
      })
      rows)

unfoldable pub initialize : SessionStore → SessionStore
unfolding insert_or_ignore_game copy_branches
initialize s = record s {
  games = insert_or_ignore_game (record { identity = default_game; updated_at_ms = pos 0 }) s.games;
  game_branches = copy_branches s.branches s.game_branches;
}

-- The tables that CREATE TABLE leaves in a new database.
abbrev pub no_rows : SessionStore
no_rows = record {
  commits = [];
  commit_parents = [];
  branches = [];
  games = [];
  game_branches = [];
  blobs = [];
}
