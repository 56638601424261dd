-- ===== src/Store/Write.antt =====
-- crates/terratranslate-store/src/lib.rs: the methods that change the database. Foreign keys cannot
-- fail in them, since each checks the rows that it refers to first (Store/Integrity).
use terra_translate.Base.{
  ℕ, ℤ, suc, Text, Text-discrete, txt, List, [], ◌∷◌, ◌++◌, Bool, true, false, Option, none, some,
  ite, Result, ok, err, out_of_fuel, map_err, ◌==◌, if◌then◌else◌,
}
use terra_translate.Model.{
  GameId, GameIdentity, CommitId, TranslationCommit, CommitContent, ContextSnapshot, BranchRef,
  Externals, create, verify_id, empty_context, no_model,
}
use terra_translate.Store.Schema.{
  StoreError, json, invalid_commit_id, missing_parent, CommitRow, ParentRow, BranchRow, GameRow,
  default_game_id, main_branch,
}
use terra_translate.Store.Read.{
  validate_branch_name, validate_game_id, find_commit, find_branch, get_commit, game, game_branch,
}
use terra_translate.Store.Exec.{Exec, pure, query, modify, ◌>>=◌, ◌>>◌}

-- INSERT … ON CONFLICT(id) DO UPDATE
unfoldable pub upsert_game : GameRow → List GameRow → List GameRow
upsert_game row [] = row ∷ []
upsert_game row (r ∷ rows) = ite (Text-discrete r.id row.id) (row ∷ rows) (r ∷ upsert_game row rows)

-- INSERT … ON CONFLICT(game_id, name) DO UPDATE
unfoldable pub upsert_branch : BranchRow → List BranchRow → List BranchRow
upsert_branch row [] = row ∷ []
upsert_branch row (r ∷ rows) =
    let rest = r ∷ upsert_branch row rows in
    ite (Text-discrete r.game_id row.game_id)
      (ite (Text-discrete r.name row.name) (row ∷ rows) rest) rest

-- INSERT OR IGNORE INTO game_branches
unfoldable pub insert_or_ignore_branch : BranchRow → List BranchRow → List BranchRow
unfolding find_branch
insert_or_ignore_branch row rows = elim (find_branch row.game_id row.name rows) [
  | none ↦ rows ++ row ∷ []
  | some r ↦ rows
]

-- UPDATE game_branches SET … WHERE game_id = ?3 AND name = ?4 AND head_id = ?5, with whether a row
-- was changed. The key (game_id, name) is unique, so no row after the first with it is looked at.
unfoldable pub update_head :
    GameId → Text → CommitId → CommitId → ℤ → List BranchRow → List BranchRow × Bool
update_head game_id name expected new_head at [] = ([], false)
update_head game_id name expected new_head at (r ∷ rows) =
    let rest = update_head game_id name expected new_head at rows in
    let skip : List BranchRow × Bool = (r ∷ rest.0, rest.1) in
    ite (Text-discrete r.game_id game_id)
      (ite (Text-discrete r.name name)
        (ite (Text-discrete r.head_id expected)
          (record r { head_id = new_head; updated_at_ms = at } ∷ rows, true) (r ∷ rows, false))
        skip)
      skip

-- The loop over the parents in `put_commit`, with `commit_exists`.
unfoldable pub check_stored : List CommitId → List CommitRow → Result StoreError (Unit {0})
unfolding find_commit
check_stored [] rows = ok tt
check_stored (p ∷ ps) rows =
    let rest = check_stored ps rows in
    elim (find_commit p rows) [ none ↦ err (missing_parent p) | some r ↦ rest ]

-- INSERT OR IGNORE INTO commits
unfoldable pub insert_commit : CommitRow → List CommitRow → List CommitRow
unfolding find_commit
insert_commit row rows = elim (find_commit row.id rows) [ none ↦ row ∷ rows | some r ↦ rows ]

-- INSERT OR IGNORE INTO commit_parents, whose key is (child_id, position)
unfoldable pub has_parent_row : CommitId → ℕ → List ParentRow → Bool
has_parent_row child position [] = false
has_parent_row child position (r ∷ rows) =
    let rest = has_parent_row child position rows in
    ite (Text-discrete r.child_id child) (if r.position == position then true else rest) rest

unfoldable pub insert_parents : CommitId → ℕ → List CommitId → List ParentRow → List ParentRow
unfolding has_parent_row
insert_parents child position [] rows = rows
insert_parents child position (p ∷ ps) rows = insert_parents child (suc position) ps (
    if has_parent_row child position rows
    then rows
    else rows ++ record { child_id = child; parent_id = p; position = position } ∷ [])

abbrev pub expect_verified : Result StoreError Bool → Result StoreError (Unit {0})
expect_verified (ok true) = ok tt
expect_verified (ok false) = err invalid_commit_id
expect_verified (err e) = err e
expect_verified out_of_fuel = out_of_fuel

abbrev pub to_json : Option Text → Result StoreError Text
to_json none = err json
to_json (some t) = ok t

module _ (ext : Externals) where
  -- `SessionStore::put_commit`. The transaction is committed as a whole.
  unfoldable pub put_commit : TranslationCommit → Exec (Unit {0})
  unfolding check_stored insert_commit insert_parents verify_id
  put_commit commit = do
    query (λ s. expect_verified (map_err (λ _. invalid_commit_id) (verify_id ext commit)))
    query (λ s. check_stored commit.parents s.commits)
    body ← query (λ s. to_json (ext.commit_json commit))
    modify λ s. record s {
      commits =
          insert_commit
            (record { id = commit.id; created_at_ms = commit.created_at_ms; body_json = body })
            s.commits;
      commit_parents = insert_parents commit.id 0 commit.parents s.commit_parents;
    }

  -- `SessionStore::create_game_branch`
  unfoldable pub create_game_branch : GameId → Text → CommitId → ℤ → Exec BranchRef
  unfolding validate_game_id validate_branch_name game get_commit upsert_branch
  create_game_branch game_id name head at = do
    query (λ s. validate_game_id game_id)
    query (λ s. validate_branch_name name)
    query (λ s. game s game_id)
    query (λ s. get_commit ext s head)
    modify λ s. record s {
      game_branches =
          upsert_branch
            (record { game_id = game_id; name = name; head_id = head; updated_at_ms = at })
            s.game_branches;
    }
    pure (record { name = name; head = head; updated_at_ms = at })

  -- `SessionStore::create_branch`
  unfoldable pub create_branch : Text → CommitId → ℤ → Exec BranchRef
  unfolding create_game_branch
  create_branch name head at = create_game_branch default_game_id name head at

  unfoldable pub advance_row : GameId → Text → CommitId → CommitId → ℤ → Exec Bool
  advance_row game_id name expected new_head at s =
      let (rows, changed) = update_head game_id name expected new_head at s.game_branches in
      (ok changed, record s { game_branches = rows })

  -- `SessionStore::advance_branch`
  unfoldable pub advance_branch : Text → CommitId → CommitId → ℤ → Exec Bool
  unfolding get_commit update_head advance_row
  advance_branch name expected new_head at = do
    query (λ s. get_commit ext s new_head)
    advance_row default_game_id name expected new_head at

  -- `SessionStore::advance_game_branch`
  unfoldable pub advance_game_branch : GameId → Text → CommitId → CommitId → ℤ → Exec Bool
  unfolding game_branch get_commit update_head advance_row
  advance_game_branch game_id name expected new_head at = do
    query (λ s. game_branch s game_id name)
    query (λ s. get_commit ext s new_head)
    advance_row game_id name expected new_head at

  -- The root commit of `ensure_game`.
  unfoldable pub root_content : GameIdentity → ℤ → CommitContent
  root_content identity at = record {
    parents = [];
    created_at_ms = at;
    source_events = [];
    source_text = [];
    translated_text = [];
    context = empty_context;
    scratchpad_edits = [];
    processor_trace = [];
    model = no_model;
    message = txt "Initialize " ++ identity.name ++ txt " history (" ++ identity.id ++ txt ")";
  }

  unfoldable pub create_main : GameIdentity → ℤ → Exec (Unit {0})
  unfolding root_content put_commit create_game_branch create
  create_main identity at = do
    root ← query (λ s. map_err (λ _. invalid_commit_id) (create ext (root_content identity at)))
    put_commit root
    create_game_branch identity.id main_branch root.id at
    pure tt

  abbrev pub unless_found : Option BranchRow → Exec (Unit {0}) → Exec (Unit {0})
  unless_found none m = m
  unless_found (some r) m = pure tt

  -- `SessionStore::ensure_game`
  unfoldable pub ensure_game : GameIdentity → ℤ → Exec (Unit {0})
  unfolding validate_game_id upsert_game find_branch create_main
  ensure_game identity at = do
    query (λ s. validate_game_id identity.id)
    modify λ s. record s {
      games = upsert_game (record { identity = identity; updated_at_ms = at }) s.games;
    }
    found ← query (λ s. ok (find_branch identity.id main_branch s.game_branches))
    unless_found found (create_main identity at)

  -- `SessionStore::create_game_merge_commit`
  unfoldable pub create_game_merge_commit :
      GameId → CommitId → CommitId → ContextSnapshot → ℤ → Text → Exec TranslationCommit
  unfolding game get_commit create put_commit
  create_game_merge_commit game_id left right context at message = do
    query (λ s. game s game_id)
    query (λ s. get_commit ext s left)
    query (λ s. get_commit ext s right)
    commit ← query (λ s.
        map_err (λ _. invalid_commit_id)
          (create ext (record {
            parents = left ∷ right ∷ [];
            created_at_ms = at;
            source_events = [];
            source_text = [];
            translated_text = [];
            context = context;
            scratchpad_edits = [];
            processor_trace = [];
            model = no_model;
            message = message;
          })))
    put_commit commit
    pure commit

  -- `SessionStore::create_merge_commit`
  unfoldable pub create_merge_commit :
      CommitId → CommitId → ContextSnapshot → ℤ → Text → Exec TranslationCommit
  unfolding create_game_merge_commit
  create_merge_commit left right context at message =
      create_game_merge_commit default_game_id left right context at message
