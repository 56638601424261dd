-- ===== src/Store/Read.antt =====
-- crates/terratranslate-store/src/lib.rs: the queries for one commit, game or branch, and the lists.
use terra_translate.Base.{
  Text, Text-discrete, text_cmp, is_whitespace, is_empty, List, [], ◌∷◌, map, any, Option, none,
  some, ite, Ordering, Result, ok, err, ◌>>=◌, ◌>>◌, ok_or, if◌then◌else◌, ◌||◌,
}
use terra_translate.Model.{GameId, GameIdentity, CommitId, TranslationCommit, BranchRef, Externals}
use terra_translate.Store.Schema.{
  StoreError, json, invalid_game_id, invalid_branch_name, commit_not_found, branch_not_found,
  game_not_found, CommitRow, BranchRow, GameRow, SessionStore, default_game_id,
}

-- `validate_branch_name`
unfoldable pub validate_branch_name : Text → Result StoreError (Unit {0})
validate_branch_name name =
    if is_empty name || any is_whitespace name then err invalid_branch_name else ok tt

-- `validate_game_id`
unfoldable pub validate_game_id : GameId → Result StoreError (Unit {0})
validate_game_id id = if is_empty id || any is_whitespace id then err invalid_game_id else ok tt

-- SELECT … FROM commits WHERE id = ?1
unfoldable pub find_commit : CommitId → List CommitRow → Option CommitRow
find_commit id [] = none
find_commit id (row ∷ rows) = ite (Text-discrete row.id id) (some row) (find_commit id rows)

-- SELECT … FROM games WHERE id = ?1
unfoldable pub find_game : GameId → List GameRow → Option GameRow
find_game id [] = none
find_game id (row ∷ rows) = ite (Text-discrete row.id id) (some row) (find_game id rows)

-- SELECT … FROM game_branches WHERE game_id = ?1 AND name = ?2
unfoldable pub find_branch : GameId → Text → List BranchRow → Option BranchRow
find_branch game_id name [] = none
find_branch game_id name (row ∷ rows) =
    let rest = find_branch game_id name rows in
    ite (Text-discrete row.game_id game_id) (ite (Text-discrete row.name name) (some row) rest) rest

abbrev pub to_branch_ref : BranchRow → BranchRef
to_branch_ref row = record {
  name = row.name;
  head = row.head_id;
  updated_at_ms = row.updated_at_ms;
}

-- ORDER BY name, within the rows of one game
unfoldable pub insert_by_name : BranchRow → List BranchRow → List BranchRow
insert_by_name row [] = row ∷ []
insert_by_name row (r ∷ rows) =
    let rest = insert_by_name row rows in
    elim (text_cmp row.name r.name) [ Ordering.gt ↦ r ∷ rest | _ ↦ row ∷ r ∷ rows ]

unfoldable pub rows_of_game : GameId → List BranchRow → List BranchRow
unfolding insert_by_name
rows_of_game game_id [] = []
rows_of_game game_id (row ∷ rows) =
    let rest = rows_of_game game_id rows in
    ite (Text-discrete row.game_id game_id) (insert_by_name row rest) rest

-- ORDER BY name, id
unfoldable pub insert_game : GameRow → List GameRow → List GameRow
insert_game row [] = row ∷ []
insert_game row (r ∷ rows) =
    let rest = insert_game row rows in
    let by_id : List GameRow = elim (text_cmp row.id r.id) [
      | Ordering.gt ↦ r ∷ rest
      | _ ↦ row ∷ r ∷ rows
    ] in
    elim (text_cmp row.name r.name) [
      | Ordering.gt ↦ r ∷ rest
      | Ordering.eq ↦ by_id
      | Ordering.lt ↦ row ∷ r ∷ rows
    ]

unfoldable pub sort_games : List GameRow → List GameRow
unfolding insert_game
sort_games [] = []
sort_games (row ∷ rows) = insert_game row (sort_games rows)

module _ (ext : Externals) (s : SessionStore) where
  -- `SessionStore::get_commit`
  unfoldable pub get_commit : CommitId → Result StoreError TranslationCommit
  unfolding find_commit
  get_commit id = do
    row ← ok_or (find_commit id s.commits) (commit_not_found id)
    ok_or (ext.commit_from_json row.body_json) json

module _ (s : SessionStore) where
  -- `SessionStore::game`
  unfoldable pub game : GameId → Result StoreError GameIdentity
  unfolding find_game
  game id = do row ← ok_or (find_game id s.games) (game_not_found id); ok row.identity

  -- `SessionStore::list_games`
  unfoldable pub list_games : List GameIdentity
  unfolding sort_games
  list_games = map (λ row. row.identity) (sort_games s.games)

  -- `SessionStore::game_branch`
  unfoldable pub game_branch : GameId → Text → Result StoreError BranchRef
  unfolding validate_game_id game find_branch
  game_branch game_id name = do
    validate_game_id game_id
    game game_id
    row ← ok_or (find_branch game_id name s.game_branches) (branch_not_found name)
    ok (to_branch_ref row)

  -- `SessionStore::branch`
  unfoldable pub branch : Text → Result StoreError BranchRef
  unfolding game_branch
  branch name = game_branch default_game_id name

  -- `SessionStore::list_game_branches`
  unfoldable pub list_game_branches : GameId → Result StoreError (List BranchRef)
  unfolding validate_game_id game rows_of_game
  list_game_branches game_id = do
    validate_game_id game_id
    game game_id
    ok (map to_branch_ref (rows_of_game game_id s.game_branches))

  -- `SessionStore::list_branches`
  unfoldable pub list_branches : Result StoreError (List BranchRef)
  unfolding list_game_branches
  list_branches = list_game_branches default_game_id
