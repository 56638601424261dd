-- ===== src/Store/Walk.antt =====
-- crates/terratranslate-store/src/lib.rs: the walks over the commit graph. Each `loop` takes fuel,
-- in proportion to the number of stored commits.
-- A `Vec` that is used as a stack has its top first.
use terra_translate.Base.{
  ℕ, zero, suc, ◌+◌, ◌*◌, Text, Text-discrete, List, [], ◌∷◌, ◌++◌, map, reverse, length, Bool,
  true, false, leb, Option, none, some, ite, Result, ok, out_of_fuel, ◌>>=◌, ◌>>◌, ok_or, traverse,
  if◌then◌else◌,
}
use terra_translate.Model.{GameId, CommitId, TranslationCommit, BranchRef, Externals}
use terra_translate.Merge.{MergePlan, plan_context_merge}
use terra_translate.Store.Schema.{
  StoreError, no_merge_base, SessionStore, ReplayPath, default_game_id,
}
use terra_translate.Store.Read.{get_commit, game_branch, branch, list_game_branches}

-- `HashSet::contains`
unfoldable pub contains : CommitId → List CommitId → Bool
contains id [] = false
contains id (x ∷ xs) = ite (Text-discrete x id) true (contains id xs)

abbrev pub Distances : Type 0
Distances = List (CommitId × ℕ)

-- `HashMap::get`
unfoldable pub distance_of : CommitId → Distances → Option ℕ
distance_of id [] = none
distance_of id ((x, d) ∷ m) = ite (Text-discrete x id) (some d) (distance_of id m)

-- `HashMap::insert`
unfoldable pub set_distance : CommitId → ℕ → Distances → Distances
set_distance id d [] = (id, d) ∷ []
set_distance id d ((x, e) ∷ m) =
    ite (Text-discrete x id) ((id, d) ∷ m) ((x, e) ∷ set_distance id d m)

-- `distances.get(&id).is_some_and(|old| *old <= distance)`
abbrev pub is_closer : Option ℕ → ℕ → Bool
is_closer none d = false
is_closer (some old) d = leb old d

module _ (ext : Externals) (s : SessionStore) where
  abbrev pub walk_fuel : ℕ
  walk_fuel = 2 + 3 * length s.commits

  -- The loop of `first_parent_history_from_head`.
  unfoldable pub walk_first_parents :
      ℕ → CommitId → List TranslationCommit → Result StoreError (List TranslationCommit)
  walk_first_parents zero current found = out_of_fuel
  walk_first_parents (suc fuel) current found = do
    commit ← get_commit ext s current
    elim commit.parents [
      | [] ↦ ok (found ++ commit ∷ [])
      | parent ∷ rest ↦ walk_first_parents fuel parent (found ++ commit ∷ [])
    ]

  -- `SessionStore::first_parent_history_from_head`
  unfoldable pub first_parent_history_from_head :
      CommitId → Result StoreError (List TranslationCommit)
  unfolding walk_first_parents
  first_parent_history_from_head head = do
    found ← walk_first_parents walk_fuel head []
    ok (reverse found)

  -- The loop of `history_from_head`.
  unfoldable pub walk_history :
      ℕ
      → List CommitId
      → List (CommitId × Bool)
      → List TranslationCommit
      → Result StoreError (List TranslationCommit)
  unfolding contains
  walk_history zero seen [] history = ok history
  walk_history (suc fuel) seen [] history = ok history
  walk_history zero seen (top ∷ stack) history = out_of_fuel
  walk_history (suc fuel) seen ((id, true) ∷ stack) history = do
    commit ← get_commit ext s id
    walk_history fuel seen stack (history ++ commit ∷ [])
  walk_history (suc fuel) seen ((id, false) ∷ stack) history = elim (contains id seen) [
    | true ↦ walk_history fuel seen stack history
    | false ↦ (do
      commit ← get_commit ext s id
      walk_history fuel (id ∷ seen)
          (map (λ parent. (parent, false)) commit.parents ++ (id, true) ∷ stack) history)
  ]

  -- `SessionStore::history_from_head`
  unfoldable pub history_from_head : CommitId → Result StoreError (List TranslationCommit)
  unfolding walk_history
  history_from_head head = walk_history (2 + 4 * length s.commits) [] ((head, false) ∷ []) []

  -- The loop of `ancestor_distances`.
  unfoldable pub walk_distances : ℕ → Distances → List (CommitId × ℕ) → Result StoreError Distances
  unfolding distance_of set_distance
  walk_distances zero distances [] = ok distances
  walk_distances (suc fuel) distances [] = ok distances
  walk_distances zero distances (front ∷ queue) = out_of_fuel
  walk_distances (suc fuel) distances ((id, distance) ∷ queue) =
      elim (is_closer (distance_of id distances) distance) [
        | true ↦ walk_distances fuel distances queue
        | false ↦ (do
          commit ← get_commit ext s id
          walk_distances fuel (set_distance id distance distances)
              (queue ++ map (λ parent. (parent, distance + 1)) commit.parents))
      ]

  -- `SessionStore::ancestor_distances`
  unfoldable pub ancestor_distances : CommitId → Result StoreError Distances
  unfolding walk_distances
  ancestor_distances start = do
    get_commit ext s start
    walk_distances walk_fuel [] ((start, 0) ∷ [])

-- The `filter_map` of `merge_base`: the common ancestors with the sum of their distances.
unfoldable pub common_distances : Distances → Distances → Distances
unfolding distance_of
common_distances [] right = []
common_distances ((id, left_distance) ∷ left) right =
    let rest = common_distances left right in
    elim (distance_of id right) [
      | none ↦ rest
      | some right_distance ↦ (id, left_distance + right_distance) ∷ rest
    ]

-- `min_by_key`, which returns the first of several minima.
unfoldable pub min_by_distance : Distances → Option (CommitId × ℕ)
min_by_distance [] = none
min_by_distance (x ∷ xs) = elim (min_by_distance xs) [
  | none ↦ some x
  | some y ↦ if leb x.1 y.1 then some x else some y
]

-- A `HashMap` is iterated over in an order of its own, `arrange`.
module _ (ext : Externals) (arrange : Distances → Distances) (s : SessionStore) where
  -- `SessionStore::merge_base`
  unfoldable pub merge_base : CommitId → CommitId → Result StoreError CommitId
  unfolding ancestor_distances common_distances min_by_distance
  merge_base left right = do
    left_ancestors ← ancestor_distances ext s left
    right_ancestors ← ancestor_distances ext s right
    nearest ←
        ok_or (min_by_distance (common_distances (arrange left_ancestors) right_ancestors))
          no_merge_base
    ok nearest.0

  -- `SessionStore::plan_merge`
  unfoldable pub plan_merge : CommitId → CommitId → Result StoreError (CommitId × MergePlan)
  unfolding merge_base
  plan_merge left right = do
    base ← merge_base left right
    base_commit ← get_commit ext s base
    left_commit ← get_commit ext s left
    right_commit ← get_commit ext s right
    ok (base, plan_context_merge ext base_commit.context left_commit.context right_commit.context)

module _ (ext : Externals) (s : SessionStore) where
  -- `SessionStore::game_branch_history` and `branch_history`
  unfoldable pub game_branch_history : GameId → Text → Result StoreError (List TranslationCommit)
  unfolding history_from_head
  game_branch_history game_id name = do
    found ← game_branch s game_id name
    history_from_head ext s found.head

  unfoldable pub branch_history : Text → Result StoreError (List TranslationCommit)
  unfolding game_branch_history
  branch_history name = game_branch_history default_game_id name

  -- `SessionStore::game_branch_first_parent_history`, and the form for the default game
  unfoldable pub game_branch_first_parent_history :
      GameId → Text → Result StoreError (List TranslationCommit)
  unfolding first_parent_history_from_head
  game_branch_first_parent_history game_id name = do
    found ← game_branch s game_id name
    first_parent_history_from_head ext s found.head

  unfoldable pub branch_first_parent_history : Text → Result StoreError (List TranslationCommit)
  unfolding first_parent_history_from_head
  branch_first_parent_history name = do
    found ← branch s name
    first_parent_history_from_head ext s found.head

  abbrev pub replay_path : BranchRef → Result StoreError ReplayPath
  replay_path b = do
    commits ← first_parent_history_from_head ext s b.head
    ok (record { branch = b; commits = commits })

  -- `SessionStore::replay_paths`
  unfoldable pub replay_paths : GameId → Result StoreError (List ReplayPath)
  unfolding first_parent_history_from_head traverse
  replay_paths game_id = do found ← list_game_branches s game_id; traverse replay_path found

  unfoldable pub default_replay_paths : Result StoreError (List ReplayPath)
  unfolding replay_paths
  default_replay_paths = replay_paths default_game_id
