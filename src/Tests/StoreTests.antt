-- ===== src/Tests/StoreTests.antt =====
-- A store with a root commit and a turn on it (crates/terratranslate-store/src/lib.rs).
use terra_translate.Base.{
  ℕ_discrete, Text-discrete, is_whitespace, pos, List, [], ◌∷◌, reverse, ◌≡◌, refl, ok,
}
use terra_translate.Model.{TranslationCommit}
use terra_translate.Store.Schema.{SessionStore, default_game_id, main_branch}
use terra_translate.Store.Read.{get_commit, find_commit, game_branch}
use terra_translate.Store.Exec.{◌>>=◌}
use terra_translate.Store.Write.{put_commit, create_game_branch, advance_branch}
use terra_translate.Store.Open.{initialize, no_rows}
use terra_translate.Store.Integrity.{IsIntact, IsStored}
use terra_translate.Store.History.{
  Call, puts_commit, creates_game_branch, advances_branch, run, run-IsIntact,
}
use terra_translate.Store.RoundTrip.{get_commit-put_commit}
use terra_translate.Store.Blobs.{put_blob, get_blob}
use terra_translate.Store.Content.{IsAddressed, get_blob-put_blob}
use terra_translate.Store.Walk.{first_parent_history_from_head, history_from_head, merge_base}
use terra_translate.Store.Lineage.{IsLineage, first_parent_history-IsLineage}
use terra_translate.Samples.{
  toy, toys, toy-RoundTrips, toy-IsCollisionFree, digits, root_commit, turn_commit,
}

-- Opens the calls of the script.
unfoldable pub runs : Unit {0}
unfolding run initialize put_commit create_game_branch advance_branch ◌>>=◌ toys Text-discrete
    ℕ_discrete is_whitespace
runs = tt

abbrev pub script : List Call
script =
    puts_commit turn_commit
    ∷ puts_commit root_commit
    ∷ creates_game_branch default_game_id main_branch (1 ∷ []) (pos 1)
    ∷ puts_commit turn_commit
    ∷ advances_branch main_branch (1 ∷ []) (2 ∷ []) (pos 2)
    ∷ []

abbrev pub store : SessionStore
store = run toy script (initialize no_rows)

-- The first call fails, since the parent is missing; then the branch is created and advanced.
main_head :
    game_branch store default_game_id main_branch
    ≡ ok (record { name = main_branch; head = 2 ∷ []; updated_at_ms = pos 2 })
unfolding runs game_branch
main_head = refl

pub store-IsIntact : IsIntact toy store
store-IsIntact = run-IsIntact toy toy-RoundTrips script

run-IsIntact_example : IsIntact toy store
run-IsIntact_example = run-IsIntact toy toy-RoundTrips script

turn-IsStored : IsStored store.commits (2 ∷ [])
unfolding runs find_commit
turn-IsStored = (record { id = 2 ∷ []; created_at_ms = pos 0; body_json = 2 ∷ 2 ∷ [] }, refl)

first_parent_history-IsLineage_example :
    (path : List TranslationCommit) × (first_parent_history_from_head toy store (2 ∷ [])
      ≡ ok (reverse path))
    × IsLineage toy store (2 ∷ []) path
first_parent_history-IsLineage_example =
    first_parent_history-IsLineage toy store (2 ∷ []) store-IsIntact turn-IsStored

histories :
    (first_parent_history_from_head toy store (2 ∷ []) ≡ ok (root_commit ∷ turn_commit ∷ []))
    × (history_from_head toy store (2 ∷ []) ≡ ok (root_commit ∷ turn_commit ∷ []))
    × (merge_base toy (λ d. d) store (2 ∷ []) (1 ∷ []) ≡ ok (1 ∷ []))
unfolding runs first_parent_history_from_head history_from_head merge_base get_commit
histories = (refl, refl, refl)

put_turn : (put_commit toy turn_commit store).0 ≡ ok tt
unfolding runs
put_turn = refl

get_commit-put_commit_example :
    get_commit toy (put_commit toy turn_commit store).1 turn_commit.id ≡ ok turn_commit
get_commit-put_commit_example =
    get_commit-put_commit toy toy-RoundTrips toy-IsCollisionFree turn_commit store store-IsIntact
      put_turn

store-IsAddressed : IsAddressed toy store
unfolding runs
store-IsAddressed = tt

put_digits : (put_blob toy digits store).0 ≡ ok digits
unfolding runs put_blob
put_digits = refl

get_blob-put_blob_example :
    (get_blob (put_blob toy digits store).1 digits ≡ ok digits)
    × IsAddressed toy (put_blob toy digits store).1
get_blob-put_blob_example =
    get_blob-put_blob toy (λ a b e. e) digits digits store store-IsAddressed put_digits
