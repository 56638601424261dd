-- ===== src/Store/Heads.antt =====
-- crates/terratranslate-store/src/lib.rs: moving the head of a branch is a compare-and-swap.
use terra_translate.Base.{
  ℤ, Text, Text-discrete, List, [], ◌∷◌, true, false, some, ok, ◌≡◌, refl, arith,
}
use terra_translate.Model.{GameId, CommitId, Externals}
use terra_translate.Store.Schema.{BranchRow, SessionStore, default_game_id}
use terra_translate.Store.Read.{find_branch, get_commit, game_branch}
use terra_translate.Store.Exec.{query, after_ok}
use terra_translate.Store.Write.{update_head, advance_row, advance_branch, advance_game_branch}

-- The row of a branch whose head was `expected` and is `new_head` now.
pub record IsMoved (game_id : GameId) (name : Text) (expected new_head : CommitId) (at : ℤ)
    (before after : List BranchRow) : Type 0 where
  pub row : BranchRow
  pub found : find_branch game_id name before ≡ some row
  pub as_expected : row.head_id ≡ expected
  pub moved :
      find_branch game_id name after ≡ some (record row { head_id = new_head; updated_at_ms = at })

module _ (game_id : GameId) (name : Text) (expected new_head : CommitId) (at : ℤ) where
  pub update_head-IsMoved :
      (rows : List BranchRow)
      → (update_head game_id name expected new_head at rows).1 ≡ true
      → IsMoved game_id name expected new_head at rows
          (update_head game_id name expected new_head at rows).0
  unfolding update_head find_branch
  update_head-IsMoved [] h = cc
  update_head-IsMoved (r ∷ rows) h = elim (Text-discrete r.game_id game_id) [
    | no e ↦
        let ih = update_head-IsMoved rows (ground arith) in
        record {
          row = ih.row;
          found = ground (arith, ih.found);
          as_expected = ih.as_expected;
          moved = ground (arith, ih.moved);
        }
    | yes e ↦ elim (Text-discrete r.name name) [
      | no f ↦
          let ih = update_head-IsMoved rows (ground arith) in
          record {
            row = ih.row;
            found = ground (arith, ih.found);
            as_expected = ih.as_expected;
            moved = ground (arith, ih.moved);
          }
      | yes f ↦ elim (Text-discrete r.head_id expected) [
        | no g ↦ absurd (ground arith)
        | yes g ↦ record { row = r; found = ground arith; as_expected = g; moved = ground arith }
      ]
    ]
  ]

  pub update_head_same :
      (rows : List BranchRow)
      → (update_head game_id name expected new_head at rows).1 ≡ false
      → (update_head game_id name expected new_head at rows).0 ≡ rows
  unfolding update_head
  update_head_same [] h = refl
  update_head_same (r ∷ rows) h = ground (arith, update_head_same rows)

module _ (ext : Externals) where
  -- What an advance that succeeded did: the branch was at the expected head and is at the new one,
  -- and no commit was touched.
  pub record IsAdvanced (game_id : GameId) (name : Text) (expected new_head : CommitId) (at : ℤ)
      (before after : SessionStore) : Type 0 where
    pub head_moved :
        IsMoved game_id name expected new_head at before.game_branches after.game_branches
    pub same_commits : after.commits ≡ before.commits
    pub same_games : after.games ≡ before.games

  advance_row_moved :
      (game_id : GameId) (name : Text) (expected new_head : CommitId) (at : ℤ) (s : SessionStore)
      → (advance_row ext game_id name expected new_head at s).0 ≡ ok true
      → IsAdvanced game_id name expected new_head at s
          (advance_row ext game_id name expected new_head at s).1
  unfolding advance_row
  advance_row_moved game_id name expected new_head at s h = record {
    head_moved =
        update_head-IsMoved game_id name expected new_head at s.game_branches (ground (arith, h));
    same_commits = refl;
    same_games = refl;
  }

  pub advance_branch_moved :
      (name : Text) (expected new_head : CommitId) (at : ℤ) (s : SessionStore)
      → (advance_branch ext name expected new_head at s).0 ≡ ok true
      → IsAdvanced default_game_id name expected new_head at s
          (advance_branch ext name expected new_head at s).1
  unfolding advance_branch query
  advance_branch_moved name expected new_head at s h =
      let (k, _, rest, same) = after_ok (query λ s'. get_commit ext s' new_head) _ s h in
      rw same (advance_row_moved default_game_id name expected new_head at s rest)

  pub advance_game_branch_moved :
      (game_id : GameId) (name : Text) (expected new_head : CommitId) (at : ℤ) (s : SessionStore)
      → (advance_game_branch ext game_id name expected new_head at s).0 ≡ ok true
      → IsAdvanced game_id name expected new_head at s
          (advance_game_branch ext game_id name expected new_head at s).1
  unfolding advance_game_branch query
  advance_game_branch_moved game_id name expected new_head at s h =
      let (b, _, h1, same1) = after_ok (query λ s'. game_branch s' game_id name) _ s h in
      let (k, _, h2, same2) = after_ok (query λ s'. get_commit ext s' new_head) _ s h1 in
      rw (same1, same2) (advance_row_moved game_id name expected new_head at s h2)
