-- ===== src/Store/Keeping.antt =====
-- crates/terratranslate-store/src/lib.rs: every method that changes the database keeps it intact,
-- also where it fails.
use terra_translate.Base.{
  ℤ, Text, Text-discrete, true, Option, none, some, ok, map_err, ◌≡◌, refl, arith, ite_both, ok_or,
  >>=-eq-ok, ok_or-eq-ok,
}
use terra_translate.Model.{
  GameId, GameIdentity, CommitId, TranslationCommit, ContextSnapshot, Externals, verify_id,
}
use terra_translate.Store.Schema.{
  StoreError, commit_not_found, game_not_found, CommitRow, BranchRow, GameRow, SessionStore,
  main_branch,
}
use terra_translate.Store.Read.{find_commit, find_game, get_commit, game}
use terra_translate.Store.Exec.{Exec, pure, modify, ◌>>=◌}
use terra_translate.Store.Write.{
  upsert_game, insert_commit, put_commit, expect_verified, create_game_branch, advance_branch,
  advance_game_branch, create_main, ensure_game, create_game_merge_commit, to_json, advance_row,
  unless_found,
}
use terra_translate.Store.Integrity.{
  RoundTrips, IsStored, IsSound, IsRegistered, IsAnchored, IsIntact, Keeps, after_query,
  after_action, IsAnchored-Grows, check_stored-All, insert_commit-IsGrounded,
  insert_commit-IsStored, find_game-upsert_game, upsert_branch-All, update_head-All,
}

module _ (ext : Externals) where
  pub verified_true :
      (k : TranslationCommit) (u : Unit {0})
      → expect_verified (map_err (λ _. StoreError.invalid_commit_id) (verify_id ext k)) ≡ ok u
      → verify_id ext k ≡ ok true
  verified_true k u h = ground arith

  pub json_some : (o : Option Text) (t : Text) → to_json o ≡ ok t → o ≡ some t
  json_some o t h = ground arith

  get_commit-IsStored :
      (s : SessionStore) (id : CommitId) (k : TranslationCommit)
      → get_commit ext s id ≡ ok k
      → IsStored s.commits id
  unfolding get_commit
  get_commit-IsStored s id k h =
      let (row, found, _) =
        >>=-eq-ok (ok_or (find_commit id s.commits) (commit_not_found id)) _ h in
      (row, ok_or-eq-ok (find_commit id s.commits) _ found)

  game-IsRegistered :
      (s : SessionStore) (id : GameId) (g : GameIdentity)
      → game s id ≡ ok g
      → IsRegistered s.games id
  unfolding game
  game-IsRegistered s id g h =
      let (row, found, _) = >>=-eq-ok (ok_or (find_game id s.games) (game_not_found id)) _ h in
      (row, ok_or-eq-ok (find_game id s.games) _ found)

  after_modify :
      {B : Type 0} (g : SessionStore → SessionStore) (f : Unit {0} → Exec B) (s : SessionStore)
      → IsIntact ext (f tt (g s)).1
      → IsIntact ext ((modify g >>= f) s).1
  unfolding ◌>>=◌
  after_modify g f s h = h

  last_modify :
      (g : SessionStore → SessionStore) (s : SessionStore)
      → IsIntact ext (g s)
      → IsIntact ext (modify {E = StoreError} g s).1
  unfolding modify
  last_modify g s h = h

  last_pure :
      {B : Type 0} (b : B) (s : SessionStore)
      → IsIntact ext s
      → IsIntact ext (pure {E = StoreError} b s).1
  unfolding pure
  last_pure b s h = h

  -- The new row of `put_commit`.
  new_row-IsIntact :
      (s : SessionStore) (row : CommitRow)
      → IsIntact ext s
      → (find_commit row.id s.commits ≡ none
          → (k : TranslationCommit) × IsSound ext s.commits row k)
      → IsIntact ext (record s { commits = insert_commit row s.commits })
  new_row-IsIntact s row v h = record {
    grounded = insert_commit-IsGrounded ext row s.commits v.grounded h;
    anchored =
        IsAnchored-Grows s (record s { commits = insert_commit row s.commits }) s.game_branches
          (record {
            stored = λ id i. insert_commit-IsStored row s.commits id i;
            registered = λ id i. i;
          })
          v.anchored;
  }

  pub put_commit-Keeps : RoundTrips ext → (k : TranslationCommit) → Keeps ext (put_commit ext k)
  unfolding put_commit
  put_commit-Keeps rt k = record {
    at = λ s v. after_query ext _ _ s v λ u verified. after_query ext _ _ s v λ w parents.
        after_query ext _ _ s v λ body written. last_modify _ s (
          let row : CommitRow = record {
            id = k.id;
            created_at_ms = k.created_at_ms;
            body_json = body;
          } in
          let new = new_row-IsIntact s row v (λ fresh. (
            k,
            record {
              decodes = rt k body (json_some _ body written);
              same_id = refl;
              verified = verified_true k u verified;
              parents_stored = check_stored-All k.parents s.commits parents;
              fresh = fresh;
            },
          )) in
          record { grounded = new.grounded; anchored = new.anchored });
  }

  pub create_game_branch-Keeps :
      (game_id : GameId) (name : Text) (head : CommitId) (at : ℤ)
      → Keeps ext (create_game_branch ext game_id name head at)
  unfolding create_game_branch
  create_game_branch-Keeps game_id name head at = record {
    at = λ s v. after_query ext _ _ s v λ u1 _. after_query ext _ _ s v λ u2 _.
        after_query ext _ _ s v λ g registered. after_query ext _ _ s v λ k stored.
          after_modify _ _ s (
            last_pure _ _ (record {
              grounded = v.grounded;
              anchored =
                  upsert_branch-All (IsAnchored s) _ s.game_branches
                    (game-IsRegistered s game_id g registered, get_commit-IsStored s head k stored)
                    v.anchored;
            }));
  }

  advance_row-Keeps :
      (game_id : GameId) (name : Text) (expected new_head : CommitId) (at : ℤ) (s : SessionStore)
      → IsStored s.commits new_head
      → IsIntact ext s
      → IsIntact ext (advance_row ext game_id name expected new_head at s).1
  unfolding advance_row
  advance_row-Keeps game_id name expected new_head at s h v = record {
    grounded = v.grounded;
    anchored =
        update_head-All (IsAnchored s) game_id name expected new_head at s.game_branches
          (λ r a. (a.0, h)) v.anchored;
  }

  pub advance_branch-Keeps :
      (name : Text) (expected new_head : CommitId) (at : ℤ)
      → Keeps ext (advance_branch ext name expected new_head at)
  unfolding advance_branch
  advance_branch-Keeps name expected new_head at = record {
    at = λ s v. after_query ext _ _ s v λ k stored.
        advance_row-Keeps _ name expected new_head at s (get_commit-IsStored s new_head k stored) v;
  }

  pub advance_game_branch-Keeps :
      (game_id : GameId) (name : Text) (expected new_head : CommitId) (at : ℤ)
      → Keeps ext (advance_game_branch ext game_id name expected new_head at)
  unfolding advance_game_branch
  advance_game_branch-Keeps game_id name expected new_head at = record {
    at = λ s v. after_query ext _ _ s v λ b _. after_query ext _ _ s v λ k stored.
        advance_row-Keeps _ name expected new_head at s (get_commit-IsStored s new_head k stored) v;
  }

  upsert_game-IsIntact :
      (row : GameRow) (s : SessionStore)
      → IsIntact ext s
      → IsIntact ext (record s { games = upsert_game row s.games })
  upsert_game-IsIntact row s v = record {
    grounded = v.grounded;
    anchored =
        IsAnchored-Grows s (record s { games = upsert_game row s.games }) s.game_branches
          (record {
            stored = λ id i. i;
            registered = λ id i. rw (find_game-upsert_game row s.games id) (
                ite_both (λ o. (r : GameRow) × (o ≡ some r)) (Text-discrete row.id id) (row, refl)
                  i);
          })
          v.anchored;
  }

  create_main-Keeps :
      RoundTrips ext → (identity : GameIdentity) (at : ℤ) → Keeps ext (create_main ext identity at)
  unfolding create_main
  create_main-Keeps rt identity at = record {
    at = λ s v. after_query ext _ _ s v λ root _.
        after_action ext _ _ s (put_commit-Keeps rt root) v λ u _ w.
          after_action ext _ _ _ (create_game_branch-Keeps identity.id main_branch root.id at) w
            λ b _ x. last_pure _ _ x;
  }

  unless_found-Keeps :
      (o : Option BranchRow) (m : Exec (Unit {0}))
      → Keeps ext m
      → (s : SessionStore) → IsIntact ext s
      → IsIntact ext (unless_found ext o m s).1
  unless_found-Keeps none m k s v = k.at s v
  unless_found-Keeps (some r) m k s v = last_pure tt s v

  pub ensure_game-Keeps :
      RoundTrips ext → (identity : GameIdentity) (at : ℤ) → Keeps ext (ensure_game ext identity at)
  unfolding ensure_game
  ensure_game-Keeps rt identity at = record {
    at = λ s v. after_query ext _ _ s v λ u _. after_modify _ _ s (
        after_query ext _ _ _ (upsert_game-IsIntact _ s v) λ found _.
          unless_found-Keeps found _ (create_main-Keeps rt identity at) _
            (upsert_game-IsIntact _ s v));
  }

  pub create_game_merge_commit-Keeps :
      RoundTrips ext
      → (game_id : GameId) (left right : CommitId) (context : ContextSnapshot) (at : ℤ)
        (message : Text)
      → Keeps ext (create_game_merge_commit ext game_id left right context at message)
  unfolding create_game_merge_commit
  create_game_merge_commit-Keeps rt game_id left right context at message = record {
    at = λ s v. after_query ext _ _ s v λ g _. after_query ext _ _ s v λ l _.
        after_query ext _ _ s v λ r _.
          after_query ext _ _ s v
            λ k _. after_action ext _ _ s (put_commit-Keeps rt k) v λ u _ w. last_pure _ _ w;
  }
