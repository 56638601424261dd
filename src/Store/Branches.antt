-- ===== src/Store/Branches.antt =====
-- crates/terratranslate-store/src/lib.rs: which methods leave the heads of the branches where they
-- are.
use terra_translate.Base.{
  ℤ, Text, List, [], ◌∷◌, Bool, true, Option, none, some, Result, ok, err, out_of_fuel, ◌≡◌, ◌≢◌,
  refl, arith, ap, ◌∙◌, Bool-cases, inl, inr,
}
use terra_translate.Model.{GameId, GameIdentity, CommitId, TranslationCommit, Bytes, Externals}
use terra_translate.Store.Schema.{SessionStore, StoreError, BranchRow, main_branch}
use terra_translate.Store.Read.{find_branch}
use terra_translate.Store.Exec.{Action, Exec, pure, query, modify, continue, ◌>>=◌}
use terra_translate.Store.Write.{
  put_commit, upsert_branch, update_head, advance_row, create_game_branch, create_main, ensure_game,
  unless_found,
}
use terra_translate.Store.Heads.{update_head_same}
use terra_translate.Store.Blobs.{put_blob}
use terra_translate.Store.Respects.{
  Respects, after_both, >>=-Respects, >>-Respects, query-Respects, pure-Respects, modify-Respects,
}

-- Every branch row that can be found in `s` is found in `t`, the same.
abbrev pub Stays : SessionStore → SessionStore → Type 0
Stays s t =
    (g : GameId) (n : Text) (r : BranchRow)
    → find_branch g n s.game_branches ≡ some r
    → find_branch g n t.game_branches ≡ some r

pub stays_self : (s : SessionStore) → Stays s s
stays_self s g n r h = h

pub stays_trans : (s t u : SessionStore) → Stays s t → Stays t u → Stays s u
stays_trans s t u p q g n r h = q g n r (p g n r h)

-- The branch rows are the same.
abbrev pub SameRows : SessionStore → SessionStore → Type 0
SameRows s t = t.game_branches ≡ s.game_branches

pub rows_self : (s : SessionStore) → SameRows s s
rows_self s = refl

pub rows_trans : (s t u : SessionStore) → SameRows s t → SameRows t u → SameRows s u
rows_trans s t u p q = q ∙ p

pub rows_stay : (s t : SessionStore) → SameRows s t → Stays s t
rows_stay s t e g n r h = rw e h

find_branch-upsert_branch :
    (row : BranchRow) (rows : List BranchRow) (g : GameId) (n : Text) (r : BranchRow)
    → find_branch row.game_id row.name rows ≡ none
    → find_branch g n rows ≡ some r
    → find_branch g n (upsert_branch row rows) ≡ some r
unfolding find_branch upsert_branch
find_branch-upsert_branch row [] g n r h k = cc
find_branch-upsert_branch row (x ∷ rows) g n r h k =
    ground (arith, find_branch-upsert_branch row rows g n r)

still :
    {E A B : Type 0} (m : Action E A) (f : A → Action E B) (s : SessionStore)
    → Stays s (m s).1
    → ((a : A) → (m s).0 ≡ ok a → Stays (m s).1 (f a (m s).1).1)
    → Stays s ((m >>= f) s).1
still = after_both Stays stays_self stays_trans

still_query :
    {E A B : Type 0} (q : SessionStore → Result E A) (f : A → Action E B) (s : SessionStore)
    → ((a : A) → q s ≡ ok a → Stays s (f a s).1)
    → Stays s ((query q >>= f) s).1
unfolding query
still_query q f s h = still (query q) f s (stays_self s) h

still_modify :
    {E B : Type 0} (g : SessionStore → SessionStore) (f : Unit {0} → Action E B) (s : SessionStore)
    → Stays s (g s)
    → Stays (g s) (f tt (g s)).1
    → Stays s ((modify g >>= f) s).1
unfolding modify
still_modify g f s p q = still (modify g) f s p λ u e. q

still_pure : (E : Type 0) {A : Type 0} (a : A) (s : SessionStore) → Stays s (pure {E = E} a s).1
unfolding pure
still_pure E a s = stays_self s

upserted :
    (s : SessionStore) (row : BranchRow)
    → find_branch row.game_id row.name s.game_branches ≡ none
    → Stays s (record s { game_branches = upsert_branch row s.game_branches })
upserted s row fresh g n r h = find_branch-upsert_branch row s.game_branches g n r fresh h

module _ (ext : Externals) where
  pub put_commit_rows : (k : TranslationCommit) → Respects SameRows (put_commit ext k)
  unfolding put_commit
  put_commit_rows k =
      >>-Respects SameRows rows_self rows_trans _ _ (query-Respects SameRows rows_self rows_trans _)
        (>>-Respects SameRows rows_self rows_trans _ _
          (query-Respects SameRows rows_self rows_trans _)
          (>>=-Respects SameRows rows_self rows_trans _ _
            (query-Respects SameRows rows_self rows_trans _)
            λ body. modify-Respects SameRows rows_self rows_trans _ λ s. refl))

  pub put_blob_rows : (bytes : Bytes) → Respects SameRows (put_blob ext bytes)
  unfolding put_blob
  put_blob_rows bytes =
      >>=-Respects SameRows rows_self rows_trans _ _
        (query-Respects SameRows rows_self rows_trans _)
        λ path.
          >>-Respects SameRows rows_self rows_trans _ _
            (modify-Respects SameRows rows_self rows_trans _ λ s. refl)
            (pure-Respects SameRows rows_self rows_trans _)

  create_game_branch-Stays :
      (game_id : GameId) (name : Text) (head : CommitId) (at : ℤ) (s : SessionStore)
      → find_branch game_id name s.game_branches ≡ none
      → Stays s (create_game_branch ext game_id name head at s).1
  unfolding create_game_branch
  create_game_branch-Stays game_id name head at s fresh = still_query _ _ s λ u1 _.
      still_query _ _ s λ u2 _. still_query _ _ s λ identity _. still_query _ _ s λ k _.
        still_modify _ _ s
          (upserted s
            (record { game_id = game_id; name = name; head_id = head; updated_at_ms = at }) fresh)
          (still_pure _ _ _)

  create_main-Stays :
      (identity : GameIdentity) (at : ℤ) (s : SessionStore)
      → find_branch identity.id main_branch s.game_branches ≡ none
      → Stays s (create_main ext identity at s).1
  unfolding create_main
  create_main-Stays identity at s fresh = still_query _ _ s λ root _.
      let rows = (put_commit_rows root).at s in
      still (put_commit ext root) _ s (rows_stay s (put_commit ext root s).1 rows) λ u _.
        still (create_game_branch ext identity.id main_branch root.id at) _ _
          (create_game_branch-Stays identity.id main_branch root.id at _ (rw rows fresh))
          λ b _. still_pure _ _ _

  unless_found-Stays :
      (identity : GameIdentity) (at : ℤ) (s : SessionStore) (found : Option BranchRow)
      → find_branch identity.id main_branch s.game_branches ≡ found
      → Stays s (unless_found ext found (create_main ext identity at) s).1
  unless_found-Stays identity at s none e = create_main-Stays identity at s e
  unless_found-Stays identity at s (some r) e = still_pure _ tt s

  pub ensure_game-Stays :
      (identity : GameIdentity) (at : ℤ) → Respects Stays (ensure_game ext identity at)
  unfolding ensure_game
  ensure_game-Stays identity at = record {
    at = λ s. still_query _ _ s λ u1 _.
        still_modify _ _ s (λ g n r h. h)
          (still_query _ _ _ λ found e. unless_found-Stays identity at _ found (cc e));
  }

  pub advance_row_failed :
      (game_id : GameId) (name : Text) (expected new_head : CommitId) (at : ℤ) (s : SessionStore)
      → (advance_row ext game_id name expected new_head at s).0 ≢ ok true
      → SameRows s (advance_row ext game_id name expected new_head at s).1
  unfolding advance_row
  advance_row_failed game_id name expected new_head at s failed =
      update_head_same game_id name expected new_head at s.game_branches
        (elim (Bool-cases (update_head game_id name expected new_head at s.game_branches).1) [
          | inl moved ↦ absurd (failed (ap ok moved))
          | inr stopped ↦ stopped
        ])

  -- A query before it.
  pub query_failed :
      {A : Type 0} (q : SessionStore → Result StoreError A) (f : A → Exec Bool) (s : SessionStore)
      → ((a : A) → (f a s).0 ≢ ok true → SameRows s (f a s).1)
      → ((query q >>= f) s).0 ≢ ok true
      → SameRows s ((query q >>= f) s).1
  unfolding ◌>>=◌
  query_failed {A} q f s h = go (q s)
    where
      go : (r : Result StoreError A) → (continue r s f).0 ≢ ok true → SameRows s (continue r s f).1
      go (ok a) failed = h a failed
      go (err x) failed = refl
      go out_of_fuel failed = refl
