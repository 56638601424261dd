-- ===== src/Store/Integrity.antt =====
-- crates/terratranslate-store/src/lib.rs: the integrity of the database. Every stored body is a
-- verified commit under its own ID, whose parents were stored before it; every branch row has a
-- registered game and a stored head. Each method keeps this, also where it fails.
use terra_translate.Base.{
  ℤ, Text, Text-discrete, List, [], ◌∷◌, Bool, true, none, some, ite, Result, ok, err, out_of_fuel,
  ◌≡◌, inl, inr, refl, arith, All, Option-cases, ite_both,
}
use terra_translate.Model.{GameId, CommitId, TranslationCommit, Externals, verify_id}
use terra_translate.Store.Schema.{CommitRow, BranchRow, GameRow, SessionStore}
use terra_translate.Store.Read.{find_commit, find_game}
use terra_translate.Store.Exec.{Action, query, continue, ◌>>=◌}
use terra_translate.Store.Write.{
  upsert_game, upsert_branch, update_head, check_stored, insert_commit,
}

-- A commit that was written reads back as itself.
abbrev pub RoundTrips : Externals → Type 0
RoundTrips ext =
    (k : TranslationCommit) (t : Text)
    → ext.commit_json k ≡ some t
    → ext.commit_from_json t ≡ some k

abbrev pub IsStored : List CommitRow → CommitId → Type 0
IsStored rows id = (r : CommitRow) × (find_commit id rows ≡ some r)

module _ (ext : Externals) where
  -- The row holds the JSON of a verified commit with the row's ID, whose parents are among `older`.
  pub record IsSound (older : List CommitRow) (row : CommitRow) (k : TranslationCommit)
      : Type 0 where
    pub decodes : ext.commit_from_json row.body_json ≡ some k
    pub same_id : k.id ≡ row.id
    pub verified : verify_id ext k ≡ ok true
    pub parents_stored : All (IsStored older) k.parents
    pub fresh : find_commit row.id older ≡ none

  abbrev pub IsGrounded : List CommitRow → Type 0
  IsGrounded [] = Unit
  IsGrounded (row ∷ older) = ((k : TranslationCommit) × IsSound older row k) × IsGrounded older

abbrev pub IsRegistered : List GameRow → GameId → Type 0
IsRegistered rows id = (r : GameRow) × (find_game id rows ≡ some r)

-- The row's game is registered, and its head is stored.
abbrev pub IsAnchored : SessionStore → BranchRow → Type 0
IsAnchored s r = IsRegistered s.games r.game_id × IsStored s.commits r.head_id

pub record IsIntact (ext : Externals) (s : SessionStore) : Type 0 where
  pub grounded : IsGrounded ext s.commits
  pub anchored : All (IsAnchored s) s.game_branches

-- The action keeps the database intact, whether it succeeds or fails.
pub record Keeps (ext : Externals) {E A : Type 0} (m : Action E A) : Type 0 where
  pub at : (s : SessionStore) → IsIntact ext s → IsIntact ext (m s).1

module _ (ext : Externals) {E A B : Type 0} where
  pub after_query :
      (q : SessionStore → Result E A) (f : A → Action E B) (s : SessionStore)
      → IsIntact ext s
      → ((a : A) → q s ≡ ok a → IsIntact ext (f a s).1)
      → IsIntact ext ((query q >>= f) s).1
  unfolding ◌>>=◌
  after_query q f s v h = go (q s) refl
    where
      go : (r : Result E A) → q s ≡ r → IsIntact ext (continue r s f).1
      go (ok a) e = h a e
      go (err x) e = v
      go out_of_fuel e = v

  pub after_action :
      (m : Action E A) (f : A → Action E B) (s : SessionStore)
      → Keeps ext m
      → IsIntact ext s
      → ((a : A) → (m s).0 ≡ ok a → IsIntact ext (m s).1 → IsIntact ext (f a (m s).1).1)
      → IsIntact ext ((m >>= f) s).1
  unfolding ◌>>=◌
  after_action m f s k v h = go (m s).0 refl
    where
      go : (r : Result E A) → (m s).0 ≡ r → IsIntact ext (continue r (m s).1 f).1
      go (ok a) e = h a e (k.at s v)
      go (err x) e = k.at s v
      go out_of_fuel e = k.at s v

-- What is stored and registered stays so.
pub record Grows (s t : SessionStore) : Type 0 where
  pub stored : (id : CommitId) → IsStored s.commits id → IsStored t.commits id
  pub registered : (id : GameId) → IsRegistered s.games id → IsRegistered t.games id

pub IsAnchored-Grows :
    (s t : SessionStore) (rows : List BranchRow)
    → Grows s t
    → All (IsAnchored s) rows
    → All (IsAnchored t) rows
IsAnchored-Grows s t [] g a = tt
IsAnchored-Grows s t (r ∷ rows) g a =
    ((g.registered r.game_id a.0.0, g.stored r.head_id a.0.1), IsAnchored-Grows s t rows g a.1)

pub check_stored-All :
    (ps : List CommitId) (rows : List CommitRow)
    → check_stored ps rows ≡ ok tt
    → All (IsStored rows) ps
unfolding check_stored
check_stored-All [] rows h = tt
check_stored-All (p ∷ ps) rows h = elim (Option-cases (find_commit p rows)) [
  | inl e ↦ absurd (ground arith)
  | inr (r, e) ↦ ((r, e), check_stored-All ps rows (ground arith))
]

insert_commit_new :
    (row : CommitRow) (rows : List CommitRow)
    → find_commit row.id rows ≡ none
    → insert_commit row rows ≡ row ∷ rows
unfolding insert_commit
insert_commit_new row rows e = rw (e, insert_commit)

insert_commit_old :
    (row r : CommitRow) (rows : List CommitRow)
    → find_commit row.id rows ≡ some r
    → insert_commit row rows ≡ rows
unfolding insert_commit
insert_commit_old row r rows e = rw (e, insert_commit)

pub insert_commit-IsGrounded :
    (ext : Externals) (row : CommitRow) (rows : List CommitRow)
    → IsGrounded ext rows
    → (find_commit row.id rows ≡ none → (k : TranslationCommit) × IsSound ext rows row k)
    → IsGrounded ext (insert_commit row rows)
unfolding insert_commit
insert_commit-IsGrounded ext row rows g h = elim (Option-cases (find_commit row.id rows)) [
  | inl e ↦ rw (insert_commit_new row rows e) (h e, g)
  | inr (r, e) ↦ rw (insert_commit_old row r rows e) g
]

pub insert_commit-IsStored :
    (row : CommitRow) (rows : List CommitRow) (id : CommitId)
    → IsStored rows id
    → IsStored (insert_commit row rows) id
unfolding insert_commit find_commit
insert_commit-IsStored row rows id h = elim (Option-cases (find_commit row.id rows)) [
  | inl e ↦
      rw (insert_commit_new row rows e)
        (ite_both (λ o. (r : CommitRow) × (o ≡ some r)) (Text-discrete row.id id) (row, refl) h)
  | inr (r, e) ↦ rw (insert_commit_old row r rows e) h
]

pub find_game-upsert_game :
    (row : GameRow) (rows : List GameRow) (id : GameId)
    → find_game id (upsert_game row rows)
      ≡ ite (Text-discrete row.id id) (some row) (find_game id rows)
unfolding find_game upsert_game
find_game-upsert_game row [] id = refl
find_game-upsert_game row (r ∷ rows) id = ground (arith, find_game-upsert_game row rows id)

pub upsert_branch-All :
    (P : BranchRow → Type 0) (row : BranchRow) (rows : List BranchRow)
    → P row
    → All P rows
    → All P (upsert_branch row rows)
unfolding upsert_branch
upsert_branch-All P row [] p a = (p, tt)
upsert_branch-All P row (r ∷ rows) p a =
    let later : All P (r ∷ upsert_branch row rows) = (a.0, upsert_branch-All P row rows p a.1) in
    ite_both (All P) (Text-discrete r.game_id row.game_id)
      (ite_both (All P) (Text-discrete r.name row.name) (p, a.1) later) later

pub update_head-All :
    (P : BranchRow → Type 0) (game_id : GameId) (name : Text) (expected new_head : CommitId)
    (at : ℤ) (rows : List BranchRow)
    → ((r : BranchRow) → P r → P (record r { head_id = new_head; updated_at_ms = at }))
    → All P rows
    → All P (update_head game_id name expected new_head at rows).0
unfolding update_head
update_head-All P game_id name expected new_head at [] h a = tt
update_head-All P game_id name expected new_head at (r ∷ rows) h a =
    let later : All P (r ∷ (update_head game_id name expected new_head at rows).0) =
      (a.0, update_head-All P game_id name expected new_head at rows h a.1) in
    let Q = λ (x : List BranchRow × Bool). All P x.0 in
    ite_both Q (Text-discrete r.game_id game_id)
      (ite_both Q (Text-discrete r.name name)
        (ite_both Q (Text-discrete r.head_id expected) (h r a.0, a.1) a) later)
      later
