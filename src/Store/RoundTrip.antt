-- ===== src/Store/RoundTrip.antt =====
-- crates/terratranslate-store/src/lib.rs: what was put can be got.
use terra_translate.Base.{
  Text, Text-discrete, List, [], ◌∷◌, true, none, some, ok, ◌≡◌, refl, arith, inl, inr,
  Option-cases, map_err, sym, ◌∙◌, ◌⊎◌,
}
use terra_translate.Model.{
  CommitId, TranslationCommit, Externals, IsCollisionFree, verified_same_id, verify_id,
}
use terra_translate.Store.Schema.{invalid_commit_id, CommitRow, SessionStore}
use terra_translate.Store.Read.{find_commit, get_commit}
use terra_translate.Store.Exec.{query, modify, after_ok}
use terra_translate.Store.Write.{put_commit, check_stored, insert_commit, expect_verified, to_json}
use terra_translate.Store.Integrity.{RoundTrips, IsGrounded, IsIntact}
use terra_translate.Store.Keeping.{verified_true, json_some}

module _ (ext : Externals) where
  -- What a successful `put_commit` did.
  pub record IsPut (k : TranslationCommit) (before after : SessionStore) : Type 0 where
    pub verified : verify_id ext k ≡ ok true
    pub body : Text
    pub written : ext.commit_json k ≡ some body
    pub inserted :
        after.commits
        ≡ insert_commit
            (record { id = k.id; created_at_ms = k.created_at_ms; body_json = body })
            before.commits
    pub same_branches : after.game_branches ≡ before.game_branches
    pub same_games : after.games ≡ before.games

  pub put_commit-IsPut :
      (k : TranslationCommit) (s : SessionStore)
      → (put_commit ext k s).0 ≡ ok tt
      → IsPut k s (put_commit ext k s).1
  unfolding put_commit modify query
  put_commit-IsPut k s h =
      let (u1, verified, h1, e1) =
        after_ok (query λ s'. expect_verified (map_err (λ _. invalid_commit_id) (verify_id ext k)))
          _ s h in
      let (u2, _, h2, e2) = after_ok (query λ s'. check_stored k.parents s'.commits) _ s h1 in
      let (body, written, h3, e3) = after_ok (query λ s'. to_json (ext.commit_json k)) _ s h2 in
      rw (e1, e2, e3)
        (record {
          verified = verified_true ext k u1 verified;
          body = body;
          written = json_some ext (ext.commit_json k) body written;
          inserted = refl;
          same_branches = refl;
          same_games = refl;
        })

  -- What a row of an intact table holds.
  pub record Holds (r : CommitRow) (id : CommitId) : Type 0 where
    pub commit : TranslationCommit
    pub decodes : ext.commit_from_json r.body_json ≡ some commit
    pub same_id : commit.id ≡ id
    pub verified : verify_id ext commit ≡ ok true

  find_commit-Holds :
      (rows : List CommitRow) (id : CommitId) (r : CommitRow)
      → IsGrounded ext rows
      → find_commit id rows ≡ some r
      → Holds r id
  unfolding find_commit
  find_commit-Holds [] id r g h = cc
  find_commit-Holds (row ∷ rows) id r g h = elim (Text-discrete row.id id) [
    | yes e ↦
        let same : row ≡ r = ground arith in
        record {
          commit = g.0.0;
          decodes = rw (sym same) g.0.1.decodes;
          same_id = g.0.1.same_id ∙ e;
          verified = g.0.1.verified;
        }
    | no n ↦ find_commit-Holds rows id r g.1 (ground arith)
  ]

  find_commit-insert_commit :
      (row : CommitRow) (rows : List CommitRow)
      → (find_commit row.id rows ≡ none) × (find_commit row.id (insert_commit row rows) ≡ some row)
        ⊎ ((r : CommitRow) × (find_commit row.id rows ≡ some r)
            × (find_commit row.id (insert_commit row rows) ≡ some r))
  unfolding find_commit insert_commit
  find_commit-insert_commit row rows = elim (Option-cases (find_commit row.id rows)) [
    | inl e ↦ inl (e, ground arith)
    | inr (r, e) ↦ inr (r, e, ground arith)
  ]

  get_commit_row :
      (s : SessionStore) (id : CommitId) (r : CommitRow) (k : TranslationCommit)
      → find_commit id s.commits ≡ some r
      → ext.commit_from_json r.body_json ≡ some k
      → get_commit ext s id ≡ ok k
  unfolding get_commit
  get_commit_row s id r k f d = ground arith

  -- A commit that was put into an intact database can be got under its ID, also where a commit with
  -- that ID was there before, if commits read back as they were written and digests and encodings
  -- do not collide.
  pub get_commit-put_commit :
      RoundTrips ext
      → IsCollisionFree ext
      → (k : TranslationCommit) (s : SessionStore) → IsIntact ext s
      → (put_commit ext k s).0 ≡ ok tt
      → get_commit ext (put_commit ext k s).1 k.id ≡ ok k
  get_commit-put_commit rt cf k s v h =
      let put = put_commit-IsPut k s h in
      let row : CommitRow = record {
        id = k.id;
        created_at_ms = k.created_at_ms;
        body_json = put.body;
      } in
      elim (find_commit-insert_commit row s.commits) [
        | inl (_, found) ↦
            get_commit_row (put_commit ext k s).1 k.id row k (rw put.inserted found)
              (rt k put.body put.written)
        | inr (r, old, found) ↦
            let held = find_commit-Holds s.commits k.id r v.grounded old in
            let same : held.commit ≡ k =
              verified_same_id ext held.commit k cf held.verified put.verified held.same_id in
            get_commit_row (put_commit ext k s).1 k.id r k (rw put.inserted found)
              (rw (sym same) held.decodes)
      ]
