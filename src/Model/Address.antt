-- ===== src/Model/Address.antt =====
-- crates/terratranslate-core/src/model.rs: commits are addressed by their content.
use terra_translate.Base.{List, [], ◌∷◌, true, ok, ◌≡◌, ◌≢◌, arith, some, refl, ◌↔◌, >>=-eq-ok}
use terra_translate.Model.Data.{Bytes, CommitId, CommitContent, TranslationCommit, Externals}
use terra_translate.Model.Commit.{check_parents, create, verify_id}

-- No two byte strings have one digest, and no two contents one encoding: what content addressing
-- relies on.
pub record IsCollisionFree (ext : Externals) : Type 0 where
  pub hash_injective : (a b : Bytes) → ext.hash_hex a ≡ ext.hash_hex b → a ≡ b
  pub json_injective :
      (c d : CommitContent) (b : Bytes)
      → ext.content_json c ≡ some b
      → ext.content_json d ≡ some b
      → c ≡ d

-- At most two parents, and no parent twice.
abbrev pub HasParents : List CommitId → Type 0
HasParents [] = Unit
HasParents (p ∷ []) = Unit
HasParents (p ∷ q ∷ []) = p ≢ q
HasParents (p ∷ q ∷ r ∷ rest) = ⊥

check_parents-HasParents : (ps : List CommitId) → check_parents ps ≡ ok tt → HasParents ps
unfolding check_parents
check_parents-HasParents [] h = tt
check_parents-HasParents (p ∷ []) h = tt
check_parents-HasParents (p ∷ q ∷ []) h = ground arith
check_parents-HasParents (p ∷ q ∷ r ∷ rest) h = cc

HasParents-check_parents : (ps : List CommitId) → HasParents ps → check_parents ps ≡ ok tt
unfolding check_parents
HasParents-check_parents [] h = refl
HasParents-check_parents (p ∷ []) h = refl
HasParents-check_parents (p ∷ q ∷ []) h = ground arith
HasParents-check_parents (p ∷ q ∷ r ∷ rest) h = absurd h

module _ (ext : Externals) where
  create-HasParents :
      (c : CommitContent) (k : TranslationCommit) → create ext c ≡ ok k → HasParents c.parents
  unfolding create
  create-HasParents c k h =
      check_parents-HasParents c.parents
        (let (u, e, _) = >>=-eq-ok (check_parents c.parents) _ h in e)

  -- `create` succeeds exactly on a content with at most two parents, none twice, that the encoder
  -- accepts.
  pub create_ok_iff :
      (c : CommitContent)
      → ((k : TranslationCommit) × (create ext c ≡ ok k))
        ↔ (HasParents c.parents × ((b : Bytes) × (ext.content_json c ≡ some b)))
  unfolding create
  create_ok_iff c = (
    λ k. (create-HasParents c k.0 k.1, ground (arith, k.1)),
    λ h. (
      record { id = ext.hash_hex h.1.0; content = c },
      rw (HasParents-check_parents c.parents h.0, h.1.1),
    ),
  )

  -- A commit that `create` returns holds the content that it was given and passes `verify_id`.
  pub verify_id-create :
      (c : CommitContent) (k : TranslationCommit)
      → create ext c ≡ ok k
      → (verify_id ext k ≡ ok true) × (k.content ≡ c)
  unfolding verify_id create
  verify_id-create c k h = ground arith

  pub verified_bytes :
      (k : TranslationCommit)
      → verify_id ext k ≡ ok true
      → (b : Bytes) × (ext.content_json k.content ≡ some b) × (ext.hash_hex b ≡ k.id)
  unfolding verify_id create
  verified_bytes k h = ground arith

  -- Two verified commits with one ID are the same commit, if digests and encodings do not collide.
  pub verified_same_id :
      (a b : TranslationCommit)
      → IsCollisionFree ext
      → verify_id ext a ≡ ok true
      → verify_id ext b ≡ ok true
      → a.id ≡ b.id
      → a ≡ b
  verified_same_id a b cf ha hb e =
      let (x, xa, xi) = verified_bytes a ha in
      let (y, yb, yi) = verified_bytes b hb in
      let s : x ≡ y = cf.hash_injective x y (cc) in
      let t : a.content ≡ b.content = cf.json_injective a.content b.content x xa (cc) in cc
