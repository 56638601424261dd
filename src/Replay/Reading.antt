-- ===== src/Replay/Reading.antt =====
-- crates/terratranslate-engine/src/replay.rs: paths whose commits have the observed signatures.
use terra_translate.Base.{
  ℕ, suc, Text, List, [], ◌∷◌, length, get_elem?, drop, true, Bool-cases, Option, Option-cases,
  none, some, ◌≡◌, ◌≢◌, refl, arith, inl, inr, ◌∙◌, ap, subst, if_pos,
}
use terra_translate.Model.{TranslationCommit}
use terra_translate.Signature.{TurnSignature, TurnSignature-discrete}
use terra_translate.Store.Schema.{SessionStore, ReplayPath}
use terra_translate.Store.Blobs.{is_structural_commit, commit_replay_signature}
use terra_translate.Replay.Resume.{Raw, entries_from, count_matched}

module _ (to_lowercase : ℕ → Text) (s : SessionStore) where
  abbrev pub signature_of : TranslationCommit → Option TurnSignature
  signature_of = commit_replay_signature to_lowercase s

  -- The commits begin with translatable ones that have these signatures, where those without a
  -- signature are passed over.
  pub data Reads : List TurnSignature → List TranslationCommit → Type 0 where
    done : (ks : List TranslationCommit) → Reads [] ks
    pass :
        {os : List TurnSignature} {k : TranslationCommit} {ks : List TranslationCommit}
        → signature_of k ≡ none
        → Reads os ks
        → Reads os (k ∷ ks)
    meet :
        {o : TurnSignature} {os : List TurnSignature} {k : TranslationCommit}
        {ks : List TranslationCommit}
        → signature_of k ≡ some o
        → Reads os ks
        → Reads (o ∷ os) (k ∷ ks)

  pub entries_none :
      (i : ℕ) (k : TranslationCommit) (ks : List TranslationCommit)
      → signature_of k ≡ none
      → entries_from to_lowercase s i (k ∷ ks) ≡ entries_from to_lowercase s (suc i) ks
  unfolding entries_from
  entries_none i k ks e = elim (Bool-cases (is_structural_commit k)) [
    | inl yes' ↦ rw yes' refl
    | inr no' ↦ rw (no', e) refl
  ]

  structural_none : (k : TranslationCommit) → is_structural_commit k ≡ true → signature_of k ≡ none
  unfolding commit_replay_signature
  structural_none k e = rw e refl

  pub entries_some :
      (i : ℕ) (k : TranslationCommit) (ks : List TranslationCommit) (o : TurnSignature)
      → signature_of k ≡ some o
      → entries_from to_lowercase s i (k ∷ ks) ≡ (i, k, o) ∷ entries_from to_lowercase s (suc i) ks
  unfolding entries_from
  entries_some i k ks o e = elim (Bool-cases (is_structural_commit k)) [
    | inl yes' ↦ absurd (ground (arith, structural_none k yes'))
    | inr no' ↦ rw (no', e) refl
  ]

  no_entries :
      (o : TurnSignature) (os : List TurnSignature) (i : ℕ)
      → count_matched (o ∷ os) (entries_from to_lowercase s i []) ≢ suc (length os)
  unfolding count_matched entries_from
  no_entries o os i = λ e. ground arith

  -- The loop counts all observed turns exactly if the commits read so.
  pub count_matched-Reads :
      (os : List TurnSignature) (i : ℕ) (ks : List TranslationCommit)
      → count_matched os (entries_from to_lowercase s i ks) ≡ length os
      → Reads os ks
  unfolding count_matched
  count_matched-Reads [] i ks e = done ks
  count_matched-Reads (o ∷ os) i [] e = absurd (no_entries o os i e)
  count_matched-Reads (o ∷ os) i (k ∷ ks) e = elim (Option-cases (signature_of k)) [
    | inl unread ↦ pass unread (
        count_matched-Reads (o ∷ os) (suc i) ks (
          subst (λ es. count_matched (o ∷ os) es ≡ suc (length os)) (entries_none i k ks unread) e))
    | inr (o', read) ↦
        let e' =
          subst (λ es. count_matched (o ∷ os) es ≡ suc (length os)) (entries_some i k ks o' read)
            e in
        elim (TurnSignature-discrete o' o) [
          | yes same ↦ meet (read ∙ ap some same) (count_matched-Reads os (suc i) ks (ground arith))
          | no other ↦ absurd (ground arith)
        ]
  ]

  pub Reads-count_matched :
      {os : List TurnSignature} {ks : List TranslationCommit}
      → Reads os ks
      → (i : ℕ) → count_matched os (entries_from to_lowercase s i ks) ≡ length os
  unfolding count_matched
  Reads-count_matched (done ks) i = refl
  Reads-count_matched (pass {os} {k} {ks} unread r) i =
      rw (entries_none i k ks unread) (Reads-count_matched r (suc i))
  Reads-count_matched (meet {o} {os} {k} {ks} read r) i =
      rw (entries_some i k ks o read)
        (rw (if_pos (TurnSignature-discrete o o) refl) (ap suc (Reads-count_matched r (suc i))))

  -- The turns that were observed are those of the path from one commit on, which stands at the start
  -- of the occurrence, and the commit before it is the one that was completed last.
  pub record IsOccurrence (o : TurnSignature) (os : List TurnSignature) (path : ReplayPath)
      (r : Raw) : Type 0 where
    pub index : ℕ
    pub completed : TranslationCommit
    pub turn : TranslationCommit
    pub later : List TranslationCommit
    pub named : r.branch ≡ path.branch.name
    pub starts : r.start ≡ suc index
    pub before : get_elem? path.commits index ≡ some completed
    pub selects : completed.id ≡ r.selected
    pub follows : drop (suc index) path.commits ≡ turn ∷ later
    pub next_is : turn.id ≡ r.next
    pub first : signature_of turn ≡ some o
    pub others : Reads os later
    pub counted : r.matched ≡ suc (length os)
