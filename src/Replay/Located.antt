-- ===== src/Replay/Located.antt =====
-- crates/terratranslate-engine/src/replay.rs: where the observed turns occur in a path.
use terra_translate.Base.{
  ℕ, zero, suc, ◌+◌, ◌<◌, Text, List, [], ◌∷◌, length, get_elem?, drop, Option, Option-cases, some,
  ◌≡◌, refl, sym, arith, inl, inr, ◌⊎◌, In, ◌∙◌, ap, subst, get_elem?-some, length-drop,
}
use terra_translate.Model.{TranslationCommit}
use terra_translate.Signature.{TurnSignature}
use terra_translate.Store.Schema.{SessionStore, ReplayPath}
use terra_translate.Store.Blobs.{commit_replay_signature}
use terra_translate.Replay.Resume.{
  Raw, Entry, entries_from, count_matched, id_before, raw_at, raws_from,
}
use terra_translate.Replay.Reading.{
  IsOccurrence, Reads, entries_none, entries_some, count_matched-Reads, Reads-count_matched,
}

consed :
    (x r : Raw) (l : List Raw) (m : Option Raw) → m ≡ some x → In r (x ∷ l) → (m ≡ some r) ⊎ In r l
consed x r l m e (inl same) = inl (e ∙ ap some same)
consed x r l m e (inr h) = inr h

abbrev pub raw_of : ReplayPath → ℕ → TranslationCommit → ℕ → Raw
raw_of path i k n = record {
  branch = path.branch.name;
  start = i;
  matched = n;
  next = k.id;
  selected = id_before i path.commits;
}

raw_at-eq_some :
    (path : ReplayPath) (o : TurnSignature) (os : List TurnSignature) (i : ℕ)
    (k : TranslationCommit) (sig : TurnSignature) (es : List Entry) (r : Raw)
    → raw_at path o os (i, k, sig) es ≡ some r
    → (sig ≡ o)
      × (count_matched os es ≡ length os)
      × (0 < i)
      × (r ≡ raw_of path i k (suc (length os)))
unfolding raw_at
raw_at-eq_some path o os i k sig es r e = ground arith

raw_at_lem :
    (path : ReplayPath) (o : TurnSignature) (os : List TurnSignature) (i : ℕ)
    (k : TranslationCommit) (es : List Entry)
    → count_matched os es ≡ length os
    → 0 < i
    → raw_at path o os (i, k, o) es ≡ some (raw_of path i k (suc (length os)))
unfolding raw_at
raw_at_lem path o os i k es e h = ground arith

drop-suc :
    (i : ℕ) (xs ys : List TranslationCommit) (x : TranslationCommit)
    → drop i xs ≡ x ∷ ys
    → drop (suc i) xs ≡ ys
drop-suc zero xs ys x e = rw e refl
drop-suc (suc i) [] ys x e = cc
drop-suc (suc i) (y ∷ xs) ys x e = drop-suc i xs ys x e

id_before-get_elem? :
    (i : ℕ) (xs ys : List TranslationCommit) (x : TranslationCommit)
    → drop (suc i) xs ≡ x ∷ ys
    → (k : TranslationCommit) × (get_elem? xs i ≡ some k) × (k.id ≡ id_before (suc i) xs)
unfolding id_before
id_before-get_elem? i xs ys x e =
    let (k, at) = get_elem?-some i xs (omega (arith, length-drop (suc i) xs, ap length e)) in
    (k, at, ground arith)

raws_from-cons :
    (path : ReplayPath) (o : TurnSignature) (os : List TurnSignature) (e : Entry) (es : List Entry)
    (r : Raw)
    → In r (raws_from path o os (e ∷ es))
    → (raw_at path o os e es ≡ some r) ⊎ In r (raws_from path o os es)
unfolding raws_from
raws_from-cons path o os e es r h = elim (Option-cases (raw_at path o os e es)) [
  | inl nothing ↦
      let same : raws_from path o os (e ∷ es) ≡ raws_from path o os es =
        rw (nothing, raws_from) refl in
      inr (subst (In r) same h)
  | inr (x, something) ↦
      let same : raws_from path o os (e ∷ es) ≡ x ∷ raws_from path o os es =
        rw (something, raws_from) refl in
      consed x r (raws_from path o os es) (raw_at path o os e es) something (subst (In r) same h)
]

cons-raws_from :
    (path : ReplayPath) (o : TurnSignature) (os : List TurnSignature) (e : Entry) (es : List Entry)
    (r : Raw)
    → In r (raws_from path o os es)
    → In r (raws_from path o os (e ∷ es))
unfolding raws_from
cons-raws_from path o os e es r h = elim (Option-cases (raw_at path o os e es)) [
  | inl nothing ↦ rw (nothing, raws_from) h
  | inr (x, something) ↦ rw (something, raws_from) (inr h)
]

head-raws_from :
    (path : ReplayPath) (o : TurnSignature) (os : List TurnSignature) (e : Entry) (es : List Entry)
    (r : Raw)
    → raw_at path o os e es ≡ some r
    → In r (raws_from path o os (e ∷ es))
unfolding raws_from
head-raws_from path o os e es r h = rw (h, raws_from) (inl refl)

module _ (to_lowercase : ℕ → Text) (s : SessionStore) (path : ReplayPath) (o : TurnSignature)
    (os : List TurnSignature) where
  occurs :
      (i : ℕ) (k : TranslationCommit) (ks : List TranslationCommit) (r : Raw)
      → drop (suc i) path.commits ≡ k ∷ ks
      → commit_replay_signature to_lowercase s k ≡ some o
      → Reads to_lowercase s os ks
      → r ≡ raw_of path (suc i) k (suc (length os))
      → IsOccurrence to_lowercase s o os path r
  occurs i k ks r e read reads same =
      let (b, at, selected) = id_before-get_elem? i path.commits ks k e in
      record {
        index = i;
        completed = b;
        turn = k;
        later = ks;
        named = ap (λ (x : Raw). x.branch) same;
        starts = ap (λ (x : Raw). x.start) same;
        before = at;
        selects = selected ∙ sym (ap (λ (x : Raw). x.selected) same);
        follows = e;
        next_is = sym (ap (λ (x : Raw). x.next) same);
        first = read;
        others = reads;
        counted = ap (λ (x : Raw). x.matched) same;
      }

  found_at :
      (i : ℕ) (k : TranslationCommit) (ks : List TranslationCommit) (r : Raw)
      → drop i path.commits ≡ k ∷ ks
      → commit_replay_signature to_lowercase s k ≡ some o
      → Reads to_lowercase s os ks
      → 0 < i
      → r ≡ raw_of path i k (suc (length os))
      → IsOccurrence to_lowercase s o os path r
  found_at zero k ks r e read reads positive same = absurd (omega arith)
  found_at (suc i) k ks r e read reads positive same = occurs i k ks r e read reads same

  nothing_found :
      (i : ℕ) (r : Raw) → ¬ In r (raws_from path o os (entries_from to_lowercase s i []))
  unfolding entries_from raws_from
  nothing_found i r h = h

  -- What is found in a path is an occurrence in it.
  pub raws_from-IsOccurrence :
      (i : ℕ) (ks : List TranslationCommit) (r : Raw)
      → drop i path.commits ≡ ks
      → In r (raws_from path o os (entries_from to_lowercase s i ks))
      → IsOccurrence to_lowercase s o os path r
  raws_from-IsOccurrence i [] r e h = absurd (nothing_found i r h)
  raws_from-IsOccurrence i (k ∷ ks) r e h =
      let later = raws_from-IsOccurrence (suc i) ks r (drop-suc i path.commits ks k e) in
      elim (Option-cases (commit_replay_signature to_lowercase s k)) [
        | inl unread ↦ later (
            subst (λ es. In r (raws_from path o os es)) (entries_none to_lowercase s i k ks unread)
              h)
        | inr (sig, read) ↦
            let h' =
              subst (λ es. In r (raws_from path o os es))
                (entries_some to_lowercase s i k ks sig read) h in
            elim (raws_from-cons path o os (i, k, sig) _ r h') [
              | inr more ↦ later more
              | inl here ↦
                  let (same, all, positive, made) = raw_at-eq_some path o os i k sig _ r here in
                  found_at i k ks r e (read ∙ ap some same)
                    (count_matched-Reads to_lowercase s os (suc i) ks all) positive made
            ]
      ]

  found_here :
      (i : ℕ) (ks : List TranslationCommit) (k : TranslationCommit)
      → 0 < i
      → commit_replay_signature to_lowercase s k ≡ some o
      → Reads to_lowercase s os ks
      → In
          (raw_of path i k (suc (length os)))
          (raws_from path o os (entries_from to_lowercase s i (k ∷ ks)))
  found_here i ks k positive read reads = rw (entries_some to_lowercase s i k ks o read) (
      head-raws_from path o os (i, k, o) _ _
        (raw_at_lem path o os i k _ (Reads-count_matched to_lowercase s reads (suc i)) positive))

  -- And every occurrence in a path is found.
  pub raws_from_complete :
      (n i d : ℕ) (ms ks : List TranslationCommit) (k : TranslationCommit)
      → drop d ms ≡ k ∷ ks
      → n ≡ i + d
      → 0 < n
      → commit_replay_signature to_lowercase s k ≡ some o
      → Reads to_lowercase s os ks
      → In
          (raw_of path n k (suc (length os)))
          (raws_from path o os (entries_from to_lowercase s i ms))
  raws_from_complete n i zero [] ks k e same positive read reads = cc
  raws_from_complete n i (suc d) [] ks k e same positive read reads = cc
  raws_from_complete n i zero (m ∷ ms) ks k e same positive read reads =
      let now : n ≡ i = omega arith in
      subst
        (λ ls.
          In (raw_of path n k (suc (length os)))
            (raws_from path o os (entries_from to_lowercase s i ls)))
        (sym e)
        (subst
          (λ j.
            In (raw_of path j k (suc (length os)))
              (raws_from path o os (entries_from to_lowercase s i (k ∷ ks))))
          (sym now) (found_here i ks k (omega arith) read reads))
  raws_from_complete n i (suc d) (m ∷ ms) ks k e same positive read reads =
      let later = raws_from_complete n (suc i) d ms ks k e (omega arith) positive read reads in
      elim (Option-cases (commit_replay_signature to_lowercase s m)) [
        | inl unread ↦ rw (entries_none to_lowercase s i m ms unread) later
        | inr (sig, found) ↦
            rw (entries_some to_lowercase s i m ms sig found)
              (cons-raws_from path o os (i, m, sig) _ _ later)
      ]
