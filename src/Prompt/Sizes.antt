-- ===== src/Prompt/Sizes.antt =====
-- crates/terratranslate-core/src/prompt.rs: each tag that is read leaves a shorter text, and the
-- parts of a block are no longer than the text that they are cut from.
use terra_translate.Base.{
  ℕ, zero, suc, ◌+◌, ◌≤◌, Text, txt, starts_with, split_at, List, [], ◌∷◌, ◌++◌, length,
  length-append, length-drop, true, Option, none, some, ok, err, ◌>>=◌, ◌≡◌, refl, arith, >>=-eq-ok,
  subst, ◌∙◌, ap, Option-cases, inl, inr,
}
use terra_translate.Prompt.Render.{
  BlockParts, Tag, unclosed, token_of, next_tag, tag_text, Scanned, scan, TagKind, classify,
  PartsStep, found, scans, parts_step, find_parts, find_block_parts, or_empty,
}

starts_with-length : (p s : Text) → starts_with p s ≡ true → length p ≤ length s
unfolding starts_with
starts_with-length [] s h = omega arith
starts_with-length (c ∷ p) [] h = cc
starts_with-length (c ∷ p) (d ∷ s) h = ground (arith, starts_with-length p s)

-- The parts of a text around a pattern.
pub split_at-length :
    (p s b a : Text) → split_at p s ≡ some (b, a) → length b + length p + length a ≤ length s
unfolding split_at
split_at-length p [] b a h = cc
split_at-length p (c ∷ s) b a h = elim (Option-cases (split_at p s)) [
  | inl e ↦ ground (arith, e, starts_with-length p (c ∷ s), length-drop (length p) (c ∷ s))
  | inr ((b', a'), e) ↦ ground (
    arith,
    e,
    split_at-length p s b' a' e,
    starts_with-length p (c ∷ s),
    length-drop (length p) (c ∷ s),
  )
]

module _ (tag : Tag) where
  -- What a tag takes from the source.
  abbrev pub tag_size : ℕ
  tag_size = length tag.before + length tag.raw + length tag.after + 4

pub next_tag-length :
    (source : Text) (tag : Tag) → next_tag source ≡ ok (some tag) → tag_size tag ≤ length source
unfolding next_tag
next_tag-length source tag h = elim (Option-cases (split_at (txt "{{") source)) [
  | inl e ↦ absurd (ground (arith, e))
  | inr ((before, token), e) ↦ elim (Option-cases (split_at (txt "}}") token)) [
    | inl f ↦ absurd (ground (arith, e, f))
    | inr ((raw, after), f) ↦ ground (
      arith,
      e,
      f,
      split_at-length (txt "{{") source before token e,
      split_at-length (txt "}}") token raw after f,
    )
  ]
]

abbrev pub size : Scanned → ℕ
size sc = length sc.body + length (or_empty sc.alternate)

pub scan-size : (text : Text) (sc : Scanned) → size (scan text sc) ≡ size sc + length text
unfolding scan
scan-size text sc = go sc.alternate
  where
    go :
        (o : Option Text)
        → size (scan text (record { body = sc.body; alternate = o }))
          ≡ length sc.body + length (or_empty o) + length text
    go none = omega (arith, length-append sc.body text)
    go (some a) = omega (arith, length-append a text)

-- The length of the parts and of the rest.
abbrev pub total : BlockParts → ℕ
total parts = length parts.body + length (or_empty parts.alternate) + length parts.rest

parts_step-found :
    (expected : Text) (stack : List Text) (sc : Scanned) (tag : Tag) (kind : TagKind)
    (parts : BlockParts)
    → parts_step expected stack sc tag kind ≡ ok (found parts)
    → length parts.body + length (or_empty parts.alternate) + length parts.rest
      ≤ size sc + length tag.before + length tag.after
unfolding parts_step
parts_step-found expected stack sc tag (TagKind.opens name) parts h = cc h
parts_step-found expected [] sc tag (TagKind.closes name) parts h =
    ground (arith, scan-size tag.before sc)
parts_step-found expected (top ∷ below) sc tag (TagKind.closes name) parts h = ground arith
parts_step-found expected [] sc tag TagKind.else_tag parts h = ground arith
parts_step-found expected (top ∷ below) sc tag TagKind.else_tag parts h = cc h
parts_step-found expected [] sc tag TagKind.other_tag parts h = cc h
parts_step-found expected (top ∷ below) sc tag TagKind.other_tag parts h = cc h

kept-size :
    (tag : Tag) (sc : Scanned)
    → size (scan (tag.before ++ tag_text tag) sc) ≡ size sc + length tag.before + length tag.raw + 4
kept-size tag sc = omega (
  arith,
  scan-size (tag.before ++ tag_text tag) sc,
  length-append tag.before (tag_text tag),
  length-append (txt "{{") (tag.raw ++ txt "}}"),
  length-append tag.raw (txt "}}"),
)

parts_step-scans :
    (expected : Text) (stack : List Text) (sc : Scanned) (tag : Tag) (kind : TagKind)
    (st : List Text) (sc' : Scanned)
    → parts_step expected stack sc tag kind ≡ ok (scans st sc')
    → size sc' ≤ size sc + length tag.before + length tag.raw + 4
unfolding parts_step
parts_step-scans expected stack sc tag (TagKind.opens name) st sc' h =
    ground (arith, kept-size tag sc)
parts_step-scans expected [] sc tag (TagKind.closes name) st sc' h = ground arith
parts_step-scans expected (top ∷ below) sc tag (TagKind.closes name) st sc' h =
    ground (arith, kept-size tag sc)
parts_step-scans expected [] sc tag TagKind.else_tag st sc' h =
    ground (arith, length-append sc.body tag.before)
parts_step-scans expected (top ∷ below) sc tag TagKind.else_tag st sc' h =
    ground (arith, kept-size tag sc)
parts_step-scans expected [] sc tag TagKind.other_tag st sc' h = ground (arith, kept-size tag sc)
parts_step-scans expected (top ∷ below) sc tag TagKind.other_tag st sc' h =
    ground (arith, kept-size tag sc)

stepped-size :
    (fuel : ℕ) (expected : Text) (tag : Tag) (parts : BlockParts) (bound : ℕ) (s : PartsStep)
    → ((st : List Text) (sc : Scanned)
        → s ≡ scans st sc
        → find_parts fuel expected st sc tag.after ≡ ok parts
        → total parts ≤ bound)
    → ((found' : BlockParts) → s ≡ found found' → total found' ≤ bound)
    → elim s [ found parts' ↦ ok parts' | scans st sc ↦ find_parts fuel expected st sc tag.after ]
      ≡ ok parts
    → total parts ≤ bound
stepped-size fuel expected tag parts bound (found parts') k f h =
    let same : parts' ≡ parts = cc h in subst (λ p. total p ≤ bound) same (f parts' refl)
stepped-size fuel expected tag parts bound (scans st sc) k f h = k st sc refl h

next-size :
    (fuel : ℕ) (expected : Text) (stack : List Text) (sc : Scanned) (source : Text)
    (parts : BlockParts) (next : Option Tag)
    → ((tag : Tag) (st : List Text) (sc' : Scanned)
        → find_parts fuel expected st sc' tag.after ≡ ok parts
        → total parts ≤ size sc' + length tag.after)
    → next_tag source ≡ ok next
    → elim next [
      | none ↦ err (unclosed expected)
      | some tag ↦ (do
        step ← parts_step expected stack sc tag (classify (token_of tag))
        elim step [
          | found parts' ↦ ok parts'
          | scans st sc' ↦ find_parts fuel expected st sc' tag.after
        ])
    ]
      ≡ ok parts
    → total parts ≤ size sc + length source
next-size fuel expected stack sc source parts none k e h = cc h
next-size fuel expected stack sc source parts (some tag) k e h =
    let (step, g, rest) =
      >>=-eq-ok (parts_step expected stack sc tag (classify (token_of tag))) _ h in
    stepped-size fuel expected tag parts (size sc + length source) step
      (λ st sc' same done. omega (
        arith,
        k tag st sc' done,
        next_tag-length source tag e,
        parts_step-scans expected stack sc tag (classify (token_of tag)) st sc' (g ∙ ap ok same),
      ))
      (λ parts' same. omega (
        arith,
        next_tag-length source tag e,
        parts_step-found expected stack sc tag (classify (token_of tag)) parts' (g ∙ ap ok same),
      ))
      rest

find_parts-size :
    (fuel : ℕ) (expected : Text) (stack : List Text) (sc : Scanned) (source : Text)
    (parts : BlockParts)
    → find_parts fuel expected stack sc source ≡ ok parts
    → total parts ≤ size sc + length source
unfolding find_parts
find_parts-size zero expected stack sc source parts h = cc h
find_parts-size (suc fuel) expected stack sc source parts h =
    let (next, e, rest) = >>=-eq-ok (next_tag source) _ h in
    next-size fuel expected stack sc source parts next
      (λ tag st sc' done. find_parts-size fuel expected st sc' tag.after parts done) e rest

pub find_block_parts-size :
    (source expected : Text) (parts : BlockParts)
    → find_block_parts source expected ≡ ok parts
    → total parts ≤ length source
unfolding find_block_parts
find_block_parts-size source expected parts h = omega (
  arith,
  find_parts-size (suc (length source)) expected [] (record { body = []; alternate = none }) source
      parts h,
)
