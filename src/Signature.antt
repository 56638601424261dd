-- ===== src/Signature.antt =====
-- crates/terratranslate-core/src/replay.rs: the signatures by which a turn that was translated before
-- is recognised. `char::to_lowercase`, a table of Unicode, is the parameter `to_lowercase`.
pub mod Order
pub mod Multiset
use terra_translate.Base.{
  ℕ, ℕ_discrete, Text, text_cmp, List, [], ◌∷◌, ◌++◌, map, length, Bool, true, false, Ordering,
  ◌==◌, ◌||◌, if◌then◌else◌, txt, is_empty,
}
use terra_translate.Base.Split.{normalize_lines}
use terra_translate.Base.Sort.{sort_by}

pub record TurnSignature : Type 0 where
  pub entries : List (Text × Text)

unfoldable pub TurnSignature-discrete : Discrete TurnSignature
TurnSignature-discrete = hlevel ℕ_discrete

module _ (to_lowercase : ℕ → Text) where
  -- The `match` on a character.
  unfoldable pub fold_char : ℕ → Text
  fold_char c =
      if c == 0xdf || c == 0x1e9e
      then txt "ss"
      else if c == 0x3c2
      then 0x3c3 ∷ []
      else if c == 0x130
      then b'i' ∷ 0x307 ∷ []
      else if c == 0x149
      then 0x2bc ∷ b'n' ∷ []
      else if c == 0xfb00
      then txt "ff"
      else if c == 0xfb01
      then txt "fi"
      else if c == 0xfb02
      then txt "fl"
      else if c == 0xfb03
      then txt "ffi"
      else if c == 0xfb04
      then txt "ffl"
      else if c == 0xfb05 || c == 0xfb06
      then txt "st"
      else to_lowercase c

  unfoldable pub fold_text : Text → Text
  unfolding fold_char
  fold_text [] = []
  fold_text (c ∷ s) = fold_char c ++ fold_text s

  unfoldable pub normalize_replay_text : Text → Text
  unfolding normalize_lines fold_text
  normalize_replay_text text = fold_text (normalize_lines text)

-- The comparison that `sort_by` is given.
unfoldable pub entry_cmp : Text × Text → Text × Text → Ordering
unfolding text_cmp
entry_cmp left right =
    let texts = text_cmp left.1 right.1 in
    elim (text_cmp left.0 right.0) [
      | Ordering.lt ↦ Ordering.lt
      | Ordering.eq ↦ texts
      | Ordering.gt ↦ Ordering.gt
    ]

module _ (to_lowercase : ℕ → Text) where
  unfoldable pub normalize_pairs : List (Text × Text) → List (Text × Text)
  unfolding normalize_replay_text
  normalize_pairs = map (λ p. (p.0, normalize_replay_text to_lowercase p.1))

  -- `TurnSignature::from_pairs`, and `TurnSignature::new`
  unfoldable pub from_pairs : List (Text × Text) → TurnSignature
  unfolding normalize_pairs sort_by entry_cmp
  from_pairs pairs = record { entries = sort_by entry_cmp (normalize_pairs pairs) }

-- `TurnSignature::is_empty` and `len`
unfoldable pub signature_is_empty : TurnSignature → Bool
signature_is_empty t = elim t.entries [ [] ↦ true | x ∷ xs ↦ false ]

unfoldable pub signature_len : TurnSignature → ℕ
signature_len t = length t.entries
