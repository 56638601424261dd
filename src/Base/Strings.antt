-- ===== src/Base/Strings.antt =====
-- Rust's `String` as its list of Unicode scalar values: equality, the order of `str` (that of the
-- UTF-8 bytes is that of the scalar values), and the white space of `char::is_whitespace`.
use Prim.Native.Nat.{ℕ, compare, Ordering}
use Prim.Native.Char.{code}
use Prim.Native.String.{String}
use mathlib.Core.Path.{◌≡◌, refl}
use mathlib.Core.List.{List, [], ◌∷◌, reverse}
use mathlib.Core.Bool.{Bool, true, false, ◌||◌, ◌&&◌}
use native.Mathlib.Omega.{arith}
use native.Mathlib.Decide.{ℕ_discrete}
use mathlib.Core.Option.{Option, none, some}
use terra_translate.Base.Lists.{length, drop}
use terra_translate.Base.Tests.{leb, ◌==◌, if◌then◌else◌}

abbrev pub Text : Type 0
Text = List ℕ

-- A literal.
abbrev pub txt : String → Text
txt String.[] = []
txt (String.◌∷◌ c s) = code c ∷ txt s

unfoldable pub Text-discrete : Discrete Text
Text-discrete = hlevel ℕ_discrete

-- `str::cmp`
unfoldable pub text_cmp : Text → Text → Ordering
text_cmp [] [] = Ordering.eq
text_cmp [] (b ∷ bs) = Ordering.lt
text_cmp (a ∷ as') [] = Ordering.gt
text_cmp (a ∷ as') (b ∷ bs) =
    let rest = text_cmp as' bs in
    elim (compare a b) [
      | Ordering.lt ↦ Ordering.lt
      | Ordering.eq ↦ rest
      | Ordering.gt ↦ Ordering.gt
    ]

pub text_cmp_self : (a : Text) → text_cmp a a ≡ Ordering.eq
unfolding text_cmp
text_cmp_self [] = refl
text_cmp_self (x ∷ a) = ground (arith, text_cmp_self a)

pub text_cmp-eq : (a b : Text) → text_cmp a b ≡ Ordering.eq → a ≡ b
unfolding text_cmp
text_cmp-eq [] [] h = refl
text_cmp-eq [] (y ∷ b) h = ground arith
text_cmp-eq (x ∷ a) [] h = ground arith
text_cmp-eq (x ∷ a) (y ∷ b) h = ground (arith, text_cmp-eq a b)

pub text_cmp-gt : (a b : Text) → text_cmp a b ≡ Ordering.gt → text_cmp b a ≡ Ordering.lt
unfolding text_cmp
text_cmp-gt [] [] h = ground arith
text_cmp-gt [] (y ∷ b) h = ground arith
text_cmp-gt (x ∷ a) [] h = refl
text_cmp-gt (x ∷ a) (y ∷ b) h = ground (arith, text_cmp-gt a b)

pub text_cmp-lt : (a b : Text) → text_cmp a b ≡ Ordering.lt → text_cmp b a ≡ Ordering.gt
unfolding text_cmp
text_cmp-lt [] [] h = ground arith
text_cmp-lt [] (y ∷ b) h = refl
text_cmp-lt (x ∷ a) [] h = ground arith
text_cmp-lt (x ∷ a) (y ∷ b) h = ground (arith, text_cmp-lt a b)

pub text_cmp_trans :
    (a b c : Text)
    → text_cmp a b ≡ Ordering.lt
    → text_cmp b c ≡ Ordering.lt
    → text_cmp a c ≡ Ordering.lt
unfolding text_cmp
text_cmp_trans [] [] c h k = ground arith
text_cmp_trans [] (y ∷ b) [] h k = ground arith
text_cmp_trans [] (y ∷ b) (z ∷ c) h k = refl
text_cmp_trans (x ∷ a) [] c h k = ground arith
text_cmp_trans (x ∷ a) (y ∷ b) [] h k = ground arith
text_cmp_trans (x ∷ a) (y ∷ b) (z ∷ c) h k = ground (arith, text_cmp_trans a b c)

-- `char::is_whitespace`, the scalar values with the property White_Space
unfoldable pub is_whitespace : ℕ → Bool
is_whitespace c =
    (leb 9 c && leb c 13)
    || c == 32
    || c == 0x85
    || c == 0xa0
    || c == 0x1680
    || (leb 0x2000 c && leb c 0x200a)
    || c == 0x2028
    || c == 0x2029
    || c == 0x202f
    || c == 0x205f
    || c == 0x3000

-- `str::trim_start`
unfoldable pub trim_start : Text → Text
trim_start [] = []
trim_start (c ∷ s) = if is_whitespace c then trim_start s else c ∷ s

-- `str::trim`
unfoldable pub trim : Text → Text
unfolding trim_start
trim s = reverse (trim_start (reverse (trim_start s)))

-- `str::is_empty`
abbrev pub is_empty : Text → Bool
is_empty [] = true
is_empty (c ∷ s) = false

-- `str::starts_with`
unfoldable pub starts_with : Text → Text → Bool
starts_with [] s = true
starts_with (p ∷ ps) [] = false
starts_with (p ∷ ps) (c ∷ s) = p == c && starts_with ps s

-- `str::find`: the text before the first occurrence of a pattern, and the text after it.
unfoldable pub split_at : Text → Text → Option (Text × Text)
unfolding starts_with
split_at pattern [] = none
split_at pattern (c ∷ s) =
    let rest : Option (Text × Text) = elim (split_at pattern s) [
      | none ↦ none
      | some (before, after) ↦ some (c ∷ before, after)
    ] in
    if starts_with pattern (c ∷ s) then some ([], drop (length pattern) (c ∷ s)) else rest
