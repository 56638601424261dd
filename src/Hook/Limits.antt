-- ===== src/Hook/Limits.antt =====
-- crates/terratranslate-wine-hook/src/lib.rs: the length of `bounded_utf8`.
use terra_translate.Base.{
  ℕ, zero, suc, ◌-◌, ◌≤◌, Text, [], ◌∷◌, length, length-append, Bool, true, false, ltb,
  if◌then◌else◌, Option, none, some, ◌≡◌, refl, arith,
}
use terra_translate.Base.Utf8.{char_bytes, as_bytes}
use terra_translate.Hook.Book.{prepend, before, or_shorter, truncated, bounded_utf8}

prepended :
    (c : ℕ) (rest : Option Text) (p : Text)
    → prepend c rest ≡ some p
    → (q : Text) × (rest ≡ some q) × (p ≡ c ∷ q)
prepended c none p e = cc
prepended c (some q) p e = (q, refl, cc)

reached :
    (short : Bool) (rest : Option Text) (p : Text)
    → (if short then none else rest) ≡ some p
    → (short ≡ false) × (rest ≡ some p)
reached true rest p e = cc
reached false rest p e = (refl, e)

-- The part before a byte has as many bytes as come before it.
length-before :
    (text : Text) (end : ℕ) (p : Text) → before text end ≡ some p → length (as_bytes p) ≡ end
unfolding before as_bytes
length-before text zero p e = let empty : p ≡ [] = cc in rw empty refl
length-before [] (suc end) p e = cc
length-before (c ∷ text) (suc end) p e =
    let width = length (char_bytes c) in
    let (long, some_p) =
      reached (ltb (suc end) width) (prepend c (before text (suc end - width))) p e in
    let (q, some_q, same) = prepended c (before text (suc end - width)) p some_p in
    let fits : width ≤ suc end = ground arith in
    rw same (
      omega (
        arith,
        fits,
        length-append (char_bytes c) (as_bytes q),
        length-before text (suc end - width) q some_q,
      ))

or_shorter_le :
    (text : Text) (end : ℕ) (found : Option Text)
    → before text (suc end) ≡ found
    → length (as_bytes (truncated end text)) ≤ end
    → length (as_bytes (or_shorter found (truncated end text))) ≤ suc end
or_shorter_le text end none e h = omega arith
or_shorter_le text end (some p) e h = omega (arith, length-before text (suc end) p e)

length-truncated : (end : ℕ) (text : Text) → length (as_bytes (truncated end text)) ≤ end
unfolding truncated as_bytes
length-truncated zero text = omega arith
length-truncated (suc end) text =
    or_shorter_le text end (before text (suc end)) refl (length-truncated end text)

-- A text that is bounded has at most as many bytes as the bound.
pub length-bounded_utf8 :
    (text : Text) (maximum : ℕ) → length (as_bytes (bounded_utf8 text maximum)) ≤ maximum
unfolding bounded_utf8
length-bounded_utf8 text maximum = ground (arith, length-truncated maximum text)
