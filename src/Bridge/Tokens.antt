-- ===== src/Bridge/Tokens.antt =====
-- crates/terratranslate-platform-linux/src/wine_bridge.rs: the comparison of tokens in constant time.
use Prim.Native.Nat.{bit_or, bit_xor, bit_or-bitwise, bit_xor-bitwise, digits, differ, max}
use terra_translate.Base.{ℕ, zero, suc, ◌/◌, ◌%◌, ◌≤◌, [], ◌∷◌, length, true, ◌≡◌, ◌↔◌, refl, arith}
use terra_translate.Model.{Bytes}
use terra_translate.Bridge.Validate.{fold_difference, tokens_equal}

differ_zero : (x y : ℕ) → (differ x y ≡ 0) ↔ (x ≡ y)
differ_zero zero y = (λ e. omega arith, λ e. omega arith)
differ_zero (suc x) zero = (λ e. omega arith, λ e. omega arith)
differ_zero (suc x) (suc y) =
    let same = differ_zero x y in (λ e. omega (arith, same.0 e), λ e. same.1 (omega arith))

xor_digits : (n a b : ℕ) → a ≤ n → (digits (λ d. d) differ n a b ≡ 0) ↔ (a ≡ b)
xor_digits zero zero b h = (λ e. omega arith, λ e. omega arith)
xor_digits zero (suc a) b h = absurd (omega arith)
xor_digits (suc n) zero b h = (λ e. omega arith, λ e. omega arith)
xor_digits (suc n) (suc a) b h =
    let high = xor_digits n (suc a / 2) (b / 2) (omega arith) in
    let low = differ_zero (suc a % 2) (b % 2) in
    (
      λ e. omega (arith, high.0 (omega arith), low.0 (omega arith)),
      λ e. omega (arith, high.1 (omega arith), low.1 (omega arith)),
    )

or_digits : (n a b : ℕ) → a ≤ n → (digits (λ d. d) max n a b ≡ 0) ↔ ((a ≡ 0) × (b ≡ 0))
or_digits zero zero b h = (λ e. (refl, e), λ e. e.1)
or_digits zero (suc a) b h = absurd (omega arith)
or_digits (suc n) zero b h = (λ e. (refl, e), λ e. e.1)
or_digits (suc n) (suc a) b h =
    let high = or_digits n (suc a / 2) (b / 2) (omega arith) in
    (
      λ e. let both = high.0 (omega arith) in omega (arith, both.0, both.1),
      λ e. absurd (omega arith),
    )

xor_zero : (a b : ℕ) → (bit_xor a b ≡ 0) ↔ (a ≡ b)
xor_zero a b = rw (bit_xor-bitwise a b) (xor_digits a a b (omega arith))

or_zero : (a b : ℕ) → (bit_or a b ≡ 0) ↔ ((a ≡ 0) × (b ≡ 0))
or_zero a b = rw (bit_or-bitwise a b) (or_digits a a b (omega arith))

fold_difference_zero :
    (d : ℕ) (left right : Bytes)
    → length left ≡ length right
    → (fold_difference d left right ≡ 0) ↔ ((d ≡ 0) × (left ≡ right))
unfolding fold_difference
fold_difference_zero d [] [] h = (λ e. (e, refl), λ e. e.0)
fold_difference_zero d [] (r ∷ right) h = absurd (omega arith)
fold_difference_zero d (l ∷ left) [] h = absurd (omega arith)
fold_difference_zero d (l ∷ left) (r ∷ right) h =
    let rest = fold_difference_zero (bit_or d (bit_xor l r)) left right (omega arith) in
    let both = or_zero d (bit_xor l r) in
    let same = xor_zero l r in
    (
      λ e. let (z, t) = rest.0 e in ((both.0 z).0, ground (arith, same.0 (both.0 z).1)),
      λ e. rest.1 (both.1 (e.0, same.1 (ground arith)), ground arith),
    )

-- Two tokens of one length compare as equal exactly if they are the same.
pub tokens_equal_iff :
    (left right : Bytes)
    → length left ≡ length right
    → (tokens_equal left right ≡ true) ↔ (left ≡ right)
unfolding tokens_equal
tokens_equal_iff left right h =
    let same = fold_difference_zero 0 left right h in
    (λ e. (same.0 (ground arith)).1, λ e. let z = same.1 (refl, e) in ground arith)
