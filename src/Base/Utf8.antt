-- ===== src/Base/Utf8.antt =====
-- UTF-8: `str::as_bytes` and `String::from_utf8`.
use Prim.Native.Nat.{ℕ, zero, suc, ◌+◌, ◌-◌, ◌*◌, ◌/◌, ◌%◌}
use mathlib.Core.Path.{◌≡◌, refl}
use mathlib.Core.List.{List, [], ◌∷◌, ◌++◌}
use mathlib.Core.Bool.{Bool, true, not, ◌&&◌}
use mathlib.Core.Option
use mathlib.Core.Option.{Option, none, some}
use native.Mathlib.Omega.{arith}
use terra_translate.Base.Tests.{ltb, leb, if◌then◌else◌}
use terra_translate.Base.Lists.{All}
use terra_translate.Base.Strings.{Text}

unfoldable pub char_bytes : ℕ → List ℕ
char_bytes c =
    if ltb c 0x80
    then c ∷ []
    else if ltb c 0x800
    then (0xc0 + c / 64) ∷ (0x80 + c % 64) ∷ []
    else if ltb c 0x10000
    then (0xe0 + c / 4096) ∷ (0x80 + c / 64 % 64) ∷ (0x80 + c % 64) ∷ []
    else (0xf0 + c / 262144) ∷ (0x80 + c / 4096 % 64) ∷ (0x80 + c / 64 % 64) ∷ (0x80 + c % 64) ∷ []

-- `str::as_bytes`
unfoldable pub as_bytes : Text → List ℕ
unfolding char_bytes
as_bytes [] = []
as_bytes (c ∷ s) = char_bytes c ++ as_bytes s

-- How many bytes of a character are still to come, its bits so far, and the least value that needs
-- that many bytes.
pub record Decoder : Type 0 where
  pub missing : ℕ
  pub bits : ℕ
  pub least : ℕ

abbrev pub at_boundary : Decoder
at_boundary = record { missing = 0; bits = 0; least = 0 }

unfoldable pub is_scalar : ℕ → Bool
is_scalar c = ltb c 0x110000 && not (leb 0xd800 c && ltb c 0xe000)

-- `none` is an invalid byte; otherwise the character that the byte completes, if any.
unfoldable pub decode_byte : ℕ → ℕ → ℕ → ℕ → Option (List ℕ × Decoder)
unfolding is_scalar
decode_byte zero bits least b =
    if ltb b 0x80
    then some (b ∷ [], at_boundary)
    else if leb 0xc0 b && ltb b 0xe0
    then some ([], record { missing = 1; bits = b - 0xc0; least = 0x80 })
    else if leb 0xe0 b && ltb b 0xf0
    then some ([], record { missing = 2; bits = b - 0xe0; least = 0x800 })
    else if leb 0xf0 b && ltb b 0xf8
    then some ([], record { missing = 3; bits = b - 0xf0; least = 0x10000 })
    else none
decode_byte (suc zero) bits least b =
    let c = bits * 64 + (b - 0x80) in
    if leb 0x80 b && ltb b 0xc0 && leb least c && is_scalar c
    then some (c ∷ [], at_boundary)
    else none
decode_byte (suc (suc n)) bits least b =
    if leb 0x80 b && ltb b 0xc0
    then some ([], record { missing = suc n; bits = bits * 64 + (b - 0x80); least = least })
    else none

unfoldable pub decode_from : Decoder → List ℕ → Option Text
unfolding decode_byte
decode_from d [] = elim d.missing [ zero ↦ some [] | suc n ↦ none ]
decode_from d (b ∷ bs) = elim (decode_byte d.missing d.bits d.least b) [
  | none ↦ none
  | some (out, e) ↦ Option.map (λ s. out ++ s) (decode_from e bs)
]

-- `String::from_utf8`
unfoldable pub from_utf8 : List ℕ → Option Text
unfolding decode_from
from_utf8 bytes = decode_from at_boundary bytes

-- What a `String` holds: Unicode scalar values.
abbrev pub IsText : Text → Type 0
IsText = All (λ c. is_scalar c ≡ true)

decode_char :
    (c : ℕ) (bs : List ℕ) (s : Text)
    → is_scalar c ≡ true
    → from_utf8 bs ≡ some s
    → from_utf8 (char_bytes c ++ bs) ≡ some (c ∷ s)
unfolding from_utf8 char_bytes
decode_char c bs s h e = ground arith

-- What was written as bytes reads back.
pub from_utf8-as_bytes : (s : Text) → IsText s → from_utf8 (as_bytes s) ≡ some s
unfolding as_bytes
from_utf8-as_bytes [] h = unfold from_utf8 in refl
from_utf8-as_bytes (c ∷ s) h = decode_char c (as_bytes s) s h.0 (from_utf8-as_bytes s h.1)
