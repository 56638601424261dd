-- ===== src/Protocol/Token.antt =====
-- crates/terratranslate-wine-protocol/src/lib.rs: the token that authenticates a client is read from
-- its 64 hexadecimal digits.
use terra_translate.Base.{
  ℕ, ◌+◌, ◌-◌, ◌*◌, ◌/◌, ◌%◌, ◌<◌, Text, [], ◌∷◌, length, ltb, some, ok, ◌≡◌, refl, arith, All,
  if◌then◌else◌,
}
use terra_translate.Base.Utf8.{as_bytes}
use terra_translate.Model.{Bytes}
use terra_translate.Protocol.{HookBridgeConfig, hex_value, decode_pairs, authentication_token}

-- The lower-case digit of a number below 16.
unfoldable pub hex_digit : ℕ → ℕ
hex_digit n = if ltb n 10 then b'0' + n else b'a' + (n - 10)

-- The digits of the bytes, the high one first.
unfoldable pub to_hex : Bytes → Text
unfolding hex_digit
to_hex [] = []
to_hex (b ∷ bs) = hex_digit (b / 16) ∷ hex_digit (b % 16) ∷ to_hex bs

hex_value-hex_digit : (n : ℕ) → n < 16 → hex_value (hex_digit n) ≡ some n
unfolding hex_value hex_digit
hex_value-hex_digit n h = ground arith

hex_digit_ascii : (n : ℕ) → n < 16 → hex_digit n < 128
unfolding hex_digit
hex_digit_ascii n h = ground arith

as_bytes_ascii : (c : ℕ) (s : Text) → c < 128 → as_bytes (c ∷ s) ≡ c ∷ as_bytes s
unfolding as_bytes
as_bytes_ascii c s h = ground arith

two_digits :
    (b : ℕ) (s : Text)
    → b < 256
    → as_bytes (hex_digit (b / 16) ∷ hex_digit (b % 16) ∷ s)
      ≡ hex_digit (b / 16) ∷ hex_digit (b % 16) ∷ as_bytes s
two_digits b s h =
    rw
      (
        as_bytes_ascii (hex_digit (b / 16)) (hex_digit (b % 16) ∷ s)
            (hex_digit_ascii (b / 16) (omega arith)),
        as_bytes_ascii (hex_digit (b % 16)) s (hex_digit_ascii (b % 16) (omega arith)),
      )
      refl

decode_two :
    (b : ℕ) (rest bs : Bytes)
    → b < 256
    → decode_pairs rest ≡ ok bs
    → decode_pairs (hex_digit (b / 16) ∷ hex_digit (b % 16) ∷ rest) ≡ ok (b ∷ bs)
unfolding decode_pairs
decode_two b rest bs h e =
    let same : b / 16 * 16 + b % 16 ≡ b = omega arith in
    rw
      (
        hex_value-hex_digit (b / 16) (omega arith),
        hex_value-hex_digit (b % 16) (omega arith),
        e,
        same,
      )
      refl

decode_pairs-to_hex :
    (bs : Bytes) → All (λ b. b < 256) bs → decode_pairs (as_bytes (to_hex bs)) ≡ ok bs
unfolding to_hex decode_pairs as_bytes
decode_pairs-to_hex [] a = refl
decode_pairs-to_hex (b ∷ bs) a =
    rw (two_digits b (to_hex bs) a.0)
      (decode_two b (as_bytes (to_hex bs)) bs a.0 (decode_pairs-to_hex bs a.1))

length-to_hex : (bs : Bytes) → All (λ b. b < 256) bs → length (as_bytes (to_hex bs)) ≡ length bs * 2
unfolding to_hex as_bytes
length-to_hex [] a = refl
length-to_hex (b ∷ bs) a = rw (two_digits b (to_hex bs) a.0) (omega (arith, length-to_hex bs a.1))

-- The token that is written as the hexadecimal digits of 32 bytes is read as these bytes.
pub authentication_token-to_hex :
    (config : HookBridgeConfig) (token : Bytes)
    → All (λ b. b < 256) token
    → length token ≡ 32
    → config.authentication_token_hex ≡ to_hex token
    → authentication_token config ≡ ok token
unfolding authentication_token
authentication_token-to_hex config token a n e = rw e (
    let size : length (as_bytes (to_hex token)) ≡ 64 = omega (arith, length-to_hex token a) in
    rw size (decode_pairs-to_hex token a))

-- A hexadecimal digit in ASCII.
abbrev pub IsHexDigit : ℕ → Type 0
IsHexDigit c = (n : ℕ) × (hex_value c ≡ some n)
