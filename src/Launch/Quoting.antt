-- ===== src/Launch/Quoting.antt =====
-- crates/terratranslate-platform-linux/src/native_launch.rs: quoted arguments are parsed as they were.
use terra_translate.Base.{
  ℕ, ◌≤◌, ◌<◌, Text, is_whitespace, List, [], ◌∷◌, ◌++◌, map, length, Bool, true, false, Bool-cases,
  ◌==◌, Result, ok, ltb, ◌≡◌, ◌↔◌, refl, sym, ap, arith, All, append_assoc, append-nil, inl, inr,
  ◌∙◌, length-append, subst,
}
use terra_translate.Base.Split.{join}
use terra_translate.Base.Utf8.{as_bytes, char_bytes}
use terra_translate.Model.{Bytes}
use terra_translate.Launch.Arguments.{
  Quote, single, arm, plain, parse_from, parse_native_arguments, quote_bytes, shell_quote,
  NativeLaunchError,
}

plain_arm : (c : ℕ) → (c == b'\'') ≡ false → arm single c ≡ plain
unfolding arm
plain_arm c h = rw h refl

module _ (current : Text) (result : List Text) where
  -- A quotation mark that opens, and the one that closes.
  opens :
      (started : Bool) (s : Text)
      → parse_from Quote.none current started result (b'\'' ∷ s)
        ≡ parse_from single current true result s
  unfolding parse_from
  opens started [] = refl
  opens started (d ∷ s) = refl

  shuts :
      (started : Bool) (s : Text)
      → parse_from single current started result (b'\'' ∷ s)
        ≡ parse_from Quote.none current started result s
  unfolding parse_from
  shuts started [] = refl
  shuts started (d ∷ s) = refl

  escapes :
      (started : Bool) (c : ℕ) (s : Text)
      → parse_from Quote.none current started result (b'\\' ∷ c ∷ s)
        ≡ parse_from Quote.none (current ++ c ∷ []) true result s
  unfolding parse_from
  escapes started c s = refl

  takes :
      (started : Bool) (c : ℕ) (s : Text)
      → (c == b'\'') ≡ false
      → parse_from single current started result (c ∷ s)
        ≡ parse_from single (current ++ c ∷ []) true result s
  unfolding parse_from
  takes started c [] h = rw (plain_arm c h, parse_from) refl
  takes started c (d ∷ s) h = rw (plain_arm c h, parse_from) refl

-- Inside quotation marks the bytes of a value are taken as they are.
quoted :
    (value : Bytes) (current rest : Text) (result : List Text)
    → parse_from single current true result (quote_bytes value ++ rest)
      ≡ parse_from single (current ++ value) true result rest
unfolding quote_bytes
quoted [] current rest result = rw (append-nil current) refl
quoted (byte ∷ value) current rest result = elim (Bool-cases (byte == b'\'')) [
  | inl mark ↦
      let same : b'\'' ≡ byte = ground arith in
      let q = quote_bytes value ++ rest in
      rw mark (
        shuts current result true (b'\\' ∷ b'\'' ∷ b'\'' ∷ q)
        ∙ (escapes current result true b'\'' (b'\'' ∷ q)
            ∙ (opens (current ++ b'\'' ∷ []) result true q
                ∙ (quoted value (current ++ b'\'' ∷ []) rest result
                    ∙ (ap (λ l. parse_from single l true result rest)
                          (append_assoc current (b'\'' ∷ []) value)
                        ∙ ap (λ c. parse_from single (current ++ c ∷ value) true result rest)
                            same)))))
  | inr other ↦ rw other (
      takes current result true byte (quote_bytes value ++ rest) other
      ∙ (quoted value (current ++ byte ∷ []) rest result
          ∙ ap (λ l. parse_from single l true result rest)
              (append_assoc current (byte ∷ []) value)))
]

-- A quoted value becomes the current argument.
shell_quoted :
    (value : Bytes) (rest : Text) (result : List Text)
    → parse_from Quote.none [] false result (shell_quote value ++ rest)
      ≡ parse_from Quote.none value true result rest
unfolding shell_quote
shell_quoted value rest result =
    opens [] result false ((quote_bytes value ++ b'\'' ∷ []) ++ rest)
    ∙ (ap (parse_from single [] true result) (append_assoc (quote_bytes value) (b'\'' ∷ []) rest)
        ∙ (quoted value [] (b'\'' ∷ rest) result ∙ shuts value result true rest))

-- A space ends the argument.
spaced :
    (current : Text) (result : List Text) (s : Text)
    → parse_from Quote.none current true result (32 ∷ s)
      ≡ parse_from Quote.none [] false (result ++ current ∷ []) s
unfolding parse_from is_whitespace
spaced current result [] = refl
spaced current result (c ∷ s) = refl

ended :
    (current : Text) (result : List Text)
    → parse_from Quote.none current true result [] ≡ ok (result ++ current ∷ [])
unfolding parse_from
ended current result = refl

parse_joined :
    (value : Bytes) (values : List Bytes) (result : List Text)
    → parse_from Quote.none [] false result (join (32 ∷ []) (map shell_quote (value ∷ values)))
      ≡ ok (result ++ value ∷ values)
unfolding join
parse_joined value [] result =
    ap (parse_from Quote.none [] false result) (sym (append-nil (shell_quote value)))
    ∙ (shell_quoted value [] result ∙ ended value result)
parse_joined value (v ∷ values) result =
    let later = join (32 ∷ []) (map shell_quote (v ∷ values)) in
    shell_quoted value (32 ∷ later) result
    ∙ (spaced value result later
        ∙ (parse_joined v values (result ++ value ∷ [])
            ∙ ap ok (append_assoc result (value ∷ []) (v ∷ values))))

-- The characters of the arguments are the numbers of the bytes that were quoted.
parse_quoted :
    (values : List Bytes)
    → parse_native_arguments (join (32 ∷ []) (map shell_quote values)) ≡ ok values
unfolding parse_native_arguments
parse_quoted [] = unfold join in unfold parse_from in refl
parse_quoted (value ∷ values) = parse_joined value values []

char_bytes_ascii : (c : ℕ) → c < 128 → char_bytes c ≡ c ∷ []
unfolding char_bytes
char_bytes_ascii c h = ground arith

length-char_bytes : (c : ℕ) → (1 ≤ length (char_bytes c)) × (128 ≤ c → 2 ≤ length (char_bytes c))
unfolding char_bytes
length-char_bytes c = (ground arith, λ h. ground arith)

length-as_bytes : (s : Text) → length s ≤ length (as_bytes s)
unfolding as_bytes
length-as_bytes [] = omega arith
length-as_bytes (c ∷ s) =
    omega
      (arith, length-as_bytes s, length-append (char_bytes c) (as_bytes s), (length-char_bytes c).0)

tail_eq : (c : ℕ) (s t : Text) → c ∷ t ≡ c ∷ s → t ≡ s
tail_eq c s t e = ground arith

same_argument :
    (a b : Text)
    → ◌≡◌ {A = Result NativeLaunchError (List Text)} (ok (a ∷ [])) (ok (b ∷ []))
    → a ≡ b
same_argument a b e = ground arith

as_bytes_same : (s : Text) → All (λ b. b < 128) s → as_bytes s ≡ s
unfolding as_bytes
as_bytes_same [] a = refl
as_bytes_same (c ∷ s) a = rw (char_bytes_ascii c a.0, as_bytes_same s a.1) refl

map-as_bytes_same :
    (values : List Bytes) → All (All (λ b. b < 128)) values → map as_bytes values ≡ values
map-as_bytes_same [] a = refl
map-as_bytes_same (value ∷ values) a =
    rw (as_bytes_same value a.0, map-as_bytes_same values a.1) refl

-- ASCII values that are quoted one by one and joined by spaces are parsed as arguments that have the
-- same bytes, one for each value, whatever spaces, quotation marks and other ASCII characters stand
-- in them.
pub parse_native_arguments-shell_quote :
    (values : List Bytes)
    → All (All (λ b. b < 128)) values
    → (arguments : List Text) × (parse_native_arguments (join (32 ∷ []) (map shell_quote values))
        ≡ ok arguments)
      × (map as_bytes arguments ≡ values)
parse_native_arguments-shell_quote values ascii =
    (values, parse_quoted values, map-as_bytes_same values ascii)

same_ascii : (s : Text) → as_bytes s ≡ s → All (λ b. b < 128) s
unfolding as_bytes
same_ascii [] e = tt
same_ascii (c ∷ s) e = elim (Bool-cases (ltb c 128)) [
  | inl small ↦
      let short : c < 128 = ground arith in
      let rest : as_bytes s ≡ s =
        tail_eq c s (as_bytes s)
          (subst (λ l. l ++ as_bytes s ≡ c ∷ s) (char_bytes_ascii c short) e) in
      (short, same_ascii s rest)
  | inr big ↦
      let wide : 2 ≤ length (char_bytes c) = (length-char_bytes c).1 (ground arith) in
      absurd (
        omega
          (arith, ap length e, length-append (char_bytes c) (as_bytes s), length-as_bytes s, wide))
]

-- A value that is quoted and parsed again comes back with the same bytes exactly if it is ASCII.
pub shell_quote_iff :
    (value : Bytes)
    → ((argument : Text) × (parse_native_arguments (shell_quote value) ≡ ok (argument ∷ []))
        × (as_bytes argument ≡ value))
      ↔ All (λ b. b < 128) value
shell_quote_iff value =
    let back : parse_native_arguments (shell_quote value) ≡ ok (value ∷ []) =
      unfold join in parse_quoted (value ∷ []) in
    (
      λ h.
          let one : h.0 ≡ value = same_argument h.0 value (sym h.1 ∙ back) in
          same_ascii value (subst (λ a. as_bytes a ≡ value) one h.2),
      λ a. (value, back, as_bytes_same value a),
    )
