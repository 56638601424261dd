-- ===== src/Protocol/Keys.antt =====
-- crates/terratranslate-wine-protocol/src/lib.rs: the bytes that a stable key is the digest of are
-- an unambiguous encoding of what identifies a text source.
use terra_translate.Base.{
  ℕ, zero, suc, ◌/◌, ◌<◌, Text, txt, [], ◌∷◌, ◌++◌, length, Option, none, some, ◌≡◌, refl, arith,
  ap, ◌↔◌,
}
use terra_translate.Base.Utf8.{as_bytes, IsText, from_utf8-as_bytes}
use terra_translate.Model.{Bytes}
use terra_translate.Protocol.{
  HookPlatform, ExecutableIdentity, StableCandidateKey, linux, windows, platform_tag, stable_id,
  module_text, to_le_bytes, hash_field, offset_bytes, key_bytes, derive,
}

-- A number of at most `w` bytes.
abbrev pub Fits : ℕ → ℕ → Type 0
Fits zero n = n ≡ 0
Fits (suc w) n = Fits w (n / 256)

u64-Fits : (n : ℕ) → n < 18446744073709551616 → Fits 8 n
u64-Fits n h = omega arith

cons_split : {x y : ℕ} {xs ys : Bytes} → ◌≡◌ {A = Bytes} (x ∷ xs) (y ∷ ys) → (x ≡ y) × (xs ≡ ys)
cons_split h = (cc, cc)

-- Numbers of `w` bytes at the front of two texts that are the same.
le_split :
    (w n m : ℕ) (xs ys : Bytes)
    → Fits w n
    → Fits w m
    → to_le_bytes w n ++ xs ≡ to_le_bytes w m ++ ys
    → (n ≡ m) × (xs ≡ ys)
unfolding to_le_bytes
le_split zero n m xs ys f g h = (omega arith, h)
le_split (suc w) n m xs ys f g h =
    let (low, rest) = cons_split h in
    let (high, tail) = le_split w (n / 256) (m / 256) xs ys f g rest in (omega arith, tail)

-- Parts of one length at the front.
append_split :
    (as' bs xs ys : Bytes) → length as' ≡ length bs → as' ++ xs ≡ bs ++ ys → (as' ≡ bs) × (xs ≡ ys)
append_split [] [] xs ys n h = (refl, h)
append_split [] (b ∷ bs) xs ys n h = absurd (omega arith)
append_split (a ∷ as') [] xs ys n h = absurd (omega arith)
append_split (a ∷ as') (b ∷ bs) xs ys n h =
    let (e, rest) = cons_split h in
    let (f, tail) = append_split as' bs xs ys (omega arith) rest in (cc, tail)

-- A text of Unicode scalar values whose length is a `u64`.
abbrev pub IsField : Text → Type 0
IsField s = IsText s × (length (as_bytes s) < 18446744073709551616)

as_bytes_injective : (s t : Text) → IsText s → IsText t → as_bytes s ≡ as_bytes t → s ≡ t
as_bytes_injective s t a b e =
    let p = from_utf8-as_bytes s a in let q = from_utf8-as_bytes t b in cc

bytes_split :
    (s t : Text) (xs ys : Bytes)
    → length (as_bytes s) < 18446744073709551616
    → length (as_bytes t) < 18446744073709551616
    → hash_field s ++ xs ≡ hash_field t ++ ys
    → (as_bytes s ≡ as_bytes t) × (xs ≡ ys)
unfolding hash_field
bytes_split s t xs ys f g h =
    let (n, rest) =
      le_split 8 (length (as_bytes s)) (length (as_bytes t)) (as_bytes s ++ xs) (as_bytes t ++ ys)
        (u64-Fits (length (as_bytes s)) f) (u64-Fits (length (as_bytes t)) g) h in
    append_split (as_bytes s) (as_bytes t) xs ys n rest

field_split :
    (s t : Text) (xs ys : Bytes)
    → IsField s
    → IsField t
    → hash_field s ++ xs ≡ hash_field t ++ ys
    → (s ≡ t) × (xs ≡ ys)
field_split s t xs ys f g h =
    let (e, tail) = bytes_split s t xs ys f.1 g.1 h in (as_bytes_injective s t f.0 g.0 e, tail)

-- What the offset can be: nothing, or a `u64`.
abbrev pub IsOffset : Option ℕ → Type 0
IsOffset none = Unit
IsOffset (some o) = o < 18446744073709551616

offset_injective :
    (o p : Option ℕ) → IsOffset o → IsOffset p → offset_bytes o ≡ offset_bytes p → o ≡ p
offset_injective none none a b h = refl
offset_injective none (some p) a b h = absurd (omega (arith, (cons_split h).0))
offset_injective (some o) none a b h = absurd (omega (arith, (cons_split h).0))
offset_injective (some o) (some p) a b h =
    let (n, _) =
      le_split 8 o p [] [] (u64-Fits o a) (u64-Fits p b) (ap (λ l. l ++ []) (cons_split h).1) in
    ap some n

tag_length : (p : HookPlatform) → length (as_bytes (platform_tag p)) < 18446744073709551616
unfolding platform_tag as_bytes
tag_length linux = omega arith
tag_length windows = omega arith

tag_injective : (p q : HookPlatform) → as_bytes (platform_tag p) ≡ as_bytes (platform_tag q) → p ≡ q
unfolding platform_tag as_bytes
tag_injective linux linux h = refl
tag_injective linux windows h = absurd (omega (arith, (cons_split h).0))
tag_injective windows linux h = absurd (omega (arith, (cons_split h).0))
tag_injective windows windows h = refl

prefix_split : (xs ys zs : Bytes) → xs ++ ys ≡ xs ++ zs → ys ≡ zs
prefix_split xs ys zs h = (append_split xs xs ys zs refl h).1

abbrev fields : HookPlatform → Text → Text → Text → Option ℕ → Bytes
fields platform id adapter caller offset =
    as_bytes (txt "terratranslate-hook-candidate-v1" ++ 0 ∷ [])
    ++ (hash_field (platform_tag platform)
        ++ (hash_field id ++ (hash_field adapter ++ (hash_field caller ++ offset_bytes offset))))

same_bytes :
    {p q : HookPlatform} {i j a b c d : Text} {o r : Option ℕ}
    → p ≡ q
    → i ≡ j
    → a ≡ b
    → c ≡ d
    → o ≡ r
    → fields p i a c o ≡ fields q j b d r
same_bytes e1 e2 e3 e4 e5 = rw (e1, e2, e3, e4, e5) refl

-- A text source, with what makes up its identity.
pub record Source : Type 0 where
  pub platform : HookPlatform
  pub executable : ExecutableIdentity
  pub adapter_id : Text
  pub caller_module : Option Text
  pub module_offset : Option ℕ

module _ (hash_hex : Bytes → Text) (to_lowercase : Text → Text) where
  abbrev pub key_of : Source → StableCandidateKey
  key_of x =
      derive hash_hex to_lowercase x.platform x.executable x.adapter_id x.caller_module
        x.module_offset

  -- Its texts are Unicode, and its numbers are in the range of a `u64`.
  pub record IsSource (x : Source) : Type 0 where
    pub id : IsField (stable_id to_lowercase x.executable x.platform)
    pub adapter : IsField x.adapter_id
    pub caller : IsField (module_text to_lowercase x.caller_module x.platform)
    pub offset : IsOffset x.module_offset

  -- The same platform, executable, adapter, module and offset, as `derive` normalizes them.
  pub record IsSameSource (x y : Source) : Type 0 where
    pub platform : x.platform ≡ y.platform
    pub executable :
        stable_id to_lowercase x.executable x.platform
        ≡ stable_id to_lowercase y.executable y.platform
    pub adapter : x.adapter_id ≡ y.adapter_id
    pub caller :
        module_text to_lowercase x.caller_module x.platform
        ≡ module_text to_lowercase y.caller_module y.platform
    pub offset : x.module_offset ≡ y.module_offset

  -- Two text sources have one stable key exactly if they are the same source up to normalization,
  -- if the digest has no collisions.
  pub derive_iff :
      ((a b : Bytes) → hash_hex a ≡ hash_hex b → a ≡ b)
      → (x y : Source) → IsSource x
      → IsSource y
      → (key_of x ≡ key_of y) ↔ IsSameSource x y
  unfolding derive key_bytes
  derive_iff injective x y f g = (
    λ h.
        let (tag, r1) =
          bytes_split (platform_tag x.platform) (platform_tag y.platform) _ _
            (tag_length x.platform) (tag_length y.platform)
            (prefix_split (as_bytes (txt "terratranslate-hook-candidate-v1" ++ 0 ∷ [])) _ _
              (injective _ _ h)) in
        let (executable, r2) = field_split _ _ _ _ f.id g.id r1 in
        let (adapter, r3) = field_split _ _ _ _ f.adapter g.adapter r2 in
        let (caller, r4) = field_split _ _ _ _ f.caller g.caller r3 in
        record {
          platform = tag_injective x.platform y.platform tag;
          executable = executable;
          adapter = adapter;
          caller = caller;
          offset = offset_injective x.module_offset y.module_offset f.offset g.offset r4;
        },
    λ same.
        ap hash_hex (same_bytes same.platform same.executable same.adapter same.caller same.offset),
  )
