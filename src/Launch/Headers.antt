-- ===== src/Launch/Headers.antt =====
-- crates/terratranslate-platform-linux/src/native_launch.rs: for which files `ElfIdentity::read` panics.
use terra_translate.Base.{
  ℕ, ◌≤◌, length, take, ap, [], ◌∷◌, ◌++◌, none, some, Text-discrete, ◌≡◌, ◌≢◌, ◌↔◌, arith, inl,
  inr, ◌⊎◌,
}
use terra_translate.Model.{Bytes}
use terra_translate.Launch.Elf.{slice, magic, read, read_magic}

-- A file that ends after the magic number, or after the class of a known one.
abbrev pub IsCutShort : Bytes → Type 0
IsCutShort bytes =
    (bytes ≡ magic) ⊎ ((class : ℕ) × (bytes ≡ magic ++ class ∷ []) × ((class ≡ 1) ⊎ (class ≡ 2)))

cut_length : (bytes : Bytes) → IsCutShort bytes → (4 ≤ length bytes) × (length bytes ≤ 5)
cut_length bytes (inl e) = omega (arith, ap length e)
cut_length bytes (inr (class, e, k)) = omega (arith, ap length e)

four :
    (a b c d : ℕ)
    → (read_magic (some (a ∷ b ∷ c ∷ d ∷ [])) (a ∷ b ∷ c ∷ d ∷ []) ≡ none)
      ↔ (a ∷ b ∷ c ∷ d ∷ [] ≡ magic)
four a b c d = elim (Text-discrete (a ∷ b ∷ c ∷ d ∷ []) magic) [
  | yes same ↦ (λ e. same, λ e. ground arith)
  | no other ↦ (λ e. ground arith, λ e. absurd (other e))
]

five :
    (a b c d class : ℕ)
    → (read_magic (some (a ∷ b ∷ c ∷ d ∷ [])) (a ∷ b ∷ c ∷ d ∷ class ∷ []) ≡ none)
      ↔ ((a ∷ b ∷ c ∷ d ∷ [] ≡ magic) × ((class ≡ 1) ⊎ (class ≡ 2)))
five a b c d class = elim (Text-discrete (a ∷ b ∷ c ∷ d ∷ []) magic) [
  | yes same ↦ (λ e. (same, ground arith), λ e. ground arith)
  | no other ↦ (λ e. ground arith, λ e. absurd (other e.0))
]

four_magic : (a b c d : ℕ) → IsCutShort (a ∷ b ∷ c ∷ d ∷ []) → a ∷ b ∷ c ∷ d ∷ [] ≡ magic
four_magic a b c d (inl e) = e
four_magic a b c d (inr (class, e, k)) = absurd (omega (arith, ap length e))

five_magic :
    (a b c d class : ℕ)
    → IsCutShort (a ∷ b ∷ c ∷ d ∷ class ∷ [])
    → (a ∷ b ∷ c ∷ d ∷ [] ≡ magic) × ((class ≡ 1) ⊎ (class ≡ 2))
five_magic a b c d class (inl e) = absurd (omega (arith, ap length e))
five_magic a b c d class (inr (k, e, known)) =
    (ap (take 4) e, let same : class ≡ k = ground arith in rw same known)

-- A file with a sixth byte.
longer :
    (a b c d class order : ℕ) (bytes : Bytes) → read (a ∷ b ∷ c ∷ d ∷ class ∷ order ∷ bytes) ≢ none
unfolding read slice
longer a b c d class order bytes = λ e. ground arith

-- Reading the header of a file panics exactly if the file ends after the four bytes of the magic
-- number, or after a fifth byte that is a class of files, 1 or 2.
pub read_panics_iff : (bytes : Bytes) → (read bytes ≡ none) ↔ IsCutShort bytes
unfolding read slice
read_panics_iff [] = (λ e. cc, λ h. absurd (omega (arith, cut_length [] h)))
read_panics_iff (a ∷ []) = (λ e. cc, λ h. absurd (omega (arith, cut_length (a ∷ []) h)))
read_panics_iff (a ∷ b ∷ []) = (λ e. cc, λ h. absurd (omega (arith, cut_length (a ∷ b ∷ []) h)))
read_panics_iff (a ∷ b ∷ c ∷ []) =
    (λ e. cc, λ h. absurd (omega (arith, cut_length (a ∷ b ∷ c ∷ []) h)))
read_panics_iff (a ∷ b ∷ c ∷ d ∷ []) =
    let same = four a b c d in (λ e. inl (same.0 e), λ h. same.1 (four_magic a b c d h))
read_panics_iff (a ∷ b ∷ c ∷ d ∷ class ∷ []) =
    let same = five a b c d class in
    (
      λ e. let (m, k) = same.0 e in inr (class, ap (λ l. l ++ class ∷ []) m, k),
      λ h. same.1 (five_magic a b c d class h),
    )
read_panics_iff (a ∷ b ∷ c ∷ d ∷ class ∷ order ∷ bytes) = (
  λ e. absurd (longer a b c d class order bytes e),
  λ h. absurd (omega (arith, cut_length (a ∷ b ∷ c ∷ d ∷ class ∷ order ∷ bytes) h)),
)
