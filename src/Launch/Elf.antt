-- ===== src/Launch/Elf.antt =====
-- crates/terratranslate-platform-linux/src/native_launch.rs: `ElfIdentity::read`. Numbers of 64 bits
-- wrap, as in a release build.
use terra_translate.Base.{
  ℕ, zero, suc, ◌+◌, ◌-◌, ◌*◌, ◌%◌, ◌^◌, min, [], ◌∷◌, length, take, drop, get_elem?, reverse, Bool,
  true, false, leb, ◌==◌, ◌||◌, ◌&&◌, Option, none, some, if◌then◌else◌, ite, Text-discrete,
}
use terra_translate.Model.{Bytes}
use terra_translate.Bridge.Handshake.{from_le_bytes}

-- `get(start..end)`
unfoldable pub slice : ℕ → ℕ → Bytes → Option Bytes
slice first last bytes =
    if leb first last && leb last (length bytes)
    then some (take (last - first) (drop first bytes))
    else none

pub record ElfIdentity : Type 0 where
  pub class : ℕ
  pub has_interpreter : Bool

-- `read_u16`, `read_u32` and `read_u64`
unfoldable pub read_number : ℕ → Bool → Bytes → ℕ → Option ℕ
unfolding slice from_le_bytes
read_number width little bytes offset = elim (slice offset ((offset + width) % 2 ^ 64) bytes) [
  | none ↦ none
  | some raw ↦ some (if little then from_le_bytes raw else from_le_bytes (reverse raw))
]

-- The largest number of 64 bits.
abbrev saturated : ℕ → ℕ
saturated n = min n (2 ^ 64 - 1)

-- `(index..count).any(…)`, for as many indices as are left
unfoldable pub any_interpreter : ℕ → ℕ → ℕ → ℕ → Bool → Bytes → Bool
unfolding read_number
any_interpreter zero index program_offset entry_size little bytes = false
any_interpreter (suc left) index program_offset entry_size little bytes =
    let rest = any_interpreter left (suc index) program_offset entry_size little bytes in
    elim (read_number 4 little bytes
      (saturated (program_offset + saturated (index * entry_size)))) [
        | none ↦ rest
        | some kind ↦ if kind == 3 then true else rest
      ]

abbrev pub identity : ℕ → Bool → Bytes → Option ℕ → Option ℕ → Option ℕ → Option ElfIdentity
identity class little bytes (some program_offset) (some entry_size) (some count) = some (record {
  class = class;
  has_interpreter = any_interpreter count 0 program_offset entry_size little bytes;
})
identity class little bytes _ _ _ = none

-- The reader after the class and the byte order.
unfoldable pub read_class : ℕ → ℕ → Bytes → Option ElfIdentity
unfolding read_number any_interpreter
read_class class order bytes =
    let little = order == 1 in
    let n = λ (width offset : ℕ). read_number width little bytes offset in
    if class == 2
    then identity class little bytes (n 8 32) (n 2 54) (n 2 56)
    else identity class little bytes (n 4 28) (n 2 42) (n 2 44)

-- `\x7fELF`
abbrev pub magic : Bytes
magic = 0x7f ∷ b'E' ∷ b'L' ∷ b'F' ∷ []

abbrev pub read_order : ℕ → Option ℕ → Bytes → Option (Option ElfIdentity)
read_order class none bytes = none
read_order class (some order) bytes = some (read_class class order bytes)

abbrev pub read_rest : Option ℕ → Option ℕ → Bytes → Option (Option ElfIdentity)
read_rest none order bytes = none
read_rest (some class) order bytes =
    if class == 1 || class == 2 then read_order class order bytes else some none

abbrev pub read_magic : Option Bytes → Bytes → Option (Option ElfIdentity)
read_magic none bytes = some none
read_magic (some start) bytes =
    ite (Text-discrete start magic) (read_rest (get_elem? bytes 4) (get_elem? bytes 5) bytes)
      (some none)

-- `ElfIdentity::read`; the outer `none` is the panic of an index out of bounds.
unfoldable pub read : Bytes → Option (Option ElfIdentity)
unfolding slice read_class
read bytes = read_magic (slice 0 4 bytes) bytes
