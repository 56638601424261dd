-- ===== src/Launch/Checks.antt =====
-- crates/terratranslate-platform-linux/src/native_launch.rs: which applications are launched.
use Prim.Native.Nat.{bit_and}
use terra_translate.Base.{
  Text, txt, starts_with, true, Bool-cases, Option, none, some, ok, ◌⊎◌, inl, inr, ◌≡◌, ◌≢◌, ◌↔◌,
  refl, subst, arith,
}
use terra_translate.Model.{Bytes}
use terra_translate.Launch.Elf.{ElfIdentity, read}
use terra_translate.Launch.Plan.{
  NativeLaunchRequest, NativeLaunchPlan, Metadata, System, check_elf, check_contents,
  check_metadata, validate_executable, or_parent, combined_preload, is_dir, is_file,
  native_hook_availability, available,
}

-- A file that the loader of the system runs with the preloaded library: a script, or a dynamic ELF
-- file of 64 bits.
abbrev pub IsPreloadable : Bytes → Type 0
IsPreloadable bytes =
    (starts_with (txt "#!") bytes ≡ true)
    ⊎ ((elf : ElfIdentity) × (read bytes ≡ some (some elf))
        × (elf.class ≡ 2)
        × (elf.has_interpreter ≡ true))

-- A regular file with a bit for execution and without one for another user or group.
abbrev pub IsExecutable : Metadata → Type 0
IsExecutable metadata =
    (metadata.is_file ≡ true) × (bit_and metadata.mode 0x49 ≢ 0) × (bit_and metadata.mode 0xc00 ≡ 0)

-- The file at a path can be read and is both.
abbrev pub IsAccepted : System → Bytes → Type 0
IsAccepted system path =
    (metadata : Metadata) × (bytes : Bytes) × (system.metadata path ≡ inr metadata)
    × (system.contents path ≡ inr bytes)
    × IsExecutable metadata
    × IsPreloadable bytes

check_elf_iff :
    (path : Bytes) (header : Option (Option ElfIdentity))
    → (check_elf path header ≡ some (ok tt)) ↔ (
        (elf : ElfIdentity) × (header ≡ some (some elf))
        × (elf.class ≡ 2)
        × (elf.has_interpreter ≡ true))
check_elf_iff path none = (λ e. cc, λ (elf, e, c, i). cc)
check_elf_iff path (some none) = (λ e. cc, λ (elf, e, c, i). cc)
check_elf_iff path (some (some elf)) =
    (λ e. (elf, refl, ground arith, ground arith), λ (other, e, c, i). ground arith)

check_file_iff :
    (path bytes : Bytes) → (check_contents path (inr bytes) ≡ some (ok tt)) ↔ IsPreloadable bytes
check_file_iff path bytes = elim (Bool-cases (starts_with (txt "#!") bytes)) [
  | inl script ↦ (λ e. inl script, λ p. rw script refl)
  | inr other ↦
      let header = check_elf_iff path (read bytes) in
      rw other (λ e. inr (header.0 e), λ p. elim p [ inl script ↦ cc | inr h ↦ header.1 h ])
]

check_contents_iff :
    (path : Bytes) (found : Text ⊎ Bytes)
    → (check_contents path found ≡ some (ok tt))
      ↔ ((bytes : Bytes) × (found ≡ inr bytes) × IsPreloadable bytes)
check_contents_iff path (inl source) = (λ e. cc, λ (bytes, e, p). cc)
check_contents_iff path (inr bytes) =
    let same = check_file_iff path bytes in
    (
      λ e. (bytes, refl, same.0 e),
      λ (other, e, p). let here : other ≡ bytes = cc in same.1 (subst IsPreloadable here p),
    )

metadata_iff :
    (path : Bytes) (metadata : Metadata) (found : Text ⊎ Bytes)
    → (check_metadata path (inr metadata) found ≡ some (ok tt))
      ↔ (IsExecutable metadata × (check_contents path found ≡ some (ok tt)))
metadata_iff path metadata found = (λ e. ground arith, λ (x, e). ground arith)

accepted_iff :
    (path : Bytes) (metadata : Text ⊎ Metadata) (contents : Text ⊎ Bytes)
    → (check_metadata path metadata contents ≡ some (ok tt)) ↔ (
        (m : Metadata) × (bytes : Bytes) × (metadata ≡ inr m)
        × (contents ≡ inr bytes)
        × IsExecutable m
        × IsPreloadable bytes)
accepted_iff path (inl source) contents = (λ e. cc, λ (m, bytes, e, r, x, p). cc)
accepted_iff path (inr metadata) contents =
    let same = metadata_iff path metadata contents in
    let found = check_contents_iff path contents in
    (
      λ e.
          let (bytes, read_, p) = found.0 (same.0 e).1 in
          (metadata, bytes, refl, read_, (same.0 e).0, p),
      λ (m, bytes, e, read_, x, p).
          let here : m ≡ metadata = cc in
          same.1 (subst IsExecutable here x, found.1 (bytes, read_, p)),
    )

pub validate_executable_iff :
    (system : System) (path : Bytes)
    → (validate_executable system path ≡ some (ok tt)) ↔ IsAccepted system path
unfolding validate_executable
validate_executable_iff system path =
    accepted_iff path (system.metadata path) (system.contents path)

-- The plan for a request, with the library before what was to be preloaded anyway.
abbrev pub made : System → NativeLaunchRequest → NativeLaunchPlan
made system request = record {
  executable = request.executable;
  arguments = request.arguments;
  working_directory = or_parent request.working_directory request.executable;
  preload = combined_preload request.preload_library system.ld_preload;
  hook_config = request.hook_config;
}

-- Both files of the request are regular files, hooks are available, the executable is accepted, and
-- the directory of the plan is one.
abbrev pub IsReady : System → NativeLaunchRequest → Type 0
IsReady system request =
    (is_file (system.metadata request.preload_library) ≡ true)
    × (is_file (system.metadata request.hook_config) ≡ true)
    × (native_hook_availability system ≡ available)
    × IsAccepted system request.executable
    × (is_dir (system.metadata (made system request).working_directory) ≡ true)
