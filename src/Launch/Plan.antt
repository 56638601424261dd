-- ===== src/Launch/Plan.antt =====
-- crates/terratranslate-platform-linux/src/native_launch.rs: `prepare_native_launch` and
-- `launch_native`, in a build for 64 bits. A path is the list of its bytes; what the operating system
-- answers is a parameter. The outer `none` is a panic.
use Prim.Native.Nat.{bit_and}
use terra_translate.Base.{
  Text, txt, starts_with, List, [], ◌∷◌, ◌++◌, reverse, Bool, true, false, not, ◌&&◌, ◌||◌, ◌==◌,
  Option, none, some, Result, ok, err, out_of_fuel, if◌then◌else◌, ◌⊎◌, inl, inr, ℕ,
}
use terra_translate.Base.Split.{join}
use terra_translate.Model.{Bytes}
use terra_translate.Launch.Arguments.{
  NativeLaunchError, unavailable, inspect, not_executable, wrong_elf_class, static_executable,
  secure_exec, invalid_working_directory, missing_preload, missing_hook_config, spawn,
}
use terra_translate.Launch.Elf.{ElfIdentity, read}

pub record NativeLaunchRequest : Type 0 where
  pub executable : Bytes
  pub arguments : List Bytes
  pub working_directory : Option Bytes
  pub preload_library : Bytes
  pub hook_config : Bytes

pub record NativeLaunchPlan : Type 0 where
  pub executable : Bytes
  pub arguments : List Bytes
  pub working_directory : Bytes
  pub preload : Bytes
  pub hook_config : Bytes

pub record Metadata : Type 0 where
  pub is_file : Bool
  pub is_dir : Bool
  pub mode : ℕ

-- What the operating system answers: whether `/.flatpak-info` exists, the variables `FLATPAK_ID` and
-- `LD_PRELOAD`, `fs::metadata` and `fs::read` with an error or a value, and the start of a process.
pub record System : Type 0 where
  pub flatpak_info : Bool
  pub flatpak_id : Option Bytes
  pub ld_preload : Option Bytes
  pub metadata : Bytes → Text ⊎ Metadata
  pub contents : Bytes → Text ⊎ Bytes
  pub start : NativeLaunchPlan → Text ⊎ ℕ

pub data NativeHookAvailability : Type 0 where
  available : NativeHookAvailability
  unavailable_because : Text → NativeHookAvailability

abbrev pub flatpak_reason : Text
flatpak_reason =
    txt
      "Flatpak cannot launch arbitrary host applications with LD_PRELOAD; use the host build of TerraTranslate. AT-SPI and window vision remain available."

abbrev pub is_some : Option Bytes → Bool
is_some none = false
is_some (some value) = true

-- `native_hook_availability`
unfoldable pub native_hook_availability : System → NativeHookAvailability
native_hook_availability system =
    if system.flatpak_info || is_some system.flatpak_id
    then unavailable_because flatpak_reason
    else available

-- What follows `ElfIdentity::read` in `validate_executable`.
abbrev pub check_elf :
    Bytes → Option (Option ElfIdentity) → Option (Result NativeLaunchError (Unit {0}))
check_elf path none = none
check_elf path (some none) = some (err (not_executable path))
check_elf path (some (some elf)) =
    if elf.class == 2
    then if elf.has_interpreter then some (ok tt) else some (err (static_executable path))
    else some (err (wrong_elf_class path))

abbrev pub check_contents : Bytes → Text ⊎ Bytes → Option (Result NativeLaunchError (Unit {0}))
check_contents path (inl source) = some (err (inspect path source))
check_contents path (inr bytes) =
    if starts_with (txt "#!") bytes then some (ok tt) else check_elf path (read bytes)

abbrev pub check_metadata :
    Bytes → Text ⊎ Metadata → Text ⊎ Bytes → Option (Result NativeLaunchError (Unit {0}))
check_metadata path (inl source) contents = some (err (inspect path source))
check_metadata path (inr metadata) contents =
    if not metadata.is_file || bit_and metadata.mode 0x49 == 0
    then some (err (not_executable path))
    else if not (bit_and metadata.mode 0xc00 == 0)
    then some (err (secure_exec path))
    else check_contents path contents

-- `validate_executable`
unfoldable pub validate_executable : System → Bytes → Option (Result NativeLaunchError (Unit {0}))
unfolding read starts_with
validate_executable system path = check_metadata path (system.metadata path) (system.contents path)

-- `Path::is_file` and `Path::is_dir`
abbrev pub is_file : Text ⊎ Metadata → Bool
is_file (inl source) = false
is_file (inr metadata) = metadata.is_file

abbrev pub is_dir : Text ⊎ Metadata → Bool
is_dir (inl source) = false
is_dir (inr metadata) = metadata.is_dir

-- `?` on a result that may also be a panic.
abbrev pub then_do {ℓ κ} :
    {A : Type ℓ} {B : Type κ}
    → Option (Result NativeLaunchError A)
    → (A → Option (Result NativeLaunchError B))
    → Option (Result NativeLaunchError B)
then_do none next = none
then_do (some (ok a)) next = next a
then_do (some (err e)) next = some (err e)
then_do (some out_of_fuel) next = some out_of_fuel

-- The parts of a path between its separators.
unfoldable pub parts_from : Bytes → Bytes → List Bytes
parts_from part [] = part ∷ []
parts_from part (c ∷ s) =
    let ended = part ∷ parts_from [] s in
    let longer = parts_from (part ++ c ∷ []) s in if c == b'/' then ended else longer

-- Parts that are empty or `.` are no components. The list is from the last part to the first.
abbrev pub is_skipped : Bytes → Bool
is_skipped [] = true
is_skipped (c ∷ []) = c == b'.'
is_skipped (c ∷ d ∷ s) = false

unfoldable pub skip_parts : List Bytes → List Bytes
skip_parts [] = []
skip_parts (part ∷ parts) =
    let rest = skip_parts parts in if is_skipped part then rest else part ∷ parts

-- The body of a path without its last component, if it has one.
abbrev pub body_parent : List Bytes → Option Bytes
body_parent [] = none
body_parent (last ∷ parts) = some (join (b'/' ∷ []) (reverse (skip_parts parts)))

abbrev pub after_root : Option Bytes → Option Bytes
after_root none = none
after_root (some body) = some (b'/' ∷ body)

abbrev pub after_dot : Option Bytes → Option Bytes
after_dot none = some []
after_dot (some body) = some (b'.' ∷ body)

unfoldable pub last_removed : Bytes → Option Bytes
unfolding parts_from skip_parts join
last_removed body = body_parent (skip_parts (reverse (parts_from [] body)))

-- `Path::parent`: the body of a path is what follows a separator or a `.` that it starts with.
unfoldable pub parent : Bytes → Option Bytes
unfolding last_removed
parent path = elim path [
  | [] ↦ none
  | c ∷ [] ↦ if c == b'/' then none else if c == b'.' then some [] else last_removed (c ∷ [])
  | c ∷ d ∷ s ↦
      if c == b'/'
      then after_root (last_removed (d ∷ s))
      else if c == b'.' && d == b'/'
      then after_dot (last_removed (d ∷ s))
      else last_removed (c ∷ d ∷ s)
]

abbrev pub or_dot : Option Bytes → Bytes
or_dot none = txt "."
or_dot (some directory) = directory

-- `unwrap_or_else(|| executable.parent().unwrap_or_else(|| Path::new(".")))`
abbrev pub or_parent : Option Bytes → Bytes → Bytes
or_parent (some directory) executable = directory
or_parent none executable = or_dot (parent executable)

-- `combined_preload`
unfoldable pub combined_preload : Bytes → Option Bytes → Bytes
combined_preload library none = library
combined_preload library (some []) = library
combined_preload library (some (c ∷ existing)) = library ++ b':' ∷ c ∷ existing

-- `prepare_native_launch` after the validation of the executable.
unfoldable pub plan_launch :
    System → NativeLaunchRequest → Option (Result NativeLaunchError NativeLaunchPlan)
unfolding combined_preload parent
plan_launch system request =
    let directory = or_parent request.working_directory request.executable in
    if not (is_dir (system.metadata directory))
    then some (err (invalid_working_directory directory))
    else some (
        ok (record {
          executable = request.executable;
          arguments = request.arguments;
          working_directory = directory;
          preload = combined_preload request.preload_library system.ld_preload;
          hook_config = request.hook_config;
        }))

abbrev pub if_available :
    NativeHookAvailability
    → System
    → NativeLaunchRequest
    → Option (Result NativeLaunchError NativeLaunchPlan)
if_available (unavailable_because reason) system request = some (err (unavailable reason))
if_available available system request =
    then_do (validate_executable system request.executable) (λ _. plan_launch system request)

-- `prepare_native_launch`
unfoldable pub prepare_native_launch :
    System → NativeLaunchRequest → Option (Result NativeLaunchError NativeLaunchPlan)
unfolding native_hook_availability validate_executable plan_launch
prepare_native_launch system request = if_available (native_hook_availability system) system request

abbrev pub started : Bytes → Text ⊎ ℕ → Option (Result NativeLaunchError ℕ)
started path (inl source) = some (err (spawn path source))
started path (inr child) = some (ok child)

-- `launch_native`, with the number of the process for the `Child`.
unfoldable pub launch_native : System → NativeLaunchRequest → Option (Result NativeLaunchError ℕ)
unfolding prepare_native_launch
launch_native system request =
    if not (is_file (system.metadata request.preload_library))
    then some (err (missing_preload request.preload_library))
    else if not (is_file (system.metadata request.hook_config))
    then some (err (missing_hook_config request.hook_config))
    else then_do (prepare_native_launch system request)
        (λ plan. started plan.executable (system.start plan))
