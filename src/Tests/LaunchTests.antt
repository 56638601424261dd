-- ===== src/Tests/LaunchTests.antt =====
-- Launching an application (crates/terratranslate-platform-linux/src/native_launch.rs): two values
-- with marks and spaces, a small ELF file, and a system with one directory of programs.
use terra_translate.Base.{
  ℕ, zero, suc, ℕ_discrete, txt, Text, Text-discrete, List, [], ◌∷◌, ◌++◌, map, true, false, none,
  some, ok, err, inl, inr, ite, ◌≡◌, ◌↔◌, ◌⊎◌, refl, All, ◌<◌, arith, starts_with,
}
use terra_translate.Base.Split.{join}
use terra_translate.Base.Utf8.{as_bytes}
use terra_translate.Model.{Bytes}
use terra_translate.Launch.Arguments.{
  parse_native_arguments, shell_quote, steam_launch_option, invalid_arguments,
  invalid_working_directory,
}
use terra_translate.Launch.Elf.{read, magic}
use terra_translate.Launch.Quoting.{parse_native_arguments-shell_quote, shell_quote_iff}
use terra_translate.Launch.Headers.{IsCutShort, read_panics_iff}
use terra_translate.Launch.Plan.{
  NativeLaunchRequest, Metadata, System, parent, combined_preload, launch_native,
  prepare_native_launch, native_hook_availability,
}
use terra_translate.Launch.Checks.{IsAccepted}
use terra_translate.Launch.Bare.{prepare_native_launch_name}

abbrev marked : List Bytes
marked = txt "it's" ∷ txt "a \"b\" \\" ∷ [] ∷ []

parse_native_arguments-shell_quote_example :
    (arguments : List Text) × (parse_native_arguments (join (32 ∷ []) (map shell_quote marked))
      ≡ ok arguments)
    × (map as_bytes arguments ≡ marked)
parse_native_arguments-shell_quote_example =
    parse_native_arguments-shell_quote marked (ground arith)

-- The bytes of `é`.
abbrev accented : Bytes
accented = 0xc3 ∷ 0xa9 ∷ []

shell_quote_iff_example :
    ((argument : Text) × (parse_native_arguments (shell_quote accented) ≡ ok (argument ∷ []))
      × (as_bytes argument ≡ accented))
    ↔ All (λ b. b < 128) accented
shell_quote_iff_example = shell_quote_iff accented

read_panics_iff_example : (read (magic ++ 2 ∷ []) ≡ none) ↔ IsCutShort (magic ++ 2 ∷ [])
read_panics_iff_example = read_panics_iff (magic ++ 2 ∷ [])

arguments_test :
    parse_native_arguments (txt "a 'b c'\"d\"  ''") ≡ ok (txt "a" ∷ txt "b cd" ∷ [] ∷ [])
unfolding parse_native_arguments
arguments_test = refl

unterminated_test : parse_native_arguments (txt "a 'b") ≡ err invalid_arguments
unfolding parse_native_arguments
unterminated_test = refl

steam_test :
    steam_launch_option (txt "/l.so") (txt "/c")
    ≡ txt "TERRATRANSLATE_HOOK_CONFIG='/c' LD_PRELOAD='/l.so'${LD_PRELOAD:+:$LD_PRELOAD} %command%"
unfolding steam_launch_option
steam_test = refl

parent_test : parent (txt "./a//b/.") ≡ some (txt "./a")
unfolding parent
parent_test = refl

root_test :
    (parent (txt "/a") ≡ some (txt "/")) × (parent (txt "/") ≡ none) × (parent (txt "a") ≡ some [])
unfolding parent
root_test = (refl, refl, refl)

preload_test : combined_preload (txt "/l.so") (some (txt "/m.so")) ≡ txt "/l.so:/m.so"
unfolding combined_preload
preload_test = refl

abbrev blank : ℕ → Bytes
blank zero = []
blank (suc n) = 0 ∷ blank n

-- 64 bits, the least byte first, with one entry of the kind 3 at offset 60.
abbrev elf : Bytes
elf = magic ++ 2 ∷ 1 ∷ blank 26 ++ 60 ∷ blank 21 ++ 56 ∷ 0 ∷ 1 ∷ 0 ∷ blank 2 ++ 3 ∷ 0 ∷ 0 ∷ 0 ∷ []

elf_test : read elf ≡ some (some (record { class = 2; has_interpreter = true }))
unfolding read Text-discrete ℕ_discrete
elf_test = refl

abbrev program : Metadata
program = record { is_file = true; is_dir = false; mode = 0x1ed }

abbrev directory : Metadata
directory = record { is_file = false; is_dir = true; mode = 0x1ed }

abbrev look : Bytes → Text ⊎ Metadata
look [] = inl (txt "No such file or directory")
look path = ite (Text-discrete path (txt "/games")) (inr directory) (inr program)

-- Every program is a script.
abbrev system : System
system = record {
  flatpak_info = false;
  flatpak_id = none;
  ld_preload = some (txt "/m.so");
  metadata = look;
  contents = λ path. inr (txt "#!/bin/sh");
  start = λ plan. inr 7;
}

abbrev request : NativeLaunchRequest
request = record {
  executable = txt "/games/game";
  arguments = [];
  working_directory = none;
  preload_library = txt "/l.so";
  hook_config = txt "/c";
}

launch_test : launch_native system request ≡ some (ok 7)
unfolding launch_native Text-discrete ℕ_discrete
launch_test = refl

abbrev bare : NativeLaunchRequest
bare = record request { executable = txt "game" }

bare-IsAccepted : IsAccepted system bare.executable
unfolding Text-discrete ℕ_discrete
bare-IsAccepted = (
  program,
  txt "#!/bin/sh",
  refl,
  refl,
  (refl, λ e. ground arith, refl),
  inl (unfold starts_with in refl),
)

prepare_native_launch_name_example :
    prepare_native_launch system bare ≡ some (err (invalid_working_directory []))
prepare_native_launch_name_example =
    prepare_native_launch_name system bare (unfold native_hook_availability in refl) bare-IsAccepted
      refl (λ e. cc) (refl, (refl, (refl, (refl, tt)))) refl
