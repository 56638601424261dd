-- ===== src/Launch/Arguments.antt =====
-- crates/terratranslate-platform-linux/src/native_launch.rs: the arguments of an application, and the
-- launch option for Steam. An `OsStr` is the list of its bytes; an argument is still the `String` that
-- `into` turns into its UTF-8 bytes (`as_bytes`).
use terra_translate.Base.{
  ℕ, Text, txt, is_whitespace, List, [], ◌∷◌, ◌++◌, Bool, true, false, ◌==◌, Result, ok, err,
  if◌then◌else◌,
}
use terra_translate.Model.{Bytes}

pub data Quote : Type 0 where
  none single double : Quote

-- Errors of the operating system are their texts. Those of `write_native_hook_config` are left out.
pub data NativeLaunchError : Type 0 where
  unavailable : Text → NativeLaunchError
  inspect : Bytes → Text → NativeLaunchError
  not_executable wrong_elf_class static_executable secure_exec : Bytes → NativeLaunchError
  invalid_working_directory missing_preload missing_hook_config : Bytes → NativeLaunchError
  spawn : Bytes → Text → NativeLaunchError
  invalid_arguments : NativeLaunchError

-- The arms of the `match` on a character.
pub data Arm : Type 0 where
  opening : Quote → Arm
  shut : Arm
  escape : Arm
  blank : Arm
  plain : Arm

unfoldable pub arm : Quote → ℕ → Arm
unfolding is_whitespace
arm Quote.none c =
    if c == b'\''
    then opening single
    else if c == b'"'
    then opening double
    else if c == b'\\'
    then escape
    else if is_whitespace c
    then blank
    else plain
arm single c = if c == b'\'' then shut else plain
arm double c = if c == b'"' then shut else if c == b'\\' then escape else plain

-- `result`, with the current argument if one was started.
abbrev pub closed : List Text → Text → Bool → List Text
closed result current true = result ++ current ∷ []
closed result current false = result

abbrev pub ending : Quote → List Text → Result NativeLaunchError (List Text)
ending Quote.none result = ok result
ending _ result = err invalid_arguments

-- The loop, over the rest of the characters, and what follows it.
unfoldable pub parse_from :
    Quote → Text → Bool → List Text → Text → Result NativeLaunchError (List Text)
unfolding arm
parse_from quote current started result [] = ending quote (closed result current started)
parse_from quote current started result (c ∷ []) =
    let opened = λ (q : Quote). parse_from q current true result [] in
    let shut_ = parse_from Quote.none current started result [] in
    let next = parse_from quote [] false (closed result current started) [] in
    let more = parse_from quote (current ++ c ∷ []) true result [] in
    elim (arm quote c) [
      | opening q ↦ opened q
      | shut ↦ shut_
      | escape ↦ err invalid_arguments
      | blank ↦ next
      | plain ↦ more
    ]
parse_from quote current started result (c ∷ d ∷ s) =
    let opened = λ (q : Quote). parse_from q current true result (d ∷ s) in
    let shut_ = parse_from Quote.none current started result (d ∷ s) in
    let escaped = parse_from quote (current ++ d ∷ []) true result s in
    let next = parse_from quote [] false (closed result current started) (d ∷ s) in
    let more = parse_from quote (current ++ c ∷ []) true result (d ∷ s) in
    elim (arm quote c) [
      | opening q ↦ opened q
      | shut ↦ shut_
      | escape ↦ escaped
      | blank ↦ next
      | plain ↦ more
    ]

-- `parse_native_arguments`
unfoldable pub parse_native_arguments : Text → Result NativeLaunchError (List Text)
unfolding parse_from
parse_native_arguments input = parse_from Quote.none [] false [] input

-- The loop of `shell_quote`: a byte becomes the character with its number.
unfoldable pub quote_bytes : Bytes → Text
quote_bytes [] = []
quote_bytes (byte ∷ bytes) =
    if byte == b'\'' then txt "'\\''" ++ quote_bytes bytes else byte ∷ quote_bytes bytes

-- `shell_quote`
unfoldable pub shell_quote : Bytes → Text
unfolding quote_bytes
shell_quote value = b'\'' ∷ quote_bytes value ++ b'\'' ∷ []

-- `steam_launch_option`
unfoldable pub steam_launch_option : Bytes → Bytes → Text
unfolding shell_quote
steam_launch_option preload_library hook_config =
    txt "TERRATRANSLATE_HOOK_CONFIG="
    ++ (shell_quote hook_config
        ++ (txt " LD_PRELOAD="
            ++ (shell_quote preload_library ++ txt "${LD_PRELOAD:+:$LD_PRELOAD} %command%")))
