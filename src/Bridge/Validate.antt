-- ===== src/Bridge/Validate.antt =====
-- crates/terratranslate-platform-linux/src/wine_bridge.rs: what the host accepts from a client.
-- `len` of a text counts its bytes in UTF-8.
use Prim.Native.Nat.{bit_or, bit_xor}
use terra_translate.Base.{
  ℕ, Text, txt, is_empty, [], ◌∷◌, length, any, Bool, false, ltb, ◌==◌, ◌||◌, Option, none, some,
  Result, ok, err, if◌then◌else◌,
}
use terra_translate.Base.Utf8.{as_bytes}
use terra_translate.Model.{Bytes}
use terra_translate.Protocol.{
  BridgeHello, BridgeMessage, HookRuntime, ProcessArchitecture, HookCandidate, HookTextEvent,
  max_identity_bytes, max_sample_bytes, max_text_bytes, max_adapters, max_metadata_entries,
}
use terra_translate.Bridge.Data.{BridgeServerError, invalid_message}

-- More bytes than a limit.
unfoldable pub is_over : ℕ → Text → Bool
unfolding as_bytes
is_over limit s = ltb limit (length (as_bytes s))

-- `is_some_and` of this test
abbrev pub is_some_over : ℕ → Option Text → Bool
is_some_over limit none = false
is_some_over limit (some s) = is_over limit s

-- `s.is_empty() || s.len() > MAX_IDENTITY_BYTES`
abbrev pub is_bad_name : Text → Bool
is_bad_name s = is_empty s || is_over max_identity_bytes s

abbrev pub runtime_is_invalid : HookRuntime → Bool
runtime_is_invalid (HookRuntime.other runtime) = is_bad_name runtime
runtime_is_invalid _ = false

abbrev pub architecture_is_invalid : ProcessArchitecture → Bool
architecture_is_invalid (ProcessArchitecture.other architecture) = is_bad_name architecture
architecture_is_invalid _ = false

-- `validate_hello`
unfoldable pub validate_hello : BridgeHello → Result BridgeServerError (Unit {0})
unfolding is_over
validate_hello hello =
    if is_bad_name hello.executable.path
    then err (invalid_message (txt "invalid executable identity"))
    else if runtime_is_invalid hello.runtime
        || architecture_is_invalid hello.architecture
        || ltb max_adapters (length hello.adapters)
        || any is_bad_name hello.adapters
    then err (invalid_message (txt "invalid adapter list"))
    else ok tt

abbrev pub is_bad_entry : Text × Text → Bool
is_bad_entry (key, value) = is_over max_identity_bytes key || is_over max_sample_bytes value

-- `validate_candidate`
unfoldable pub validate_candidate : HookCandidate → Result BridgeServerError (Unit {0})
unfolding is_over
validate_candidate candidate =
    if is_bad_name candidate.stable_key
      || is_bad_name candidate.adapter_id
      || is_bad_name candidate.api
      || is_over max_sample_bytes candidate.sample
      || is_some_over max_identity_bytes candidate.caller_module
      || ltb max_metadata_entries (length candidate.metadata)
      || any is_bad_entry candidate.metadata
    then err (invalid_message (txt "invalid hook candidate"))
    else ok tt

-- The text event of `validate_bridge_message`.
abbrev pub validate_text : HookTextEvent → Result BridgeServerError (Unit {0})
validate_text event =
    if is_over max_text_bytes event.text || is_some_over max_sample_bytes event.speaker
    then err (invalid_message (txt "text event is too large"))
    else ok tt

-- `validate_bridge_message`
unfoldable pub validate_bridge_message : BridgeMessage → Result BridgeServerError (Unit {0})
unfolding validate_candidate is_over
validate_bridge_message (BridgeMessage.hello h) =
    err (invalid_message (txt "hello is only valid as the first message"))
validate_bridge_message (BridgeMessage.candidate c) = validate_candidate c
validate_bridge_message (BridgeMessage.text event) = validate_text event
validate_bridge_message (BridgeMessage.diagnostic level message) =
    if is_over max_sample_bytes level || is_over max_text_bytes message
    then err (invalid_message (txt "diagnostic is too large"))
    else ok tt
validate_bridge_message (BridgeMessage.replacement_result sequence applied reason) =
    if is_some_over max_text_bytes reason
    then err (invalid_message (txt "replacement result is too large"))
    else ok tt
validate_bridge_message (BridgeMessage.pong n) = ok tt

-- The fold of `tokens_equal`, over the pairs of bytes that `zip` makes.
unfoldable pub fold_difference : ℕ → Bytes → Bytes → ℕ
fold_difference difference [] right = difference
fold_difference difference (l ∷ left) [] = difference
fold_difference difference (l ∷ left) (r ∷ right) =
    fold_difference (bit_or difference (bit_xor l r)) left right

-- `tokens_equal`
unfoldable pub tokens_equal : Bytes → Bytes → Bool
unfolding fold_difference
tokens_equal left right = fold_difference 0 left right == 0
