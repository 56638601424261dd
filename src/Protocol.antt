-- ===== src/Protocol.antt =====
-- crates/terratranslate-wine-protocol/src/lib.rs: the messages between the hooks and the host, their
-- limits, the token that authenticates a client, and the stable keys of text sources. A `Uuid` is a
-- number, and a message is encoded by rmp_serde.
pub mod Token
pub mod Keys
pub mod Wire
use terra_translate.Base.{
  ℕ, ℤ, ◌+◌, ◌-◌, ◌*◌, ◌/◌, ◌%◌, ◌^◌, zero, suc, min, Text, txt, is_empty, List, [], ◌∷◌, ◌++◌, map,
  length, Bool, true, false, ltb, leb, ◌==◌, ◌&&◌, ◌||◌, Option, none, some, Result, ok, err, ◌>>=◌,
  ok_or, if◌then◌else◌,
}
use terra_translate.Base.OrdMap.{OrdMap}
use terra_translate.Base.Utf8.{as_bytes}
use terra_translate.Model.{Bytes}

abbrev pub protocol_version_number : ℕ
protocol_version_number = 2

abbrev pub authentication_token_bytes : ℕ
authentication_token_bytes = 32

abbrev pub max_wire_message_bytes : ℕ
max_wire_message_bytes = 1024 * 1024

abbrev pub max_text_bytes : ℕ
max_text_bytes = 64 * 1024

abbrev pub max_sample_bytes : ℕ
max_sample_bytes = 4 * 1024

abbrev pub max_identity_bytes : ℕ
max_identity_bytes = 4 * 1024

abbrev pub max_adapters : ℕ
max_adapters = 32

abbrev pub max_metadata_entries : ℕ
max_metadata_entries = 32

abbrev pub Uuid : Type 0
Uuid = ℕ

pub data HookPlatform : Type 0 where
  linux windows : HookPlatform

pub data HookRuntime : Type 0 where
  native wine proton : HookRuntime
  other : Text → HookRuntime

pub data ProcessArchitecture : Type 0 where
  x86 x86_64 aarch64 : ProcessArchitecture
  other : Text → ProcessArchitecture

pub record ExecutableIdentity : Type 0 where
  pub path : Text
  pub image_id : Option Text

pub record BridgeHello : Type 0 where
  pub protocol_version : ℕ
  pub authentication_token : Bytes
  pub bridge_id : Uuid
  pub platform : HookPlatform
  pub runtime : HookRuntime
  pub process_id : ℕ
  pub architecture : ProcessArchitecture
  pub executable : ExecutableIdentity
  pub adapters : List Text

abbrev pub StableCandidateKey : Type 0
StableCandidateKey = Text

pub record HookCandidate : Type 0 where
  pub candidate_id : Uuid
  pub stable_key : StableCandidateKey
  pub adapter_id : Text
  pub api : Text
  pub caller_module : Option Text
  pub module_offset : Option ℕ
  pub sample : Text
  pub embeddable : Bool
  pub metadata : OrdMap Text

pub record HookTextEvent : Type 0 where
  pub sequence : ℕ
  pub candidate_id : Uuid
  pub stable_key : StableCandidateKey
  pub thread_id : ℕ
  pub timestamp_ms : ℤ
  pub text : Text
  pub speaker : Option Text
  pub replacement_capacity_utf16 : Option ℕ

pub data OverflowPolicy : Type 0 where
  reject truncate_at_grapheme overlay_fallback : OverflowPolicy

pub record Replacement : Type 0 where
  pub sequence : ℕ
  pub translated_text : Text
  pub overflow : OverflowPolicy

pub data HostMessage : Type 0 where
  accept : (protocol_version : ℕ) → HostMessage
  reject : (reason : Text) → HostMessage
  enable_candidate disable_candidate : Uuid → HostMessage
  replace : Replacement → HostMessage
  ping : ℕ → HostMessage
  shutdown : HostMessage

pub data BridgeMessage : Type 0 where
  hello : BridgeHello → BridgeMessage
  candidate : HookCandidate → BridgeMessage
  text : HookTextEvent → BridgeMessage
  replacement_result : (sequence : ℕ) → (applied : Bool) → (reason : Option Text) → BridgeMessage
  pong : ℕ → BridgeMessage
  diagnostic : (level message : Text) → BridgeMessage

pub record HookBridgeConfig : Type 0 where
  pub socket_path : Text
  pub tcp_port : Option ℕ
  pub authentication_token_hex : Text

pub data ConfigError : Type 0 where
  authentication_token_length authentication_token_hex : ConfigError

pub data IdentityError : Type 0 where
  invalid_stable_key : IdentityError

pub data WireError : Type 0 where
  too_large encoding decoding : WireError

-- `hex_value`
unfoldable pub hex_value : ℕ → Option ℕ
hex_value value =
    if leb b'0' value && leb value b'9'
    then some (value - b'0')
    else if leb b'a' value && leb value b'f'
    then some (value - b'a' + 10)
    else if leb b'A' value && leb value b'F'
    then some (value - b'A' + 10)
    else none

-- The loop of `authentication_token`, over the pairs of bytes. `(high << 4) | low` is a sum, since
-- `high` and `low` are below 16. The number of bytes is even.
unfoldable pub decode_pairs : Bytes → Result ConfigError Bytes
unfolding hex_value
decode_pairs [] = ok []
decode_pairs (h ∷ []) = ok []
decode_pairs (h ∷ l ∷ rest) = do
  high ← ok_or (hex_value h) authentication_token_hex
  low ← ok_or (hex_value l) authentication_token_hex
  bytes ← decode_pairs rest
  ok ((high * 16 + low) ∷ bytes)

-- `HookBridgeConfig::authentication_token`
unfoldable pub authentication_token : HookBridgeConfig → Result ConfigError Bytes
unfolding decode_pairs as_bytes
authentication_token config =
    if length (as_bytes config.authentication_token_hex) == authentication_token_bytes * 2
    then decode_pairs (as_bytes config.authentication_token_hex)
    else err authentication_token_length

-- `encode` and `decode` of one type of messages
module _ {T : Type 0} (to_vec_named : T → Option Bytes) (from_slice : Bytes → Option T) where
  unfoldable pub encode : T → Result WireError Bytes
  encode message = do
    encoded ← ok_or (to_vec_named message) encoding
    if ltb max_wire_message_bytes (length encoded) then err too_large else ok encoded

  unfoldable pub decode : Bytes → ℕ → Result WireError T
  decode bytes maximum =
      if ltb (min maximum max_wire_message_bytes) (length bytes)
      then err too_large
      else ok_or (from_slice bytes) decoding

unfoldable pub platform_tag : HookPlatform → Text
platform_tag linux = txt "linux"
platform_tag windows = txt "windows"

-- `replace('\\', "/")`
abbrev pub replace_backslashes : Text → Text
replace_backslashes = map (λ c. if c == b'\\' then b'/' else c)

-- `to_lowercase` is that of `str`.
module _ (to_lowercase : Text → Text) where
  unfoldable pub normalize_module : Text → HookPlatform → Text
  normalize_module module_path linux = replace_backslashes module_path
  normalize_module module_path windows = to_lowercase (replace_backslashes module_path)

  -- `ExecutableIdentity::stable_id`
  unfoldable pub stable_id : ExecutableIdentity → HookPlatform → Text
  unfolding normalize_module
  stable_id e platform = elim e.image_id [
    | none ↦ normalize_module e.path platform
    | some value ↦ if is_empty value then normalize_module e.path platform else value
  ]

  abbrev pub module_text : Option Text → HookPlatform → Text
  module_text none platform = []
  module_text (some m) platform = normalize_module m platform

-- `StableCandidateKey::new`
unfoldable pub new_key : Text → Result IdentityError StableCandidateKey
unfolding as_bytes
new_key value =
    if is_empty value || ltb max_identity_bytes (length (as_bytes value))
    then err invalid_stable_key
    else ok value

-- `u64::to_le_bytes` in general
unfoldable pub to_le_bytes : ℕ → ℕ → Bytes
to_le_bytes zero n = []
to_le_bytes (suc w) n = n % 256 ∷ to_le_bytes w (n / 256)

-- `hash_field`: what it feeds to the hasher
unfoldable pub hash_field : Text → Bytes
unfolding to_le_bytes as_bytes
hash_field value = to_le_bytes 8 (length (as_bytes value)) ++ as_bytes value

abbrev pub offset_bytes : Option ℕ → Bytes
offset_bytes none = 0 ∷ []
offset_bytes (some offset) = 1 ∷ to_le_bytes 8 offset

module _ (hash_hex : Bytes → Text) (to_lowercase : Text → Text) where
  -- All that `derive` feeds to the hasher.
  unfoldable pub key_bytes :
      HookPlatform → ExecutableIdentity → Text → Option Text → Option ℕ → Bytes
  unfolding hash_field platform_tag stable_id to_le_bytes
  key_bytes platform executable adapter_id caller_module module_offset =
      as_bytes (txt "terratranslate-hook-candidate-v1" ++ 0 ∷ [])
      ++ (hash_field (platform_tag platform)
          ++ (hash_field (stable_id to_lowercase executable platform)
              ++ (hash_field adapter_id
                  ++ (hash_field (module_text to_lowercase caller_module platform)
                      ++ offset_bytes module_offset))))

  -- `StableCandidateKey::derive`
  unfoldable pub derive :
      HookPlatform → ExecutableIdentity → Text → Option Text → Option ℕ → StableCandidateKey
  unfolding key_bytes
  derive platform executable adapter_id caller_module module_offset =
      hash_hex (key_bytes platform executable adapter_id caller_module module_offset)
