-- ===== src/Tests/ProtocolTests.antt =====
-- A token and two text sources (crates/terratranslate-wine-protocol/src/lib.rs).
use terra_translate.Base.{
  sym, ◌≤◌, Text, txt, [], ◌∷◌, length, none, some, ok, ◌≡◌, ◌↔◌, refl, All, arith, ◌<◌,
}
use terra_translate.Base.Utf8.{as_bytes, is_scalar}
use terra_translate.Model.{Bytes}
use terra_translate.Protocol.{
  encode, decode, max_wire_message_bytes, HookBridgeConfig, linux, authentication_token, stable_id,
}
use terra_translate.Protocol.Wire.{decode-encode}
use terra_translate.Protocol.Token.{to_hex, authentication_token-to_hex}
use terra_translate.Protocol.Keys.{Source, IsSource, IsSameSource, key_of, derive_iff}

abbrev eight : Bytes → Bytes
eight rest = 0 ∷ 9 ∷ 10 ∷ 15 ∷ 16 ∷ 127 ∷ 128 ∷ 255 ∷ rest

abbrev token : Bytes
token = eight (eight (eight (eight [])))

abbrev config : HookBridgeConfig
config = record {
  socket_path = txt "/run/hook";
  tcp_port = none;
  authentication_token_hex = txt "00090a0f107f80ff00090a0f107f80ff00090a0f107f80ff00090a0f107f80ff";
}

token-IsBytes : All (λ b. b < 256) token
token-IsBytes = ground arith

config_hex : config.authentication_token_hex ≡ to_hex token
unfolding to_hex
config_hex = refl

authentication_token-to_hex_example : authentication_token config ≡ ok token
authentication_token-to_hex_example =
    authentication_token-to_hex config token token-IsBytes refl config_hex

abbrev source : Text → Source
source path = record {
  platform = linux;
  executable = record { path = path; image_id = none };
  adapter_id = txt "pango";
  caller_module = some (txt "lib");
  module_offset = some 300;
}

source-IsSource : IsSource (λ b. b) (λ t. t) (source (txt "/a\\b"))
unfolding stable_id as_bytes is_scalar
source-IsSource = record {
  id = ground arith;
  adapter = ground arith;
  caller = ground arith;
  offset = omega arith;
}

other-IsSource : IsSource (λ b. b) (λ t. t) (source (txt "/a/b"))
unfolding stable_id as_bytes is_scalar
other-IsSource = record {
  id = ground arith;
  adapter = ground arith;
  caller = ground arith;
  offset = omega arith;
}

-- The two spellings of one path are one source.
derive_iff_example :
    (key_of (λ b. b) (λ t. t) (source (txt "/a\\b"))
      ≡ key_of (λ b. b) (λ t. t) (source (txt "/a/b")))
    ↔ IsSameSource (λ b. b) (λ t. t) (source (txt "/a\\b")) (source (txt "/a/b"))
derive_iff_example =
    derive_iff (λ b. b) (λ t. t) (λ a b e. e) (source (txt "/a\\b")) (source (txt "/a/b"))
      source-IsSource other-IsSource

-- Bytes as messages, encoded as themselves.
abbrev greeting : Bytes
greeting = 1 ∷ 2 ∷ []

hello_encoded : encode (λ (m : Bytes). some m) (λ b. some b) greeting ≡ ok greeting
unfolding encode
hello_encoded = refl

decode-encode_example :
    (length greeting ≤ max_wire_message_bytes)
    × (decode (λ (m : Bytes). some m) (λ b. some b) greeting 2 ≡ ok greeting)
decode-encode_example =
    decode-encode (λ (m : Bytes). some m) (λ b. some b) (λ m b e. sym e) greeting greeting 2
      hello_encoded (omega arith)
