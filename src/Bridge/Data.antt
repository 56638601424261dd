-- ===== src/Bridge/Data.antt =====
-- crates/terratranslate-platform-linux/src/wine_bridge.rs: errors, events and the identity of a
-- client. The text of an error is given by what it is formatted from.
use terra_translate.Base.{ℕ, Text, List}
use terra_translate.Protocol.{
  Uuid, BridgeHello, HookPlatform, HookRuntime, ProcessArchitecture, ExecutableIdentity,
  HookCandidate, HookTextEvent, WireError,
}

abbrev pub event_queue_capacity : ℕ
event_queue_capacity = 256

abbrev pub connection_command_capacity : ℕ
connection_command_capacity = 64

abbrev pub max_candidates_per_connection : ℕ
max_candidates_per_connection = 1024

pub data BridgeServerError : Type 0 where
  io : BridgeServerError
  wire : WireError → BridgeServerError
  missing_hello authentication : BridgeServerError
  version : ℕ → BridgeServerError
  handshake_timeout : BridgeServerError
  invalid_message : Text → BridgeServerError

pub record HookBridgeIdentity : Type 0 where
  pub bridge_id : Uuid
  pub platform : HookPlatform
  pub runtime : HookRuntime
  pub process_id : ℕ
  pub architecture : ProcessArchitecture
  pub executable : ExecutableIdentity
  pub adapters : List Text

-- `From<&BridgeHello>`
abbrev pub identity_of : BridgeHello → HookBridgeIdentity
identity_of hello = record {
  bridge_id = hello.bridge_id;
  platform = hello.platform;
  runtime = hello.runtime;
  process_id = hello.process_id;
  architecture = hello.architecture;
  executable = hello.executable;
  adapters = hello.adapters;
}

-- The three messages that `HookEvent::Error` is made of: a connection that failed, a second one
-- under the same ID, and one that was not accepted.
pub data ErrorText : Type 0 where
  connection_failed : HookBridgeIdentity → BridgeServerError → ErrorText
  duplicate_connection : Uuid → ErrorText
  not_accepted : BridgeServerError → ErrorText

pub data HookEvent : Type 0 where
  connected : HookBridgeIdentity → HookEvent
  candidate : HookBridgeIdentity → HookCandidate → HookEvent
  text : HookBridgeIdentity → HookTextEvent → HookEvent
  diagnostic : HookBridgeIdentity → (level message : Text) → HookEvent
  disconnected : HookBridgeIdentity → HookEvent
  error : ErrorText → HookEvent

pub data HookControlError : Type 0 where
  not_connected queue_full : Uuid → HookControlError
  unknown_candidate : (bridge_id candidate_id : Uuid) → HookControlError

pub data ConnectionCommand : Type 0 where
  enable disable : Uuid → ConnectionCommand
  shutdown : ConnectionCommand
