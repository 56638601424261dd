-- ===== src/Bridge/Handshake.antt =====
-- crates/terratranslate-platform-linux/src/wine_bridge.rs: messages on a stream, and the handshake.
-- A stream is the bytes that the peer sends until it closes the stream.
use terra_translate.Base.{
  ℕ, ◌+◌, ◌*◌, Text, txt, [], ◌∷◌, ◌++◌, length, take, drop, Bool, true, false, ltb, ◌==◌, not,
  Option, none, some, Result, ok, err, out_of_fuel, ◌>>=◌, ◌>>◌, map_err, if◌then◌else◌,
}
use terra_translate.Model.{Bytes}
use terra_translate.Protocol.{
  BridgeHello, BridgeMessage, HostMessage, WireError, to_le_bytes, encode, decode,
  max_wire_message_bytes, protocol_version_number,
}
use terra_translate.Bridge.Data.{
  BridgeServerError, io, wire, missing_hello, authentication, version, handshake_timeout,
  invalid_message,
}
use terra_translate.Bridge.Validate.{validate_hello, validate_bridge_message, tokens_equal}

-- `u32::from_le_bytes` in general
unfoldable pub from_le_bytes : Bytes → ℕ
from_le_bytes [] = 0
from_le_bytes (b ∷ bs) = b + 256 * from_le_bytes bs

-- `read_exact`: so many bytes of the stream, and the rest of it.
unfoldable pub read_exact : ℕ → Bytes → Result BridgeServerError (Bytes × Bytes)
read_exact n stream = if ltb (length stream) n then err io else ok (take n stream, drop n stream)

module _ {T : Type 0} (to_vec_named : T → Option Bytes) (from_slice : Bytes → Option T) where
  -- `read_message`
  unfoldable pub read_message : Bytes → Result BridgeServerError (T × Bytes)
  unfolding read_exact from_le_bytes decode
  read_message stream = do
    (header, body) ← read_exact 4 stream
    let size = from_le_bytes header
    if ltb max_wire_message_bytes size then err (wire WireError.too_large) else (do
      (bytes, rest) ← read_exact size body
      message ← map_err wire (decode to_vec_named from_slice bytes max_wire_message_bytes)
      ok (message, rest))

  -- `write_message`: the bytes that it writes.
  unfoldable pub write_message : T → Result BridgeServerError Bytes
  unfolding encode to_le_bytes
  write_message message = do
    bytes ← map_err wire (encode to_vec_named from_slice message)
    ok (to_le_bytes 4 (length bytes) ++ bytes)

-- The stream stays open at `rest`.
pub record HookBridgeConnection : Type 0 where
  pub rest : Bytes
  pub hello : BridgeHello

-- What a write to the peer came to. The text of a rejection is given by what it is formatted from.
pub data Refusal : Type 0 where
  authentication_failed : Refusal
  unsupported : ℕ → Refusal

module _ (bridge_to_vec : BridgeMessage → Option Bytes)
    (bridge_from_slice : Bytes → Option BridgeMessage) (reason_text : Refusal → Text)
    (token : Bytes) where
  abbrev pub read_bridge_message : Bytes → Result BridgeServerError (BridgeMessage × Bytes)
  read_bridge_message = read_message bridge_to_vec bridge_from_slice

  -- The answer to a hello: the message that is written, and the error of a refusal.
  unfoldable pub answer_hello :
      BridgeHello → Option HostMessage × Result BridgeServerError (Unit {0})
  unfolding tokens_equal validate_hello
  answer_hello hello =
      if not (tokens_equal hello.authentication_token token)
      then (some (HostMessage.reject (reason_text authentication_failed)), err authentication)
      else if not (hello.protocol_version == protocol_version_number)
      then (
        some (HostMessage.reject (reason_text (unsupported hello.protocol_version))),
        err (version hello.protocol_version),
      )
      else elim (validate_hello hello) [
        | ok _ ↦ (some (HostMessage.accept protocol_version_number), ok tt)
        | err e ↦ (none, err e)
        | out_of_fuel ↦ (none, out_of_fuel)
      ]

  -- The end of the handshake. What became of writing a rejection is not looked at.
  abbrev pub conclude :
      (HostMessage → Result BridgeServerError (Unit {0}))
      → HookBridgeConnection
      → Option HostMessage × Result BridgeServerError (Unit {0})
      → Result BridgeServerError HookBridgeConnection
  conclude write connection (answer, err e) = err e
  conclude write connection (answer, out_of_fuel) = out_of_fuel
  conclude write connection (none, ok _) = ok connection
  conclude write connection (some accepted, ok _) = write accepted >> ok connection

  abbrev pub greet :
      (HostMessage → Result BridgeServerError (Unit {0}))
      → BridgeMessage × Bytes
      → Result BridgeServerError HookBridgeConnection
  greet write (BridgeMessage.hello hello, rest) =
      conclude write (record { rest = rest; hello = hello }) (answer_hello hello)
  greet write (_, rest) = err missing_hello

  -- `HookBridgeServer::accept`, after the connection was made. There is no stream if the deadline
  -- passes before the first message has arrived.
  unfoldable pub accept :
      Option Bytes
      → (HostMessage → Result BridgeServerError (Unit {0}))
      → Result BridgeServerError HookBridgeConnection
  unfolding answer_hello read_message
  accept none write = err handshake_timeout
  accept (some stream) write = do first ← read_bridge_message stream; greet write first

  -- `accept_tcp`
  unfoldable pub accept_tcp :
      (is_loopback : Bool)
      → Option Bytes
      → (HostMessage → Result BridgeServerError (Unit {0}))
      → Result BridgeServerError HookBridgeConnection
  unfolding accept
  accept_tcp false stream write = err (invalid_message (txt "Wine hook TCP client is not local"))
  accept_tcp true stream write = accept stream write

  -- `HookBridgeConnection::receive`
  unfoldable pub receive :
      HookBridgeConnection → Result BridgeServerError (BridgeMessage × HookBridgeConnection)
  unfolding read_message validate_bridge_message
  receive connection = do
    (message, rest) ← read_bridge_message connection.rest
    validate_bridge_message message
    ok (message, record connection { rest = rest })
