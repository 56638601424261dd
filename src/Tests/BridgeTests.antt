-- ===== src/Tests/BridgeTests.antt =====
-- A client that announces a candidate and sends texts
-- (crates/terratranslate-platform-linux/src/wine_bridge.rs).
use terra_translate.Base.{
  ℕ, zero, suc, length, get_elem?, subst, Text-discrete, ℕ_discrete, Text, txt, List, [], ◌∷◌,
  Option, none, some, Result, ok, pos, ◌≡◌, ◌↔◌, refl, arith, true, false,
}
use terra_translate.Base.Table.{get, insert, contains, add, discard}
use terra_translate.Model.{Bytes}
use terra_translate.Protocol.{
  Uuid, BridgeHello, BridgeMessage, HookCandidate, HookTextEvent, linux, native, x86_64,
}
use terra_translate.Bridge.Data.{identity_of, HookEvent, BridgeServerError}
use terra_translate.Bridge.Validate.{tokens_equal}
use terra_translate.Bridge.Handshake.{read_message, write_message, accept}
use terra_translate.Bridge.Service.{Connection, ended, HookService, new_service}
use terra_translate.Bridge.Tasks.{go_on, incoming, command, written}
use terra_translate.Bridge.Run.{Label, accepted, task, enable, disable, proceed, receive, run}
use terra_translate.Bridge.Invariant.{IsSound, log}
use terra_translate.Bridge.Safety.{run-IsSound}
use terra_translate.Bridge.Quiet.{IsDelivered, IsQuiet, IsSilent, texts_of}
use terra_translate.Bridge.Silence.{run-IsQuiet}
use terra_translate.Bridge.Tokens.{tokens_equal_iff}
use terra_translate.Bridge.Frames.{read_message-write_message}
use terra_translate.Bridge.Admission.{IsAdmissible, accept_iff}

abbrev client : BridgeHello
client = record {
  protocol_version = 2;
  authentication_token = 1 ∷ 2 ∷ [];
  bridge_id = 40;
  platform = linux;
  runtime = native;
  process_id = 7;
  architecture = x86_64;
  executable = record { path = txt "/game"; image_id = none };
  adapters = txt "pango" ∷ [];
}

abbrev line : HookCandidate
line = record {
  candidate_id = 5;
  stable_key = txt "key";
  adapter_id = txt "pango";
  api = txt "draw";
  caller_module = none;
  module_offset = none;
  sample = txt "hi";
  embeddable = false;
  metadata = [];
}

abbrev said : HookTextEvent
said = record {
  sequence = 1;
  candidate_id = 5;
  stable_key = txt "key";
  thread_id = 1;
  timestamp_ms = pos 9;
  text = txt "hi";
  speaker = none;
  replacement_capacity_utf16 = none;
}

abbrev digits : Uuid → Text
digits n = n ∷ []

-- The client connects and announces the candidate; the user interface enables it; a text arrives, and
-- the user interface takes the first event.
abbrev session : List Label
session =
    accepted (ok client)
    ∷ task 0 go_on
    ∷ task 0 go_on
    ∷ task 0 (incoming (ok (BridgeMessage.candidate line)))
    ∷ task 0 go_on
    ∷ enable 40 5
    ∷ proceed
    ∷ proceed
    ∷ proceed
    ∷ task 0 (incoming (ok (BridgeMessage.text said)))
    ∷ task 0 go_on
    ∷ receive
    ∷ []

abbrev result : Option HookService → HookService
result none = new_service
result (some s) = s

abbrev nobody : Connection
nobody = record {
  bridge = identity_of client;
  phase = ended;
  commands = [];
  candidates = [];
  enabled = [];
}

abbrev result_connection : List Connection → Connection
result_connection [] = nobody
result_connection (c ∷ cs) = c

abbrev last : HookService
unfolding run
last = result (run digits session new_service)

session_runs : run digits session new_service ≡ some last
unfolding run get insert Text-discrete ℕ_discrete contains add
session_runs = refl

session_log :
    log last
    ≡ HookEvent.connected (identity_of client)
      ∷ HookEvent.candidate (identity_of client) line
      ∷ HookEvent.text (identity_of client) said
      ∷ []
unfolding run get insert Text-discrete ℕ_discrete contains add
session_log = refl

run-IsSound_example : IsSound last
run-IsSound_example = run-IsSound digits session last session_runs

-- The user interface disables the candidate, and another text arrives. The text that waited in the
-- queue before is still delivered.
abbrev hushed : HookService
unfolding run
hushed = result (run digits (disable 40 5 ∷ proceed ∷ proceed ∷ []) last)

abbrev later : List Label
later =
    task 0 (incoming (ok (BridgeMessage.text said)))
    ∷ task 0 command
    ∷ task 0 (written (ok tt))
    ∷ receive
    ∷ receive
    ∷ []

abbrev final : HookService
unfolding run
final = result (run digits later hushed)

hushed_off : (n : ℕ) (c : Connection) → get_elem? hushed.connections n ≡ some c → IsSilent 5 c
unfolding run get insert Text-discrete ℕ_discrete contains add discard
hushed_off zero c at =
    let only : result_connection hushed.connections ≡ c = ground arith in
    subst (IsSilent 5) only (refl, tt)
hushed_off (suc n) c at = cc

hushed-IsQuiet : IsQuiet 5 hushed
unfolding run get insert Text-discrete ℕ_discrete contains add discard
hushed-IsQuiet = record { off = hushed_off; calm = tt }

later_runs : run digits later hushed ≡ some final
unfolding run get insert Text-discrete ℕ_discrete contains add discard
later_runs = refl

run-IsQuiet_example : IsQuiet 5 final × IsDelivered 5 hushed final
run-IsQuiet_example =
    run-IsQuiet digits 5 later hushed final (tt, (tt, (tt, (tt, (tt, tt))))) hushed-IsQuiet
      later_runs

waited_test : (length (texts_of 5 hushed.events) ≡ 1) × (texts_of 5 hushed.received ≡ [])
unfolding run get insert Text-discrete ℕ_discrete contains add discard texts_of
waited_test = (refl, refl)

delivered_test : texts_of 5 final.received ≡ texts_of 5 hushed.events
unfolding run get insert Text-discrete ℕ_discrete contains add discard texts_of
delivered_test = refl

abbrev token : Bytes
token = 1 ∷ 2 ∷ []

abbrev guess : Bytes
guess = 1 ∷ 3 ∷ []

tokens_equal_iff_example : (tokens_equal token guess ≡ true) ↔ (token ≡ guess)
tokens_equal_iff_example = tokens_equal_iff token guess refl

-- A number is encoded as one byte.
abbrev to_vec : ℕ → Option Bytes
to_vec n = some (n ∷ [])

abbrev from_vec : Bytes → Option ℕ
from_vec (n ∷ []) = some n
from_vec _ = none

to_vec_reads : (m : ℕ) (b : Bytes) → to_vec m ≡ some b → from_vec b ≡ some m
to_vec_reads m b e = let same : b ≡ m ∷ [] = ground arith in rw same refl

frame_written : write_message to_vec from_vec 7 ≡ ok (1 ∷ 0 ∷ 0 ∷ 0 ∷ 7 ∷ [])
unfolding write_message
frame_written = refl

read_message-write_message_example :
    read_message to_vec from_vec (1 ∷ 0 ∷ 0 ∷ 0 ∷ 7 ∷ 9 ∷ []) ≡ ok (7, 9 ∷ [])
read_message-write_message_example =
    read_message-write_message to_vec from_vec to_vec_reads 7 (1 ∷ 0 ∷ 0 ∷ 0 ∷ 7 ∷ []) (9 ∷ [])
      frame_written

-- Any payload is the hello of the client.
abbrev hello_of : Bytes → Option BridgeMessage
hello_of bytes = some (BridgeMessage.hello client)

abbrev greeting : Bytes
greeting = 1 ∷ 0 ∷ 0 ∷ 0 ∷ 0x80 ∷ []

accept_iff_example :
    (accept (λ m. none) hello_of (λ r. []) (1 ∷ 2 ∷ []) (some greeting) (λ m. ok tt)
      ≡ ok (record { rest = []; hello = client }))
    ↔ ((read_message (λ m. none) hello_of greeting ≡ ok (BridgeMessage.hello client, []))
        × IsAdmissible (λ m. none) hello_of (λ r. []) (1 ∷ 2 ∷ []) client
        × (◌≡◌ {A = Result BridgeServerError (Unit {0})} (ok tt) (ok tt)))
accept_iff_example =
    accept_iff (λ m. none) hello_of (λ r. []) (1 ∷ 2 ∷ []) greeting (λ m. ok tt)
      (record { rest = []; hello = client }) refl

greeting_accepted :
    accept (λ m. none) hello_of (λ r. []) (1 ∷ 2 ∷ []) (some greeting) (λ m. ok tt)
    ≡ ok (record { rest = []; hello = client })
unfolding accept
greeting_accepted = refl
