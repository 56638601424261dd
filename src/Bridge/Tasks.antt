-- ===== src/Bridge/Tasks.antt =====
-- crates/terratranslate-platform-linux/src/wine_bridge.rs: the task that receives from a connection,
-- and the events that it sends to the user interface.
use terra_translate.Base.{
  ℕ, Text, Text-discrete, txt, [], ◌∷◌, ◌++◌, length, Bool, ltb, leb, Option, none, some, Result,
  ok, err, out_of_fuel, ite, if◌then◌else◌,
}
use terra_translate.Base.Table.{get, insert, remove, contains, set}
use terra_translate.Protocol.{Uuid, BridgeHello, BridgeMessage, HookCandidate, HookTextEvent}
use terra_translate.Bridge.Data.{
  BridgeServerError, HookBridgeIdentity, identity_of, HookEvent, ErrorText, ConnectionCommand,
  event_queue_capacity, max_candidates_per_connection,
}
use terra_translate.Bridge.Service.{
  Phase, registering, waiting, writing, sending, unregistering, clearing, ended, Connection,
  HookService, put, is_dropped,
}

abbrev pub has_room : HookService → Bool
has_room s = ltb (length s.events) event_queue_capacity

abbrev pub enqueue : HookEvent → HookService → HookService
enqueue e s = record s { events = s.events ++ e ∷ [] }

-- `send_event`: a candidate waits for room in the queue, any other event is lost where there is none,
-- and so is every event after the receiver was dropped.
unfoldable pub send_event : HookEvent → HookService → Option HookService
send_event (HookEvent.candidate b c) s =
    if is_dropped s.call
    then some s
    else if has_room s
    then some (enqueue (HookEvent.candidate b c) s)
    else none
send_event e s = some (if is_dropped s.call then s else if has_room s then enqueue e s else s)

-- What happens to a task: it goes on, a message arrives (or the connection fails), it takes a
-- command, the write of a command ends.
pub data Input : Type 0 where
  go_on : Input
  incoming : Result BridgeServerError BridgeMessage → Input
  command : Input
  written : Result BridgeServerError (Unit {0}) → Input

abbrev pub warning : HookBridgeIdentity → Text → HookEvent
warning bridge message = HookEvent.diagnostic bridge (txt "warning") message

-- A text of the client: it is forwarded if its candidate is known by its key, and enabled.
unfoldable pub on_text : Connection → HookTextEvent → Connection
on_text c event = elim (get event.candidate_id c.candidates) [
  | none ↦ c
  | some key ↦
      ite (Text-discrete key event.stable_key)
        (if contains event.candidate_id c.enabled
          then record c { phase = sending (HookEvent.text c.bridge event) waiting }
          else c)
        c
]

abbrev pub failed : Connection → BridgeServerError → Connection
failed c e = record c {
  phase = sending (HookEvent.error (ErrorText.connection_failed c.bridge e)) unregistering;
}

-- The end of the write of a command. What became of the write of a shutdown is not looked at.
abbrev pub on_written :
    Connection → ConnectionCommand → Result BridgeServerError (Unit {0}) → Connection
on_written c ConnectionCommand.shutdown r = record c { phase = unregistering }
on_written c _ (err e) = failed c e
on_written c _ _ = record c { phase = waiting }

abbrev pub registered : ℕ → Connection → Option ℕ → HookService → HookService
registered n c none s = record s {
  registry = insert c.bridge.bridge_id n s.registry;
  connections =
      set s.connections n (record c { phase = sending (HookEvent.connected c.bridge) waiting });
}
registered n c (some m) s =
    put n
      (record c {
        phase = sending (HookEvent.error (ErrorText.duplicate_connection c.bridge.bridge_id)) ended;
      })
      s

-- A connection that `accept` returned gets a task of its own, in `run_hook_server`.
unfoldable pub on_accepted : Result BridgeServerError BridgeHello → HookService → HookService
on_accepted (ok hello) s = record s {
  connections =
      s.connections
      ++ record {
        bridge = identity_of hello;
        phase = registering;
        commands = [];
        candidates = [];
        enabled = [];
      }
        ∷ [];
}
on_accepted (err e) s =
    if has_room s then enqueue (HookEvent.error (ErrorText.not_accepted e)) s else s
on_accepted out_of_fuel s = s

module _ (format_uuid : Uuid → Text) where
  -- A candidate that the client announces.
  unfoldable pub on_candidate : Connection → HookCandidate → Connection
  on_candidate c candidate = elim (get candidate.candidate_id c.candidates) [
    | none ↦
        if leb max_candidates_per_connection (length c.candidates)
        then record c {
          phase =
              sending
                (warning c.bridge (txt "candidate limit reached; ignoring additional candidates"))
                waiting;
        }
        else record c {
          candidates = insert candidate.candidate_id candidate.stable_key c.candidates;
          phase = sending (HookEvent.candidate c.bridge candidate) waiting;
        }
    | some key ↦
        ite (Text-discrete key candidate.stable_key)
          (record c {
            candidates = insert candidate.candidate_id candidate.stable_key c.candidates;
            phase = sending (HookEvent.candidate c.bridge candidate) waiting;
          })
          (record c {
            phase =
                sending
                  (warning c.bridge (
                    txt "candidate "
                    ++ (format_uuid candidate.candidate_id
                        ++ txt " attempted to change stable identity")))
                  waiting;
          })
  ]

  unfoldable pub on_message : Connection → Result BridgeServerError BridgeMessage → Connection
  unfolding on_candidate on_text
  on_message c (err e) = failed c e
  on_message c out_of_fuel = c
  on_message c (ok (BridgeMessage.candidate k)) = on_candidate c k
  on_message c (ok (BridgeMessage.text e)) = on_text c e
  on_message c (ok (BridgeMessage.diagnostic level message)) = record c {
    phase = sending (HookEvent.diagnostic c.bridge level message) waiting;
  }
  on_message c (ok _) = c

  -- One step of the task with number `n`, `receive_hook_events`.
  unfoldable pub advance : ℕ → Connection → Phase → Input → HookService → Option HookService
  unfolding on_message send_event
  advance n c registering go_on s = some (registered n c (get c.bridge.bridge_id s.registry) s)
  advance n c waiting (incoming r) s = some (put n (on_message c r) s)
  advance n c waiting command s = elim c.commands [
    | [] ↦ none
    | k ∷ rest ↦ some (put n (record c { phase = writing k; commands = rest }) s)
  ]
  advance n c (writing k) (written r) s = some (put n (on_written c k r) s)
  advance n c (sending e next) go_on s = send_event e (put n (record c { phase = next }) s)
  advance n c unregistering go_on s = some (
      put n (record c { phase = clearing })
        (record s { registry = remove c.bridge.bridge_id s.registry }))
  advance n c clearing go_on s =
      some (
        put n (record c { enabled = []; phase = sending (HookEvent.disconnected c.bridge) ended })
          s)
  advance n c _ _ s = none
