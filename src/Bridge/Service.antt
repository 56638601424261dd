-- ===== src/Bridge/Service.antt =====
-- crates/terratranslate-platform-linux/src/wine_bridge.rs: `HookService`. The thread of the user
-- interface calls its methods, and a task receives from each connection. One step of the model is
-- one use of shared state, under one lock, so that the steps of the tasks and of a method in progress
-- come in any order. `run` performs a list of steps in its order.
use terra_translate.Base.{
  ℕ, List, [], ◌∷◌, ◌++◌, length, get_elem?, Bool, true, false, ltb, Option, none, some, Result, ok,
  err, out_of_fuel, if◌then◌else◌,
}
use terra_translate.Base.Table.{Table, get, add, discard, set}
use terra_translate.Protocol.{Uuid, StableCandidateKey}
use terra_translate.Bridge.Data.{
  HookBridgeIdentity, HookEvent, HookControlError, ConnectionCommand, connection_command_capacity,
}

-- Where a task stands in `receive_hook_events`: before it registers, at its `select!`, in the write of
-- a command, before it sends an event (and what follows), before it leaves the registry, before it
-- clears its enabled candidates, and at its end.
pub data Phase : Type 0 where
  registering waiting : Phase
  writing : ConnectionCommand → Phase
  sending : HookEvent → Phase → Phase
  unregistering clearing ended : Phase

-- A task with the shared state of its `ConnectionControl`. `commands` is open until the end.
pub record Connection : Type 0 where
  pub bridge : HookBridgeIdentity
  pub phase : Phase
  pub commands : List ConnectionCommand
  pub candidates : Table StableCandidateKey
  pub enabled : List Uuid

-- Where the user interface stands in a method; the number is that of the connection in question.
pub data Call : Type 0 where
  returned : Result HookControlError (Unit {0}) → Call
  enabling inserting notifying : (bridge_id candidate_id : Uuid) → ℕ → Call
  withdrawing : (bridge_id candidate_id : Uuid) → ℕ → HookControlError → Call
  disabling disabled : (bridge_id candidate_id : Uuid) → ℕ → Call
  stopping stopped : (bridge_id : Uuid) → ℕ → Call
  dropped : Call

-- `received` holds the events that the user interface has taken out of the queue.
pub record HookService : Type 0 where
  pub received : List HookEvent
  pub events : List HookEvent
  pub registry : Table ℕ
  pub connections : List Connection
  pub call : Call

abbrev pub new_service : HookService
new_service = record {
  received = [];
  events = [];
  registry = [];
  connections = [];
  call = returned (ok tt);
}

abbrev pub put : ℕ → Connection → HookService → HookService
put n c s = record s { connections = set s.connections n c }

abbrev pub is_ended : Phase → Bool
is_ended ended = true
is_ended _ = false

-- `send_command`
unfoldable pub send_command :
    ℕ → Uuid → ConnectionCommand → HookService → HookService × Result HookControlError (Unit {0})
send_command n bridge_id command s = elim (get_elem? s.connections n) [
  | none ↦ (s, err (HookControlError.not_connected bridge_id))
  | some c ↦
      if is_ended c.phase
      then (s, err (HookControlError.not_connected bridge_id))
      else if ltb (length c.commands) connection_command_capacity
      then (put n (record c { commands = c.commands ++ command ∷ [] }) s, ok tt)
      else (s, err (HookControlError.queue_full bridge_id))
]

-- `HookService::connection`
unfoldable pub connection : Uuid → HookService → Result HookControlError ℕ
connection bridge_id s = elim (get bridge_id s.registry) [
  | none ↦ err (HookControlError.not_connected bridge_id)
  | some n ↦ ok n
]

abbrev pub found : Result HookControlError ℕ → (ℕ → Call) → Call
found (ok n) next = next n
found (err e) next = returned (err e)
found out_of_fuel next = returned out_of_fuel

-- `enable_candidate`, `disable_candidate` and `shutdown` up to their first use of a connection.
unfoldable pub enable_candidate : Uuid → Uuid → HookService → HookService
unfolding connection
enable_candidate bridge_id candidate_id s = record s {
  call = found (connection bridge_id s) (enabling bridge_id candidate_id);
}

unfoldable pub disable_candidate : Uuid → Uuid → HookService → HookService
unfolding connection
disable_candidate bridge_id candidate_id s = record s {
  call = found (connection bridge_id s) (disabling bridge_id candidate_id);
}

unfoldable pub shutdown : Uuid → HookService → HookService
unfolding connection
shutdown bridge_id s = record s { call = found (connection bridge_id s) (stopping bridge_id) }

-- A change of the enabled candidates of a connection.
abbrev pub change_enabled : ℕ → (List Uuid → List Uuid) → HookService → HookService
change_enabled n f s = elim (get_elem? s.connections n) [
  | none ↦ s
  | some c ↦ put n (record c { enabled = f c.enabled }) s
]

abbrev pub knows : ℕ → Uuid → HookService → Bool
knows n candidate_id s = elim (get_elem? s.connections n) [
  | none ↦ false
  | some c ↦ elim (get candidate_id c.candidates) [ none ↦ false | some key ↦ true ]
]

abbrev pub after_enable :
    Uuid → Uuid → ℕ → HookService × Result HookControlError (Unit {0}) → HookService
after_enable bridge_id candidate_id n (s, err e) = record s {
  call = withdrawing bridge_id candidate_id n e;
}
after_enable bridge_id candidate_id n (s, ok _) = record s { call = returned (ok tt) }
after_enable bridge_id candidate_id n (s, out_of_fuel) = record s { call = returned out_of_fuel }

abbrev pub after_command : HookService × Result HookControlError (Unit {0}) → HookService
after_command (s, r) = record s { call = returned r }

-- The next step of the method in progress.
unfoldable pub resume : Call → HookService → Option HookService
unfolding send_command
resume (returned r) s = none
resume dropped s = none
resume (enabling bridge_id candidate_id n) s = some (record s {
  call =
      if knows n candidate_id s
      then inserting bridge_id candidate_id n
      else returned (err (HookControlError.unknown_candidate bridge_id candidate_id));
})
resume (inserting bridge_id candidate_id n) s =
    some
      (change_enabled n (add candidate_id) (record s { call = notifying bridge_id candidate_id n }))
resume (notifying bridge_id candidate_id n) s = some (
    after_enable bridge_id candidate_id n
      (send_command n bridge_id (ConnectionCommand.enable candidate_id) s))
resume (withdrawing bridge_id candidate_id n e) s =
    some (change_enabled n (discard candidate_id) (record s { call = returned (err e) }))
resume (disabling bridge_id candidate_id n) s = some (
    change_enabled n (discard candidate_id) (record s { call = disabled bridge_id candidate_id n }))
resume (disabled bridge_id candidate_id n) s =
    some (after_command (send_command n bridge_id (ConnectionCommand.disable candidate_id) s))
resume (stopping bridge_id n) s =
    some (change_enabled n (λ _. []) (record s { call = stopped bridge_id n }))
resume (stopped bridge_id n) s =
    some (after_command (send_command n bridge_id ConnectionCommand.shutdown s))

abbrev pub is_idle : Call → Bool
is_idle (returned r) = true
is_idle _ = false

abbrev pub is_dropped : Call → Bool
is_dropped dropped = true
is_dropped _ = false

-- `try_recv`
unfoldable pub try_recv : HookService → Option HookService
try_recv s = elim s.events [
  | [] ↦ none
  | e ∷ rest ↦ some (record s { events = rest; received = s.received ++ e ∷ [] })
]

-- What `drop` does to one connection of the registry.
abbrev pub stop : ℕ → HookService → HookService
stop n s = (send_command n 0 ConnectionCommand.shutdown (change_enabled n (λ _. []) s)).0

abbrev pub stop_all : Table ℕ → HookService → HookService
stop_all [] s = s
stop_all ((bridge_id, n) ∷ rest) s = stop_all rest (stop n s)

-- `Drop for HookService`
unfoldable pub drop_service : HookService → HookService
unfolding send_command
drop_service s = stop_all s.registry (record s { call = dropped })
