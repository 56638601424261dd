-- ===== src/Bridge/Safety.antt =====
-- crates/terratranslate-platform-linux/src/wine_bridge.rs: every reachable state of the service is sound.
use terra_translate.Base.{
  ℕ, Text, List, [], ◌∷◌, ◌++◌, length, get_elem?, Bool, true, false, Bool-cases, Option-cases,
  none, some, ◌≡◌, refl, sym, arith, inl, inr, append_assoc, subst, Result, ok, err, out_of_fuel,
  ap, ◌≢◌, ◌∙◌,
}
use terra_translate.Base.Table.{get, Table}
use terra_translate.Protocol.{Uuid, BridgeHello}
use terra_translate.Bridge.Data.{HookEvent, BridgeServerError, ConnectionCommand}
use terra_translate.Bridge.Service.{
  Connection, HookService, new_service, Call, returned, dropped, enabling, inserting, notifying,
  withdrawing, disabling, disabled, stopping, stopped, is_dropped, is_idle, change_enabled,
  enable_candidate, disable_candidate, shutdown, try_recv, stop, stop_all, drop_service,
}
use terra_translate.Bridge.Tasks.{has_room, on_accepted}
use terra_translate.Bridge.Run.{
  Label, accepted, task, enable, disable, close, proceed, receive, finish, guarded, next_state, run,
}
use terra_translate.Bridge.Invariant.{log, IsOpen, IsGood, IsSound, enqueue-IsSound, call-IsSound}
use terra_translate.Bridge.Sound.{Keeps}
use terra_translate.Bridge.Advance.{advance-IsSound}
use terra_translate.Bridge.Calls.{
  change_enabled-IsSound, get_elem?-append_old, get_elem?-append_one, nothing_known, resume-IsSound,
  send_command-IsSound,
}

received-IsSound :
    (s : HookService) (es : List HookEvent)
    → s.events ≡ es
    → IsSound s
    → Keeps (elim es [
      | [] ↦ none
      | e ∷ rest ↦ some (record s { events = rest; received = s.received ++ e ∷ [] })
    ])
received-IsSound s [] q h = tt
received-IsSound s (e ∷ rest) q h =
    let same : (s.received ++ e ∷ []) ++ rest ≡ log s =
      append_assoc s.received (e ∷ []) rest ∙ ap (λ l. s.received ++ l) (sym q) in
    record {
      bounded = omega (arith, h.bounded, ap length q);
      good = λ n c at. rw same (h.good n c at);
      routed = h.routed;
      introduced = rw same h.introduced;
    }

try_recv-IsSound : (s : HookService) → IsSound s → Keeps (try_recv s)
unfolding try_recv
try_recv-IsSound s h = received-IsSound s s.events refl h

stop_all-IsSound : (r : Table ℕ) (s : HookService) → IsSound s → IsSound (stop_all r s)
stop_all-IsSound [] s h = h
stop_all-IsSound ((b, n) ∷ r) s h = stop_all-IsSound r (stop n s) (
    send_command-IsSound (change_enabled n (λ x. []) s) n 0 ConnectionCommand.shutdown
      (change_enabled-IsSound s n (λ x. []) h))

-- A new connection stands behind the others.
grown-IsSound :
    (s : HookService) (c : Connection)
    → IsSound s
    → IsGood (IsOpen s) (log s) c
    → IsSound (record s { connections = s.connections ++ c ∷ [] })
grown-IsSound s c h g = record {
  bounded = h.bounded;
  good = λ n d at. elim (get_elem?-append_one n s.connections c d at) [
    | inl old ↦ h.good n d old
    | inr new ↦ subst (IsGood (IsOpen s) (log s)) new g
  ];
  routed = λ b n found.
      let (d, at, same) = h.routed b n found in
      (d, get_elem?-append_old n s.connections c d at, same);
  introduced = h.introduced;
}

on_accepted-IsSound :
    (s : HookService) (r : Result BridgeServerError BridgeHello)
    → IsSound s
    → IsSound (on_accepted r s)
unfolding on_accepted
on_accepted-IsSound s (ok hello) h = grown-IsSound s _ h (record {
  few = omega arith;
  short = omega arith;
  known = λ x id key found. absurd (nothing_known id key found);
  allowed = tt;
})
on_accepted-IsSound s (err e) h = elim (Bool-cases (has_room s)) [
  | inl room ↦ rw room (enqueue-IsSound s _ h room tt)
  | inr full ↦ rw full h
]
on_accepted-IsSound s out_of_fuel h = h

guarded-IsSound : (b : Bool) (s : HookService) → (b ≡ true → IsSound s) → Keeps (guarded b s)
guarded-IsSound true s h = h refl
guarded-IsSound false s h = tt

idle-IsOpen : (k : Call) → is_idle k ≡ true → is_dropped k ≡ false
idle-IsOpen (returned r) e = refl
idle-IsOpen (enabling b x n) e = refl
idle-IsOpen (inserting b x n) e = refl
idle-IsOpen (notifying b x n) e = refl
idle-IsOpen (withdrawing b x n y) e = refl
idle-IsOpen (disabling b x n) e = refl
idle-IsOpen (disabled b x n) e = refl
idle-IsOpen (stopping b n) e = refl
idle-IsOpen (stopped b n) e = refl
idle-IsOpen dropped e = cc

-- Every step keeps the service sound.
next_state-IsSound :
    (format_uuid : Uuid → Text) (l : Label) (s : HookService)
    → IsSound s
    → Keeps (next_state format_uuid l s)
unfolding next_state
next_state-IsSound format_uuid (accepted r) s h = elim (Bool-cases (is_dropped s.call)) [
  | inl gone ↦ rw gone tt
  | inr here ↦ rw here (on_accepted-IsSound s r h)
]
next_state-IsSound format_uuid (task n input) s h =
    elim (Option-cases (get_elem? s.connections n)) [
      | inl missing ↦ rw (missing, next_state) tt
      | inr (c, at) ↦
          rw (at, next_state) (advance-IsSound s n c h at format_uuid c.phase input refl)
    ]
next_state-IsSound format_uuid (enable b x) s h =
    guarded-IsSound (is_idle s.call) (enable_candidate b x s)
      (λ e. call-IsSound s _ h (λ y. idle-IsOpen s.call e))
next_state-IsSound format_uuid (disable b x) s h =
    guarded-IsSound (is_idle s.call) (disable_candidate b x s)
      (λ e. call-IsSound s _ h (λ y. idle-IsOpen s.call e))
next_state-IsSound format_uuid (close b) s h =
    guarded-IsSound (is_idle s.call) (shutdown b s)
      (λ e. call-IsSound s _ h (λ y. idle-IsOpen s.call e))
next_state-IsSound format_uuid proceed s h = resume-IsSound s s.call refl h
next_state-IsSound format_uuid receive s h = elim (Bool-cases (is_idle s.call)) [
  | inl idle ↦ rw idle (try_recv-IsSound s h)
  | inr busy ↦ rw busy tt
]
next_state-IsSound format_uuid finish s h = guarded-IsSound (is_idle s.call) (drop_service s) (λ e.
    stop_all-IsSound s.registry (record s { call = dropped }) (call-IsSound s dropped h (λ y. cc)))

pub moved_run :
    (format_uuid : Uuid → Text) (ls : List Label) (l : Label) (s t u : HookService)
    → next_state format_uuid l s ≡ some u
    → run format_uuid (l ∷ ls) s ≡ some t
    → run format_uuid ls u ≡ some t
unfolding run
moved_run format_uuid ls l s t u moved e = ground arith

pub stuck_run :
    (format_uuid : Uuid → Text) (ls : List Label) (l : Label) (s t : HookService)
    → next_state format_uuid l s ≡ none
    → run format_uuid (l ∷ ls) s ≢ some t
unfolding run
stuck_run format_uuid ls l s t stuck = λ e. ground arith

run_from-IsSound :
    (format_uuid : Uuid → Text) (ls : List Label) (s t : HookService)
    → IsSound s
    → run format_uuid ls s ≡ some t
    → IsSound t
unfolding run
run_from-IsSound format_uuid [] s t h e = subst IsSound (ground arith) h
run_from-IsSound format_uuid (l ∷ ls) s t h e = elim (Option-cases (next_state format_uuid l s)) [
  | inl stuck ↦ absurd (stuck_run format_uuid ls l s t stuck e)
  | inr (u, moved) ↦
      run_from-IsSound format_uuid ls u t (subst Keeps moved (next_state-IsSound format_uuid l s h))
        (moved_run format_uuid ls l s t u moved e)
]

new_service-IsSound : IsSound new_service
unfolding get
new_service-IsSound = record {
  bounded = omega arith;
  good = λ n c e. cc;
  routed = λ b n e. cc;
  introduced = tt;
}

-- Whatever the clients send and in whatever order the tasks and the user interface take their steps:
-- the queue of events holds at most 256 of them, a connection has at most 1024 candidates and 64
-- commands, the registry leads from the ID of a client to a connection of this client, and no text
-- reaches the user interface before the event that announces its candidate, under the same stable
-- key, as one of the same client.
pub run-IsSound :
    (format_uuid : Uuid → Text) (labels : List Label) (s : HookService)
    → run format_uuid labels new_service ≡ some s
    → IsSound s
run-IsSound format_uuid labels s e =
    run_from-IsSound format_uuid labels new_service s new_service-IsSound e
