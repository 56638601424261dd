-- ===== src/Bridge/Sound.antt =====
-- crates/terratranslate-platform-linux/src/wine_bridge.rs: an event that is sent leaves the service sound.
use terra_translate.Base.{
  ℕ, Text, [], ◌∷◌, ◌++◌, get_elem?, true, Bool-cases, Option, none, some, ◌≡◌, refl, sym, arith,
  inl, inr, append_assoc, if◌then◌else◌, subst, Result, ok, err, out_of_fuel,
}
use terra_translate.Protocol.{Uuid, BridgeMessage}
use terra_translate.Bridge.Data.{HookEvent, BridgeServerError}
use terra_translate.Bridge.Service.{Phase, sending, Connection, HookService, put, is_dropped}
use terra_translate.Bridge.Tasks.{enqueue, has_room, send_event, on_text, on_candidate, on_message}
use terra_translate.Bridge.Invariant.{
  log, IsOpen, Announces, IsOnWay, IsSound, put-IsSound, enqueue-IsSound, IsAllowed-mono,
  PhaseIsAllowed,
}
use terra_translate.Bridge.Keeping.{good, announced, phase-IsGood, append-Announced}

-- What holds of the result of a step, if there is one.
abbrev pub Keeps : Option HookService → Type 0
Keeps none = Unit {0}
Keeps (some t) = IsSound t

pub bridge-on_message :
    (format_uuid : Uuid → Text) (c : Connection) (r : Result BridgeServerError BridgeMessage)
    → (on_message format_uuid c r).bridge ≡ c.bridge
unfolding on_message on_candidate on_text
bridge-on_message format_uuid c (err x) = refl
bridge-on_message format_uuid c out_of_fuel = refl
bridge-on_message format_uuid c (ok (BridgeMessage.candidate k)) = ground arith
bridge-on_message format_uuid c (ok (BridgeMessage.text t)) = ground arith
bridge-on_message format_uuid c (ok (BridgeMessage.diagnostic level message)) = refl
bridge-on_message format_uuid c (ok (BridgeMessage.hello x)) = refl
bridge-on_message format_uuid c (ok (BridgeMessage.replacement_result x y z)) = refl
bridge-on_message format_uuid c (ok (BridgeMessage.pong x)) = refl

module _ (s : HookService) (n : ℕ) (c : Connection) (h : IsSound s)
    (at : get_elem? s.connections n ≡ some c) where
  -- A phase follows in which the task sends nothing, or something that it may.
  pub move :
      (p q : Phase)
      → c.phase ≡ p
      → ((id : Uuid) (key : Text) → ¬ IsOnWay c.bridge id key p)
      → PhaseIsAllowed (IsOpen s) (log s) q
      → IsSound (put n (record c { phase = q }) s)
  move p q e idle a =
      put-IsSound s n c (record c { phase = q }) h at refl
        (phase-IsGood s n c h at q (announced s n c h at p e idle) a)

  -- A task leaves `sending e next`, while the event is lost or is no announcement.
  lost :
      (e : HookEvent) (next : Phase)
      → c.phase ≡ sending e next
      → (IsOpen s → (id : Uuid) (key : Text) → ¬ Announces c.bridge id key e)
      → IsSound (put n (record c { phase = next }) s)
  lost e next at_phase silent =
      put-IsSound s n c (record c { phase = next }) h at refl
        (phase-IsGood s n c h at next
          (λ x. announced s n c h at (sending e next) at_phase (silent x) x)
          (subst (PhaseIsAllowed (IsOpen s) (log s)) at_phase (good s n c h at).allowed).1)

  -- A task leaves `sending e next`, and the event enters the queue.
  sent :
      (e : HookEvent) (next : Phase)
      → c.phase ≡ sending e next
      → IsOpen s
      → has_room s ≡ true
      → IsSound (put n (record c { phase = next }) (enqueue e s))
  sent e next at_phase x room =
      let allowed = subst (PhaseIsAllowed (IsOpen s) (log s)) at_phase (good s n c h at).allowed in
      let now : IsSound (enqueue e s) =
        enqueue-IsSound s e h room
          (IsAllowed-mono (IsOpen s) Unit (log s) (log s) e (λ y. x) (λ b i k a. a) allowed.0) in
      let g = now.good n c at in
      let longer : log (enqueue e s) ≡ log s ++ e ∷ [] =
        sym (append_assoc s.received s.events (e ∷ [])) in
      put-IsSound (enqueue e s) n c (record c { phase = next }) now at refl
        (phase-IsGood (enqueue e s) n c now at next
          (λ y id key found. elim (g.known y id key found) [
            | inl a ↦ a
            | inr w ↦ rw longer (
                append-Announced (log s) e c.bridge id key
                  (subst (IsOnWay c.bridge id key) at_phase w))
          ])
          (subst (PhaseIsAllowed (IsOpen s) (log (enqueue e s))) at_phase g.allowed).1)

  tried :
      (e : HookEvent) (next : Phase)
      → c.phase ≡ sending e next
      → ((id : Uuid) (key : Text) → ¬ Announces c.bridge id key e)
      → IsSound (
          if is_dropped s.call
          then put n (record c { phase = next }) s
          else if has_room s
          then put n (record c { phase = next }) (enqueue e s)
          else put n (record c { phase = next }) s)
  tried e next at_phase silent = elim (Bool-cases (is_dropped s.call)) [
    | inl gone ↦ rw gone (lost e next at_phase (λ x. silent))
    | inr here ↦ elim (Bool-cases (has_room s)) [
      | inl room ↦ rw (here, room) (sent e next at_phase here room)
      | inr full ↦ rw (here, full) (lost e next at_phase (λ x. silent))
    ]
  ]

  pub send_event-IsSound :
      (e : HookEvent) (next : Phase)
      → c.phase ≡ sending e next
      → Keeps (send_event e (put n (record c { phase = next }) s))
  unfolding send_event
  send_event-IsSound (HookEvent.candidate b k) next at_phase =
      elim (Bool-cases (is_dropped s.call)) [
        | inl gone ↦ rw gone (lost _ next at_phase (λ x. cc))
        | inr here ↦ elim (Bool-cases (has_room s)) [
          | inl room ↦ rw (here, room) (sent _ next at_phase here room)
          | inr full ↦ rw (here, full) tt
        ]
      ]
  send_event-IsSound (HookEvent.connected b) next at_phase = tried _ next at_phase (λ i j. λ w. w)
  send_event-IsSound (HookEvent.text b t) next at_phase = tried _ next at_phase (λ i j. λ w. w)
  send_event-IsSound (HookEvent.diagnostic b l m) next at_phase =
      tried _ next at_phase (λ i j. λ w. w)
  send_event-IsSound (HookEvent.disconnected b) next at_phase =
      tried _ next at_phase (λ i j. λ w. w)
  send_event-IsSound (HookEvent.error t) next at_phase = tried _ next at_phase (λ i j. λ w. w)
