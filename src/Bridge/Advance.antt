-- ===== src/Bridge/Advance.antt =====
-- crates/terratranslate-platform-linux/src/wine_bridge.rs: every step of a task keeps the service sound.
use terra_translate.Base.{
  ℕ, ◌≤◌, Text, List, [], ◌∷◌, length, get_elem?, Option, none, some, ◌≡◌, refl, arith, inl,
  ℕ_discrete, ap, Result, ok, err, out_of_fuel,
}
use terra_translate.Base.Table.{get, get_elem?-set, insert, remove, get-insert, get-remove}
use terra_translate.Protocol.{Uuid}
use terra_translate.Bridge.Data.{HookEvent, BridgeServerError, ConnectionCommand}
use terra_translate.Bridge.Service.{
  Phase, registering, waiting, writing, sending, unregistering, clearing, ended, Connection,
  HookService, put,
}
use terra_translate.Bridge.Tasks.{
  on_message, on_written, registered, advance, Input, go_on, incoming, command, written,
}
use terra_translate.Bridge.Invariant.{log, IsOpen, IsOnWay, IsSound, put-IsSound, PhaseIsAllowed}
use terra_translate.Bridge.Keeping.{good, announced, on_message-IsGood}
use terra_translate.Bridge.Sound.{Keeps, move, send_event-IsSound, bridge-on_message}

-- A connection enters the registry under the ID of its client.
enter :
    (s : HookService) (n : ℕ) (c : Connection)
    → IsSound s
    → get_elem? s.connections n ≡ some c
    → IsSound (record s { registry = insert c.bridge.bridge_id n s.registry })
enter s n c h at = record {
  bounded = h.bounded;
  good = h.good;
  routed = λ id m found.
      let split = get-insert c.bridge.bridge_id id n s.registry in
      elim (ℕ_discrete c.bridge.bridge_id id) [
        | yes same ↦ (c, ground arith, same)
        | no other ↦ h.routed id m (ground arith)
      ];
  introduced = h.introduced;
}

leave :
    (s : HookService) (b : Uuid) → IsSound s → IsSound (record s { registry = remove b s.registry })
leave s b h = record {
  bounded = h.bounded;
  good = h.good;
  routed = λ id m found. let split = get-remove b id s.registry in h.routed id m (ground arith);
  introduced = h.introduced;
}

module _ (s : HookService) (n : ℕ) (c : Connection) (h : IsSound s)
    (at : get_elem? s.connections n ≡ some c) where
  -- A change of the queue of commands and of the enabled candidates.
  pub tuned :
      (p q : Phase) (commands : List ConnectionCommand) (enabled : List Uuid)
      → c.phase ≡ p
      → ((id : Uuid) (key : Text) → ¬ IsOnWay c.bridge id key p)
      → length commands ≤ 64
      → PhaseIsAllowed (IsOpen s) (log s) q
      → IsSound (put n (record c { phase = q; commands = commands; enabled = enabled }) s)
  tuned p q commands enabled e idle n' a =
      put-IsSound s n c (record c { phase = q; commands = commands; enabled = enabled }) h at refl
        (record {
          few = (good s n c h at).few;
          short = n';
          known = λ x id key found. inl (announced s n c h at p e idle x id key found);
          allowed = a;
        })

  -- The same in whatever phase.
  pub retuned :
      (commands : List ConnectionCommand) (enabled : List Uuid)
      → length commands ≤ 64
      → IsSound (put n (record c { commands = commands; enabled = enabled }) s)
  retuned commands enabled n' =
      let g = good s n c h at in
      put-IsSound s n c (record c { commands = commands; enabled = enabled }) h at refl
        (record { few = g.few; short = n'; known = g.known; allowed = g.allowed })

  registered-IsSound : (found : Option ℕ) → c.phase ≡ registering → IsSound (registered n c found s)
  registered-IsSound (some m) e = move s n c h at registering _ e (λ i j. λ w. w) (tt, tt)
  registered-IsSound none e =
      let d : Connection = record c { phase = sending (HookEvent.connected c.bridge) waiting } in
      enter (put n d s) n d (move s n c h at registering _ e (λ i j. λ w. w) (tt, tt))
        (ground (arith, get_elem?-set s.connections n n d))

  on_written-IsSound :
      (k : ConnectionCommand) (r : Result BridgeServerError (Unit {0}))
      → c.phase ≡ writing k
      → IsSound (put n (on_written c k r) s)
  on_written-IsSound ConnectionCommand.shutdown r e =
      move s n c h at (writing ConnectionCommand.shutdown) _ e (λ i j. λ w. w) tt
  on_written-IsSound (ConnectionCommand.enable x) (err y) e =
      move s n c h at (writing (ConnectionCommand.enable x)) _ e (λ i j. λ w. w) (tt, tt)
  on_written-IsSound (ConnectionCommand.enable x) (ok y) e =
      move s n c h at (writing (ConnectionCommand.enable x)) _ e (λ i j. λ w. w) tt
  on_written-IsSound (ConnectionCommand.enable x) out_of_fuel e =
      move s n c h at (writing (ConnectionCommand.enable x)) _ e (λ i j. λ w. w) tt
  on_written-IsSound (ConnectionCommand.disable x) (err y) e =
      move s n c h at (writing (ConnectionCommand.disable x)) _ e (λ i j. λ w. w) (tt, tt)
  on_written-IsSound (ConnectionCommand.disable x) (ok y) e =
      move s n c h at (writing (ConnectionCommand.disable x)) _ e (λ i j. λ w. w) tt
  on_written-IsSound (ConnectionCommand.disable x) out_of_fuel e =
      move s n c h at (writing (ConnectionCommand.disable x)) _ e (λ i j. λ w. w) tt

  taken-Keeps :
      (commands : List ConnectionCommand)
      → c.commands ≡ commands
      → c.phase ≡ waiting
      → Keeps (elim commands [
        | [] ↦ none
        | k ∷ rest ↦ some (put n (record c { phase = writing k; commands = rest }) s)
      ])
  taken-Keeps [] q e = tt
  taken-Keeps (k ∷ rest) q e =
      let short = (good s n c h at).short in
      tuned waiting (writing k) rest c.enabled e (λ i j. λ w. w) (omega (arith, ap length q)) tt

  pub advance-IsSound :
      (format_uuid : Uuid → Text) (p : Phase) (input : Input)
      → c.phase ≡ p
      → Keeps (advance format_uuid n c p input s)
  unfolding advance
  advance-IsSound format_uuid registering go_on e =
      registered-IsSound (get c.bridge.bridge_id s.registry) e
  advance-IsSound format_uuid registering (incoming r) e = tt
  advance-IsSound format_uuid registering command e = tt
  advance-IsSound format_uuid registering (written r) e = tt
  advance-IsSound format_uuid waiting (incoming r) e =
      put-IsSound s n c (on_message format_uuid c r) h at (bridge-on_message format_uuid c r)
        (on_message-IsGood s n c h at format_uuid r e)
  advance-IsSound format_uuid waiting command e = taken-Keeps c.commands refl e
  advance-IsSound format_uuid waiting go_on e = tt
  advance-IsSound format_uuid waiting (written r) e = tt
  advance-IsSound format_uuid (writing k) (written r) e = on_written-IsSound k r e
  advance-IsSound format_uuid (writing k) go_on e = tt
  advance-IsSound format_uuid (writing k) (incoming r) e = tt
  advance-IsSound format_uuid (writing k) command e = tt
  advance-IsSound format_uuid (sending x next) go_on e = send_event-IsSound s n c h at x next e
  advance-IsSound format_uuid (sending x next) (incoming r) e = tt
  advance-IsSound format_uuid (sending x next) command e = tt
  advance-IsSound format_uuid (sending x next) (written r) e = tt
  advance-IsSound format_uuid unregistering go_on e =
      leave (put n (record c { phase = clearing }) s) c.bridge.bridge_id
        (move s n c h at unregistering clearing e (λ i j. λ w. w) tt)
  advance-IsSound format_uuid unregistering (incoming r) e = tt
  advance-IsSound format_uuid unregistering command e = tt
  advance-IsSound format_uuid unregistering (written r) e = tt
  advance-IsSound format_uuid clearing go_on e =
      tuned clearing (sending (HookEvent.disconnected c.bridge) ended) c.commands [] e
        (λ i j. λ w. w) (good s n c h at).short (tt, tt)
  advance-IsSound format_uuid clearing (incoming r) e = tt
  advance-IsSound format_uuid clearing command e = tt
  advance-IsSound format_uuid clearing (written r) e = tt
  advance-IsSound format_uuid ended go_on e = tt
  advance-IsSound format_uuid ended (incoming r) e = tt
  advance-IsSound format_uuid ended command e = tt
  advance-IsSound format_uuid ended (written r) e = tt
