-- ===== src/Bridge/Mute.antt =====
-- crates/terratranslate-platform-linux/src/wine_bridge.rs: the tasks forward no text of a candidate that
-- is not enabled.
use terra_translate.Base.{
  ℕ, Text, List, [], ◌∷◌, length, get_elem?, false, Bool-cases, Option, Option-cases, none, some,
  ◌≡◌, refl, arith, inl, inr, Text-discrete, ite_cases, leb, subst, Result, ok, err, out_of_fuel,
}
use terra_translate.Base.Table.{get}
use terra_translate.Protocol.{Uuid, HookTextEvent, HookCandidate, BridgeMessage}
use terra_translate.Bridge.Data.{BridgeServerError, ConnectionCommand}
use terra_translate.Bridge.Service.{
  Phase, registering, waiting, writing, sending, unregistering, clearing, ended, Connection,
  HookService, put,
}
use terra_translate.Bridge.Tasks.{
  advance, on_text, on_candidate, on_message, on_written, registered, Input, go_on, incoming,
  command, written,
}
use terra_translate.Base.Table.{contains}
use terra_translate.Bridge.Quiet.{
  IsMute, IsQuiet, IsSilent, StaysQuiet, put-IsQuiet, still, send_event-IsQuiet,
}

-- The texts of other candidates may pass.
on_text-IsMute :
    (x : Uuid) (c : Connection) (t : HookTextEvent)
    → contains x c.enabled ≡ false
    → IsMute x c.phase
    → IsSilent x (on_text c t)
unfolding on_text
on_text-IsMute x c t off m = elim (Option-cases (get t.candidate_id c.candidates)) [
  | inl unknown ↦ rw (unknown, on_text) (off, m)
  | inr (key, old) ↦
      rw (old, on_text)
        (ite_cases (IsSilent x) (Text-discrete key t.stable_key)
          (λ same. elim (Bool-cases (contains t.candidate_id c.enabled)) [
            | inl on ↦ rw on (off, (ground arith, tt))
            | inr other ↦ rw other (off, m)
          ])
          (λ other. (off, m)))
]

on_candidate-IsMute :
    (format_uuid : Uuid → Text) (x : Uuid) (c : Connection) (k : HookCandidate)
    → contains x c.enabled ≡ false
    → IsSilent x (on_candidate format_uuid c k)
unfolding on_candidate
on_candidate-IsMute format_uuid x c k off = elim (Option-cases (get k.candidate_id c.candidates)) [
  | inl new ↦
      rw (new, on_candidate)
        (elim (Bool-cases (leb 1024 (length c.candidates))) [
          | inl full ↦ rw full (off, (tt, tt))
          | inr room ↦ rw room (off, (tt, tt))
        ])
  | inr (key, old) ↦
      rw (old, on_candidate)
        (ite_cases (IsSilent x) (Text-discrete key k.stable_key) (λ same. (off, (tt, tt)))
          (λ other. (off, (tt, tt))))
]

on_message-IsMute :
    (format_uuid : Uuid → Text) (x : Uuid) (c : Connection)
    (r : Result BridgeServerError BridgeMessage)
    → contains x c.enabled ≡ false
    → IsMute x c.phase
    → IsSilent x (on_message format_uuid c r)
unfolding on_message
on_message-IsMute format_uuid x c (err e) off m = (off, (tt, tt))
on_message-IsMute format_uuid x c out_of_fuel off m = (off, m)
on_message-IsMute format_uuid x c (ok (BridgeMessage.candidate k)) off m =
    on_candidate-IsMute format_uuid x c k off
on_message-IsMute format_uuid x c (ok (BridgeMessage.text t)) off m = on_text-IsMute x c t off m
on_message-IsMute format_uuid x c (ok (BridgeMessage.diagnostic l k)) off m = (off, (tt, tt))
on_message-IsMute format_uuid x c (ok (BridgeMessage.hello h)) off m = (off, m)
on_message-IsMute format_uuid x c (ok (BridgeMessage.replacement_result i j k)) off m = (off, m)
on_message-IsMute format_uuid x c (ok (BridgeMessage.pong i)) off m = (off, m)

on_written-IsMute :
    (x : Uuid) (c : Connection) (k : ConnectionCommand) (r : Result BridgeServerError (Unit {0}))
    → contains x c.enabled ≡ false
    → IsSilent x (on_written c k r)
on_written-IsMute x c ConnectionCommand.shutdown r off = (off, tt)
on_written-IsMute x c (ConnectionCommand.enable y) (ok u) off = (off, tt)
on_written-IsMute x c (ConnectionCommand.enable y) (err e) off = (off, (tt, tt))
on_written-IsMute x c (ConnectionCommand.enable y) out_of_fuel off = (off, tt)
on_written-IsMute x c (ConnectionCommand.disable y) (ok u) off = (off, tt)
on_written-IsMute x c (ConnectionCommand.disable y) (err e) off = (off, (tt, tt))
on_written-IsMute x c (ConnectionCommand.disable y) out_of_fuel off = (off, tt)

pub nothing_enabled : (x : Uuid) → contains x [] ≡ false
unfolding contains
nothing_enabled x = refl

module _ (x : Uuid) (s : HookService) (n : ℕ) (c : Connection) (q : IsQuiet x s)
    (at : get_elem? s.connections n ≡ some c) where
  silent : (p : Phase) → c.phase ≡ p → IsMute x p
  silent p e = subst (IsMute x) e (q.off n c at).1

  putting : (d : Connection) → IsSilent x d → StaysQuiet x s (some (put n d s))
  putting d m = (put-IsQuiet x s n d q m.0 m.1, still x s)

  registered-IsQuiet : (found : Option ℕ) → StaysQuiet x s (some (registered n c found s))
  registered-IsQuiet (some m) = putting _ ((q.off n c at).0, (tt, tt))
  registered-IsQuiet none =
      let r = put-IsQuiet x s n _ q (q.off n c at).0 (tt, tt) in
      (record { off = r.off; calm = r.calm }, still x s)

  taken :
      (commands : List ConnectionCommand)
      → StaysQuiet x s (elim commands [
        | [] ↦ none
        | k ∷ rest ↦ some (put n (record c { phase = writing k; commands = rest }) s)
      ])
  taken [] = tt
  taken (k ∷ rest) = putting _ ((q.off n c at).0, tt)

  pub advance-IsQuiet :
      (format_uuid : Uuid → Text) (p : Phase) (input : Input)
      → c.phase ≡ p
      → StaysQuiet x s (advance format_uuid n c p input s)
  unfolding advance
  advance-IsQuiet format_uuid registering go_on e =
      registered-IsQuiet (get c.bridge.bridge_id s.registry)
  advance-IsQuiet format_uuid registering (incoming r) e = tt
  advance-IsQuiet format_uuid registering command e = tt
  advance-IsQuiet format_uuid registering (written r) e = tt
  advance-IsQuiet format_uuid waiting (incoming r) e =
      let off = q.off n c at in putting _ (on_message-IsMute format_uuid x c r off.0 off.1)
  advance-IsQuiet format_uuid waiting command e = taken c.commands
  advance-IsQuiet format_uuid waiting go_on e = tt
  advance-IsQuiet format_uuid waiting (written r) e = tt
  advance-IsQuiet format_uuid (writing k) (written r) e =
      putting _ (on_written-IsMute x c k r (q.off n c at).0)
  advance-IsQuiet format_uuid (writing k) go_on e = tt
  advance-IsQuiet format_uuid (writing k) (incoming r) e = tt
  advance-IsQuiet format_uuid (writing k) command e = tt
  advance-IsQuiet format_uuid (sending y next) go_on e =
      send_event-IsQuiet x (put n (record c { phase = next }) s) y
        (put-IsQuiet x s n _ q (q.off n c at).0 (silent (sending y next) e).1)
        (silent (sending y next) e).0
  advance-IsQuiet format_uuid (sending y next) (incoming r) e = tt
  advance-IsQuiet format_uuid (sending y next) command e = tt
  advance-IsQuiet format_uuid (sending y next) (written r) e = tt
  advance-IsQuiet format_uuid unregistering go_on e =
      let r = put-IsQuiet x s n (record c { phase = clearing }) q (q.off n c at).0 tt in
      (record { off = r.off; calm = r.calm }, still x s)
  advance-IsQuiet format_uuid unregistering (incoming r) e = tt
  advance-IsQuiet format_uuid unregistering command e = tt
  advance-IsQuiet format_uuid unregistering (written r) e = tt
  advance-IsQuiet format_uuid clearing go_on e = putting _ (nothing_enabled x, (tt, tt))
  advance-IsQuiet format_uuid clearing (incoming r) e = tt
  advance-IsQuiet format_uuid clearing command e = tt
  advance-IsQuiet format_uuid clearing (written r) e = tt
  advance-IsQuiet format_uuid ended go_on e = tt
  advance-IsQuiet format_uuid ended (incoming r) e = tt
  advance-IsQuiet format_uuid ended command e = tt
  advance-IsQuiet format_uuid ended (written r) e = tt
