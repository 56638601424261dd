-- ===== src/Bridge/Run.antt =====
-- crates/terratranslate-platform-linux/src/wine_bridge.rs: the service as a whole. `run` performs steps
-- of the user interface, of the tasks and of the loop that accepts connections, in any order.
use terra_translate.Base.{
  ℕ, Text, List, [], ◌∷◌, get_elem?, Bool, true, false, Option, none, some, Result, if◌then◌else◌,
}
use terra_translate.Protocol.{Uuid, BridgeHello}
use terra_translate.Bridge.Data.{BridgeServerError}
use terra_translate.Bridge.Service.{
  HookService, enable_candidate, disable_candidate, shutdown, resume, is_idle, is_dropped, try_recv,
  drop_service,
}
use terra_translate.Bridge.Tasks.{Input, advance, on_accepted}

pub data Label : Type 0 where
  accepted : Result BridgeServerError BridgeHello → Label
  task : ℕ → Input → Label
  enable : (bridge_id candidate_id : Uuid) → Label
  disable : (bridge_id candidate_id : Uuid) → Label
  close : (bridge_id : Uuid) → Label
  proceed : Label
  receive : Label
  finish : Label

-- A method is called when none is in progress.
abbrev pub guarded : Bool → HookService → Option HookService
guarded true s = some s
guarded false s = none

module _ (format_uuid : Uuid → Text) where
  -- One step; `none` where there is no such step.
  unfoldable pub next_state : Label → HookService → Option HookService
  unfolding on_accepted advance enable_candidate disable_candidate shutdown resume try_recv
      drop_service
  next_state (accepted r) s = if is_dropped s.call then none else some (on_accepted r s)
  next_state (task n input) s = elim (get_elem? s.connections n) [
    | none ↦ none
    | some c ↦ advance format_uuid n c c.phase input s
  ]
  next_state (enable bridge_id candidate_id) s =
      guarded (is_idle s.call) (enable_candidate bridge_id candidate_id s)
  next_state (disable bridge_id candidate_id) s =
      guarded (is_idle s.call) (disable_candidate bridge_id candidate_id s)
  next_state (close bridge_id) s = guarded (is_idle s.call) (shutdown bridge_id s)
  next_state proceed s = resume s.call s
  next_state receive s = if is_idle s.call then try_recv s else none
  next_state finish s = guarded (is_idle s.call) (drop_service s)

  unfoldable pub run : List Label → HookService → Option HookService
  unfolding next_state
  run [] s = some s
  run (l ∷ ls) s = elim (next_state l s) [ none ↦ none | some t ↦ run ls t ]
