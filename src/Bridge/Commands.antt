-- ===== src/Bridge/Commands.antt =====
-- crates/terratranslate-platform-linux/src/wine_bridge.rs: the methods of the service keep
-- a silent candidate silent.
use terra_translate.Base.{
  ℕ, List, [], ◌∷◌, ◌++◌, length, get_elem?, false, Bool-cases, Option-cases, some, ◌≡◌, arith, inl,
  inr, ◌==◌, subst, Result, ok, err, out_of_fuel, ltb,
}
use terra_translate.Base.Table.{Table, add, discard}
use terra_translate.Protocol.{Uuid, BridgeHello}
use terra_translate.Bridge.Data.{HookControlError, BridgeServerError, ConnectionCommand}
use terra_translate.Bridge.Service.{
  HookService, Call, returned, dropped, enabling, inserting, notifying, withdrawing, disabling,
  disabled, stopping, stopped, is_ended, change_enabled, send_command, knows, after_enable, resume,
  stop, stop_all,
}
use terra_translate.Bridge.Tasks.{has_room, on_accepted}
use terra_translate.Base.Table.{contains, contains-add, contains-discard}
use terra_translate.Bridge.Calls.{get_elem?-append_one}
use terra_translate.Bridge.Mute.{nothing_enabled}
use terra_translate.Bridge.Quiet.{
  IsSilent, IsCalm, IsQuiet, StaysQuiet, put-IsQuiet, still, chained, enqueue-IsQuiet,
}

change_enabled-IsQuiet :
    (x : Uuid) (s : HookService) (n : ℕ) (f : List Uuid → List Uuid)
    → IsQuiet x s
    → ((en : List Uuid) → contains x en ≡ false → contains x (f en) ≡ false)
    → StaysQuiet x s (some (change_enabled n f s))
change_enabled-IsQuiet x s n f q keeps = elim (Option-cases (get_elem? s.connections n)) [
  | inl missing ↦ rw (missing, change_enabled) (q, still x s)
  | inr (c, at) ↦
      rw (at, change_enabled)
        (
          put-IsQuiet x s n (record c { enabled = f c.enabled }) q
              (keeps c.enabled (q.off n c at).0) (q.off n c at).1,
          still x s,
        )
]

send_command-IsQuiet :
    (x : Uuid) (s : HookService) (n : ℕ) (b : Uuid) (k : ConnectionCommand)
    → IsQuiet x s
    → StaysQuiet x s (some (send_command n b k s).0)
unfolding send_command
send_command-IsQuiet x s n b k q = elim (Option-cases (get_elem? s.connections n)) [
  | inl missing ↦ rw (missing, send_command) (q, still x s)
  | inr (c, at) ↦ elim (Bool-cases (is_ended c.phase)) [
    | inl over ↦ rw (at, send_command) (rw over (q, still x s))
    | inr alive ↦ elim (Bool-cases (ltb (length c.commands) 64)) [
      | inl room ↦
          rw (at, send_command)
            (rw (alive, room)
              (
                put-IsQuiet x s n (record c { commands = c.commands ++ k ∷ [] }) q (q.off n c at).0
                    (q.off n c at).1,
                still x s,
              ))
      | inr full ↦ rw (at, send_command) (rw (alive, full) (q, still x s))
    ]
  ]
]

-- A method goes on, without enabling the candidate.
pub calling :
    (x : Uuid) (s t : HookService) (k : Call)
    → StaysQuiet x s (some t)
    → IsCalm x k
    → StaysQuiet x s (some (record t { call = k }))
calling x s t k q calm = (record { off = q.0.off; calm = calm }, q.1)

after_enable-IsQuiet :
    (x : Uuid) (s : HookService) (b y : Uuid) (n : ℕ)
    (p : HookService × Result HookControlError (Unit {0}))
    → StaysQuiet x s (some p.0)
    → StaysQuiet x s (some (after_enable b y n p))
after_enable-IsQuiet x s b y n (t, err e) q = calling x s t _ q tt
after_enable-IsQuiet x s b y n (t, ok r) q = calling x s t _ q tt
after_enable-IsQuiet x s b y n (t, out_of_fuel) q = calling x s t _ q tt

discard_keeps :
    (x y : Uuid) (en : List Uuid) → contains x en ≡ false → contains x (discard y en) ≡ false
discard_keeps x y en h = ground (arith, contains-discard y x en)

add_keeps :
    (x y : Uuid)
    → (x == y) ≡ false
    → (en : List Uuid) → contains x en ≡ false
    → contains x (add y en) ≡ false
add_keeps x y other en h = ground (arith, contains-add y x en)

pub resume-IsQuiet :
    (x : Uuid) (s : HookService) (k : Call) → s.call ≡ k → IsQuiet x s → StaysQuiet x s (resume k s)
unfolding resume
resume-IsQuiet x s (returned r) e q = tt
resume-IsQuiet x s dropped e q = tt
resume-IsQuiet x s (enabling b y n) e q =
    let calm : (x == y) ≡ false = subst (IsCalm x) e q.calm in
    elim (Bool-cases (knows n y s)) [
      | inl known ↦ rw known (calling x s s _ (q, still x s) calm)
      | inr unknown ↦ rw unknown (calling x s s _ (q, still x s) tt)
    ]
resume-IsQuiet x s (inserting b y n) e q =
    let calm : (x == y) ≡ false = subst (IsCalm x) e q.calm in
    change_enabled-IsQuiet x (record s { call = notifying b y n }) n (add y)
      (calling x s s (notifying b y n) (q, still x s) tt).0 (add_keeps x y calm)
resume-IsQuiet x s (withdrawing b y n z) e q =
    change_enabled-IsQuiet x (record s { call = returned (err z) }) n (discard y)
      (calling x s s (returned (err z)) (q, still x s) tt).0 (discard_keeps x y)
resume-IsQuiet x s (disabling b y n) e q =
    change_enabled-IsQuiet x (record s { call = disabled b y n }) n (discard y)
      (calling x s s (disabled b y n) (q, still x s) tt).0 (discard_keeps x y)
resume-IsQuiet x s (stopping b n) e q =
    change_enabled-IsQuiet x (record s { call = stopped b n }) n (λ en. [])
      (calling x s s (stopped b n) (q, still x s) tt).0 (λ en h. nothing_enabled x)
resume-IsQuiet x s (notifying b y n) e q =
    after_enable-IsQuiet x s b y n (send_command n b (ConnectionCommand.enable y) s)
      (send_command-IsQuiet x s n b (ConnectionCommand.enable y) q)
resume-IsQuiet x s (disabled b y n) e q =
    calling x s _ _ (send_command-IsQuiet x s n b (ConnectionCommand.disable y) q) tt
resume-IsQuiet x s (stopped b n) e q =
    calling x s _ _ (send_command-IsQuiet x s n b ConnectionCommand.shutdown q) tt

pub stop_all-IsQuiet :
    (x : Uuid) (r : Table ℕ) (s : HookService) → IsQuiet x s → StaysQuiet x s (some (stop_all r s))
stop_all-IsQuiet x [] s q = (q, still x s)
stop_all-IsQuiet x ((b, n) ∷ r) s q =
    let first = change_enabled-IsQuiet x s n (λ en. []) q (λ en h. nothing_enabled x) in
    let second =
      send_command-IsQuiet x (change_enabled n (λ en. []) s) n 0 ConnectionCommand.shutdown
        first.0 in
    let rest = stop_all-IsQuiet x r (stop n s) second.0 in
    let t = change_enabled n (λ en. []) s in
    let end = stop_all r (stop n s) in
    (rest.0, chained x s t end first.1 (chained x t (stop n s) end second.1 rest.1))

pub on_accepted-IsQuiet :
    (x : Uuid) (s : HookService) (r : Result BridgeServerError BridgeHello)
    → IsQuiet x s
    → StaysQuiet x s (some (on_accepted r s))
unfolding on_accepted
on_accepted-IsQuiet x s (ok hello) q = (
  record {
    off = λ n d at. elim (get_elem?-append_one n s.connections _ d at) [
      | inl old ↦ q.off n d old
      | inr new ↦ subst (IsSilent x) new (nothing_enabled x, tt)
    ];
    calm = q.calm;
  },
  still x s,
)
on_accepted-IsQuiet x s out_of_fuel q = (q, still x s)
on_accepted-IsQuiet x s (err e) q = elim (Bool-cases (has_room s)) [
  | inl room ↦ rw room (enqueue-IsQuiet x s _ q tt)
  | inr full ↦ rw full (q, still x s)
]
