-- ===== src/Bridge/Calls.antt =====
-- crates/terratranslate-platform-linux/src/wine_bridge.rs: the methods of the service, in
-- their steps, keep it sound.
use terra_translate.Base.{
  ℕ, Text, List, [], ◌∷◌, ◌++◌, length, get_elem?, Bool-cases, Option-cases, some, ◌≡◌, refl, arith,
  inl, inr, length-append, Result, ok, err, out_of_fuel, ltb, ◌⊎◌, ◌≢◌, zero, suc,
}
use terra_translate.Base.Table.{get, add, discard}
use terra_translate.Protocol.{Uuid}
use terra_translate.Bridge.Data.{HookControlError, ConnectionCommand}
use terra_translate.Bridge.Service.{
  Connection, HookService, Call, returned, dropped, enabling, inserting, notifying, withdrawing,
  disabling, disabled, stopping, stopped, is_ended, change_enabled, send_command, after_enable,
  resume,
}
use terra_translate.Bridge.Invariant.{IsOpen, IsSound, call-IsSound}
use terra_translate.Bridge.Sound.{Keeps}
use terra_translate.Bridge.Advance.{retuned}

pub get_elem?-append_one :
    (n : ℕ) (cs : List Connection) (c d : Connection)
    → get_elem? (cs ++ c ∷ []) n ≡ some d
    → (get_elem? cs n ≡ some d) ⊎ (c ≡ d)
get_elem?-append_one zero [] c d e = inr (ground arith)
get_elem?-append_one (suc n) [] c d e = cc
get_elem?-append_one zero (x ∷ cs) c d e = inl e
get_elem?-append_one (suc n) (x ∷ cs) c d e = get_elem?-append_one n cs c d e

pub get_elem?-append_old :
    (n : ℕ) (cs : List Connection) (c d : Connection)
    → get_elem? cs n ≡ some d
    → get_elem? (cs ++ c ∷ []) n ≡ some d
get_elem?-append_old n [] c d e = cc
get_elem?-append_old zero (x ∷ cs) c d e = e
get_elem?-append_old (suc n) (x ∷ cs) c d e = get_elem?-append_old n cs c d e

pub nothing_known : (id : Uuid) (key : Text) → get id [] ≢ some key
unfolding get
nothing_known id key = λ e. cc

pub change_enabled-IsSound :
    (s : HookService) (n : ℕ) (f : List Uuid → List Uuid)
    → IsSound s
    → IsSound (change_enabled n f s)
change_enabled-IsSound s n f h = elim (Option-cases (get_elem? s.connections n)) [
  | inl missing ↦ rw (missing, change_enabled) h
  | inr (c, at) ↦
      rw (at, change_enabled) (retuned s n c h at c.commands (f c.enabled) (h.good n c at).short)
]

pub send_command-IsSound :
    (s : HookService) (n : ℕ) (b : Uuid) (k : ConnectionCommand)
    → IsSound s
    → IsSound (send_command n b k s).0
unfolding send_command
send_command-IsSound s n b k h = elim (Option-cases (get_elem? s.connections n)) [
  | inl missing ↦ rw (missing, send_command) h
  | inr (c, at) ↦ elim (Bool-cases (is_ended c.phase)) [
    | inl over ↦ rw (at, send_command) (rw over h)
    | inr alive ↦ elim (Bool-cases (ltb (length c.commands) 64)) [
      | inl room ↦
          rw (at, send_command)
            (rw (alive, room)
              (retuned s n c h at (c.commands ++ k ∷ []) c.enabled
                (ground (arith, length-append c.commands (k ∷ [])))))
      | inr full ↦ rw (at, send_command) (rw (alive, full) h)
    ]
  ]
]

call-send_command :
    (s : HookService) (n : ℕ) (b : Uuid) (k : ConnectionCommand)
    → (send_command n b k s).0.call ≡ s.call
unfolding send_command
call-send_command s n b k = ground arith

after_enable-IsSound :
    (b x : Uuid) (n : ℕ) (p : HookService × Result HookControlError (Unit {0}))
    → IsSound p.0
    → IsOpen p.0
    → IsSound (after_enable b x n p)
after_enable-IsSound b x n (s, err e) h o = call-IsSound s _ h (λ y. o)
after_enable-IsSound b x n (s, ok r) h o = call-IsSound s _ h (λ y. o)
after_enable-IsSound b x n (s, out_of_fuel) h o = call-IsSound s _ h (λ y. o)

-- A command goes to a connection while the receiver is there.
commanded :
    (s : HookService) (n : ℕ) (b : Uuid) (k : ConnectionCommand)
    → IsSound s
    → IsOpen s
    → IsSound (send_command n b k s).0 × IsOpen (send_command n b k s).0
commanded s n b k h o = (send_command-IsSound s n b k h, rw (call-send_command s n b k) o)

-- A method that is in progress has the receiver.
pub resume-IsSound : (s : HookService) (k : Call) → s.call ≡ k → IsSound s → Keeps (resume k s)
unfolding resume
resume-IsSound s (returned r) e h = tt
resume-IsSound s dropped e h = tt
resume-IsSound s (enabling b x n) e h = call-IsSound s _ h (λ o. rw e refl)
resume-IsSound s (inserting b x n) e h =
    change_enabled-IsSound (record s { call = notifying b x n }) n (add x)
      (call-IsSound s (notifying b x n) h (λ o. rw e refl))
resume-IsSound s (withdrawing b x n y) e h =
    change_enabled-IsSound (record s { call = returned (err y) }) n (discard x)
      (call-IsSound s (returned (err y)) h (λ o. rw e refl))
resume-IsSound s (disabling b x n) e h =
    change_enabled-IsSound (record s { call = disabled b x n }) n (discard x)
      (call-IsSound s (disabled b x n) h (λ o. rw e refl))
resume-IsSound s (stopping b n) e h =
    change_enabled-IsSound (record s { call = stopped b n }) n (λ x. [])
      (call-IsSound s (stopped b n) h (λ o. rw e refl))
resume-IsSound s (notifying b x n) e h =
    let (h', o') = commanded s n b (ConnectionCommand.enable x) h (rw e refl) in
    after_enable-IsSound b x n (send_command n b (ConnectionCommand.enable x) s) h' o'
resume-IsSound s (disabled b x n) e h =
    let (h', o') = commanded s n b (ConnectionCommand.disable x) h (rw e refl) in
    call-IsSound _ _ h' (λ y. o')
resume-IsSound s (stopped b n) e h =
    let (h', o') = commanded s n b ConnectionCommand.shutdown h (rw e refl) in
    call-IsSound _ _ h' (λ y. o')
