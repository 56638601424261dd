-- ===== src/Bridge/Silence.antt =====
-- crates/terratranslate-platform-linux/src/wine_bridge.rs: a candidate that is disabled stays silent.
use terra_translate.Base.{
  ℕ, Text, List, [], ◌∷◌, ◌++◌, get_elem?, Bool, true, false, Bool-cases, Option-cases, none, some,
  ◌≡◌, refl, arith, inl, inr, ◌==◌, All, subst, Result, ok, err, out_of_fuel, ap, ◌∙◌,
}
use terra_translate.Protocol.{Uuid}
use terra_translate.Bridge.Data.{HookEvent, HookControlError}
use terra_translate.Bridge.Service.{
  HookService, Call, dropped, enabling, disabling, stopping, is_dropped, is_idle, connection, found,
  enable_candidate, disable_candidate, shutdown, try_recv, drop_service,
}
use terra_translate.Bridge.Run.{
  Label, accepted, task, enable, disable, close, proceed, receive, finish, guarded, next_state, run,
}
use terra_translate.Bridge.Safety.{moved_run, stuck_run}
use terra_translate.Bridge.Mute.{advance-IsQuiet}
use terra_translate.Bridge.Quiet.{
  texts_of, IsCalm, IsQuiet, IsDelivered, StaysQuiet, texts_of-append, still, chained,
}
use terra_translate.Bridge.Commands.{calling, on_accepted-IsQuiet, resume-IsQuiet, stop_all-IsQuiet}

-- The event that is taken out of the queue is the first one.
received-IsQuiet :
    (x : Uuid) (s : HookService) (es : List HookEvent)
    → s.events ≡ es
    → IsQuiet x s
    → StaysQuiet x s (elim es [
      | [] ↦ none
      | e ∷ rest ↦ some (record s { events = rest; received = s.received ++ e ∷ [] })
    ])
received-IsQuiet x s [] p q = tt
received-IsQuiet x s (e ∷ rest) p q = (
  record { off = q.off; calm = q.calm },
  (
    texts_of x (e ∷ []),
    texts_of-append x s.received (e ∷ []),
    ap (texts_of x) p ∙ texts_of-append x (e ∷ []) rest,
  ),
)

try_recv-IsQuiet : (x : Uuid) (s : HookService) → IsQuiet x s → StaysQuiet x s (try_recv s)
unfolding try_recv
try_recv-IsQuiet x s q = received-IsQuiet x s s.events refl q

guarded-IsQuiet :
    (x : Uuid) (b : Bool) (s t : HookService)
    → StaysQuiet x s (some t)
    → StaysQuiet x s (guarded b t)
guarded-IsQuiet x true s t q = q
guarded-IsQuiet x false s t q = tt

-- The label does not ask for the candidate to be enabled.
abbrev pub IsNotEnable : Uuid → Label → Type 0
IsNotEnable x (enable b y) = (x == y) ≡ false
IsNotEnable x _ = Unit {0}

found-IsCalm :
    (x : Uuid) (r : Result HookControlError ℕ) (next : ℕ → Call)
    → ((n : ℕ) → IsCalm x (next n))
    → IsCalm x (found r next)
found-IsCalm x (ok n) next h = h n
found-IsCalm x (err e) next h = tt
found-IsCalm x out_of_fuel next h = tt

next_state-IsQuiet :
    (format_uuid : Uuid → Text) (x : Uuid) (l : Label) (s : HookService)
    → IsNotEnable x l
    → IsQuiet x s
    → StaysQuiet x s (next_state format_uuid l s)
unfolding next_state
next_state-IsQuiet format_uuid x (accepted r) s h q = elim (Bool-cases (is_dropped s.call)) [
  | inl gone ↦ rw gone tt
  | inr here ↦ rw here (on_accepted-IsQuiet x s r q)
]
next_state-IsQuiet format_uuid x (task n input) s h q =
    elim (Option-cases (get_elem? s.connections n)) [
      | inl missing ↦ rw (missing, next_state) tt
      | inr (c, at) ↦
          rw (at, next_state) (advance-IsQuiet x s n c q at format_uuid c.phase input refl)
    ]
next_state-IsQuiet format_uuid x (enable b y) s h q =
    guarded-IsQuiet x (is_idle s.call) s (enable_candidate b y s)
      (calling x s s _ (q, still x s) (found-IsCalm x (connection b s) (enabling b y) (λ n. h)))
next_state-IsQuiet format_uuid x (disable b y) s h q =
    guarded-IsQuiet x (is_idle s.call) s (disable_candidate b y s)
      (calling x s s _ (q, still x s) (found-IsCalm x (connection b s) (disabling b y) (λ n. tt)))
next_state-IsQuiet format_uuid x (close b) s h q =
    guarded-IsQuiet x (is_idle s.call) s (shutdown b s)
      (calling x s s _ (q, still x s) (found-IsCalm x (connection b s) (stopping b) (λ n. tt)))
next_state-IsQuiet format_uuid x proceed s h q = resume-IsQuiet x s s.call refl q
next_state-IsQuiet format_uuid x receive s h q = elim (Bool-cases (is_idle s.call)) [
  | inl idle ↦ rw idle (try_recv-IsQuiet x s q)
  | inr busy ↦ rw busy tt
]
next_state-IsQuiet format_uuid x finish s h q =
    guarded-IsQuiet x (is_idle s.call) s (drop_service s) (
      stop_all-IsQuiet x s.registry (record s { call = dropped })
        (calling x s s dropped (q, still x s) tt).0)

-- A candidate that is disabled on every connection, of which no text is on its way to the queue, and
-- that is not being enabled, stays so through any steps that do not call `enable_candidate` for it.
-- The texts of it that the user interface gets meanwhile are the first of those that waited in the
-- queue before, and only the others are left in it: no text of it enters the queue.
pub run-IsQuiet :
    (format_uuid : Uuid → Text) (candidate_id : Uuid) (labels : List Label) (s t : HookService)
    → All (IsNotEnable candidate_id) labels
    → IsQuiet candidate_id s
    → run format_uuid labels s ≡ some t
    → IsQuiet candidate_id t × IsDelivered candidate_id s t
unfolding run
run-IsQuiet format_uuid x [] s t h q e =
    subst (λ u. StaysQuiet x s (some u)) (ground arith) (q, still x s)
run-IsQuiet format_uuid x (l ∷ ls) s t h q e = elim (Option-cases (next_state format_uuid l s)) [
  | inl stuck ↦ absurd (stuck_run format_uuid ls l s t stuck e)
  | inr (u, moved) ↦
      let first = subst (StaysQuiet x s) moved (next_state-IsQuiet format_uuid x l s h.0 q) in
      let rest =
        run-IsQuiet format_uuid x ls u t h.1 first.0 (moved_run format_uuid ls l s t u moved e) in
      (rest.0, chained x s u t first.1 rest.1)
]
