-- ===== src/Bridge/Invariant.antt =====
-- crates/terratranslate-platform-linux/src/wine_bridge.rs: what holds of the service between two steps,
-- and the changes that keep it.
use terra_translate.Base.{
  ℕ, ◌≤◌, Text, List, [], ◌∷◌, ◌++◌, length, get_elem?, In, In-append_left, true, false, some, ◌≡◌,
  sym, arith, inl, inr, ◌⊎◌, append_assoc, append-nil, ℕ_discrete, length-append, subst,
}
use terra_translate.Base.Table.{get, get_elem?-set}
use terra_translate.Protocol.{Uuid, HookCandidate}
use terra_translate.Bridge.Data.{HookBridgeIdentity, HookEvent}
use terra_translate.Bridge.Service.{
  Phase, registering, waiting, writing, sending, unregistering, clearing, ended, Connection,
  HookService, put, Call, is_dropped,
}
use terra_translate.Bridge.Tasks.{enqueue, has_room}

-- All events so far, those that wait in the queue last.
abbrev pub log : HookService → List HookEvent
log s = s.received ++ s.events

-- The receiver of the events is there.
abbrev pub IsOpen : HookService → Type 0
IsOpen s = is_dropped s.call ≡ false

-- A candidate was announced, under this key.
abbrev pub Announced : List HookEvent → HookBridgeIdentity → Uuid → Text → Type 0
Announced es bridge id key =
    (k : HookCandidate) × In (HookEvent.candidate bridge k) es
    × (k.candidate_id ≡ id)
    × (k.stable_key ≡ key)

-- The event announces the candidate.
abbrev pub Announces : HookBridgeIdentity → Uuid → Text → HookEvent → Type 0
Announces bridge id key (HookEvent.candidate b k) =
    (b ≡ bridge) × (k.candidate_id ≡ id) × (k.stable_key ≡ key)
Announces bridge id key _ = ⊥

-- A text is about a candidate that was announced, if `A`.
abbrev pub IsAllowed : Type 0 → List HookEvent → HookEvent → Type 0
IsAllowed A es (HookEvent.text b t) = A → Announced es b t.candidate_id t.stable_key
IsAllowed A es _ = Unit {0}

-- Every text comes after the announcement of its candidate. The first list stands before the other.
abbrev pub IsIntroduced : List HookEvent → List HookEvent → Type 0
IsIntroduced before [] = Unit {0}
IsIntroduced before (e ∷ es) = IsAllowed (Unit {0}) before e × IsIntroduced (before ++ e ∷ []) es

-- The task is about to announce the candidate.
abbrev pub IsOnWay : HookBridgeIdentity → Uuid → Text → Phase → Type 0
IsOnWay bridge id key (sending e next) = Announces bridge id key e
IsOnWay bridge id key _ = ⊥

abbrev pub PhaseIsAllowed : Type 0 → List HookEvent → Phase → Type 0
PhaseIsAllowed A es (sending e next) = IsAllowed A es e × PhaseIsAllowed A es next
PhaseIsAllowed A es _ = Unit {0}

pub record IsGood (A : Type 0) (es : List HookEvent) (c : Connection) : Type 0 where
  pub few : length c.candidates ≤ 1024
  pub short : length c.commands ≤ 64
  pub known :
      A
      → (id : Uuid) (key : Text) → get id c.candidates ≡ some key
      → Announced es c.bridge id key ⊎ IsOnWay c.bridge id key c.phase
  pub allowed : PhaseIsAllowed A es c.phase

-- The queue and the tables are within their limits, the registry leads to connections of the right
-- client, and every text is introduced.
pub record IsSound (s : HookService) : Type 0 where
  pub bounded : length s.events ≤ 256
  pub good :
      (n : ℕ) (c : Connection) → get_elem? s.connections n ≡ some c → IsGood (IsOpen s) (log s) c
  pub routed :
      (b : Uuid) (n : ℕ)
      → get b s.registry ≡ some n
      → (c : Connection) × (get_elem? s.connections n ≡ some c) × (c.bridge.bridge_id ≡ b)
  pub introduced : IsIntroduced [] (log s)

Announced-append :
    (es : List HookEvent) (e : HookEvent) (bridge : HookBridgeIdentity) (id : Uuid) (key : Text)
    → Announced es bridge id key
    → Announced (es ++ e ∷ []) bridge id key
Announced-append es e bridge id key (k, h, i, j) = (k, In-append_left _ es (e ∷ []) h, i, j)

pub IsAllowed-mono :
    (A B : Type 0) (es fs : List HookEvent) (e : HookEvent)
    → (B → A)
    → ((b : HookBridgeIdentity) (id : Uuid) (key : Text)
        → Announced es b id key
        → Announced fs b id key)
    → IsAllowed A es e
    → IsAllowed B fs e
IsAllowed-mono A B es fs (HookEvent.text b t) f g h = λ x. g b t.candidate_id t.stable_key (h (f x))
IsAllowed-mono A B es fs (HookEvent.connected b) f g h = tt
IsAllowed-mono A B es fs (HookEvent.candidate b k) f g h = tt
IsAllowed-mono A B es fs (HookEvent.diagnostic b l m) f g h = tt
IsAllowed-mono A B es fs (HookEvent.disconnected b) f g h = tt
IsAllowed-mono A B es fs (HookEvent.error t) f g h = tt

PhaseIsAllowed-mono :
    (A B : Type 0) (es fs : List HookEvent) (p : Phase)
    → (B → A)
    → ((b : HookBridgeIdentity) (id : Uuid) (key : Text)
        → Announced es b id key
        → Announced fs b id key)
    → PhaseIsAllowed A es p
    → PhaseIsAllowed B fs p
PhaseIsAllowed-mono A B es fs (sending e next) f g h =
    (IsAllowed-mono A B es fs e f g h.0, PhaseIsAllowed-mono A B es fs next f g h.1)
PhaseIsAllowed-mono A B es fs registering f g h = tt
PhaseIsAllowed-mono A B es fs waiting f g h = tt
PhaseIsAllowed-mono A B es fs (writing k) f g h = tt
PhaseIsAllowed-mono A B es fs unregistering f g h = tt
PhaseIsAllowed-mono A B es fs clearing f g h = tt
PhaseIsAllowed-mono A B es fs ended f g h = tt

-- A good connection stays good when the log grows, or when the receiver is dropped.
pub IsGood-mono :
    (A B : Type 0) (es fs : List HookEvent) (c : Connection)
    → (B → A)
    → ((b : HookBridgeIdentity) (id : Uuid) (key : Text)
        → Announced es b id key
        → Announced fs b id key)
    → IsGood A es c
    → IsGood B fs c
IsGood-mono A B es fs c f g h = record {
  few = h.few;
  short = h.short;
  known = λ x id key e. elim (h.known (f x) id key e) [
    | inl a ↦ inl (g c.bridge id key a)
    | inr w ↦ inr w
  ];
  allowed = PhaseIsAllowed-mono A B es fs c.phase f g h.allowed;
}

IsIntroduced-append :
    (before es : List HookEvent) (e : HookEvent)
    → IsIntroduced before es
    → IsAllowed (Unit {0}) (before ++ es) e
    → IsIntroduced before (es ++ e ∷ [])
IsIntroduced-append before [] e h a = (subst (λ l. IsAllowed Unit l e) (append-nil before) a, tt)
IsIntroduced-append before (x ∷ es) e h a = (
  h.0,
  IsIntroduced-append (before ++ x ∷ []) es e h.1
      (subst (λ l. IsAllowed Unit l e) (sym (append_assoc before (x ∷ []) es)) a),
)

-- The connection with number `n` changes.
pub put-IsSound :
    (s : HookService) (n : ℕ) (c d : Connection)
    → IsSound s
    → get_elem? s.connections n ≡ some c
    → d.bridge ≡ c.bridge
    → IsGood (IsOpen s) (log s) d
    → IsSound (put n d s)
put-IsSound s n c d h at b g = record {
  bounded = h.bounded;
  good = λ m e found. elim (ℕ_discrete n m) [
    | yes same ↦
        subst (IsGood (IsOpen s) (log s)) (ground (arith, get_elem?-set s.connections n m d)) g
    | no other ↦ h.good m e (ground (arith, get_elem?-set s.connections n m d))
  ];
  routed = λ id m found.
      let (e, at', b') = h.routed id m found in
      elim (ℕ_discrete n m) [
        | yes same ↦ (d, ground (arith, get_elem?-set s.connections n m d), ground arith)
        | no other ↦ (e, ground (arith, get_elem?-set s.connections n m d), b')
      ];
  introduced = h.introduced;
}

-- An allowed event enters the queue.
pub enqueue-IsSound :
    (s : HookService) (e : HookEvent)
    → IsSound s
    → has_room s ≡ true
    → IsAllowed (Unit {0}) (log s) e
    → IsSound (enqueue e s)
enqueue-IsSound s e h room a =
    let longer : log (enqueue e s) ≡ log s ++ e ∷ [] =
      sym (append_assoc s.received s.events (e ∷ [])) in
    record {
      bounded = ground (arith, length-append s.events (e ∷ []));
      good = λ n c found.
          IsGood-mono (IsOpen s) (IsOpen s) (log s) (log (enqueue e s)) c (λ x. x)
            (λ b id key x. rw longer (Announced-append (log s) e b id key x)) (h.good n c found);
      routed = h.routed;
      introduced = rw longer (IsIntroduced-append [] (log s) e h.introduced a);
    }

-- The user interface goes on, and does not come back once it is gone.
pub call-IsSound :
    (s : HookService) (k : Call)
    → IsSound s
    → (is_dropped k ≡ false → IsOpen s)
    → IsSound (record s { call = k })
call-IsSound s k h f = record {
  bounded = h.bounded;
  good = λ n c found.
      IsGood-mono (IsOpen s) (is_dropped k ≡ false) (log s) (log s) c f (λ b id key x. x)
        (h.good n c found);
  routed = h.routed;
  introduced = h.introduced;
}
