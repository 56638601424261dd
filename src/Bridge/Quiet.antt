-- ===== src/Bridge/Quiet.antt =====
-- crates/terratranslate-platform-linux/src/wine_bridge.rs: states in which a candidate is
-- silent.
use terra_translate.Base.{
  ℕ, List, [], ◌∷◌, ◌++◌, get_elem?, false, Bool-cases, Option, none, some, ◌≡◌, refl, sym, arith,
  inl, inr, append_assoc, append-nil, ap, ◌∙◌, if◌then◌else◌, ◌==◌, ℕ_discrete, subst,
}
use terra_translate.Protocol.{Uuid, HookTextEvent}
use terra_translate.Bridge.Data.{HookEvent}
use terra_translate.Bridge.Service.{
  Phase, sending, Connection, HookService, put, Call, enabling, inserting, is_dropped,
}
use terra_translate.Bridge.Tasks.{enqueue, has_room, send_event}
use terra_translate.Base.Table.{contains, get_elem?-set}

-- The texts of a candidate among the events.
unfoldable pub texts_of : Uuid → List HookEvent → List HookTextEvent
texts_of x [] = []
texts_of x (HookEvent.text b t ∷ es) =
    if t.candidate_id == x then t ∷ texts_of x es else texts_of x es
texts_of x (e ∷ es) = texts_of x es

abbrev pub SaysNot : Uuid → HookEvent → Type 0
SaysNot x (HookEvent.text b t) = (t.candidate_id == x) ≡ false
SaysNot x _ = Unit {0}

abbrev pub IsMute : Uuid → Phase → Type 0
IsMute x (sending e next) = SaysNot x e × IsMute x next
IsMute x _ = Unit {0}

-- The candidate is disabled on the connection, and no text of it is on its way to the queue.
abbrev pub IsSilent : Uuid → Connection → Type 0
IsSilent x c = (contains x c.enabled ≡ false) × IsMute x c.phase

-- The method in progress does not enable the candidate.
abbrev pub IsCalm : Uuid → Call → Type 0
IsCalm x (enabling b y n) = (x == y) ≡ false
IsCalm x (inserting b y n) = (x == y) ≡ false
IsCalm x _ = Unit {0}

-- The candidate is disabled on every connection, no text of it is on its way to the queue, and it is
-- not being enabled.
pub record IsQuiet (x : Uuid) (s : HookService) : Type 0 where
  pub off : (n : ℕ) (c : Connection) → get_elem? s.connections n ≡ some c → IsSilent x c
  pub calm : IsCalm x s.call

-- The texts of the candidate that the user interface gets from one state to the other are the first
-- of those that wait in the queue, and the others are left in it.
abbrev pub IsDelivered : Uuid → HookService → HookService → Type 0
IsDelivered x s t =
    (delivered : List HookTextEvent) × (texts_of x t.received ≡ texts_of x s.received ++ delivered)
    × (texts_of x s.events ≡ delivered ++ texts_of x t.events)

-- The result of a step, if there is one, is quiet, and no text of the candidate entered the queue.
abbrev pub StaysQuiet : Uuid → HookService → Option HookService → Type 0
StaysQuiet x s none = Unit {0}
StaysQuiet x s (some t) = IsQuiet x t × IsDelivered x s t

pub texts_of-append :
    (x : Uuid) (es fs : List HookEvent) → texts_of x (es ++ fs) ≡ texts_of x es ++ texts_of x fs
unfolding texts_of
texts_of-append x [] fs = refl
texts_of-append x (HookEvent.text b t ∷ es) fs = elim (Bool-cases (t.candidate_id == x)) [
  | inl mine ↦ rw mine (ap (λ l. t ∷ l) (texts_of-append x es fs))
  | inr other ↦ rw other (texts_of-append x es fs)
]
texts_of-append x (HookEvent.connected b ∷ es) fs = texts_of-append x es fs
texts_of-append x (HookEvent.candidate b k ∷ es) fs = texts_of-append x es fs
texts_of-append x (HookEvent.diagnostic b l m ∷ es) fs = texts_of-append x es fs
texts_of-append x (HookEvent.disconnected b ∷ es) fs = texts_of-append x es fs
texts_of-append x (HookEvent.error t ∷ es) fs = texts_of-append x es fs

no_text : (x : Uuid) (e : HookEvent) → SaysNot x e → texts_of x (e ∷ []) ≡ []
unfolding texts_of
no_text x (HookEvent.text b t) h = rw h refl
no_text x (HookEvent.connected b) h = refl
no_text x (HookEvent.candidate b k) h = refl
no_text x (HookEvent.diagnostic b l m) h = refl
no_text x (HookEvent.disconnected b) h = refl
no_text x (HookEvent.error t) h = refl

-- Nothing was delivered.
pub still : (x : Uuid) (s : HookService) → IsDelivered x s s
still x s = ([], sym (append-nil (texts_of x s.received)), refl)

pub chained :
    (x : Uuid) (s t u : HookService) → IsDelivered x s t → IsDelivered x t u → IsDelivered x s u
chained x s t u (d, received, waiting) (e, received', waiting') = (
  d ++ e,
  received' ∙ (ap (λ l. l ++ e) received ∙ append_assoc (texts_of x s.received) d e),
  waiting ∙ (ap (λ l. d ++ l) waiting' ∙ sym (append_assoc d e (texts_of x u.events))),
)

pub put-IsQuiet :
    (x : Uuid) (s : HookService) (n : ℕ) (d : Connection)
    → IsQuiet x s
    → contains x d.enabled ≡ false
    → IsMute x d.phase
    → IsQuiet x (put n d s)
put-IsQuiet x s n d q o m = record {
  off = λ i e found. elim (ℕ_discrete n i) [
    | yes same ↦
        let here : d ≡ e = ground (arith, get_elem?-set s.connections n i d) in
        subst (IsSilent x) here (o, m)
    | no other ↦ q.off i e (ground (arith, get_elem?-set s.connections n i d))
  ];
  calm = q.calm;
}

pub enqueue-IsQuiet :
    (x : Uuid) (s : HookService) (e : HookEvent)
    → IsQuiet x s
    → SaysNot x e
    → StaysQuiet x s (some (enqueue e s))
enqueue-IsQuiet x s e q m =
    let longer : texts_of x (s.events ++ e ∷ []) ≡ texts_of x s.events =
      texts_of-append x s.events (e ∷ [])
      ∙ (ap (λ l. texts_of x s.events ++ l) (no_text x e m) ∙ append-nil (texts_of x s.events)) in
    (
      record { off = q.off; calm = q.calm },
      ([], sym (append-nil (texts_of x s.received)), sym longer),
    )

pub tried :
    (x : Uuid) (s : HookService) (e : HookEvent)
    → IsQuiet x s
    → SaysNot x e
    → StaysQuiet x s (some (if is_dropped s.call then s else if has_room s then enqueue e s else s))
tried x s e q m = elim (Bool-cases (is_dropped s.call)) [
  | inl gone ↦ rw gone (q, still x s)
  | inr here ↦ elim (Bool-cases (has_room s)) [
    | inl room ↦ rw (here, room) (enqueue-IsQuiet x s e q m)
    | inr full ↦ rw (here, full) (q, still x s)
  ]
]

-- An event that says nothing of the candidate.
pub send_event-IsQuiet :
    (x : Uuid) (s : HookService) (e : HookEvent)
    → IsQuiet x s
    → SaysNot x e
    → StaysQuiet x s (send_event e s)
unfolding send_event
send_event-IsQuiet x s (HookEvent.candidate b k) q m = elim (Bool-cases (is_dropped s.call)) [
  | inl gone ↦ rw gone (q, still x s)
  | inr here ↦ elim (Bool-cases (has_room s)) [
    | inl room ↦ rw (here, room) (enqueue-IsQuiet x s (HookEvent.candidate b k) q m)
    | inr full ↦ rw (here, full) tt
  ]
]
send_event-IsQuiet x s (HookEvent.connected b) q m = tried x s _ q m
send_event-IsQuiet x s (HookEvent.text b t) q m = tried x s _ q m
send_event-IsQuiet x s (HookEvent.diagnostic b l k) q m = tried x s _ q m
send_event-IsQuiet x s (HookEvent.disconnected b) q m = tried x s _ q m
send_event-IsQuiet x s (HookEvent.error t) q m = tried x s _ q m
