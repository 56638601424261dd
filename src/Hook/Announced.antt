-- ===== src/Hook/Announced.antt =====
-- crates/terratranslate-wine-hook/src/lib.rs: candidates that were announced on a connection.
use terra_translate.Base.{
  ℕ, suc, ◌≤◌, Text, List, [], ◌∷◌, All, In, length, true, false, Option, none, some, ok, inl, inr,
  ◌≡◌, refl, arith, sym, subst,
}
use terra_translate.Base.OrdMap.{OrdMap, Above, IsSorted}
use terra_translate.Base.Utf8.{as_bytes}
use terra_translate.Protocol.{
  Uuid, HookCandidate, BridgeMessage, candidate, StableCandidateKey, max_sample_bytes, new_key,
}
use terra_translate.Hook.Book.{
  Observation, CandidateState, candidate_message, reset_from, advertise, Advertised, add_advertised,
}
use terra_translate.Hook.Session.{after}
use terra_translate.Hook.Limits.{length-bounded_utf8}

-- The messages announce a candidate with this key and this ID.
abbrev pub IsAnnounced : StableCandidateKey → Uuid → List BridgeMessage → Type 0
IsAnnounced key id messages =
    (c : HookCandidate) × In (candidate c) messages × (c.candidate_id ≡ id) × (c.stable_key ≡ key)

abbrev pub HasShortSample : HookCandidate → Type 0
HasShortSample c = length (as_bytes c.sample) ≤ max_sample_bytes

-- In messages with the latest first, every text comes after the candidate that it is a text of, and
-- every sample is short.
abbrev pub IsInOrder : List BridgeMessage → Type 0
IsInOrder [] = Unit
IsInOrder (candidate c ∷ older) = HasShortSample c × IsInOrder older
IsInOrder (BridgeMessage.text event ∷ older) =
    IsAnnounced event.stable_key event.candidate_id older × IsInOrder older
IsInOrder (_ ∷ older) = IsInOrder older

-- The key is valid, and the candidate was announced under it with its ID.
abbrev pub IsKnown : List BridgeMessage → Text × CandidateState → Type 0
IsKnown sent (key, state) =
    (new_key key ≡ ok key) × (state.advertised ≡ true) × IsAnnounced key state.id sent

pub IsKnown-later :
    (message : BridgeMessage) (sent : List BridgeMessage) (e : Text × CandidateState)
    → IsKnown sent e
    → IsKnown (message ∷ sent) e
IsKnown-later message sent (key, state) (v, a, (c, here, i, k)) = (v, a, (c, inr here, i, k))

pub All-later :
    (message : BridgeMessage) (sent : List BridgeMessage) (m : OrdMap CandidateState)
    → All (IsKnown sent) m
    → All (IsKnown (message ∷ sent)) m
All-later message sent [] a = tt
All-later message sent (e ∷ m) a = (IsKnown-later message sent e a.0, All-later message sent m a.1)

-- The message that announces a candidate.
abbrev pub IsAnnouncement : StableCandidateKey → Uuid → Option BridgeMessage → Type 0
IsAnnouncement key id message =
    (c : HookCandidate) × (message ≡ some (candidate c))
    × (c.candidate_id ≡ id)
    × (c.stable_key ≡ key)
    × HasShortSample c

pub candidate_message-IsAnnouncement :
    (key : Text) (id : Uuid) (observation : Observation)
    → new_key key ≡ ok key
    → IsAnnouncement key id (candidate_message key id observation)
unfolding candidate_message
candidate_message-IsAnnouncement key id observation valid =
    rw valid (_, refl, refl, refl, length-bounded_utf8 observation.text max_sample_bytes)

In-after_sent :
    (x : BridgeMessage) (messages sent : List BridgeMessage)
    → In x sent
    → In x (after messages sent)
In-after_sent x [] sent h = h
In-after_sent x (message ∷ messages) sent h = In-after_sent x messages (message ∷ sent) (inr h)

pub In-after :
    (x : BridgeMessage) (messages sent : List BridgeMessage)
    → In x messages
    → In x (after messages sent)
In-after x [] sent h = absurd h
In-after x (message ∷ messages) sent (inl e) = In-after_sent x messages (message ∷ sent) (inl e)
In-after x (message ∷ messages) sent (inr h) = In-after x messages (message ∷ sent) h

-- A message announces a candidate with a short sample.
abbrev pub IsShort : BridgeMessage → Type 0
IsShort message = (c : HookCandidate) × (message ≡ candidate c) × HasShortSample c

pub after-IsInOrder :
    (messages sent : List BridgeMessage)
    → All IsShort messages
    → IsInOrder sent
    → IsInOrder (after messages sent)
after-IsInOrder [] sent a o = o
after-IsInOrder (message ∷ messages) sent ((c, e, short), rest) o =
    after-IsInOrder messages (message ∷ sent) rest
      (subst (λ m. IsInOrder (m ∷ sent)) (sym e) (short, o))

-- All entries are announced again, under their keys.
abbrev pub IsReadvertised : OrdMap CandidateState → Option Advertised → Type 0
IsReadvertised m none = ⊥
IsReadvertised m (some (messages, again)) =
    (length again ≡ length m)
    × ((i : Text) → Above i m → Above i again)
    × (IsSorted m → IsSorted again)
    × All (IsKnown messages) again
    × All IsShort messages

add_advertised-IsReadvertised :
    (key : Text) (old state : CandidateState) (m : OrdMap CandidateState) (c : HookCandidate)
    (rest : Option Advertised)
    → new_key key ≡ ok key
    → c.candidate_id ≡ state.id
    → c.stable_key ≡ key
    → HasShortSample c
    → IsReadvertised m rest
    → IsReadvertised ((key, old) ∷ m) (add_advertised key state (some (candidate c)) rest)
add_advertised-IsReadvertised key old state m c none valid i k short r = absurd r
add_advertised-IsReadvertised key old state m c (some (messages, again)) valid i k short
      (n, a, s, known, all) =
    (
      omega (arith, n),
      λ j h. (h.0, a j h.1),
      λ h. (a key h.0, s h.1),
      ((valid, refl, (c, inl refl, i, k)), All-later (candidate c) messages again known),
      ((c, refl, short), all),
    )

-- After a reset every candidate is announced again.
pub advertise-IsReadvertised :
    (fresh : ℕ → Uuid) (n : ℕ) (m : OrdMap CandidateState)
    → All (λ e. new_key e.0 ≡ ok e.0) m
    → IsReadvertised m (advertise (reset_from fresh n m))
unfolding advertise reset_from
advertise-IsReadvertised fresh n [] a = (refl, λ i h. tt, λ h. tt, tt, tt)
advertise-IsReadvertised fresh n ((key, state) ∷ m) a =
    let (c, made, i, k, short) = candidate_message-IsAnnouncement key (fresh n) state.sample a.0 in
    rw made (
      add_advertised-IsReadvertised key state
        (record state { id = fresh n; last_text = none; advertised = false }) m c
        (advertise (reset_from fresh (suc n) m)) a.0 i k short
        (advertise-IsReadvertised fresh (suc n) m a.1))

pub All-after :
    (messages sent : List BridgeMessage) (m : OrdMap CandidateState)
    → All (IsKnown messages) m
    → All (IsKnown (after messages sent)) m
All-after messages sent [] a = tt
All-after messages sent ((key, state) ∷ m) ((v, x, (c, here, i, k)), rest) =
    ((v, x, (c, In-after (candidate c) messages sent here, i, k)), All-after messages sent m rest)

pub All-valid :
    (sent : List BridgeMessage) (m : OrdMap CandidateState)
    → All (IsKnown sent) m
    → All (λ e. new_key e.0 ≡ ok e.0) m
All-valid sent [] a = tt
All-valid sent ((key, state) ∷ m) a = (a.0.0, All-valid sent m a.1)
