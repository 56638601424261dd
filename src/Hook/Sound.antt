-- ===== src/Hook/Sound.antt =====
-- crates/terratranslate-wine-hook/src: what always holds of the candidates of a process, and of the
-- messages of a connection.
use terra_translate.Base.{
  ◌+◌, ◌≤◌, Text, List, [], ◌∷◌, All, length, true, Bool-cases, not, ◌||◌, leb, is_empty, Option,
  none, some, ok, inl, inr, ◌≡◌, refl, arith,
}
use terra_translate.Base.OrdMap.{OrdMap, IsSorted, get, insert, insert-IsSorted}
use terra_translate.Base.Table.{contains}
use terra_translate.Base.Utf8.{as_bytes}
use terra_translate.Model.{Bytes}
use terra_translate.Protocol.{
  Uuid, ExecutableIdentity, BridgeMessage, candidate, windows, StableCandidateKey, new_key, derive,
  key_bytes,
}
use terra_translate.Hook.Book.{
  Observation, CandidateState, CandidateBook, max_candidates, reset_connection, reset_from,
  Advertised, advertise, with_advertised, advertisements, is_last, route, announce, observe_at,
  observe,
}
use terra_translate.Hook.Session.{
  Session, new_session, Event, connect, enable, disable, disable_every, observed, after, hand_over,
  handle, play,
}
use terra_translate.Hook.Keys.{All-insert, All-get, length-insert_new, length-insert_known}
use terra_translate.Hook.Announced.{
  IsInOrder, IsKnown, All-later, candidate_message-IsAnnouncement, after-IsInOrder, All-after,
  All-valid, IsReadvertised, advertise-IsReadvertised,
}

-- There are at most 512 candidates, in the order of their keys, each was announced on this
-- connection with its ID, and every text of the connection came after the announcement of its
-- candidate, under the same key. Samples of candidates have at most 4096 bytes.
pub record IsSound (book : CandidateBook) (sent : List BridgeMessage) : Type 0 where
  pub sorted : IsSorted book.candidates
  pub few : length book.candidates ≤ max_candidates
  pub known : All (IsKnown sent) book.candidates
  pub in_order : IsInOrder sent

abbrev pub IsSoundAfter : Option (List BridgeMessage × CandidateBook) → List BridgeMessage → Type 0
IsSoundAfter none sent = ⊥
IsSoundAfter (some (messages, book)) sent = IsSound book (after messages sent)

abbrev pub IsSoundSession : Option Session → Type 0
IsSoundSession none = ⊥
IsSoundSession (some session) = IsSound session.book session.sent

module _ (key : StableCandidateKey) (state : CandidateState) (observation : Observation)
    (book : CandidateBook) (sent : List BridgeMessage) where
  route-IsSound :
      IsSorted book.candidates
      → ((s : CandidateState) → length (insert key s book.candidates) ≤ max_candidates)
      → All (IsKnown sent) book.candidates
      → IsInOrder sent
      → IsKnown sent (key, state)
      → IsSoundAfter (some (route key state observation book)) sent
  unfolding route
  route-IsSound sorted few known in_order (v, a, n) =
      elim (Bool-cases
        (not (contains state.id book.enabled) || is_last state.last_text observation.text)) [
          | inl quiet ↦ rw quiet (record {
            sorted = insert-IsSorted key state book.candidates sorted;
            few = few state;
            known = All-insert (IsKnown sent) key state book.candidates (v, a, n) known;
            in_order = in_order;
          })
          | inr loud ↦
              let routed = record state { last_text = some observation.text } in
              rw loud (record {
                sorted = insert-IsSorted key routed book.candidates sorted;
                few = few routed;
                known =
                    All-later _ sent (insert key routed book.candidates)
                      (All-insert (IsKnown sent) key routed book.candidates (v, a, n) known);
                in_order = (n, in_order);
              })
        ]

announce-IsSoundAfter :
    (message : BridgeMessage) (given : List BridgeMessage × CandidateBook)
    (sent : List BridgeMessage)
    → IsSoundAfter (some given) (message ∷ sent)
    → IsSoundAfter (announce (some message) given) sent
announce-IsSoundAfter message (messages, book) sent s = s

module _ (key : StableCandidateKey) (id : Uuid) (observation : Observation) (book : CandidateBook)
    (sent : List BridgeMessage) where
  observe_at-IsSoundAfter :
      (found : Option CandidateState)
      → get key book.candidates ≡ found
      → new_key key ≡ ok key
      → IsSound book sent
      → IsSoundAfter (observe_at found key id observation book) sent
  unfolding observe_at
  observe_at-IsSoundAfter (some state) e valid s =
      route-IsSound key state observation book sent s.sorted
        (λ other.
          omega (arith, s.few, length-insert_known key state other book.candidates s.sorted e))
        s.known s.in_order (All-get (IsKnown sent) key state book.candidates s.known e)
  observe_at-IsSoundAfter none e valid s =
      elim (Bool-cases (leb max_candidates (length book.candidates))) [
        | inl full ↦ rw full s
        | inr room ↦
            let (c, made, i, k, short) =
              candidate_message-IsAnnouncement key id observation valid in
            let new : CandidateState = record {
              id = id;
              last_text = none;
              sample = observation;
              advertised = true;
            } in
            let small : length book.candidates + 1 ≤ max_candidates = ground arith in
            rw (room, made)
              (announce-IsSoundAfter (candidate c) (route key new observation book) sent (
                route-IsSound key new observation book (candidate c ∷ sent) s.sorted
                  (λ other. omega (arith, small, length-insert_new key other book.candidates))
                  (All-later (candidate c) sent book.candidates s.known) (short, s.in_order)
                  (valid, refl, (c, inl refl, i, k))))
      ]

with_advertised-IsSound :
    (m : OrdMap CandidateState) (book : CandidateBook) (rest : Option Advertised)
    → IsSorted m
    → length m ≤ max_candidates
    → IsReadvertised m rest
    → IsSoundSession (hand_over (with_advertised book rest) [])
with_advertised-IsSound m book none sorted few r = absurd r
with_advertised-IsSound m book (some (messages, again)) sorted few (n, a, s, known, all) = record {
  sorted = s sorted;
  few = omega (arith, n, few);
  known = All-after messages [] again known;
  in_order = after-IsInOrder messages [] all tt;
}

hand_over-IsSound :
    (given : Option (List BridgeMessage × CandidateBook)) (sent : List BridgeMessage)
    → IsSoundAfter given sent
    → IsSoundSession (hand_over given sent)
hand_over-IsSound none sent s = absurd s
hand_over-IsSound (some (messages, book)) sent s = s

new_key_digest : (key : Text) → length (as_bytes key) ≡ 64 → new_key key ≡ ok key
unfolding new_key as_bytes
new_key_digest [] h = absurd (omega (arith, h))
new_key_digest (c ∷ key) h = ground (arith, h)

module _ (hash_hex : Bytes → Text) (to_lowercase : Text → Text)
    (digest : (b : Bytes) → length (as_bytes (hash_hex b)) ≡ 64) where
  observe-IsSoundAfter :
      (id : Uuid) (observation : Observation) (book : CandidateBook) (sent : List BridgeMessage)
      → IsSound book sent
      → IsSoundAfter (observe hash_hex to_lowercase id observation book) sent
  unfolding observe derive
  observe-IsSoundAfter id observation book sent s = elim (Bool-cases (is_empty observation.text)) [
    | inl empty ↦ rw empty s
    | inr full ↦
        let bytes =
          key_bytes hash_hex to_lowercase windows book.executable_identity observation.adapter
            (some observation.callsite_module) (some observation.callsite_offset) in
        rw full (
          observe_at-IsSoundAfter (hash_hex bytes) id observation book sent
            (get (hash_hex bytes) book.candidates) refl
            (new_key_digest (hash_hex bytes) (digest bytes)) s)
  ]

  handle-IsSound :
      (event : Event) (session : Session)
      → IsSound session.book session.sent
      → IsSoundSession (handle hash_hex to_lowercase event session)
  unfolding handle
  handle-IsSound (connect fresh) session s =
      let m = session.book.candidates in
      unfold advertisements in
      with_advertised-IsSound m (reset_connection fresh session.book)
        (advertise (reset_from fresh 0 m)) s.sorted s.few
        (advertise-IsReadvertised fresh 0 m (All-valid session.sent m s.known))
  handle-IsSound (enable id) session s = record {
    sorted = s.sorted;
    few = s.few;
    known = s.known;
    in_order = s.in_order;
  }
  handle-IsSound (disable id) session s = record {
    sorted = s.sorted;
    few = s.few;
    known = s.known;
    in_order = s.in_order;
  }
  handle-IsSound disable_every session s = record {
    sorted = s.sorted;
    few = s.few;
    known = s.known;
    in_order = s.in_order;
  }
  handle-IsSound (observed id observation) session s =
      hand_over-IsSound (observe hash_hex to_lowercase id observation session.book) session.sent
        (observe-IsSoundAfter id observation session.book session.sent s)

  play_from :
      (events : List Event) (session : Option Session)
      → IsSoundSession session
      → IsSoundSession (play hash_hex to_lowercase events session)
  unfolding play
  play_from [] session s = s
  play_from (event ∷ events) none s = absurd s
  play_from (event ∷ events) (some session) s =
      play_from events (handle hash_hex to_lowercase event session) (handle-IsSound event session s)

  -- A process that has been through any connections, messages of the host and observations has not
  -- panicked and is sound, if digests are texts of 64 bytes: there are at most 512 candidates, each was
  -- announced on the latest connection with its ID, every text of the connection came after the
  -- announcement of its candidate, under the same key, and no sample is longer than 4096 bytes.
  pub play-IsSound :
      (executable : ExecutableIdentity) (events : List Event)
      → IsSoundSession (play hash_hex to_lowercase events (some (new_session executable)))
  play-IsSound executable events =
      play_from events (some (new_session executable))
        (record { sorted = tt; few = omega arith; known = tt; in_order = tt })
