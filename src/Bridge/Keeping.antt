-- ===== src/Bridge/Keeping.antt =====
-- crates/terratranslate-platform-linux/src/wine_bridge.rs: a message leaves its connection good.
use terra_translate.Base.{
  ℕ, ◌≤◌, Text, Text-discrete, List, [], ◌∷◌, ◌++◌, length, get_elem?, In-append_right, Bool-cases,
  Option-cases, some, ◌≡◌, refl, arith, inl, inr, ℕ_discrete, subst, Result, ok, err, out_of_fuel,
  leb, ite_cases,
}
use terra_translate.Base.Table.{get, insert, get-insert, length-insert, contains}
use terra_translate.Protocol.{Uuid, HookCandidate, HookTextEvent, BridgeMessage}
use terra_translate.Bridge.Data.{HookBridgeIdentity, HookEvent, BridgeServerError}
use terra_translate.Bridge.Service.{Phase, waiting, sending, Connection, HookService}
use terra_translate.Bridge.Tasks.{on_text, on_candidate, on_message}
use terra_translate.Bridge.Invariant.{
  log, IsOpen, Announced, Announces, IsOnWay, IsGood, PhaseIsAllowed, IsSound,
}

pub append-Announced :
    (es : List HookEvent) (e : HookEvent) (bridge : HookBridgeIdentity) (id : Uuid) (key : Text)
    → Announces bridge id key e
    → Announced (es ++ e ∷ []) bridge id key
append-Announced es (HookEvent.candidate b k) bridge id key (same, i, j) = (
  k,
  In-append_right (HookEvent.candidate bridge k) es (HookEvent.candidate b k ∷ [])
      (inl (rw same refl)),
  i,
  j,
)
append-Announced es (HookEvent.connected b) bridge id key h = absurd h
append-Announced es (HookEvent.text b t) bridge id key h = absurd h
append-Announced es (HookEvent.diagnostic b l m) bridge id key h = absurd h
append-Announced es (HookEvent.disconnected b) bridge id key h = absurd h
append-Announced es (HookEvent.error t) bridge id key h = absurd h

module _ (s : HookService) (n : ℕ) (c : Connection) (h : IsSound s)
    (at : get_elem? s.connections n ≡ some c) where
  pub good : IsGood (IsOpen s) (log s) c
  good = h.good n c at

  -- A phase in which no announcement is on its way.
  pub announced :
      (p : Phase)
      → c.phase ≡ p
      → ((id : Uuid) (key : Text) → ¬ IsOnWay c.bridge id key p)
      → IsOpen s
      → (id : Uuid) (key : Text) → get id c.candidates ≡ some key
      → Announced (log s) c.bridge id key
  announced p e none_on_way x id key found = elim (good.known x id key found) [
    | inl a ↦ a
    | inr w ↦ absurd (none_on_way id key (subst (IsOnWay c.bridge id key) e w))
  ]

  -- The connection changes in its phase only, and nothing that it knows is unannounced.
  pub phase-IsGood :
      (p : Phase)
      → (IsOpen s
          → (id : Uuid) (key : Text) → get id c.candidates ≡ some key
          → Announced (log s) c.bridge id key)
      → PhaseIsAllowed (IsOpen s) (log s) p
      → IsGood (IsOpen s) (log s) (record c { phase = p })
  phase-IsGood p known allowed = record {
    few = good.few;
    short = good.short;
    known = λ x id key e. inl (known x id key e);
    allowed = allowed;
  }

  -- The table with a candidate that its task is about to announce.
  candidate-IsGood :
      (k : HookCandidate)
      → c.phase ≡ waiting
      → length (insert k.candidate_id k.stable_key c.candidates) ≤ 1024
      → IsGood (IsOpen s) (log s) (record c {
        candidates = insert k.candidate_id k.stable_key c.candidates;
        phase = sending (HookEvent.candidate c.bridge k) waiting;
      })
  candidate-IsGood k e few = record {
    few = few;
    short = good.short;
    known = λ x id key found.
        let split = get-insert k.candidate_id id k.stable_key c.candidates in
        elim (ℕ_discrete k.candidate_id id) [
          | yes same ↦ inr (refl, same, ground arith)
          | no other ↦ inl (announced waiting e (λ i j. λ w. w) x id key (ground arith))
        ];
    allowed = (tt, tt);
  }

  on_candidate-IsGood :
      (format_uuid : Uuid → Text) (k : HookCandidate)
      → c.phase ≡ waiting
      → IsGood (IsOpen s) (log s) (on_candidate format_uuid c k)
  unfolding on_candidate
  on_candidate-IsGood format_uuid k e =
      let still = announced waiting e (λ i j. λ w. w) in
      let grown = length-insert k.candidate_id k.stable_key c.candidates in
      elim (Option-cases (get k.candidate_id c.candidates)) [
        | inl new ↦
            rw (new, on_candidate)
              (elim (Bool-cases (leb 1024 (length c.candidates))) [
                | inl full ↦ rw full (phase-IsGood _ still (tt, tt))
                | inr room ↦ rw room (candidate-IsGood k e (ground arith))
              ])
        | inr (key, old) ↦
            rw (old, on_candidate)
              (ite_cases (IsGood (IsOpen s) (log s)) (Text-discrete key k.stable_key)
                (λ same. candidate-IsGood k e (let few = good.few in ground arith))
                (λ other. phase-IsGood _ still (tt, tt)))
      ]

  on_text-IsGood : (t : HookTextEvent) → c.phase ≡ waiting → IsGood (IsOpen s) (log s) (on_text c t)
  unfolding on_text
  on_text-IsGood t e =
      let still = announced waiting e (λ i j. λ w. w) in
      elim (Option-cases (get t.candidate_id c.candidates)) [
        | inl unknown ↦ rw (unknown, on_text) good
        | inr (key, old) ↦
            rw (old, on_text)
              (ite_cases (IsGood (IsOpen s) (log s)) (Text-discrete key t.stable_key)
                (λ same. elim (Bool-cases (contains t.candidate_id c.enabled)) [
                  | inl on ↦ rw on (
                      phase-IsGood _ still (
                        (λ x.
                            subst (Announced (log s) c.bridge t.candidate_id) same
                              (still x t.candidate_id key old)),
                        tt,
                      ))
                  | inr off ↦ rw off good
                ])
                (λ other. good))
      ]

  pub on_message-IsGood :
      (format_uuid : Uuid → Text) (r : Result BridgeServerError BridgeMessage)
      → c.phase ≡ waiting
      → IsGood (IsOpen s) (log s) (on_message format_uuid c r)
  unfolding on_message
  on_message-IsGood format_uuid (err x) e =
      phase-IsGood _ (announced waiting e (λ i j. λ w. w)) (tt, tt)
  on_message-IsGood format_uuid out_of_fuel e = good
  on_message-IsGood format_uuid (ok (BridgeMessage.candidate k)) e =
      on_candidate-IsGood format_uuid k e
  on_message-IsGood format_uuid (ok (BridgeMessage.text t)) e = on_text-IsGood t e
  on_message-IsGood format_uuid (ok (BridgeMessage.diagnostic level message)) e =
      phase-IsGood _ (announced waiting e (λ i j. λ w. w)) (tt, tt)
  on_message-IsGood format_uuid (ok (BridgeMessage.hello x)) e = good
  on_message-IsGood format_uuid (ok (BridgeMessage.replacement_result x y z)) e = good
  on_message-IsGood format_uuid (ok (BridgeMessage.pong x)) e = good
