-- ===== src/Processor/Repeats.antt =====
-- crates/terratranslate-core/src/processor.rs: which texts `RepeatSuppressor` lets through.
use terra_translate.Base.{
  length-drop, Bool-cases, append-nil, append_assoc, sym, out_of_fuel, ℕ, zero, suc, ◌≤◌, Text,
  Text-discrete, txt, List, [], ◌∷◌, ◌++◌, length, length-append, drop, true, false, Result, ok,
  err, ◌≡◌, ◌↔◌, arith, In, refl, ◌-◌, dec_lt, ℕ_discrete, ◌<◌, inl, inr,
}
use terra_translate.Processor.{
  ProcessorRequest, ProcessorResponse, ProcessorError, RepeatSuppressor, new_suppressor, is_recent,
  pop_front, remember, suppress, rejected,
}

abbrev pub let_through : Result ProcessorError ProcessorResponse → List Text
let_through (ok response) = response.text ∷ []
let_through (err e) = []
let_through out_of_fuel = []

-- The suppressor after a sequence of requests, and the texts that it let through, oldest first.
unfoldable pub feed : RepeatSuppressor → List ProcessorRequest → RepeatSuppressor × List Text
unfolding suppress
feed p [] = (p, [])
feed p (r ∷ rs) =
    let rest = feed (suppress p r).1 rs in (rest.0, let_through (suppress p r).0 ++ rest.1)

-- The last `n` elements.
unfoldable pub last_n : ℕ → List Text → List Text
last_n n xs = drop (length xs - n) xs

drop-append : (n : ℕ) (xs ys : List Text) → n ≤ length xs → drop n (xs ++ ys) ≡ drop n xs ++ ys
drop-append zero xs ys h = refl
drop-append (suc n) [] ys h = absurd (omega arith)
drop-append (suc n) (x ∷ xs) ys h = drop-append n xs ys (omega arith)

drop_all : (n : ℕ) (xs : List Text) → length xs ≤ n → drop n xs ≡ []
drop_all zero [] h = refl
drop_all zero (x ∷ xs) h = absurd (omega arith)
drop_all (suc n) [] h = refl
drop_all (suc n) (x ∷ xs) h = drop_all n xs (omega arith)

pop_front-drop : (n : ℕ) (xs : List Text) → pop_front (drop n xs) ≡ drop (suc n) xs
pop_front-drop zero [] = refl
pop_front-drop zero (x ∷ xs) = refl
pop_front-drop (suc n) [] = refl
pop_front-drop (suc n) (x ∷ xs) = pop_front-drop n xs

length-push : (t : Text) (seen : List Text) → length (seen ++ t ∷ []) ≡ suc (length seen)
length-push t seen = omega (arith, length-append seen (t ∷ []))

-- With room left, all of the texts are recent.
last_n-short : (n : ℕ) (xs : List Text) → length xs ≤ n → last_n n xs ≡ xs
unfolding last_n
last_n-short n xs h = let e : length xs - n ≡ 0 = omega arith in rw e refl

module _ (capacity : ℕ) (t : Text) where
  remember_evict :
      (recent : List Text)
      → 0 < capacity
      → length recent ≡ capacity
      → remember capacity t recent ≡ pop_front recent ++ t ∷ []
  unfolding remember
  remember_evict recent h e = ground arith

  remember_push :
      (recent : List Text)
      → length recent < capacity
      → remember capacity t recent ≡ recent ++ t ∷ []
  unfolding remember
  remember_push recent h = ground arith

  remember_room :
      (seen : List Text)
      → length seen < capacity
      → remember capacity t (last_n capacity seen) ≡ last_n capacity (seen ++ t ∷ [])
  remember_room seen h =
      rw
        (
          last_n-short capacity seen (omega arith),
          last_n-short capacity (seen ++ t ∷ []) (omega (arith, length-push t seen)),
        )
        (remember_push seen h)

  remember_full :
      (seen : List Text)
      → 0 < capacity
      → capacity ≤ length seen
      → remember capacity t (last_n capacity seen) ≡ last_n capacity (seen ++ t ∷ [])
  unfolding last_n
  remember_full seen p h =
      let from : length (seen ++ t ∷ []) - capacity ≡ suc (length seen - capacity) =
        omega (arith, length-push t seen) in
      rw
        (
          remember_evict (drop (length seen - capacity) seen) p
              (omega (arith, length-drop (length seen - capacity) seen)),
          pop_front-drop (length seen - capacity) seen,
          from,
          drop-append (suc (length seen - capacity)) seen (t ∷ []) (omega arith),
        )
        refl

  remember_none :
      (seen : List Text)
      → capacity ≡ 0
      → remember capacity t (last_n capacity seen) ≡ last_n capacity (seen ++ t ∷ [])
  unfolding remember last_n
  remember_none seen e =
      rw
        (
          drop_all (length seen - capacity) seen (omega arith),
          drop_all (length (seen ++ t ∷ []) - capacity) (seen ++ t ∷ []) (omega arith),
        )
        (ground arith)

  -- `recent` is the last `capacity` of the accepted texts.
  remember-last_n :
      (seen : List Text)
      → remember capacity t (last_n capacity seen) ≡ last_n capacity (seen ++ t ∷ [])
  remember-last_n seen = elim (dec_lt (length seen) capacity) [
    | yes h ↦ remember_room seen h
    | no n ↦ elim (ℕ_discrete capacity 0) [
      | yes e ↦ remember_none seen e
      | no k ↦ remember_full seen (omega arith) (omega arith)
    ]
  ]

is_recent_iff : (t : Text) (xs : List Text) → (is_recent t xs ≡ true) ↔ In t xs
unfolding is_recent
is_recent_iff t [] = (λ h. cc, λ h. absurd h)
is_recent_iff t (x ∷ xs) = elim (Text-discrete x t) [
  | yes e ↦ (λ h. inl e, λ h. ground arith)
  | no n ↦ (
    λ h. inr ((is_recent_iff t xs).0 (ground arith)),
    λ h. ground (arith, (is_recent_iff t xs).1),
  )
]

suppress_repeat :
    (p : RepeatSuppressor) (r : ProcessorRequest)
    → is_recent r.text p.recent ≡ true
    → suppress p r ≡ (err (rejected (txt "duplicate line")), p)
unfolding suppress
suppress_repeat p r e = simp e

suppress_fresh :
    (p : RepeatSuppressor) (r : ProcessorRequest)
    → is_recent r.text p.recent ≡ false
    → suppress p r ≡ (
      ok (record { text = r.text; diagnostics = [] }),
      record p { recent = remember p.capacity r.text p.recent },
    )
unfolding suppress
suppress_fresh p r e = simp e

feed-recent :
    (rs : List ProcessorRequest) (p : RepeatSuppressor) (seen : List Text)
    → p.recent ≡ last_n p.capacity seen
    → ((feed p rs).0.capacity ≡ p.capacity)
      × ((feed p rs).0.recent ≡ last_n p.capacity (seen ++ (feed p rs).1))
unfolding feed
feed-recent [] p seen e = (refl, rw (append-nil seen) e)
feed-recent (r ∷ rs) p seen e = elim (Bool-cases (is_recent r.text p.recent)) [
  | inl repeat ↦ rw (suppress_repeat p r repeat) (feed-recent rs p seen e)
  | inr fresh ↦
      let q = record p { recent = remember p.capacity r.text p.recent } in
      let known : q.recent ≡ last_n q.capacity (seen ++ r.text ∷ []) =
        rw e (remember-last_n p.capacity r.text seen) in
      rw (suppress_fresh p r fresh, sym (append_assoc seen (r.text ∷ []) (feed q rs).1))
        (feed-recent rs q (seen ++ r.text ∷ []) known)
]

suppress_ok :
    (q : RepeatSuppressor) (r : ProcessorRequest)
    → (suppress q r).0 ≡ ok (record { text = r.text; diagnostics = [] }) ↔ (¬ In r.text q.recent)
suppress_ok q r = elim (Bool-cases (is_recent r.text q.recent)) [
  | inl repeat ↦
      rw (suppress_repeat q r repeat)
        (λ h. cc, λ n. absurd (n ((is_recent_iff r.text q.recent).0 repeat)))
  | inr fresh ↦
      rw (suppress_fresh q r fresh)
        (λ h i. cc (fresh, (is_recent_iff r.text q.recent).1 i), λ n. refl)
]

-- A new suppressor that has seen any requests remembers the last `capacity` texts that it let
-- through, and lets the next request through exactly if its text is not among them.
pub suppress_iff :
    (id : Text) (capacity : ℕ) (rs : List ProcessorRequest) (r : ProcessorRequest)
    → (suppress (feed (new_suppressor id capacity) rs).0 r).0
        ≡ ok (record { text = r.text; diagnostics = [] })
      ↔ (¬ In r.text (last_n capacity (feed (new_suppressor id capacity) rs).1))
suppress_iff id capacity rs r =
    let known =
      feed-recent rs (new_suppressor id capacity) []
        (sym (last_n-short capacity [] (omega arith))) in
    rw (sym known.1) (suppress_ok (feed (new_suppressor id capacity) rs).0 r)
