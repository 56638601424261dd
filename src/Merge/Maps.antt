-- ===== src/Merge/Maps.antt =====
-- crates/terratranslate-core/src/merge.rs: what `merge_map` does at each key, and what it reports.
use terra_translate.Base.{
  Text, Text-discrete, List, [], ◌∷◌, ◌++◌, Option, none, some, ◌≡◌, ◌⊎◌, inl, inr, refl, arith,
  sym, ap, subst, Option-cases, In, In-append, In-append_left, In-append_right, ◌↔◌, append_assoc,
  append-nil,
}
use terra_translate.Base.OrdMap.{OrdMap, get, keys, get-insert, IsSorted, insert-IsSorted, In-keys}
use terra_translate.Merge.{
  ContextField, ContextConflict, collect_keys, select, insert_selected, union_keys, merge_keys,
  merge_map,
}
use terra_translate.Merge.ThreeWay.{IsConflict, IsThreeWay, conflict_at, none_of_uncollected}

module _ {T : Type 0} (eq : Discrete T) (json : T → Text) (field : ContextField) where
  -- The selected value, with the conflicts left aside.
  pub chosen : Option T → Option T → Option T → Option T
  unfolding select
  chosen b l r = (select eq json field [] b l r []).0

  -- What is pushed for a key: nothing, or one conflict.
  pub reported : Text → Option T → Option T → Option T → List ContextConflict
  unfolding select
  reported key b l r = (select eq json field key b l r []).1

  pub chosen-IsThreeWay : (b l r : Option T) → IsThreeWay (Option T) b l r (chosen b l r)
  unfolding chosen
  chosen-IsThreeWay b l r = ground arith

  select-eq :
      (key : Text) (b l r : Option T) (cs : List ContextConflict)
      → select eq json field key b l r cs ≡ (chosen b l r, cs ++ reported key b l r)
  unfolding select chosen reported
  select-eq key b l r cs = ground (arith, append-nil cs)

  In-reported :
      (c : ContextConflict) (key : Text) (b l r : Option T)
      → In c (reported key b l r) ↔ (IsConflict b l r × (conflict_at json field key b l r ≡ c))
  unfolding reported
  In-reported c key b l r = (λ h. ground arith, λ h. ground arith)

  module _ (base left right : OrdMap T) where
    pub at_key : Text → Option T
    unfolding chosen
    at_key k = chosen (get k base) (get k left) (get k right)

    pub reports : List Text → List ContextConflict
    reports [] = []
    reports (k ∷ ks) = reported k (get k base) (get k left) (get k right) ++ reports ks

    -- Every key has its selected value already, or is still to come.
    abbrev Covers : OrdMap T → List Text → Type 0
    Covers m ks = (j : Text) → (get j m ≡ at_key j) ⊎ ((get j m ≡ none) × In j ks)

    insert_selected-Covers :
        (k : Text) (ks : List Text) (m : OrdMap T)
        → Covers m (k ∷ ks)
        → Covers (insert_selected eq json field k (at_key k) m) ks
    unfolding insert_selected
    insert_selected-Covers k ks m h j = elim (h j) [
      | inl e ↦ inl (kept (at_key k) refl e)
      | inr (n, inl e) ↦ inl (stored (at_key k) refl e n)
      | inr (n, inr i) ↦ later (at_key k) refl n i
    ]
      where
        kept :
            (o : Option T)
            → at_key k ≡ o
            → get j m ≡ at_key j
            → get j (insert_selected eq json field k o m) ≡ at_key j
        kept none s e = e
        kept (some v) s e = ground (arith, get-insert k j v m)

        stored :
            (o : Option T)
            → at_key k ≡ o
            → k ≡ j
            → get j m ≡ none
            → get j (insert_selected eq json field k o m) ≡ at_key j
        stored none s e n = cc
        stored (some v) s e n = ground (arith, get-insert k j v m)

        later :
            (o : Option T)
            → at_key k ≡ o
            → get j m ≡ none
            → In j ks
            → (get j (insert_selected eq json field k o m) ≡ at_key j)
              ⊎ ((get j (insert_selected eq json field k o m) ≡ none) × In j ks)
        later none s n i = inr (n, i)
        later (some v) s n i = elim (Text-discrete k j) [
          | yes e ↦ inl (stored (some v) s e n)
          | no d ↦ inr (ground (arith, get-insert k j v m), i)
        ]

    merge_keys-cons :
        (k : Text) (ks : List Text) (m : OrdMap T) (cs : List ContextConflict)
        → merge_keys eq json field base left right (k ∷ ks) m cs
          ≡ merge_keys eq json field base left right ks
              (insert_selected eq json field k (at_key k) m)
              (cs ++ reported k (get k base) (get k left) (get k right))
    unfolding merge_keys at_key
    merge_keys-cons k ks m cs =
        ap
          (λ (p : Option T × List ContextConflict).
            merge_keys eq json field base left right ks (insert_selected eq json field k p.0 m) p.1)
          (select-eq k (get k base) (get k left) (get k right) cs)

    merge_keys-eq :
        (ks : List Text) (m : OrdMap T) (cs : List ContextConflict)
        → Covers m ks
        → ((j : Text) → get j (merge_keys eq json field base left right ks m cs).0 ≡ at_key j)
          × ((merge_keys eq json field base left right ks m cs).1 ≡ cs ++ reports ks)
    unfolding merge_keys reports
    merge_keys-eq [] m cs h =
        ((λ j. elim (h j) [ inl e ↦ e | inr n ↦ absurd n.1 ]), sym (append-nil cs))
    merge_keys-eq (k ∷ ks) m cs h = rw (merge_keys-cons k ks m cs) (
        let (values, reported_later) =
          merge_keys-eq ks (insert_selected eq json field k (at_key k) m)
            (cs ++ reported k (get k base) (get k left) (get k right))
            (insert_selected-Covers k ks m h) in
        (values, rw (← append_assoc) reported_later))

    -- A key that is not collected is in none of the three maps.
    uncollected :
        (j : Text)
        → get j (collect_keys (keys base ++ keys left ++ keys right) []) ≡ none
        → (get j base ≡ none) × (get j left ≡ none) × (get j right ≡ none)
    uncollected j e =
        let bl = keys base ++ keys left in
        let all = bl ++ keys right in
        (
          none_of_uncollected j base all
              (λ h. In-append_left j bl (keys right) (In-append_left j (keys base) (keys left) h))
              e,
          none_of_uncollected j left all
              (λ h. In-append_left j bl (keys right) (In-append_right j (keys base) (keys left) h))
              e,
          none_of_uncollected j right all (λ h. In-append_right j bl (keys right) h) e,
        )

    starts_covered : Covers [] (union_keys eq json field base left right)
    unfolding union_keys at_key get chosen select
    starts_covered j =
        elim (Option-cases (get j (collect_keys (keys base ++ keys left ++ keys right) []))) [
          | inl e ↦ inl (let (b, l, r) = uncollected j e in ground arith)
          | inr (u, e) ↦ inr (refl, In-keys j _ (λ n. cc))
        ]

    -- At every key the merged map holds the three-way merge of what the three maps hold there.
    pub merge_map-get :
        (cs : List ContextConflict) (j : Text)
        → get j (merge_map eq json field base left right cs).0 ≡ at_key j
    unfolding merge_map
    merge_map-get cs = (merge_keys-eq _ [] cs starts_covered).0

    pub merge_map-IsThreeWay :
        (cs : List ContextConflict) (k : Text)
        → IsThreeWay
            (Option T)
            (get k base)
            (get k left)
            (get k right)
            (get k (merge_map eq json field base left right cs).0)
    unfolding at_key
    merge_map-IsThreeWay cs k =
        rw (merge_map-get cs k) (chosen-IsThreeWay (get k base) (get k left) (get k right))

    pub merge_map-reports :
        (cs : List ContextConflict)
        → (merge_map eq json field base left right cs).1
          ≡ cs ++ reports (union_keys eq json field base left right)
    unfolding merge_map
    merge_map-reports cs = (merge_keys-eq _ [] cs starts_covered).1

    pub In-reports :
        (c : ContextConflict) (ks : List Text)
        → In c (reports ks)
        → (k : Text) × In k ks
          × IsConflict (get k base) (get k left) (get k right)
          × (conflict_at json field k (get k base) (get k left) (get k right) ≡ c)
    unfolding reports
    In-reports c [] h = absurd h
    In-reports c (k ∷ ks) h = elim (In-append c _ _ h) [
      | inl now ↦ (let (f, e) = (In-reported c k _ _ _).0 now in (k, inl refl, f, e))
      | inr later ↦ let (j, i, f, e) = In-reports c ks later in (j, inr i, f, e)
    ]

    pub reports-In :
        (k : Text) (ks : List Text)
        → In k ks
        → IsConflict (get k base) (get k left) (get k right)
        → In (conflict_at json field k (get k base) (get k left) (get k right)) (reports ks)
    unfolding reports
    reports-In k [] h f = absurd h
    reports-In k (j ∷ ks) (inl e) f = In-append_left _ _ (reports ks) (
        subst
          (λ i.
            In (conflict_at json field k (get k base) (get k left) (get k right))
              (reported i (get i base) (get i left) (get i right)))
          (sym e) ((In-reported _ k _ _ _).1 (f, refl)))
    reports-In k (j ∷ ks) (inr h) f = In-append_right _ _ (reports ks) (reports-In k ks h f)

    pub reports_clean :
        (ks : List Text)
        → ((k : Text) → ¬ IsConflict (get k base) (get k left) (get k right))
        → reports ks ≡ []
    reports_clean ks h =
        elim (reports ks) as (λ cs. ((c : ContextConflict) → ¬ In c cs) → cs ≡ []) [
          | [] ↦ λ n. refl
          | c ∷ cs ↦ λ n. absurd (n c (inl refl))
        ]
          (λ c i. let (k, _, f, _) = In-reports c ks i in h k f)

    -- A key where the two sides differ is a key of the union.
    pub union_keys-In :
        (k : Text)
        → IsConflict (get k base) (get k left) (get k right)
        → In k (union_keys eq json field base left right)
    unfolding union_keys
    union_keys-In k f =
        elim (Option-cases (get k (collect_keys (keys base ++ keys left ++ keys right) []))) [
          | inl e ↦ absurd (let (b, l, r) = uncollected k e in f.0 (cc))
          | inr (u, e) ↦ In-keys k _ (λ n. cc)
        ]

    insert_selected-IsSorted :
        (k : Text) (o : Option T) (m : OrdMap T)
        → IsSorted m
        → IsSorted (insert_selected eq json field k o m)
    unfolding insert_selected
    insert_selected-IsSorted k none m s = s
    insert_selected-IsSorted k (some v) m s = insert-IsSorted k v m s

    merge_keys-IsSorted :
        (ks : List Text) (m : OrdMap T) (cs : List ContextConflict)
        → IsSorted m
        → IsSorted (merge_keys eq json field base left right ks m cs).0
    unfolding merge_keys
    merge_keys-IsSorted [] m cs s = s
    merge_keys-IsSorted (k ∷ ks) m cs s =
        merge_keys-IsSorted ks _ _ (insert_selected-IsSorted k _ m s)

    pub merge_map-IsSorted :
        (cs : List ContextConflict) → IsSorted (merge_map eq json field base left right cs).0
    unfolding merge_map
    merge_map-IsSorted cs = merge_keys-IsSorted (union_keys eq json field base left right) [] cs tt
