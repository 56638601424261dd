-- ===== src/Merge/Symmetry.antt =====
-- crates/terratranslate-core/src/merge.rs: a merge with an unchanged side is a fast-forward, and a
-- merge does not depend on which side is called left.
use terra_translate.Base.{Text, Text-discrete, List, [], ◌∷◌, ◌≡◌, inl, inr, refl, sym, ap, In}
use terra_translate.Base.OrdMap.{OrdMap, get, IsSorted, eq_of_get}
use terra_translate.Model.{ContextSnapshot, Entity-discrete, Externals}
use terra_translate.Merge.{ContextField, ContextConflict, Option-discrete, plan_context_merge}
use terra_translate.Merge.ThreeWay.{IsThreeWay}
use terra_translate.Merge.Plan.{
  ScalarAt, MapAt, IsReported, plan-IsMerged, plan-IsSorted, plan_conflicts_iff,
}

-- The maps of the context are in ascending order of their keys, as those of a `BTreeMap` are.
abbrev pub IsOrdered : ContextSnapshot → Type 0
IsOrdered c = IsSorted c.glossary × IsSorted c.entities

nothing-In : {A : Type 0} (xs : List A) → ((x : A) → ¬ In x xs) → xs ≡ []
nothing-In [] h = refl
nothing-In (x ∷ xs) h = absurd (h x (inl refl))

context_eq :
    (a b : ContextSnapshot)
    → IsOrdered a
    → IsOrdered b
    → a.summary ≡ b.summary
    → a.style ≡ b.style
    → a.scratchpad ≡ b.scratchpad
    → ((k : Text) → get k a.glossary ≡ get k b.glossary)
    → ((k : Text) → get k a.entities ≡ get k b.entities)
    → a ≡ b
context_eq a b oa ob s t p g e =
    let gl : a.glossary ≡ b.glossary = eq_of_get a.glossary b.glossary oa.0 ob.0 g in
    let en : a.entities ≡ b.entities = eq_of_get a.entities b.entities oa.1 ob.1 e in cc

module _ (ext : Externals) (base : ContextSnapshot) where
  -- If the left side did not change the base, the merge is the right side, without conflicts.
  pub plan_fast_forward :
      (right : ContextSnapshot)
      → IsOrdered right
      → plan_context_merge ext base base right ≡ record { auto_merged = right; conflicts = [] }
  plan_fast_forward right o =
      let m = plan-IsMerged ext base base right in
      let merged : (plan_context_merge ext base base right).auto_merged ≡ right =
        context_eq _ right (plan-IsSorted ext base base right) o (m.summary.left_unchanged refl)
          (m.style.left_unchanged refl) (m.scratchpad.left_unchanged refl)
          (λ k. (m.glossary k).left_unchanged refl) (λ k. (m.entities k).left_unchanged refl) in
      let clean : (plan_context_merge ext base base right).conflicts ≡ [] =
        nothing-In _
          (λ c i. no_conflict right c ((plan_conflicts_iff ext base base right c).0 i)) in
      cc
    where
      no_conflict :
          (right : ContextSnapshot) (c : ContextConflict) → IsReported ext base base right c → ⊥
      no_conflict right c (inl h) = h.0.1 refl
      no_conflict right c (inr (inl h)) = h.1.1 refl
      no_conflict right c (inr (inr (inl h))) = h.1.1 refl
      no_conflict right c (inr (inr (inr (inl h)))) = h.0.1 refl
      no_conflict right c (inr (inr (inr (inr h)))) = h.0.1 refl

three_way_swap :
    {T : Type 0} (eq : Discrete T) (b l r v w : T)
    → IsThreeWay T b l r v
    → IsThreeWay T b r l w
    → v ≡ w
three_way_swap eq b l r v w x y = elim (eq l r) [
  | yes e ↦ cc (x.agreed e, y.agreed (sym e))
  | no n ↦ elim (eq l b) [
    | yes e ↦ cc (x.left_unchanged e, y.right_unchanged e)
    | no p ↦ elim (eq r b) [
      | yes e ↦ cc (x.right_unchanged e, y.left_unchanged e)
      | no q ↦ cc (x.conflicting n p q, y.conflicting (λ e. n (sym e)) q p)
    ]
  ]
]

-- The conflict as it reads with the sides exchanged.
abbrev pub exchange : ContextConflict → ContextConflict
exchange c = record c { left = c.right; right = c.left }

exchange_scalar :
    {f : ContextField} {b l r : Text} (c : ContextConflict)
    → ScalarAt f b l r c
    → ScalarAt f b r l (exchange c)
exchange_scalar c h = ((λ e. h.0.0 (sym e), h.0.2, h.0.1), ap exchange h.1)

exchange_map :
    {T : Type 0} (json : T → Text) (f : ContextField) (b l r : OrdMap T) (c : ContextConflict)
    → MapAt json f b l r c
    → MapAt json f b r l (exchange c)
exchange_map json f b l r c h = (h.0, (λ e. h.1.0 (sym e), h.1.2, h.1.1), ap exchange h.2)

exchange-IsReported :
    (ext : Externals) (base left right : ContextSnapshot) (c : ContextConflict)
    → IsReported ext base left right c
    → IsReported ext base right left (exchange c)
exchange-IsReported ext base left right c (inl h) = inl (exchange_scalar c h)
exchange-IsReported ext base left right c (inr (inl h)) = inr (inl (exchange_map _ _ _ _ _ c h))
exchange-IsReported ext base left right c (inr (inr (inl h))) =
    inr (inr (inl (exchange_map _ _ _ _ _ c h)))
exchange-IsReported ext base left right c (inr (inr (inr (inl h)))) =
    inr (inr (inr (inl (exchange_scalar c h))))
exchange-IsReported ext base left right c (inr (inr (inr (inr h)))) =
    inr (inr (inr (inr (exchange_scalar c h))))

module _ (ext : Externals) (base left right : ContextSnapshot) where
  -- Exchanging the sides merges to the same context.
  pub plan_merged_symmetric :
      (plan_context_merge ext base left right).auto_merged
      ≡ (plan_context_merge ext base right left).auto_merged
  plan_merged_symmetric =
      let m = plan-IsMerged ext base left right in
      let n = plan-IsMerged ext base right left in
      context_eq _ _ (plan-IsSorted ext base left right) (plan-IsSorted ext base right left)
        (three_way_swap Text-discrete _ _ _ _ _ m.summary n.summary)
        (three_way_swap Text-discrete _ _ _ _ _ m.style n.style)
        (three_way_swap Text-discrete _ _ _ _ _ m.scratchpad n.scratchpad)
        (λ k.
          three_way_swap (Option-discrete Text-discrete) _ _ _ _ _ (m.glossary k) (n.glossary k))
        (λ k.
          three_way_swap (Option-discrete Entity-discrete) _ _ _ _ _ (m.entities k) (n.entities k))

  -- Exchanging the sides reports the same conflicts, each with its two sides exchanged.
  pub plan_conflicts_symmetric :
      (c : ContextConflict)
      → In c (plan_context_merge ext base left right).conflicts
      → In (exchange c) (plan_context_merge ext base right left).conflicts
  plan_conflicts_symmetric c h =
      (plan_conflicts_iff ext base right left (exchange c)).1
        (exchange-IsReported ext base left right c ((plan_conflicts_iff ext base left right c).0 h))
