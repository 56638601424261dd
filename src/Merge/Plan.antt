-- ===== src/Merge/Plan.antt =====
-- crates/terratranslate-core/src/merge.rs: what `plan_context_merge` merges and what it reports.
use terra_translate.Base.{
  Text, Text-discrete, List, [], ◌++◌, Option, none, some, ◌≡◌, ◌⊎◌, inl, inr, refl, arith, subst,
  In, In-append, In-append_left, In-append_right, ◌↔◌, append-nil,
}
use terra_translate.Base.OrdMap.{OrdMap, get, IsSorted}
use terra_translate.Model.{ContextSnapshot, Entity, Entity-discrete, Externals}
use terra_translate.Merge.{
  ContextField, ContextConflict, MergePlan, summary, glossary, entity, style, scratchpad,
  merge_scalar, union_keys, plan_context_merge,
}
use terra_translate.Merge.Maps.{
  reports, merge_map-IsThreeWay, merge_map-reports, merge_map-IsSorted, In-reports, reports-In,
  union_keys-In,
}
use terra_translate.Merge.ThreeWay.{IsThreeWay, IsConflict, conflict_at}

pub scalar_chosen : Text → Text → Text → Text
unfolding merge_scalar
scalar_chosen b l r = (merge_scalar summary b l r []).0

pub scalar_reported : ContextField → Text → Text → Text → List ContextConflict
unfolding merge_scalar
scalar_reported f b l r = (merge_scalar f b l r []).1

pub merge_scalar-eq :
    (f : ContextField) (b l r : Text) (cs : List ContextConflict)
    → merge_scalar f b l r cs ≡ (scalar_chosen b l r, cs ++ scalar_reported f b l r)
unfolding merge_scalar scalar_chosen scalar_reported
merge_scalar-eq f b l r cs = ground (arith, append-nil cs)

pub scalar_chosen-IsThreeWay : (b l r : Text) → IsThreeWay Text b l r (scalar_chosen b l r)
unfolding scalar_chosen
scalar_chosen-IsThreeWay b l r = ground arith

-- A conflict of a text field, with the three values.
abbrev pub ScalarAt : ContextField → Text → Text → Text → ContextConflict → Type 0
ScalarAt f b l r c =
    IsConflict b l r
    × (record { field = f; key = none; base = some b; left = some l; right = some r } ≡ c)

-- A conflict at a key of a map field, with the JSON of the values that are there.
abbrev pub MapAt :
    {T : Type 0}
    → (T → Text)
    → ContextField
    → OrdMap T
    → OrdMap T
    → OrdMap T
    → ContextConflict
    → Type 0
MapAt json f b l r c =
    (k : Text) × IsConflict (get k b) (get k l) (get k r)
    × (conflict_at json f k (get k b) (get k l) (get k r) ≡ c)

scalar_reported_iff :
    (f : ContextField) (b l r : Text) (c : ContextConflict)
    → In c (scalar_reported f b l r) ↔ ScalarAt f b l r c
unfolding scalar_reported
scalar_reported_iff f b l r c = (λ h. ground arith, λ h. ground arith)

-- The two sides made different changes to a field, or at a key of a map, and `c` carries them.
abbrev pub IsReported :
    Externals → ContextSnapshot → ContextSnapshot → ContextSnapshot → ContextConflict → Type 0
IsReported ext base left right c =
    ScalarAt summary base.summary left.summary right.summary c
    ⊎ MapAt ext.text_json glossary base.glossary left.glossary right.glossary c
    ⊎ MapAt ext.entity_json entity base.entities left.entities right.entities c
    ⊎ ScalarAt style base.style left.style right.style c
    ⊎ ScalarAt scratchpad base.scratchpad left.scratchpad right.scratchpad c

module _ {A B C D E : Type 0} {X : Type 0} (x : X) (a b c d e : List X) where
  five_parts :
      In x a ↔ A
      → In x b ↔ B
      → In x c ↔ C
      → In x d ↔ D
      → In x e ↔ E
      → In x (a ++ b ++ c ++ d ++ e) ↔ (A ⊎ B ⊎ C ⊎ D ⊎ E)
  five_parts fa fb fc fd fe = (
    λ h. elim (In-append x (a ++ b ++ c ++ d) e h) [
      | inr i ↦ inr (inr (inr (inr (fe.0 i))))
      | inl h ↦ elim (In-append x (a ++ b ++ c) d h) [
        | inr i ↦ inr (inr (inr (inl (fd.0 i))))
        | inl h ↦ elim (In-append x (a ++ b) c h) [
          | inr i ↦ inr (inr (inl (fc.0 i)))
          | inl h ↦ elim (In-append x a b h) [ inr i ↦ inr (inl (fb.0 i)) | inl i ↦ inl (fa.0 i) ]
        ]
      ]
    ],
    λ h. elim h [
      | inl i ↦ left_of _ e (left_of _ d (left_of _ c (left_of _ b (fa.1 i))))
      | inr (inl i) ↦ left_of _ e (left_of _ d (left_of _ c (In-append_right x a b (fb.1 i))))
      | inr (inr (inl i)) ↦ left_of _ e (left_of _ d (In-append_right x (a ++ b) c (fc.1 i)))
      | inr (inr (inr (inl i))) ↦ left_of _ e (In-append_right x (a ++ b ++ c) d (fd.1 i))
      | inr (inr (inr (inr i))) ↦ In-append_right x (a ++ b ++ c ++ d) e (fe.1 i)
    ],
  )
    where
      left_of : (xs ys : List X) → In x xs → In x (xs ++ ys)
      left_of xs ys h = In-append_left x xs ys h

module _ {T : Type 0} (eq : Discrete T) (json : T → Text) (f : ContextField)
    (b l r : OrdMap T) where
  -- What `merge_map` pushes.
  pub map_reported : List ContextConflict
  map_reported = reports eq json f b l r (union_keys eq json f b l r)

  map_reported_iff : (c : ContextConflict) → In c map_reported ↔ MapAt json f b l r c
  unfolding map_reported
  map_reported_iff c = (
    λ h. (let (k, _, x, e) = In-reports eq json f b l r c _ h in (k, x, e)),
    λ h.
        subst (λ d. In d (reports eq json f b l r (union_keys eq json f b l r))) h.2
          (reports-In eq json f b l r h.0 _ (union_keys-In eq json f b l r h.0 h.1) h.1),
  )

module _ (base left right : ContextSnapshot) where
  -- Every field of the context is the three-way merge of that field, the maps at every key.
  pub record IsMerged (merged : ContextSnapshot) : Type 0 where
    pub summary : IsThreeWay Text base.summary left.summary right.summary merged.summary
    pub style : IsThreeWay Text base.style left.style right.style merged.style
    pub scratchpad :
        IsThreeWay Text base.scratchpad left.scratchpad right.scratchpad merged.scratchpad
    pub glossary :
        (k : Text)
        → IsThreeWay
            (Option Text)
            (get k base.glossary)
            (get k left.glossary)
            (get k right.glossary)
            (get k merged.glossary)
    pub entities :
        (k : Text)
        → IsThreeWay
            (Option Entity)
            (get k base.entities)
            (get k left.entities)
            (get k right.entities)
            (get k merged.entities)

module _ (ext : Externals) (base left right : ContextSnapshot) where
  plan : MergePlan
  unfolding plan_context_merge
  plan = plan_context_merge ext base left right

  -- The conflicts of the five fields, in order.
  abbrev pub all_reported : List ContextConflict
  all_reported =
      scalar_reported summary base.summary left.summary right.summary
      ++ map_reported Text-discrete ext.text_json glossary base.glossary left.glossary
          right.glossary
      ++ map_reported Entity-discrete ext.entity_json entity base.entities left.entities
          right.entities
      ++ scalar_reported style base.style left.style right.style
      ++ scalar_reported scratchpad base.scratchpad left.scratchpad right.scratchpad

  plan_fields :
      (plan.auto_merged.summary ≡ scalar_chosen base.summary left.summary right.summary)
      × (plan.auto_merged.style ≡ scalar_chosen base.style left.style right.style)
      × (plan.auto_merged.scratchpad
          ≡ scalar_chosen base.scratchpad left.scratchpad right.scratchpad)
      × (plan.conflicts ≡ all_reported)
  unfolding plan map_reported
  plan_fields = simp (merge_scalar-eq, merge_map-reports) (refl, refl, refl, refl)

  -- `plan_context_merge` merges every field three-way.
  pub plan-IsMerged : IsMerged base left right (plan_context_merge ext base left right).auto_merged
  unfolding plan plan_context_merge
  plan-IsMerged = record {
    summary = rw plan_fields.0 (scalar_chosen-IsThreeWay _ _ _);
    style = rw plan_fields.1 (scalar_chosen-IsThreeWay _ _ _);
    scratchpad = rw plan_fields.2 (scalar_chosen-IsThreeWay _ _ _);
    glossary =
        merge_map-IsThreeWay Text-discrete ext.text_json ContextField.glossary base.glossary
          left.glossary right.glossary _;
    entities =
        merge_map-IsThreeWay Entity-discrete ext.entity_json entity base.entities left.entities
          right.entities _;
  }

  pub plan-IsSorted :
      IsSorted (plan_context_merge ext base left right).auto_merged.glossary
      × IsSorted (plan_context_merge ext base left right).auto_merged.entities
  unfolding plan_context_merge
  plan-IsSorted = (
    merge_map-IsSorted Text-discrete ext.text_json ContextField.glossary base.glossary left.glossary
        right.glossary _,
    merge_map-IsSorted Entity-discrete ext.entity_json entity base.entities left.entities
        right.entities _,
  )

  -- A conflict is reported exactly if the two sides made different changes to a field, or at a key
  -- of a map, and it carries the three values.
  pub plan_conflicts_iff :
      (c : ContextConflict)
      → In c (plan_context_merge ext base left right).conflicts ↔ IsReported ext base left right c
  unfolding plan
  plan_conflicts_iff c = rw plan_fields.3 (
      five_parts c _ _ _ _ _ (scalar_reported_iff _ _ _ _ c) (map_reported_iff _ _ _ _ _ _ c)
        (map_reported_iff _ _ _ _ _ _ c) (scalar_reported_iff _ _ _ _ c)
        (scalar_reported_iff _ _ _ _ c))
