-- ===== src/Merge.antt =====
-- crates/terratranslate-core/src/merge.rs: the three-way merge of two contexts over their base.
-- `&mut conflicts` is passed in and handed back; `push` adds at the end.
pub mod ThreeWay
pub mod Maps
pub mod Plan
pub mod Symmetry
use terra_translate.Base.{
  Text, Text-discrete, List, [], ◌∷◌, ◌++◌, Option, none, some, ite, ◌≡◌, map,
}
use terra_translate.Base.OrdMap.{OrdMap, get, insert, keys}
use terra_translate.Model.{ContextSnapshot, Entity, Entity-discrete, Externals}
use mathlib.Core.Option

pub data ContextField : Type 0 where
  summary glossary entity style scratchpad : ContextField

pub record ContextConflict : Type 0 where
  pub field : ContextField
  pub key : Option Text
  pub base : Option Text
  pub left : Option Text
  pub right : Option Text

pub record MergePlan : Type 0 where
  pub auto_merged : ContextSnapshot
  pub conflicts : List ContextConflict

unfoldable pub merge_scalar :
    ContextField → Text → Text → Text → List ContextConflict → Text × List ContextConflict
merge_scalar field base left right conflicts =
    ite (Text-discrete left right) (left, conflicts)
      (ite (Text-discrete left base) (right, conflicts)
        (ite (Text-discrete right base) (left, conflicts)
          (
            base,
            conflicts
                ++ record {
                  field = field;
                  key = none;
                  base = some base;
                  left = some left;
                  right = some right;
                }
                  ∷ [],
          )))

unfoldable pub Option-discrete {ℓ} : {T : Type ℓ} → Discrete T → Discrete (Option T)
Option-discrete d = hlevel d

unfoldable pub collect_keys : List Text → OrdMap (Unit {0}) → OrdMap (Unit {0})
collect_keys [] s = s
collect_keys (k ∷ ks) s = collect_keys ks (insert k tt s)

module _ {T : Type 0} (eq : Discrete T) (json : T → Text) (field : ContextField) where
  -- The body of the loop: the selected value, and the conflicts.
  unfoldable pub select :
      Text → Option T → Option T → Option T → List ContextConflict → Option T × List ContextConflict
  unfolding Option-discrete
  select key b l r conflicts =
      ite (Option-discrete eq l r) (l, conflicts)
        (ite (Option-discrete eq l b) (r, conflicts)
          (ite (Option-discrete eq r b) (l, conflicts)
            (
              b,
              conflicts
                  ++ record {
                    field = field;
                    key = some key;
                    base = Option.map json b;
                    left = Option.map json l;
                    right = Option.map json r;
                  }
                    ∷ [],
            )))

  -- `if let Some(value) = selected { merged.insert(key, value); }`
  unfoldable pub insert_selected : Text → Option T → OrdMap T → OrdMap T
  insert_selected key none merged = merged
  insert_selected key (some value) merged = insert key value merged

  module _ (base left right : OrdMap T) where
    -- The keys of the three maps, in ascending order and each once.
    unfoldable pub union_keys : List Text
    unfolding collect_keys
    union_keys = keys (collect_keys (keys base ++ keys left ++ keys right) [])

    unfoldable pub merge_keys :
        List Text → OrdMap T → List ContextConflict → OrdMap T × List ContextConflict
    unfolding select insert_selected
    merge_keys [] merged conflicts = (merged, conflicts)
    merge_keys (key ∷ rest) merged conflicts =
        let (selected, conflicts') =
          select key (get key base) (get key left) (get key right) conflicts in
        merge_keys rest (insert_selected key selected merged) conflicts'

    unfoldable pub merge_map : List ContextConflict → OrdMap T × List ContextConflict
    unfolding union_keys merge_keys
    merge_map conflicts = merge_keys union_keys [] conflicts

unfoldable pub plan_context_merge :
    Externals → ContextSnapshot → ContextSnapshot → ContextSnapshot → MergePlan
plan_context_merge ext base left right =
    let (merged_summary, conflicts1) =
      merge_scalar summary base.summary left.summary right.summary [] in
    let (merged_glossary, conflicts2) =
      merge_map Text-discrete ext.text_json glossary base.glossary left.glossary right.glossary
        conflicts1 in
    let (merged_entities, conflicts3) =
      merge_map Entity-discrete ext.entity_json entity base.entities left.entities right.entities
        conflicts2 in
    let (merged_style, conflicts4) =
      merge_scalar style base.style left.style right.style conflicts3 in
    let (merged_scratchpad, conflicts5) =
      merge_scalar scratchpad base.scratchpad left.scratchpad right.scratchpad conflicts4 in
    record {
      auto_merged = record {
        summary = merged_summary;
        glossary = merged_glossary;
        entities = merged_entities;
        style = merged_style;
        scratchpad = merged_scratchpad;
      };
      conflicts = conflicts5;
    }
