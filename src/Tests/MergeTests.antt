-- ===== src/Tests/MergeTests.antt =====
-- Contexts and their merges (crates/terratranslate-core/src/merge.rs, model.rs).
use terra_translate.Base.{
  ℕ_discrete, txt, Text-discrete, text_cmp, [], ◌∷◌, none, some, true, ◌≡◌, ◌↔◌, inl, refl, In, ok,
  err,
}
use terra_translate.Base.OrdMap.{get, insert}
use terra_translate.Model.{
  Bytes, TranslationCommit, ContextSnapshot, Entity-discrete, empty_context, create, verify_id,
  duplicate_parent, HasParents, create_ok_iff, verify_id-create, verified_same_id,
}
use terra_translate.Merge.{
  ContextField, ContextConflict, merge_scalar, merge_map, plan_context_merge,
}
use terra_translate.Merge.Plan.{IsMerged, IsReported, plan-IsMerged, plan_conflicts_iff}
use terra_translate.Merge.Symmetry.{
  IsOrdered, exchange, plan_fast_forward, plan_merged_symmetric, plan_conflicts_symmetric,
}
use terra_translate.Samples.{toy, toys, toy-IsCollisionFree, turn, root_commit, turn_commit}

-- Opens the merge, and the decisions that it makes.
merges : Unit {0}
unfolding merge_scalar merge_map plan_context_merge get insert text_cmp Text-discrete
    Entity-discrete ℕ_discrete
merges = tt

abbrev base : ContextSnapshot
base = record empty_context { summary = txt "start"; glossary = (txt "a", txt "x") ∷ [] }

-- The left side changes the summary, and the right side the glossary.
abbrev left : ContextSnapshot
left = record base { summary = txt "left" }

abbrev right : ContextSnapshot
right = record base { glossary = (txt "a", txt "y") ∷ (txt "b", txt "z") ∷ [] }

-- A third side changes the summary too.
abbrev other : ContextSnapshot
other = record base { summary = txt "other" }

one_sided :
    plan_context_merge toy base left right
    ≡ record { auto_merged = record right { summary = txt "left" }; conflicts = [] }
unfolding merges
one_sided = refl

abbrev summary_conflict : ContextConflict
summary_conflict = record {
  field = ContextField.summary;
  key = none;
  base = some (txt "start");
  left = some (txt "left");
  right = some (txt "other");
}

two_sided :
    plan_context_merge toy base left other
    ≡ record { auto_merged = base; conflicts = summary_conflict ∷ [] }
unfolding merges
two_sided = refl

plan-IsMerged_example :
    IsMerged base left right (plan_context_merge toy base left right).auto_merged
plan-IsMerged_example = plan-IsMerged toy base left right

plan_conflicts_iff_example :
    In summary_conflict (plan_context_merge toy base left other).conflicts
    ↔ IsReported toy base left other summary_conflict
plan_conflicts_iff_example = plan_conflicts_iff toy base left other summary_conflict

right-IsOrdered : IsOrdered right
unfolding text_cmp
right-IsOrdered = (((refl, tt), (tt, tt)), tt)

plan_fast_forward_example :
    plan_context_merge toy base base right ≡ record { auto_merged = right; conflicts = [] }
plan_fast_forward_example = plan_fast_forward toy base right right-IsOrdered

plan_merged_symmetric_example :
    (plan_context_merge toy base left right).auto_merged
    ≡ (plan_context_merge toy base right left).auto_merged
plan_merged_symmetric_example = plan_merged_symmetric toy base left right

plan_conflicts_symmetric_example :
    In (exchange summary_conflict) (plan_context_merge toy base other left).conflicts
unfolding merges
plan_conflicts_symmetric_example =
    plan_conflicts_symmetric toy base left other summary_conflict (inl refl)

created : create toy turn ≡ ok turn_commit
unfolding create toys ℕ_discrete
created = refl

twice_the_parent :
    create toy (record turn { parents = (1 ∷ []) ∷ (1 ∷ []) ∷ [] }) ≡ err duplicate_parent
unfolding create Text-discrete ℕ_discrete
twice_the_parent = refl

root_verified : verify_id toy root_commit ≡ ok true
unfolding verify_id toys Text-discrete ℕ_discrete
root_verified = refl

create_ok_iff_example :
    ((k : TranslationCommit) × (create toy turn ≡ ok k))
    ↔ (HasParents turn.parents × ((b : Bytes) × (toy.content_json turn ≡ some b)))
create_ok_iff_example = create_ok_iff toy turn

verify_id-create_example : (verify_id toy turn_commit ≡ ok true) × (turn_commit.content ≡ turn)
verify_id-create_example = verify_id-create toy turn turn_commit created

verified_same_id_example : root_commit ≡ root_commit
verified_same_id_example =
    verified_same_id toy root_commit root_commit toy-IsCollisionFree root_verified root_verified
      refl
