-- ===== src/Signature/Multiset.antt =====
-- crates/terratranslate-core/src/replay.rs: a signature is the multiset of the normalized entries.
use mathlib.Core.List.Perm
use mathlib.Core.List.{Perm}
use terra_translate.Base.{ℕ, Text, List, ◌≡◌, ◌↔◌, sym, ap, subst}
use terra_translate.Base.Sort.{IsTotalOrder, sort_by-Perm, sort_by-eq_of_Perm}
use terra_translate.Signature.{TurnSignature, entry_cmp, normalize_pairs, from_pairs}
use terra_translate.Signature.Order.{entry_cmp-eq, entry_cmp-gt, entry_cmp-lt, entry_cmp_trans}

entry_cmp-IsTotalOrder : IsTotalOrder (Text × Text) entry_cmp
entry_cmp-IsTotalOrder = record {
  eq = entry_cmp-eq;
  gt = entry_cmp-gt;
  lt = entry_cmp-lt;
  trans = entry_cmp_trans;
}

entries-set : IsSet (List (Text × Text))
entries-set = hlevel

module _ (to_lowercase : ℕ → Text) where
  -- Two turns have one signature exactly if their normalized entries are the same up to order, with
  -- the same repetitions.
  pub from_pairs_iff :
      (xs ys : List (Text × Text))
      → (from_pairs to_lowercase xs ≡ from_pairs to_lowercase ys)
        ↔ Perm (normalize_pairs to_lowercase xs) (normalize_pairs to_lowercase ys)
  unfolding from_pairs
  from_pairs_iff xs ys = (
    λ e.
        let sorted = ap (λ (t : TurnSignature). t.entries) e in
        Perm.trans (Perm.symm (sort_by-Perm entry_cmp (normalize_pairs to_lowercase xs))) (
          subst (λ l. Perm l (normalize_pairs to_lowercase ys)) (sym sorted)
            (sort_by-Perm entry_cmp (normalize_pairs to_lowercase ys))),
    λ p. (λ i. record {
      entries = sort_by-eq_of_Perm entry_cmp entry_cmp-IsTotalOrder _ _ entries-set p i;
    }),
  )
