-- ===== src/Merge/ThreeWay.antt =====
-- crates/terratranslate-core/src/merge.rs: three-way merges, and the keys that `merge_map` looks at.
use terra_translate.Base.{
  Text, List, [], ◌∷◌, Option, none, some, ◌≡◌, ◌≢◌, ◌⊎◌, inl, inr, arith, Option-cases, In,
}
use terra_translate.Base.OrdMap.{
  OrdMap, get, insert, keys, get-insert, IsSorted, insert-IsSorted, In-keys,
}
use terra_translate.Merge.{ContextField, ContextConflict, collect_keys}
use mathlib.Core.Option

-- The value of a three-way merge: a side that did not change gives way to the other, agreement
-- stays, and in a conflict the base stays.
pub record IsThreeWay (T : Type 0) (b l r v : T) : Type 0 where
  pub agreed : l ≡ r → v ≡ l
  pub left_unchanged : l ≡ b → v ≡ r
  pub right_unchanged : r ≡ b → v ≡ l
  pub conflicting : l ≢ r → l ≢ b → r ≢ b → v ≡ b

-- The two sides made different changes.
abbrev pub IsConflict : {T : Type 0} → T → T → T → Type 0
IsConflict b l r = (l ≢ r) × (l ≢ b) × (r ≢ b)

collect_keys-get :
    (j : Text) (ks : List Text) (s : OrdMap (Unit {0}))
    → In j ks ⊎ (get j s ≢ none)
    → get j (collect_keys ks s) ≢ none
unfolding collect_keys
collect_keys-get j [] s (inl h) = absurd h
collect_keys-get j [] s (inr h) = h
collect_keys-get j (k ∷ ks) s (inl (inl e)) =
    collect_keys-get j ks (insert k tt s) (inr (λ x. ground (arith, get-insert k j tt s)))
collect_keys-get j (k ∷ ks) s (inl (inr h)) = collect_keys-get j ks (insert k tt s) (inl h)
collect_keys-get j (k ∷ ks) s (inr h) =
    collect_keys-get j ks (insert k tt s) (inr (λ x. ground (arith, get-insert k j tt s)))

pub collect_keys-IsSorted :
    (ks : List Text) (s : OrdMap (Unit {0})) → IsSorted s → IsSorted (collect_keys ks s)
unfolding collect_keys
collect_keys-IsSorted [] s h = h
collect_keys-IsSorted (k ∷ ks) s h =
    collect_keys-IsSorted ks (insert k tt s) (insert-IsSorted k tt s h)

-- What is pushed for a conflict.
abbrev pub conflict_at :
    {T : Type 0}
    → (T → Text)
    → ContextField
    → Text
    → Option T
    → Option T
    → Option T
    → ContextConflict
conflict_at json field key b l r = record {
  field = field;
  key = some key;
  base = Option.map json b;
  left = Option.map json l;
  right = Option.map json r;
}

pub none_of_uncollected :
    {T : Type 0} (j : Text) (x : OrdMap T) (ks : List Text)
    → (In j (keys x) → In j ks)
    → get j (collect_keys ks []) ≡ none
    → get j x ≡ none
none_of_uncollected j x ks sub e = elim (Option-cases (get j x)) [
  | inl n ↦ n
  | inr (v, s) ↦ absurd (collect_keys-get j ks [] (inl (sub (In-keys j x (λ n. cc)))) e)
]
