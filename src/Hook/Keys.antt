-- ===== src/Hook/Keys.antt =====
-- The map of candidates (crates/terratranslate-wine-hook/src/lib.rs): what an insertion leaves true of
-- every entry, and the number of entries.
use Prim.Native.Nat.{Ordering}
use terra_translate.Base.{
  ◌+◌, ◌≤◌, Text, Text-discrete, text_cmp, text_cmp-gt, text_cmp_self, [], ◌∷◌, All, length, some,
  ◌⊎◌, inl, inr, ◌≡◌, subst, arith,
}
use terra_translate.Base.OrdMap.{OrdMap, IsSorted, get, insert, get-below}

module _ {V : Type 0} where
  pub All-insert :
      (P : Text × V → Type 0) (k : Text) (v : V) (m : OrdMap V)
      → P (k, v)
      → All P m
      → All P (insert k v m)
  unfolding insert
  All-insert P k v [] p a = (p, tt)
  All-insert P k v ((j, w) ∷ m) p a = placed (text_cmp k j) (All-insert P k v m p a.1)
    where
      placed :
          (o : Ordering)
          → All P (insert k v m)
          → All P (elim o [
            | Ordering.lt ↦ (k, v) ∷ (j, w) ∷ m
            | Ordering.eq ↦ (k, v) ∷ m
            | Ordering.gt ↦ (j, w) ∷ insert k v m
          ])
      placed Ordering.lt ih = (p, a)
      placed Ordering.eq ih = (p, a.1)
      placed Ordering.gt ih = (a.0, ih)

  get_cases :
      (k j : Text) (v w : V) (m : OrdMap V)
      → get k ((j, w) ∷ m) ≡ some v
      → ((j ≡ k) × (w ≡ v)) ⊎ (get k m ≡ some v)
  unfolding get
  get_cases k j v w m e = elim (Text-discrete j k) [
    | yes same ↦ inl (same, ground arith)
    | no other ↦ inr (ground arith)
  ]

  pub All-get :
      (P : Text × V → Type 0) (k : Text) (v : V) (m : OrdMap V)
      → All P m
      → get k m ≡ some v
      → P (k, v)
  All-get P k v [] a e = unfold get in cc
  All-get P k v ((j, w) ∷ m) a e = elim (get_cases k j v w m e) [
    | inl here ↦ subst (λ i. P (i, v)) here.0 (subst (λ u. P (j, u)) here.1 a.0)
    | inr later ↦ All-get P k v m a.1 later
  ]

  pub length-insert_new : (k : Text) (v : V) (m : OrdMap V) → length (insert k v m) ≤ length m + 1
  unfolding insert
  length-insert_new k v [] = omega arith
  length-insert_new k v ((j, w) ∷ m) = ground (arith, length-insert_new k v m)

  pub length-insert_known :
      (k : Text) (u v : V) (m : OrdMap V)
      → IsSorted m
      → get k m ≡ some u
      → length (insert k v m) ≡ length m
  unfolding insert get
  length-insert_known k u v [] s e = cc
  length-insert_known k u v ((j, w) ∷ m) s e =
      ground (
        arith,
        length-insert_known k u v m s.1,
        get-below k j w m,
        text_cmp-gt k j,
        text_cmp_self k,
      )
