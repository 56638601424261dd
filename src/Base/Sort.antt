-- ===== src/Base/Sort.antt =====
-- `slice::sort_by`: a stable sort, as the insertion sort that has the same result.
use mathlib.Core.List.Perm
use mathlib.Core.List.{List, [], ◌∷◌, Perm, Permᴰ}
use mathlib.Core.Logic.{∥∥₁_elim}
use mathlib.Core.Path.{◌≡◌, refl, ap, ◌∙◌}
use Prim.Native.Nat.{Ordering}
use native.Mathlib.Omega.{arith}

-- A total order, in which equal means identical.
pub record IsTotalOrder (A : Type 0) (cmp : A → A → Ordering) : Type 0 where
  pub eq : (a b : A) → cmp a b ≡ Ordering.eq → a ≡ b
  pub gt : (a b : A) → cmp a b ≡ Ordering.gt → cmp b a ≡ Ordering.lt
  pub lt : (a b : A) → cmp a b ≡ Ordering.lt → cmp b a ≡ Ordering.gt
  pub trans : (a b c : A) → cmp a b ≡ Ordering.lt → cmp b c ≡ Ordering.lt → cmp a c ≡ Ordering.lt

module _ {A : Type 0} (cmp : A → A → Ordering) where
  unfoldable pub insert : A → List A → List A
  insert x [] = x ∷ []
  insert x (y ∷ ys) =
      let rest = insert x ys in elim (cmp x y) [ Ordering.gt ↦ y ∷ rest | _ ↦ x ∷ y ∷ ys ]

  unfoldable pub sort_by : List A → List A
  unfolding insert
  sort_by [] = []
  sort_by (x ∷ xs) = insert x (sort_by xs)

  insert-Perm : (x : A) (l : List A) → Perm (insert x l) (x ∷ l)
  unfolding insert
  insert-Perm x [] = Perm.refl (x ∷ [])
  insert-Perm x (y ∷ l) =
      let later : Perm (y ∷ insert x l) (x ∷ y ∷ l) =
        Perm.trans (Perm.cons y (insert-Perm x l)) (Perm.swap x y l) in
      elim (cmp x y)
        as (λ o. Perm (elim o [ Ordering.gt ↦ y ∷ insert x l | _ ↦ x ∷ y ∷ l ]) (x ∷ y ∷ l)) [
          | Ordering.gt ↦ later
          | _ ↦ Perm.refl (x ∷ y ∷ l)
        ]

  pub sort_by-Perm : (l : List A) → Perm (sort_by l) l
  unfolding sort_by
  sort_by-Perm [] = Perm.refl []
  sort_by-Perm (x ∷ l) = Perm.trans (insert-Perm x (sort_by l)) (Perm.cons x (sort_by-Perm l))

  module _ (order : IsTotalOrder A cmp) where
    insert_comm : (a b : A) (l : List A) → insert a (insert b l) ≡ insert b (insert a l)
    unfolding insert
    insert_comm a b [] = ground (arith, order.eq a b, order.gt a b, order.lt a b)
    insert_comm a b (y ∷ l) = ground (
      arith,
      insert_comm a b l,
      order.eq a b,
      order.eq a y,
      order.eq b y,
      order.gt a b,
      order.lt a b,
      order.gt a y,
      order.gt b y,
      order.trans b y a,
      order.trans a y b,
    )

    sort_by-Permᴰ : {xs ys : List A} → Permᴰ xs ys → sort_by xs ≡ sort_by ys
    unfolding sort_by
    sort_by-Permᴰ Permᴰ.nil = refl
    sort_by-Permᴰ (Permᴰ.cons {a} {b} {l₁} {l₂} e d) = rw e (ap (insert b) (sort_by-Permᴰ d))
    sort_by-Permᴰ (Permᴰ.swap {a} {b} {a'} {b'} {l} e f) = rw (e, f) (insert_comm b' a' (sort_by l))
    sort_by-Permᴰ (Permᴰ.trans d e) = sort_by-Permᴰ d ∙ sort_by-Permᴰ e

    -- The order of the input does not matter.
    pub sort_by-eq_of_Perm :
        (xs ys : List A) → IsSet (List A) → Perm xs ys → sort_by xs ≡ sort_by ys
    sort_by-eq_of_Perm xs ys set p =
        ∥∥₁_elim p (set (sort_by xs) (sort_by ys)) (λ d. sort_by-Permᴰ d)
