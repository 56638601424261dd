-- ===== src/Base/Lex.antt =====
-- Comparisons by one key after another (`Ordering::then_with`), and sorting by them.
use mathlib.Core.List.{List, [], ◌∷◌, map, Permᴰ}
use mathlib.Core.Logic.{◌⊎◌, inl, inr}
use mathlib.Core.Path.{◌≡◌, refl, ap, sym, ◌∙◌}
use Prim.Native.Nat.{ℕ, compare, Ordering}
use native.Mathlib.Omega.{arith}
use terra_translate.Base.Lists.{In}
use terra_translate.Base.Strings.{
  Text, text_cmp, text_cmp-eq, text_cmp-gt, text_cmp-lt, text_cmp_trans,
}
use terra_translate.Base.Sort.{IsTotalOrder, insert, sort_by}

-- `Ordering::then_with`
abbrev pub then_with : Ordering → Ordering → Ordering
then_with Ordering.lt next = Ordering.lt
then_with Ordering.eq next = next
then_with Ordering.gt next = Ordering.gt

-- A total order up to equality of what it compares.
pub record IsOrder (A : Type 0) (cmp : A → A → Ordering) : Type 0 where
  pub gt : (a b : A) → cmp a b ≡ Ordering.gt → cmp b a ≡ Ordering.lt
  pub lt : (a b : A) → cmp a b ≡ Ordering.lt → cmp b a ≡ Ordering.gt
  pub trans : (a b c : A) → cmp a b ≡ Ordering.lt → cmp b c ≡ Ordering.lt → cmp a c ≡ Ordering.lt

pub compare-IsTotalOrder : IsTotalOrder ℕ compare
compare-IsTotalOrder = record {
  eq = λ a b h. ground arith;
  gt = λ a b h. ground arith;
  lt = λ a b h. ground arith;
  trans = λ a b c h k. ground arith;
}

pub flipped-IsTotalOrder : IsTotalOrder ℕ (λ a b. compare b a)
flipped-IsTotalOrder = record {
  eq = λ a b h. ground arith;
  gt = λ a b h. ground arith;
  lt = λ a b h. ground arith;
  trans = λ a b c h k. ground arith;
}

pub text_cmp-IsTotalOrder : IsTotalOrder Text text_cmp
text_cmp-IsTotalOrder = record {
  eq = text_cmp-eq;
  gt = text_cmp-gt;
  lt = text_cmp-lt;
  trans = text_cmp_trans;
}

module _ {A B : Type 0} (f : A → B) (cmp : B → B → Ordering) (order : IsTotalOrder B cmp) where
  -- An order of keys.
  pub key-IsOrder : IsOrder A (λ a b. cmp (f a) (f b))
  key-IsOrder = record {
    gt = λ a b h. order.gt (f a) (f b) h;
    lt = λ a b h. order.lt (f a) (f b) h;
    trans = λ a b c h k. order.trans (f a) (f b) (f c) h k;
  }

  cmp_self : (x : B) → cmp x x ≡ Ordering.eq
  cmp_self x = ground (arith, order.gt x x, order.lt x x)

  -- An order of keys, and among equal keys another order.
  pub then_with-IsOrder :
      (next : A → A → Ordering)
      → IsOrder A next
      → IsOrder A (λ a b. then_with (cmp (f a) (f b)) (next a b))
  then_with-IsOrder next later = record {
    gt = λ a b h.
        ground (arith, order.gt (f a) (f b), order.eq (f a) (f b), cmp_self (f a), later.gt a b);
    lt = λ a b h.
        ground (arith, order.lt (f a) (f b), order.eq (f a) (f b), cmp_self (f a), later.lt a b);
    trans = λ a b c h k. ground (
      arith,
      order.trans (f a) (f b) (f c),
      order.eq (f a) (f b),
      order.eq (f b) (f c),
      cmp_self (f a),
      later.trans a b c,
    );
  }

module _ {A B : Type 0} (f : A → B) (cmp : B → B → Ordering) where
  insert-map :
      (x : A) (l : List A)
      → insert cmp (f x) (map f l) ≡ map f (insert (λ a b. cmp (f a) (f b)) x l)
  unfolding insert
  insert-map x [] = refl
  insert-map x (y ∷ l) = ground (arith, insert-map x l)

  -- Sorting the images is sorting by the order of the images.
  pub sort_by-map :
      (l : List A) → sort_by cmp (map f l) ≡ map f (sort_by (λ a b. cmp (f a) (f b)) l)
  unfolding sort_by
  sort_by-map [] = refl
  sort_by-map (x ∷ l) = rw (sort_by-map l) (insert-map x (sort_by (λ a b. cmp (f a) (f b)) l))

-- A place for `y` before `z`, or in the rest.
abbrev placed : {A : Type 0} → A → A → List A → List A → Ordering → List A
placed y z l rest o = elim o [ Ordering.gt ↦ z ∷ rest | _ ↦ y ∷ z ∷ l ]

module _ {A : Type 0} (x y z : A) (l rest : List A) where
  In-placed :
      (o : Ordering)
      → In x (placed y z l rest o)
      → (In x rest → (y ≡ x) ⊎ In x l)
      → (y ≡ x) ⊎ In x (z ∷ l)
  In-placed Ordering.lt h ih = h
  In-placed Ordering.eq h ih = h
  In-placed Ordering.gt (inl e) ih = inr (inl e)
  In-placed Ordering.gt (inr h) ih = elim (ih h) [ inl e ↦ inl e | inr k ↦ inr (inr k) ]

  placed-In :
      (o : Ordering)
      → (y ≡ x) ⊎ In x (z ∷ l)
      → ((y ≡ x) ⊎ In x l → In x rest)
      → In x (placed y z l rest o)
  placed-In Ordering.lt h ih = h
  placed-In Ordering.eq h ih = h
  placed-In Ordering.gt (inl e) ih = inr (ih (inl e))
  placed-In Ordering.gt (inr (inl e)) ih = inl e
  placed-In Ordering.gt (inr (inr h)) ih = inr (ih (inr h))

module _ {A : Type 0} (cmp : A → A → Ordering) where
  In-insert : (x y : A) (l : List A) → In x (insert cmp y l) → (y ≡ x) ⊎ In x l
  unfolding insert
  In-insert x y [] h = h
  In-insert x y (z ∷ l) h = In-placed x y z l (insert cmp y l) (cmp y z) h (In-insert x y l)

  insert-In : (x y : A) (l : List A) → (y ≡ x) ⊎ In x l → In x (insert cmp y l)
  unfolding insert
  insert-In x y [] h = h
  insert-In x y (z ∷ l) h = placed-In x y z l (insert cmp y l) (cmp y z) h (insert-In x y l)

  -- Sorting keeps what a list holds.
  pub In-sort_by : (x : A) (l : List A) → In x (sort_by cmp l) → In x l
  unfolding sort_by
  In-sort_by x [] h = h
  In-sort_by x (y ∷ l) h = elim (In-insert x y (sort_by cmp l) h) [
    | inl e ↦ inl e
    | inr k ↦ inr (In-sort_by x l k)
  ]

  pub sort_by-In : (x : A) (l : List A) → In x l → In x (sort_by cmp l)
  unfolding sort_by
  sort_by-In x [] h = h
  sort_by-In x (y ∷ l) (inl e) = insert-In x y (sort_by cmp l) (inl e)
  sort_by-In x (y ∷ l) (inr h) = insert-In x y (sort_by cmp l) (inr (sort_by-In x l h))

-- What stands in the image of a list.
pub In-map :
    {A B : Type 0} (f : A → B) (y : B) (l : List A) → In y (map f l) → (x : A) × In x l × (f x ≡ y)
In-map f y [] h = absurd h
In-map f y (x ∷ l) (inl e) = (x, inl refl, e)
In-map f y (x ∷ l) (inr h) = let (w, at, e) = In-map f y l h in (w, inr at, e)

pub map-In : {A B : Type 0} (f : A → B) (x : A) (l : List A) → In x l → In (f x) (map f l)
map-In f x [] h = absurd h
map-In f x (y ∷ l) (inl e) = inl (ap f e)
map-In f x (y ∷ l) (inr h) = inr (map-In f x l h)

-- What stands in one of two lists with the same items stands in the other.
module _ {A : Type 0} where
  pub In-Permᴰ : {xs ys : List A} → Permᴰ xs ys → (x : A) → In x xs → In x ys
  In-Permᴰ Permᴰ.nil x h = h
  In-Permᴰ (Permᴰ.cons e d) x (inl h) = inl (sym e ∙ h)
  In-Permᴰ (Permᴰ.cons e d) x (inr h) = inr (In-Permᴰ d x h)
  In-Permᴰ (Permᴰ.swap e f) x (inl h) = inr (inl (sym e ∙ h))
  In-Permᴰ (Permᴰ.swap e f) x (inr (inl h)) = inl (sym f ∙ h)
  In-Permᴰ (Permᴰ.swap e f) x (inr (inr h)) = inr (inr h)
  In-Permᴰ (Permᴰ.trans d e) x h = In-Permᴰ e x (In-Permᴰ d x h)
