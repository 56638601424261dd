-- ===== src/Base/OrdMap.antt =====
-- `BTreeMap<String, V>` and `BTreeSet<String>`: association lists and lists in the ascending order
-- of their keys, which is the order in which Rust iterates over them.
use Prim.Native.Nat.{Ordering}
use mathlib.Core.Path.{◌≡◌, refl, sym, subst}
use mathlib.Core.Logic.{ite, ◌≢◌, inl, inr}
use terra_translate.Base.Lists.{In}
use mathlib.Core.List.{List, [], ◌∷◌, map}
use mathlib.Core.Option.{Option, none, some}
use native.Mathlib.Omega.{arith}
use terra_translate.Base.Strings.{
  Text, Text-discrete, text_cmp, text_cmp_self, text_cmp-eq, text_cmp-gt, text_cmp_trans,
}

abbrev pub OrdMap {ℓ} : Type ℓ → Type ℓ
OrdMap V = List (Text × V)

-- All keys are greater than `k`.
abbrev pub Above {ℓ} : {V : Type ℓ} → Text → OrdMap V → Type 0
Above k [] = Unit
Above k ((j, v) ∷ m) = (text_cmp k j ≡ Ordering.lt) × Above k m

abbrev pub IsSorted {ℓ} : {V : Type ℓ} → OrdMap V → Type 0
IsSorted [] = Unit
IsSorted ((j, v) ∷ m) = Above j m × IsSorted m

module _ {ℓ} {V : Type ℓ} where
  -- `BTreeMap::get`
  unfoldable pub get : Text → OrdMap V → Option V
  get k [] = none
  get k ((j, v) ∷ m) = ite (Text-discrete j k) (some v) (get k m)

  -- `BTreeMap::insert`
  unfoldable pub insert : Text → V → OrdMap V → OrdMap V
  insert k v [] = (k, v) ∷ []
  insert k v ((j, w) ∷ m) =
      let rest = insert k v m in
      elim (text_cmp k j) [
        | Ordering.lt ↦ (k, v) ∷ (j, w) ∷ m
        | Ordering.eq ↦ (k, v) ∷ m
        | Ordering.gt ↦ (j, w) ∷ rest
      ]

  -- `BTreeMap::keys`
  abbrev pub keys : OrdMap V → List Text
  keys = map (λ e. e.0)

  pub get-insert :
      (k j : Text) (v : V) (m : OrdMap V)
      → get j (insert k v m) ≡ ite (Text-discrete k j) (some v) (get j m)
  unfolding get insert
  get-insert k j v [] = refl
  get-insert k j v ((i, w) ∷ m) =
      ground (arith, get-insert k j v m, text_cmp-eq k i, text_cmp_self k)

  Above-trans : (k j : Text) (m : OrdMap V) → text_cmp k j ≡ Ordering.lt → Above j m → Above k m
  Above-trans k j [] h a = tt
  Above-trans k j ((i, v) ∷ m) h a = (text_cmp_trans k j i h a.0, Above-trans k j m h a.1)

  Above-insert :
      (i k : Text) (v : V) (m : OrdMap V)
      → text_cmp i k ≡ Ordering.lt
      → Above i m
      → Above i (insert k v m)
  unfolding insert
  Above-insert i k v [] h a = (h, tt)
  Above-insert i k v ((j, w) ∷ m) h a = ground (arith, Above-insert i k v m h a.1)

  pub insert-IsSorted : (k : Text) (v : V) (m : OrdMap V) → IsSorted m → IsSorted (insert k v m)
  unfolding insert
  insert-IsSorted k v [] s = (tt, tt)
  insert-IsSorted k v ((j, w) ∷ m) s = ground (
    arith,
    insert-IsSorted k v m,
    text_cmp-eq k j,
    text_cmp-gt k j,
    Above-trans k j m,
    Above-insert j k v m,
  )

  pub get-Above : (k : Text) (m : OrdMap V) → Above k m → get k m ≡ none
  unfolding get
  get-Above k [] a = refl
  get-Above k ((j, v) ∷ m) a = ground (arith, get-Above k m, text_cmp_self k)

  get_self : (k : Text) (v : V) (m : OrdMap V) → get k ((k, v) ∷ m) ≡ some v
  unfolding get
  get_self k v m = ground arith

  pub get-below :
      (i j : Text) (v : V) (m : OrdMap V)
      → text_cmp i j ≡ Ordering.lt
      → Above j m
      → get i ((j, v) ∷ m) ≡ none
  get-below i j v m h a = get-Above i ((j, v) ∷ m) (h, Above-trans i j m h a)

  get-tail :
      (i k : Text) (v w : V) (m n : OrdMap V)
      → Above i m
      → Above i n
      → get k ((i, v) ∷ m) ≡ get k ((i, w) ∷ n)
      → get k m ≡ get k n
  unfolding get
  get-tail i k v w m n a b h = ground (arith, get-Above i m, get-Above i n)

  heads_eq :
      (i j : Text) (v w : V) (m n : OrdMap V)
      → Above i m
      → Above j n
      → get i ((i, v) ∷ m) ≡ get i ((j, w) ∷ n)
      → get j ((i, v) ∷ m) ≡ get j ((j, w) ∷ n)
      → i ≡ j
  heads_eq i j v w m n a b hi hj = ground (
    arith,
    text_cmp-eq i j,
    text_cmp-gt i j,
    get-below i j w n,
    get-below j i v m,
    get_self i v m,
    get_self j w n,
  )

  cons_eq :
      (i j : Text) (v w : V) (m n : OrdMap V)
      → i ≡ j
      → get i ((i, v) ∷ m) ≡ get i ((j, w) ∷ n)
      → m ≡ n
      → ◌≡◌ {A = OrdMap V} ((i, v) ∷ m) ((j, w) ∷ n)
  cons_eq i j v w m n e h t = ground (arith, get_self i v m, get_self i w n, get_self j w n)

  -- Two maps with the same entries are the same map.
  pub eq_of_get :
      (m n : OrdMap V) → IsSorted m → IsSorted n → ((k : Text) → get k m ≡ get k n) → m ≡ n
  unfolding get
  eq_of_get [] [] s t h = refl
  eq_of_get [] ((j, v) ∷ n) s t h = ground (arith, h j)
  eq_of_get ((i, v) ∷ m) [] s t h = ground (arith, h i)
  eq_of_get ((i, v) ∷ m) ((j, w) ∷ n) s t h =
      let e : i ≡ j = heads_eq i j v w m n s.0 t.0 (h i) (h j) in
      cons_eq i j v w m n e (h i) (
        eq_of_get m n s.1 t.1 (λ k.
          get-tail i k v w m n s.0 (rw e t.0)
            (subst (λ x. get k ((i, v) ∷ m) ≡ get k ((x, w) ∷ n)) (sym e) (h k))))

  -- The keys are what `get` finds.
  pub In-keys : (k : Text) (m : OrdMap V) → get k m ≢ none → In k (keys m)
  unfolding get
  In-keys k [] h = h refl
  In-keys k ((j, v) ∷ m) h = elim (Text-discrete j k) [
    | yes e ↦ inl e
    | no n ↦ inr (In-keys k m (λ e. h (ground arith)))
  ]

  pub get_of_In : (k : Text) (m : OrdMap V) → In k (keys m) → get k m ≢ none
  unfolding get
  get_of_In k [] h = absurd h
  get_of_In k ((j, v) ∷ m) (inl e) = λ x. ground arith
  get_of_In k ((j, v) ∷ m) (inr h) = λ x. get_of_In k m h (ground arith)
