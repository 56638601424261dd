-- ===== src/Store/Exec.antt =====
-- crates/terratranslate-store/src/lib.rs: a method on `&mut self` as an action on the store. What
-- its statements wrote before an error stays written, so the store comes back beside an error too.
use terra_translate.Base.{Result, ok, err, out_of_fuel, map_err, ◌≡◌, refl}
use terra_translate.Store.Schema.{StoreError, SessionStore}

-- An action that fails with an `E`.
abbrev pub Action : Type 0 → Type 0 → Type 0
Action E A = SessionStore → Result E A × SessionStore

abbrev pub Exec : Type 0 → Type 0
Exec A = Action StoreError A

unfoldable pub pure : {E A : Type 0} → A → Action E A
pure a s = (ok a, s)

-- A query, with `?`.
unfoldable pub query : {E A : Type 0} → (SessionStore → Result E A) → Action E A
query q s = (q s, s)

-- A statement.
unfoldable pub modify : {E : Type 0} → (SessionStore → SessionStore) → Action E (Unit {0})
modify f s = (ok tt, f s)

-- `?` on a method whose errors are converted by `From`.
unfoldable pub lift : {E F A : Type 0} → (E → F) → Action E A → Action F A
lift f m s = (map_err f (m s).0, (m s).1)

abbrev pub continue :
    {E A B : Type 0} → Result E A → SessionStore → (A → Action E B) → Result E B × SessionStore
continue (ok a) s f = f a s
continue (err e) s f = (err e, s)
continue out_of_fuel s f = (out_of_fuel, s)

infixl 5 ◌>>=◌ ◌>>◌
-- Opening this opens the actions above too.
unfoldable pub ◌>>=◌ : {E A B : Type 0} → Action E A → (A → Action E B) → Action E B
unfolding pure query modify lift
◌>>=◌ m f s = continue (m s).0 (m s).1 f

abbrev pub ◌>>◌ : {E A B : Type 0} → Action E A → Action E B → Action E B
m >> k = m >>= λ _. k

-- If a sequence ended well, so did its first action, and the rest on what that left.
pub after_ok :
    {E A B : Type 0} (m : Action E A) (f : A → Action E B) (s : SessionStore) {b : B}
    → ((m >>= f) s).0 ≡ ok b
    → (a : A) × ((m s).0 ≡ ok a) × ((f a (m s).1).0 ≡ ok b) × (((m >>= f) s).1 ≡ (f a (m s).1).1)
unfolding ◌>>=◌
after_ok {E} {A} {B} m f s {b} h = go (m s).0 refl h
  where
    go :
        (r : Result E A)
        → (m s).0 ≡ r
        → (continue r (m s).1 f).0 ≡ ok b
        → (a : A) × (r ≡ ok a)
          × ((f a (m s).1).0 ≡ ok b)
          × ((continue r (m s).1 f).1 ≡ (f a (m s).1).1)
    go (ok a) e p = (a, refl, p, refl)
    go (err x) e p = cc
    go out_of_fuel e p = cc
