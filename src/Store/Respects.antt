-- ===== src/Store/Respects.antt =====
-- crates/terratranslate-store/src/lib.rs: actions whose effect on the database is bounded by a
-- reflexive and transitive relation, also where they fail.
use terra_translate.Base.{Result, ok, err, out_of_fuel, ◌≡◌, ◌≢◌, refl}
use terra_translate.Store.Schema.{SessionStore}
use terra_translate.Store.Exec.{Action, pure, query, modify, lift, continue, ◌>>=◌, ◌>>◌}

-- The store after the action stands in the relation to the store before it.
pub record Respects (R : SessionStore → SessionStore → Type 0) {E A : Type 0} (m : Action E A)
    : Type 0 where
  pub at : (s : SessionStore) → R s (m s).1

module _ (R : SessionStore → SessionStore → Type 0) (self : (s : SessionStore) → R s s)
    (trans : (s t u : SessionStore) → R s t → R t u → R s u) where
  pub after_both :
      {E A B : Type 0} (m : Action E A) (f : A → Action E B) (s : SessionStore)
      → R s (m s).1
      → ((a : A) → (m s).0 ≡ ok a → R (m s).1 (f a (m s).1).1)
      → R s ((m >>= f) s).1
  unfolding ◌>>=◌
  after_both {E} {A} {B} m f s p q = go (m s).0 refl
    where
      go : (r : Result E A) → (m s).0 ≡ r → R s (continue r (m s).1 f).1
      go (ok a) e = trans s (m s).1 (f a (m s).1).1 p (q a e)
      go (err x) e = p
      go out_of_fuel e = p

  pub >>=-Respects :
      {E A B : Type 0} (m : Action E A) (f : A → Action E B)
      → Respects R m
      → ((a : A) → Respects R (f a))
      → Respects R (m >>= f)
  >>=-Respects m f p q = record { at = λ s. after_both m f s (p.at s) λ a e. (q a).at (m s).1 }

  pub >>-Respects :
      {E B : Type 0} (m : Action E (Unit {0})) (k : Action E B)
      → Respects R m
      → Respects R k
      → Respects R (m >> k)
  >>-Respects m k p q = >>=-Respects m (λ u. k) p λ u. q

  pub query-Respects : {E A : Type 0} (q : SessionStore → Result E A) → Respects R (query q)
  unfolding query
  query-Respects q = record { at = self }

  pub pure-Respects : {E A : Type 0} (a : A) → Respects R (pure {E = E} a)
  unfolding pure
  pure-Respects a = record { at = self }

  pub modify-Respects :
      {E : Type 0} (f : SessionStore → SessionStore)
      → ((s : SessionStore) → R s (f s))
      → Respects R (modify {E = E} f)
  unfolding modify
  modify-Respects f h = record { at = h }

  pub lift-Respects :
      {E F A : Type 0} (f : E → F) (m : Action E A) → Respects R m → Respects R (lift f m)
  unfolding lift
  lift-Respects f m h = record { at = h.at }

  -- An action that respects the relation if it fails.
  pub record IsSafe {E A : Type 0} (m : Action E A) : Type 0 where
    pub at : (s : SessionStore) → ((a : A) → (m s).0 ≢ ok a) → R s (m s).1

  pub >>=-IsSafe :
      {E A B : Type 0} (m : Action E A) (f : A → Action E B)
      → Respects R m
      → ((a : A) → IsSafe (f a))
      → IsSafe (m >>= f)
  unfolding ◌>>=◌
  >>=-IsSafe {E} {A} {B} m f p q = record { at = λ s. go s (m s).0 }
    where
      go :
          (s : SessionStore) (r : Result E A)
          → ((b : B) → (continue r (m s).1 f).0 ≢ ok b)
          → R s (continue r (m s).1 f).1
      go s (ok a) failed = trans s (m s).1 (f a (m s).1).1 (p.at s) ((q a).at (m s).1 failed)
      go s (err x) failed = p.at s
      go s out_of_fuel failed = p.at s

  pub >>-IsSafe :
      {E B : Type 0} (m : Action E (Unit {0})) (k : Action E B)
      → Respects R m
      → IsSafe k
      → IsSafe (m >> k)
  >>-IsSafe m k p q = >>=-IsSafe m (λ u. k) p λ u. q
