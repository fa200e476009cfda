-- ===== src/Prelude/Result.antt =====
-- A Go pair (value, error) as one value, for code that returns at once on an error.
use mathlib.Core.Path.{◌≡◌, refl}
use mathlib.Core.Bool.{Bool, true, false}
use mathlib.Core.Logic.{◌⊎◌, inl, inr}

pub data Result {ℓ} (E : Type 0) (A : Type ℓ) : Type ℓ where
  ok : A → Result E A
  err : E → Result E A

module _ {E : Type 0} where
  infixl 5 ◌>>=◌ ◌>>◌
  abbrev pub ◌>>=◌ {ℓ κ} : {A : Type ℓ} {B : Type κ} → Result E A → (A → Result E B) → Result E B
  ok a >>= f = f a
  err e >>= f = err e

  abbrev pub ◌>>◌ {ℓ} : {B : Type ℓ} → Result E (Unit {0}) → Result E B → Result E B
  m >> k = m >>= λ _. k

  -- An early return with an error, unless the test holds.
  abbrev pub ensure : Bool → E → Result E (Unit {0})
  ensure true e = ok tt
  ensure false e = err e

  -- The same result with another error.
  abbrev pub relabel {ℓ} : {A : Type ℓ} → E → Result E A → Result E A
  relabel e (ok a) = ok a
  relabel e (err _) = err e

  pub Result-cases {ℓ} :
      {A : Type ℓ} (r : Result E A) → ((a : A) × (r ≡ ok a)) ⊎ ((e : E) × (r ≡ err e))
  Result-cases (ok a) = inl (a, refl)
  Result-cases (err e) = inr (e, refl)

  -- Inversion of a chain that succeeds.
  pub >>=-eq-ok {ℓ κ} :
      {A : Type ℓ} {B : Type κ} (first : Result E A) (next : A → Result E B) {last : B}
      → (first >>= next) ≡ ok last
      → (mid : A) × (first ≡ ok mid) × (next mid ≡ ok last)
  >>=-eq-ok (ok mid) next done = (mid, refl, done)
  >>=-eq-ok (err _) next done = cc

  pub ensure-eq-ok {ℓ} :
      {B : Type ℓ} (test : Bool) (e : E) (k : Result E B) {b : B}
      → (ensure test e >> k) ≡ ok b
      → (test ≡ true) × (k ≡ ok b)
  ensure-eq-ok true e k h = (refl, h)
  ensure-eq-ok false e k h = cc

  pub relabel-eq-ok {ℓ} :
      {A : Type ℓ} (e : E) (r : Result E A) {a : A} → relabel e r ≡ ok a → r ≡ ok a
  relabel-eq-ok e (ok a) h = h
  relabel-eq-ok e (err _) h = cc
