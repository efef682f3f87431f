-- ===== src/Base/Results.antt =====
-- Go's (value, error) pair, with `do` for a chain of steps that return on an error.
use mathlib.Core.Path.{◌≡◌, refl}
use mathlib.Core.Logic.{◌⊎◌, inl, inr}
use mathlib.Core.Option.{Option, none, some}

pub data Result {ℓ κ} (E : Type ℓ) (A : Type κ) : Type (ℓ ⊔ κ) where
  ok : A → Result E A
  err : E → Result E A

module _ {ℓ κ μ} {E : Type ℓ} {A : Type κ} {B : Type μ} where
  infixl 5 ◌>>=◌
  abbrev pub ◌>>=◌ : Result E A → (A → Result E B) → Result E B
  ok a >>= f = f a
  err e >>= f = err e

module _ {ℓ κ} {E : Type ℓ} {A : Type κ} where
  -- The steps after an error check.
  abbrev pub or_fail : Option A → E → Result E A
  or_fail none e = err e
  or_fail (some a) e = ok a

  pub Result-cases : (r : Result E A) → ((a : A) × (r ≡ ok a)) ⊎ ((e : E) × (r ≡ err e))
  Result-cases (ok a) = inl (a, refl)
  Result-cases (err e) = inr (e, refl)

module _ {ℓ κ μ} {E : Type ℓ} {A : Type κ} {B : Type μ} where
  -- A chain that succeeds succeeded in its first step.
  pub bind_inv :
      (m : Result E A) (f : A → Result E B) {b : B}
      → (m >>= f) ≡ ok b
      → (x : A) × (m ≡ ok x) × (f x ≡ ok b)
  bind_inv (ok x) f h = (x, refl, h)
  bind_inv (err e) f h = cc

  pub or_fail_inv :
      (o : Option A) (e : E) (f : A → Result E B) {b : B}
      → (or_fail o e >>= f) ≡ ok b
      → (x : A) × (o ≡ some x) × (f x ≡ ok b)
  or_fail_inv none e f h = cc
  or_fail_inv (some x) e f h = (x, refl, h)
