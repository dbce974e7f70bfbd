-- ===== src/Common/Result.antt =====
-- What a call that may raise gives back: a value, or the exception.
use mathlib.Core.Path.{◌≡◌, refl}
use mathlib.Core.Logic.{◌⊎◌, inl, inr}
use native.Mathlib.Omega.{arith}

pub data Result {ℓ κ} (E : Type κ) (A : Type ℓ) : Type (ℓ ⊔ κ) where
  ok : A → Result E A
  err : E → Result E A

infixl 5 ◌>>=◌
abbrev pub ◌>>=◌ {ℓ κ μ} :
    {E : Type κ} {A : Type ℓ} {B : Type μ} → Result E A → (A → Result E B) → Result E B
ok a >>= f = f a
err e >>= f = err e

module _ {ℓ κ μ} {E : Type κ} {A : Type ℓ} {B : Type μ} where
  -- How a chain came to its outcome.
  pub >>=-eq-ok :
      (first : Result E A) (next : A → Result E B) {y : B}
      → (first >>= next) ≡ ok y
      → (x : A) × (first ≡ ok x) × (next x ≡ ok y)
  >>=-eq-ok (ok x) next done = (x, refl, done)
  >>=-eq-ok (err why) next done = absurd (ground arith)

  pub >>=-eq-err :
      (first : Result E A) (next : A → Result E B) {why : E}
      → (first >>= next) ≡ err why
      → (first ≡ err why) ⊎ ((x : A) × (first ≡ ok x) × (next x ≡ err why))
  >>=-eq-err (ok x) next stopped = inr (x, refl, stopped)
  >>=-eq-err (err why) next stopped = inl (ground arith)

pub Result-cases {ℓ κ} :
    {E : Type κ} {A : Type ℓ} (r : Result E A) → ((a : A) × (r ≡ ok a)) ⊎ ((e : E) × (r ≡ err e))
Result-cases (ok a) = inl (a, refl)
Result-cases (err e) = inr (e, refl)
