-- ===== src/Common/Action.antt =====
-- Methods that change an object and may raise. The state comes back beside an exception too, since
-- what was written before a raise stays written.
use mathlib.Core.Path.{◌≡◌, refl}
use native.Mathlib.Omega.{arith}
use fastapi_infra.Common.Result.{Result, ok, err}

abbrev pub Action : Type 0 → Type 0 → Type 0 → Type 0
Action E S A = S → Result E A × S

module _ {E S A : Type 0} where
  abbrev pub pure : A → Action E S A
  pure a s = (ok a, s)

  abbrev pub raise : E → Action E S A
  raise e s = (err e, s)

  abbrev pub gets : (S → A) → Action E S A
  gets f s = (ok (f s), s)

module _ {E S : Type 0} where
  abbrev pub modify : (S → S) → Action E S (Unit {0})
  modify f s = (ok tt, f s)

module _ {E S A B : Type 0} where
  abbrev pub and_then : Result E A → (A → Action E S B) → Action E S B
  and_then (ok a) f s = f a s
  and_then (err e) f s = (err e, s)

  infixl 5 ◌>>=◌ ◌>>◌
  abbrev pub ◌>>=◌ : Action E S A → (A → Action E S B) → Action E S B
  ◌>>=◌ m f s = let (r, s') = m s in and_then r f s'

  abbrev pub ◌>>◌ : Action E S A → Action E S B → Action E S B
  m >> k = m >>= λ _. k

  pub >>=-eq-ok :
      (m : Action E S A) (f : A → Action E S B) (s : S) {b : B} {t : S}
      → (m >>= f) s ≡ (ok b, t)
      → (a : A) × (u : S) × (m s ≡ (ok a, u)) × (f a u ≡ (ok b, t))
  >>=-eq-ok m f s h = let (r, u) = m s in split r u h
    where
      split :
          (r : Result E A) (u : S) {b : B} {t : S}
          → and_then r f u ≡ (ok b, t)
          → (a : A) × (v : S) × (◌≡◌ {A = Result E A × S} (r, u) (ok a, v)) × (f a v ≡ (ok b, t))
      split (ok a) u e = (a, u, refl, e)
      split (err e) u h = absurd (ground arith)
