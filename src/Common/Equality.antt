-- ===== src/Common/Equality.antt =====
-- Python's `==` and `in`, for every type whose equality is decided.
use Prim.Native.Nat.{ℕ}
use Prim.Native.String.{String}
use mathlib.Core.Path.{◌≡◌, refl, ap}
use mathlib.Core.Logic.{ite, dite}
use mathlib.Core.Bool.{Bool, true, false, ◌&&◌, ◌||◌, Bool-discrete}
use mathlib.Core.List.{List, [], ◌∷◌, ◌++◌}
use native.Mathlib.Decide.{ℕ_discrete}
use native.Mathlib.Omega.{arith}
use text.Mathlib.Text
use text.Mathlib.TextEquality.{eq_iff}
use fastapi_infra.Common.Lists.{keep_if}

pub record Eq {ℓ} (A : Type ℓ) : Type ℓ where
  pub dec : Discrete A

module _ {ℓ} {A : Type ℓ} ⦃e : Eq A⦄ where
  infix 50 ◌==◌
  abbrev pub ◌==◌ : A → A → Bool
  a == b = ite (e.dec a b) true false

  -- `a in xs`
  abbrev pub contains : List A → A → Bool
  contains [] a = false
  contains (x ∷ xs) a = a == x || contains xs a

  -- `xs.remove(a)`: the first occurrence goes
  abbrev pub remove : List A → A → List A
  remove [] a = []
  remove (x ∷ xs) a = ite (e.dec a x) xs (x ∷ remove xs a)

  pub contains-append :
      (xs ys : List A) (a : A) → contains (xs ++ ys) a ≡ (contains xs a || contains ys a)
  contains-append [] ys a = refl
  contains-append (x ∷ xs) ys a = ground (arith, contains-append xs ys a)

instance abbrev pub nat_eq : Eq ℕ
nat_eq = record { dec = ℕ_discrete }

string_dec : Discrete String
string_dec s t =
    dite (Bool-discrete (Text.◌==◌ s t) true) (λ same. yes ((eq_iff s t).0 same))
      (λ differ. no (λ p. differ ((eq_iff s t).1 p)))

-- Shut in proofs, where a split on `s == t` yields the equation or its negation.
instance unfoldable pub string_eq : Eq String
unfolding string_dec
string_eq = record { dec = string_dec }

pair_dec {ℓ κ} : {A : Type ℓ} {B : Type κ} → Discrete A → Discrete B → Discrete (A × B)
pair_dec da db (a, b) (c, d) =
    dite (da a c)
      (λ p. dite (db b d) (λ q. yes (λ i. (p i, q i))) (λ n. no (λ r. n (ap (λ t. t.1) r))))
      (λ n. no (λ r. n (ap (λ t. t.0) r)))

instance unfoldable pub pair_eq {ℓ κ} : {A : Type ℓ} {B : Type κ} ⦃a : Eq A⦄ ⦃b : Eq B⦄ → Eq (A × B)
unfolding pair_dec
pair_eq ⦃a⦄ ⦃b⦄ = record { dec = pair_dec a.dec b.dec }

module _ {ℓ} {A : Type ℓ} ⦃e : Eq A⦄ where
  -- What a comprehension keeps.
  pub contains-keep_if :
      (p : A → Bool) (xs : List A) (a : A) → contains (keep_if p xs) a ≡ (contains xs a && p a)
  contains-keep_if p [] a = refl
  contains-keep_if p (x ∷ xs) a = elim (e.dec a x) [
    | yes same ↦ rw same (ground (arith, contains-keep_if p xs x))
    | no other ↦ ground (arith, contains-keep_if p xs a)
  ]

  -- An empty comprehension: nothing passes its test.
  pub none_kept :
      (p : A → Bool) (xs : List A) (a : A) → keep_if p xs ≡ [] → contains xs a ≡ true → p a ≡ false
  none_kept p xs a h i = ground (arith, contains-keep_if p xs a)

  pub keep_if-eq-nil :
      (p : A → Bool) (xs : List A)
      → ((a : A) → contains xs a ≡ true → p a ≡ false)
      → keep_if p xs ≡ []
  keep_if-eq-nil p [] h = refl
  keep_if-eq-nil p (x ∷ xs) h = ground (arith, h x, keep_if-eq-nil p xs (λ a i. h a (ground arith)))
