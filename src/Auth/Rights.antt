-- ===== src/Auth/Rights.antt =====
-- Whom the dependencies of infra/plugins/auth/dependencies.py let through.
use fastapi_infra.Common.{
  string_eq, ℕ, String, false, not, ◌&&◌, Option, List, ◌≡◌, arith, contains, keep_if, is_empty,
  is_empty-eq-nil, none_kept, Bool-cases, inl, inr,
}
use fastapi_infra.Common.Result.{Result, ok, err, >>=-eq-ok}
use fastapi_infra.Auth.Models.{
  Principal, AuthError, Toolbox, not_authenticated, not_authorized, duplicate_key, unknown_key,
  not_encodable, bad_comparison,
}
use fastapi_infra.Auth.Tokens.{AuthService, require_all, require_scopes}
use fastapi_infra.Auth.Dependencies.{
  HttpError, require_principal, scopes_dependency, dependency, get_auth_service,
  except_authorization,
}

except_authorization-eq-ok :
    (A : Type 0) (r : Result AuthError A) {a : A} → except_authorization r ≡ ok a → r ≡ ok a
except_authorization-eq-ok A (ok b) h = ground arith
except_authorization-eq-ok A (err not_authenticated) h = absurd (ground arith)
except_authorization-eq-ok A (err not_authorized) h = absurd (ground arith)
except_authorization-eq-ok A (err (duplicate_key k)) h = absurd (ground arith)
except_authorization-eq-ok A (err (unknown_key k)) h = absurd (ground arith)
except_authorization-eq-ok A (err not_encodable) h = absurd (ground arith)
except_authorization-eq-ok A (err bad_comparison) h = absurd (ground arith)

require_all-Granted :
    (granted required : List String) {x : Unit {0}}
    → require_all granted required ≡ ok x
    → (r : String) → (contains required r && not (contains granted r)) ≡ false
unfolding require_all
require_all-Granted granted required h r =
    elim (Bool-cases (is_empty (keep_if (λ s. not (contains granted s)) required))) [
      | inr missing ↦ absurd (ground arith)
      | inl nothing ↦ elim (Bool-cases (contains required r)) [
        | inr other ↦ ground arith
        | inl wanted ↦
            let kept = is_empty-eq-nil (keep_if (λ s. not (contains granted s)) required) nothing in
            ground (arith, none_kept (λ s. not (contains granted s)) required r kept wanted)
      ]
    ]

module _ {B F : Type 0} (tools : Toolbox B F) where
  dependency-Granted :
      (rights : Principal F → List String → Result AuthError (Unit {0})) (required : List String)
      (found : Option (AuthService F)) (given : Result HttpError (Principal F)) (p : Principal F)
      → dependency tools rights required found given ≡ ok p
      → (given ≡ ok p) × (rights p required ≡ ok tt)
  unfolding dependency
  dependency-Granted rights required found given p h =
      let (q, is_given, h) = >>=-eq-ok given _ h in
      let (_, _, h) = >>=-eq-ok (get_auth_service found) _ h in
      let (_, allowed, h) = >>=-eq-ok (except_authorization (rights q required)) _ h in
      let same : q ≡ p = ground (arith, h) in
      let granted : rights q required ≡ ok tt =
        except_authorization-eq-ok (Unit {0}) (rights q required) allowed in
      (rw same at is_given, rw same at granted)

  -- A principal that a route gets which asks for scopes is the one that was authenticated, and it has
  -- every scope that is asked for.
  pub scopes_dependency-Granted :
      (required : List String) (found : Option (AuthService F)) (now : ℕ) (authorization : String)
      (x_api_key : Option String) (p : Principal F)
      → scopes_dependency tools required found now authorization x_api_key ≡ ok p
      → (require_principal tools found now authorization x_api_key ≡ ok p)
        × ((r : String) → (contains required r && not (contains p.scopes r)) ≡ false)
  unfolding scopes_dependency
  scopes_dependency-Granted required found now authorization x_api_key p h =
      let (given, allowed) =
        dependency-Granted require_scopes required found
          (require_principal tools found now authorization x_api_key) p h in
      (given, require_all-Granted p.scopes required allowed)
