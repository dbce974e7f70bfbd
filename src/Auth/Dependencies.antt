-- ===== src/Auth/Dependencies.antt =====
-- infra/plugins/auth/dependencies.py: the dependencies of a route. What `infra.get(AUTH_SERVICE)`
-- gave is an argument, `none` where it is no `AuthService`.
use fastapi_infra.Common.{
  string_eq, ℕ, String, Bool, true, false, ◌&&◌, Option, none, some, List, is_some, ◌==◌,
}
use fastapi_infra.Common.Result.{Result, ok, err, ◌>>=◌}
use fastapi_infra.Common.Text.{is_blank, strip}
use fastapi_infra.Auth.Models.{Principal, AuthError, Toolbox, not_authenticated, not_authorized}
use fastapi_infra.Auth.Keys.{require, authenticate_api_key}
use fastapi_infra.Auth.Tokens.{
  AuthService, partition_space, authenticate_bearer, require_scopes, require_roles, require_all,
}

-- A response with the status 401 or 403, or an exception that nobody catches
pub data HttpError : Type 0 where
  authentication_exception authorization_exception : HttpError
  uncaught : AuthError → HttpError

abbrev pub get_auth_service :
    {F : Type 0} → Option (AuthService F) → Result HttpError (AuthService F)
get_auth_service none = err authentication_exception
get_auth_service (some service) = ok service

-- `except AuthenticationError` and `except AuthorizationError`
abbrev pub except_authentication : {A : Type 0} → Result AuthError A → Result HttpError A
except_authentication (ok a) = ok a
except_authentication (err not_authenticated) = err authentication_exception
except_authentication (err e) = err (uncaught e)

abbrev pub except_authorization : {A : Type 0} → Result AuthError A → Result HttpError A
except_authorization (ok a) = ok a
except_authorization (err not_authorized) = err authorization_exception
except_authorization (err e) = err (uncaught e)

module _ {B F : Type 0} (tools : Toolbox B F) where
  abbrev is_bearer : String × Option String → Bool
  is_bearer (scheme, separator) = is_some separator && tools.lower scheme == "bearer"

  -- The body of the `try`; a missing header is an empty one.
  unfoldable pub principal_of :
      AuthService F → ℕ → String → Option String → Result AuthError (Principal F)
  unfolding authenticate_bearer authenticate_api_key partition_space strip
  principal_of service now authorization x_api_key = elim (is_blank authorization) [
    | true ↦ authenticate_api_key tools service.hashed_api_keys x_api_key
    | false ↦ require (is_bearer (partition_space (strip authorization))) >>= λ _.
        authenticate_bearer tools service now authorization
  ]

  unfoldable pub require_principal :
      Option (AuthService F) → ℕ → String → Option String → Result HttpError (Principal F)
  unfolding principal_of
  require_principal found now authorization x_api_key = do
    service ← get_auth_service found
    except_authentication (principal_of service now authorization x_api_key)

  -- `rights` is `require_scopes` or `require_roles`.
  unfoldable pub dependency :
      (Principal F → List String → Result AuthError (Unit {0}))
      → List String
      → Option (AuthService F)
      → Result HttpError (Principal F)
      → Result HttpError (Principal F)
  unfolding require_principal
  dependency rights required found given = do
    principal ← given
    _ ← get_auth_service found
    _ ← except_authorization (rights principal required)
    ok principal

  unfoldable pub scopes_dependency :
      List String
      → Option (AuthService F)
      → ℕ
      → String
      → Option String
      → Result HttpError (Principal F)
  unfolding dependency require_all
  scopes_dependency required found now authorization x_api_key =
      dependency require_scopes required found (require_principal found now authorization x_api_key)

  unfoldable pub roles_dependency :
      List String
      → Option (AuthService F)
      → ℕ
      → String
      → Option String
      → Result HttpError (Principal F)
  unfolding dependency require_all
  roles_dependency required found now authorization x_api_key =
      dependency require_roles required found (require_principal found now authorization x_api_key)
