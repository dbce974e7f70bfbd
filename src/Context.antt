-- ===== src/Context.antt =====
-- Looking services up: `InfraContext` of infra/core/context.py and `ServiceKey` of
-- infra/core/services.py. `S` is the type of services and `T` that of their types.
use fastapi_infra.Common.{
  string_eq, String, Bool, false, Option, none, some, ◌≡◌, arith, if◌then◌else◌, Option-cases, inl,
  inr,
}
use fastapi_infra.Common.Dict.{Dict, lookup}
use fastapi_infra.Common.Result.{Result, ok, err, ◌>>=◌}
use fastapi_infra.Common.Text.{strip, is_blank}

pub data ContextError : Type 0 where
  empty_name : ContextError
  not_available unexpected_type : String → ContextError

pub record ServiceKey (T : Type 0) : Type 0 where
  pub name : String
  pub service_type : Option T

-- How a service is asked for
pub data Asked (T : Type 0) : Type 0 where
  by_name : String → Asked T
  by_key : ServiceKey T → Asked T

-- `ServiceKey.__post_init__`
unfoldable pub service_key : {T : Type 0} → String → Option T → Result ContextError (ServiceKey T)
unfolding strip
service_key name service_type =
    if is_blank (strip name)
    then err empty_name
    else ok record { name = strip name; service_type = service_type }

module _ {S T : Type 0} (is_instance : S → T → Bool) where
  unfoldable pub validate : ServiceKey T → S → Result ContextError S
  validate key service = elim key.service_type [
    | none ↦ ok service
    | some t ↦ if is_instance service t then ok service else err (unexpected_type key.name)
  ]

  abbrev validated : ServiceKey T → Option S → Result ContextError (Option S)
  validated key none = ok none
  validated key (some service) = validate key service >>= λ s. ok (some s)

  -- `get` without a default; `none` is `None`.
  unfoldable pub get : Dict String S → Asked T → Result ContextError (Option S)
  unfolding validate
  get services (by_name name) = ok (lookup name services)
  get services (by_key key) = validated key (lookup key.name services)

  abbrev name_of : Asked T → String
  name_of (by_name name) = strip name
  name_of (by_key key) = key.name

  abbrev checked : Asked T → S → Result ContextError S
  checked (by_name name) service = ok service
  checked (by_key key) service = validate key service

  abbrev available : Asked T → String → Option S → Result ContextError S
  available asked name none = err (not_available name)
  available asked name (some service) = checked asked service

  unfoldable pub require : Dict String S → Asked T → Result ContextError S
  unfolding validate strip
  require services asked =
      let name = name_of asked in
      if is_blank name then err empty_name else available asked name (lookup name services)

  -- A service that a key finds is one that `get` finds too, and the other way round, where the key
  -- has a name.
  get-require :
      (services : Dict String S) (key : ServiceKey T) (service : S)
      → is_blank key.name ≡ false
      → require services (by_key key) ≡ ok service
      → get services (by_key key) ≡ ok (some service)
  unfolding get require
  get-require services key service named h = elim (Option-cases (lookup key.name services)) [
    | inl missing ↦ absurd (ground (arith, missing))
    | inr (s, found) ↦ ground (arith, found)
  ]
