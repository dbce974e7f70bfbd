-- ===== src/Plugins/Manager/Checks.antt =====
-- The checks of `PluginManager` that read the state and raise or answer.
pub mod Laws
use Prim.Native.Char.{Char, code}
use Prim.Native.String
use fastapi_infra.Common.{
  string_eq, nat_eq, ℕ, String, Bool, true, false, not, Option, List, [], ◌∷◌, ◌++◌, none, some,
  contains, keep_if, is_empty, is_some, ◌==◌, ◌&&◌, ◌||◌, if◌then◌else◌,
}
use fastapi_infra.Common.Dict.{Dict, keys, lookup, has_key}
use fastapi_infra.Common.Result.{Result, ok, err, ◌>>=◌}
use fastapi_infra.Plugins.Contract.{
  PluginMetadata, PluginContext, Plugin, ConfigError, invalid, broken,
}
use fastapi_infra.Plugins.Manager.State.{
  ManagerError, unknown_configured, removed_services, overwrote_services, undeclared_services,
  Platform, get_plugin,
}

-- `dependency.replace("-", "_")`
unfoldable pub module_name : String → String
module_name String.[] = String.[]
module_name (String.◌∷◌ c s) = String.◌∷◌ (if code c == b'-' then "_" else c) (module_name s)

module _ {C V W : Type 0} (pf : Platform C V W) where
  -- `_check_unknown_configured_plugins`; the names are not sorted here.
  unfoldable pub check_unknown_configured_plugins : Result ManagerError (Unit {0})
  check_unknown_configured_plugins =
      let unknown = keep_if (λ n. not (has_key n pf.plugins)) (keys pf.settings) in
      if is_empty unknown then ok tt else err (unknown_configured unknown)

  -- `_missing_optional_dependencies`
  unfoldable pub missing_optional_dependencies : Plugin C V W → List String
  missing_optional_dependencies p =
      keep_if (λ d. not (pf.find_spec (module_name d))) p.metadata.optional_dependencies

-- `ctx.services[name] is not before[name]`, for a name of both.
abbrev pub replaced : Dict String ℕ → Dict String ℕ → String → Bool
replaced before after name = elim (lookup name after) [
  | none ↦ false
  | some new ↦ elim (lookup name before) [ none ↦ false | some old ↦ not (new == old) ]
]

module _ {C V W : Type 0} where
  -- `_validate_config`
  unfoldable pub validate_config : Plugin C V W → C → Result ConfigError (Option V)
  validate_config p config = elim p.config_model [
    | none ↦ ok none
    | some model ↦ model config >>= λ v. elim p.validate_config [
      | none ↦ ok (some v)
      | some validator ↦ validator v >>= λ _. ok (some v)
    ]
  ]

  -- `_configured_service_name`
  unfoldable pub configured_service_name : Plugin C V W → PluginContext C V → Option String
  configured_service_name p ctx = elim p.metadata.service_name_config [
    | none ↦ none
    | some field ↦ elim ctx.config [ none ↦ none | some v ↦ p.attribute v field ]
  ]

  -- `allowed`
  abbrev pub is_allowed : Plugin C V W → PluginContext C V → String → Bool
  is_allowed p ctx name =
      contains p.metadata.provides name
      || elim (configured_service_name p ctx) [ none ↦ false | some own ↦ name == own ]

  -- `_validate_registered_services`
  unfoldable pub validate_registered_services :
      String → Plugin C V W → Dict String ℕ → PluginContext C V → Result ManagerError (Unit {0})
  validate_registered_services name p before ctx =
      let after = ctx.services in
      let removed = keep_if (λ k. not (has_key k after)) (keys before) in
      let overwritten = keep_if (replaced before after) (keys before) in
      let undeclared =
        keep_if (λ k. not (has_key k before) && not (is_allowed p ctx k)) (keys after) in
      if is_empty removed
      then (if is_empty overwritten
          then (if is_empty undeclared then ok tt else err (undeclared_services name undeclared))
          else err (overwrote_services name overwritten))
      else err (removed_services name removed)
