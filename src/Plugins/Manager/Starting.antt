-- ===== src/Plugins/Manager/Starting.antt =====
-- `_startup_plugin` of `PluginManager`, in the order of its statements.
use fastapi_infra.Common.{
  string_eq, ℕ, String, Bool, true, false, not, Option, List, [], ◌∷◌, ◌++◌, none, some, contains,
  keep_if, is_empty, is_some, if◌then◌else◌,
}
use fastapi_infra.Common.Dict.{Dict, lookup, has_key}
use fastapi_infra.Common.Result.{ok, err}
use fastapi_infra.Common.Action.{pure, raise, gets, modify, ◌>>=◌, ◌>>◌}
use fastapi_infra.Plugins.Contract.{
  PluginContext, Plugin, HealthState, unhealthy, Message, invalid, broken,
}
use fastapi_infra.Plugins.Manager.State
use fastapi_infra.Plugins.Manager.State.{
  ManagerError, already_started, order, invalid_config, escaped, key_error, unhealthy_plugin,
  negative_timeout, is_negative, Platform, Manager, get_plugin,
}
use fastapi_infra.Plugins.Manager.Checks.{
  missing_optional_dependencies, validate_config, validate_registered_services,
}
use fastapi_infra.Plugins.Manager.Methods.{
  Method, lift, set_status, set_disabled, call_hook, plugin_health_status, is_switched_off,
  is_forced, add,
}

-- `health_status.status is HealthState.UNHEALTHY`
abbrev pub is_unhealthy : HealthState → Bool
is_unhealthy unhealthy = true
is_unhealthy _ = false

module _ {C V W : Type 0} (pf : Platform C V W) where
  -- One of the three answers of `_disable_or_raise_for_dependency_errors`.
  unfoldable pub refuse :
      String → Option Bool → String → List String → Message → ManagerError → Method C V W Bool
  unfolding set_disabled
  refuse name enabled detail names message error =
      if is_forced enabled
      then raise error
      else (do set_disabled name message ((detail, names) ∷ []); pure true)

  -- `_disable_or_raise_for_dependency_errors`
  unfoldable pub disable_or_raise_for_dependency_errors :
      String → Plugin C V W → Option Bool → Method C V W Bool
  unfolding refuse
  disable_or_raise_for_dependency_errors name p enabled m =
      let missing = keep_if (λ d. not (has_key d pf.plugins)) p.metadata.dependencies in
      let inactive = keep_if (λ d. not (contains m.active_plugins d)) p.metadata.dependencies in
      let optional = missing_optional_dependencies pf p in
      if is_empty missing
      then (if is_empty inactive
          then (if is_empty optional
              then pure false m
              else refuse name enabled "missing_optional_dependencies" optional
                  (Message.missing_optional optional) (State.missing_optional optional) m)
          else refuse name enabled "inactive_dependencies" inactive
              (Message.inactive_required inactive) (State.inactive_required inactive) m)
      else refuse name enabled "missing_dependencies" missing (Message.unknown_required missing)
          (State.unknown_required missing) m

  -- `_validated_plugin_config_or_disabled`; `none` is `_DISABLED_PLUGIN`.
  unfoldable pub validated_plugin_config_or_disabled :
      String → Plugin C V W → Option Bool → Method C V W (Option (Option V))
  unfolding set_disabled
  validated_plugin_config_or_disabled name p enabled =
      elim (validate_config p (get_plugin pf name).config) [
        | ok config ↦ pure (some config)
        | err (broken why) ↦ raise (escaped why)
        | err (invalid why) ↦ if is_some enabled then raise (invalid_config why) else (do
          set_disabled name Message.invalid_plugin_config (("config_error", why ∷ []) ∷ [])
          pure none)
      ]

  -- `self._validate_registered_services(name, before, ctx)`
  abbrev pub validate_services :
      String → Plugin C V W → Dict String ℕ → PluginContext C V → Method C V W (Unit {0})
  validate_services name p before ctx = lift (validate_registered_services name p before ctx)

  -- The last statements: the health check, and the services of the context for all.
  unfoldable pub adopt : String → Method C V W (Unit {0})
  unfolding plugin_health_status
  adopt name = do
    st ← plugin_health_status pf name pf.timeout
    set_status st
    if is_unhealthy st.status then raise (unhealthy_plugin name) else (λ m.
        elim (lookup name m.contexts) [
          | none ↦ (err (key_error name), m)
          | some ctx ↦ (ok tt, record m { services = ctx.services })
        ])

  -- From `plugin.register(ctx)` to the entry in `started_plugins`.
  unfoldable pub run_register :
      String → Plugin C V W → Dict String ℕ → PluginContext C V → Method C V W (PluginContext C V)
  unfolding call_hook
  run_register name p before ctx = do
    registered ← call_hook p.register name ctx
    validate_services name p before registered
    modify (λ m. record m { started_plugins = m.started_plugins ++ name ∷ [] })
    pure registered

  -- From `plugin.startup(ctx)` to the entry in `active_plugins`.
  unfoldable pub run_startup :
      String → Plugin C V W → Dict String ℕ → PluginContext C V → Method C V W (PluginContext C V)
  unfolding call_hook
  run_startup name p before ctx = do
    started ← call_hook p.startup name ctx
    validate_services name p before started
    modify (λ m. record m { active_plugins = add m.active_plugins name })
    pure started

  -- `ctx = PluginContext(…)`, over a copy of the services.
  abbrev pub new_context : String → Option V → Dict String ℕ → PluginContext C V
  new_context name config services = record {
    plugin_settings = get_plugin pf name;
    services = services;
    config = config;
  }

  -- The statements from `ctx = PluginContext(…)` on.
  unfoldable pub activate : String → Plugin C V W → Option V → Method C V W (Unit {0})
  unfolding run_register run_startup adopt
  activate name p config = do
    before ← gets (λ m. m.services)
    registered ← run_register name p before (new_context name config before)
    run_startup name p before registered
    adopt name

  -- `if isinstance(config, _DisabledPlugin): return`
  unfoldable pub activate_config :
      String → Plugin C V W → Option (Option V) → Method C V W (Unit {0})
  unfolding activate
  activate_config name p none = pure tt
  activate_config name p (some config) = activate name p config

  unfoldable pub configure : String → Plugin C V W → Option Bool → Method C V W (Unit {0})
  unfolding validated_plugin_config_or_disabled activate_config
  configure name p enabled = do
    config ← validated_plugin_config_or_disabled name p enabled
    activate_config name p config

  -- `if self._disable_or_raise_for_dependency_errors(…): return`
  unfoldable pub start_enabled : String → Plugin C V W → Option Bool → Method C V W (Unit {0})
  unfolding disable_or_raise_for_dependency_errors configure
  start_enabled name p enabled = do
    refused ← disable_or_raise_for_dependency_errors name p enabled
    if refused then pure tt else configure name p enabled

  unfoldable pub startup_plugin : String → Method C V W (Unit {0})
  unfolding set_disabled start_enabled
  startup_plugin name = elim (lookup name pf.plugins) [
    | none ↦ raise (key_error name)
    | some p ↦
        let enabled = (get_plugin pf name).enabled in
        if is_switched_off enabled p.metadata.default_enabled
        then set_disabled name Message.disabled_by_config []
        else start_enabled name p enabled
  ]
