-- ===== src/Plugins/Manager/Lifecycle.antt =====
-- `startup` and `refresh_health` of `PluginManager`.
use fastapi_infra.Common.{
  string_eq, String, true, Option, List, [], ◌∷◌, contains, keep_if, ◌&&◌, if◌then◌else◌,
}
use fastapi_infra.Common.Int.{ℤ}
use fastapi_infra.Common.Dict.{Dict, has_key}
use fastapi_infra.Common.Result.{Result, ok, err}
use fastapi_infra.Common.Action.{pure, raise, gets, modify, ◌>>=◌, ◌>>◌}
use fastapi_infra.Plugins.Contract.{Plugin, HealthStatus}
use fastapi_infra.Plugins.Order.{resolve_order}
use fastapi_infra.Plugins.Manager.State.{
  ManagerError, already_started, order, is_exception, negative_timeout, is_negative, Platform,
  Manager,
}
use fastapi_infra.Plugins.Manager.Checks.{check_unknown_configured_plugins}
use fastapi_infra.Plugins.Manager.Methods.{Method, set_status, plugin_health_status}
use fastapi_infra.Plugins.Manager.Starting.{startup_plugin}
use fastapi_infra.Plugins.Manager.Stopping.{shutdown}

module _ {C V W : Type 0} (pf : Platform C V W) where
  unfoldable pub startup_each : List String → Method C V W (Unit {0})
  startup_each [] = pure tt
  startup_each (name ∷ names) = startup_plugin pf name >> startup_each names

  -- The lines of `_rollback_startup` behind its `try`. The snapshot is the state itself, as it was
  -- before.
  unfoldable pub restore : Manager C V W → Manager C V W → Manager C V W
  restore snapshot m = record m {
    services = snapshot.services;
    contexts = snapshot.contexts;
    started_plugins = snapshot.started_plugins;
    active_plugins = snapshot.active_plugins;
    started = snapshot.started;
  }

  -- `_rollback_startup`: an `Exception` of `shutdown` makes no difference, anything else leaves.
  unfoldable pub rollback_startup : Manager C V W → Method C V W (Unit {0})
  unfolding restore is_exception
  rollback_startup snapshot m =
      let (r, m') = shutdown pf m in
      elim r [
        | ok _ ↦ (ok tt, restore snapshot m')
        | err e ↦ if is_exception e then (ok tt, restore snapshot m') else (err e, m')
      ]

  -- The `try` of `startup`.
  unfoldable pub start_all : Method C V W (Unit {0})
  unfolding startup_each
  start_all = elim (resolve_order (λ (p : Plugin C V W). p.metadata) pf.plugins) [
    | err e ↦ raise (order e)
    | ok names ↦ (do startup_each names; modify (λ m. record m { started = true }))
  ]

  -- `raise`, behind the rollback: what the rollback itself raises goes first.
  abbrev raise_again :
      ManagerError → Result ManagerError (Unit {0}) → Result ManagerError (Unit {0})
  raise_again e (ok _) = err e
  raise_again e (err f) = err f

  -- The `except Exception` of `startup`.
  unfoldable pub settle :
      Manager C V W
      → Result ManagerError (Unit {0}) × Manager C V W
      → Result ManagerError (Unit {0}) × Manager C V W
  unfolding rollback_startup is_exception
  settle snapshot (ok _, m) = (ok tt, m)
  settle snapshot (err e, m) =
      if is_exception e
      then (let (r, m') = rollback_startup snapshot m in (raise_again e r, m'))
      else (err e, m)

  unfoldable pub startup : Method C V W (Unit {0})
  unfolding settle start_all
  startup m =
      if m.started then (err already_started, m) else elim (check_unknown_configured_plugins pf) [
        | err e ↦ (err e, m)
        | ok _ ↦ settle m (start_all m)
      ]

  -- The checks of `refresh_health`, one after the other, before any answer is recorded.
  unfoldable pub check_each : List String → Option ℤ → Method C V W (List HealthStatus)
  check_each [] timeout = pure []
  check_each (name ∷ names) timeout = do
    st ← plugin_health_status pf name timeout
    rest ← check_each names timeout
    pure (st ∷ rest)

  unfoldable pub record_each : List HealthStatus → Method C V W (Unit {0})
  record_each [] = pure tt
  record_each (st ∷ sts) = set_status st >> record_each sts

  unfoldable pub refresh_health : Option ℤ → Method C V W (Dict String HealthStatus)
  unfolding check_each record_each
  refresh_health timeout = if is_negative timeout then raise negative_timeout else (do
    names ←
        gets (λ m.
          keep_if (λ n. contains m.active_plugins n && has_key n m.contexts) m.started_plugins)
    answers ← check_each names timeout
    record_each answers
    gets (λ m. m.health))
