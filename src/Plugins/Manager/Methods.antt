-- ===== src/Plugins/Manager/Methods.antt =====
-- What the methods of `PluginManager` share: small state changes, calls of hooks, one health check.
use fastapi_infra.Common.{
  string_eq, String, Bool, false, not, Option, List, [], ◌∷◌, none, some, contains, keep_if, ◌==◌,
  if◌then◌else◌,
}
use fastapi_infra.Common.Int.{ℤ}
use fastapi_infra.Common.Dict.{Dict, lookup, insert}
use fastapi_infra.Common.Result.{Result, ok, err}
use fastapi_infra.Common.Action.{Action, modify}
use fastapi_infra.Plugins.Contract.{
  PluginContext, Hooked, Checked, answered, timed_out, failed, cut_off, HealthState, unhealthy,
  disabled, HealthStatus, Message,
}
use fastapi_infra.Plugins.Manager.State.{
  ManagerError, interrupted, key_error, escaped, Platform, Manager,
}

-- `enabled is False or (enabled is None and not default_enabled)`
abbrev pub is_switched_off : Option Bool → Bool → Bool
is_switched_off none default_enabled = not default_enabled
is_switched_off (some enabled) default_enabled = not enabled

-- `enabled is True`
abbrev pub is_forced : Option Bool → Bool
is_forced none = false
is_forced (some enabled) = enabled

-- `active.add(name)` and `active.discard(name)` on a set
abbrev pub add : List String → String → List String
add xs x = if contains xs x then xs else x ∷ xs

abbrev pub discard : List String → String → List String
discard xs x = keep_if (λ y. not (y == x)) xs

abbrev pub status : String → HealthState → Message → Dict String (List String) → HealthStatus
status name state message details = record {
  name = name;
  status = state;
  message = some message;
  details = details;
}

-- `_plugin_health_status`: an `Exception` of the check is an unhealthy answer.
abbrev pub report : String → Option ℤ → Checked → Result ManagerError HealthStatus
report name timeout (answered st) = ok st
report name timeout timed_out = ok (status name unhealthy (Message.check_timed_out timeout) [])
report name timeout (failed why) = ok (status name unhealthy (Message.text why) [])
report name timeout (cut_off why) = err (interrupted why)

abbrev pub Method : Type 0 → Type 0 → Type 0 → Type 0 → Type 0
Method C V W A = Action ManagerError (Manager C V W) A

module _ {C V W : Type 0} where
  abbrev pub lift : {A : Type 0} → Result ManagerError A → Method C V W A
  lift r m = (r, m)

  -- `self.health.set_status(status)`
  abbrev pub set_status : HealthStatus → Method C V W (Unit {0})
  set_status st = modify (λ m. record m { health = insert st.name st m.health })

  -- `_set_disabled`
  unfoldable pub set_disabled :
      String → Message → Dict String (List String) → Method C V W (Unit {0})
  set_disabled name message details = set_status (status name disabled message details)

  -- A call of `plugin.register(ctx)`, `startup(ctx)` or `shutdown(ctx)`: the context that the hook
  -- changed is the one in `_contexts`.
  unfoldable pub call_hook :
      (W → PluginContext C V → Hooked W)
      → String
      → PluginContext C V
      → Method C V W (PluginContext C V)
  call_hook hook name ctx m =
      let h = hook m.world ctx in
      let ctx' : PluginContext C V = record ctx { services = h.services } in
      (
        elim h.raised [ none ↦ ok ctx' | some e ↦ err (escaped e) ],
        record m { world = h.world; contexts = insert name ctx' m.contexts },
      )

  unfoldable pub plugin_health_status :
      Platform C V W → String → Option ℤ → Method C V W HealthStatus
  plugin_health_status pf name timeout m = elim (lookup name pf.plugins) [
    | none ↦ (err (key_error name), m)
    | some p ↦ elim (lookup name m.contexts) [
      | none ↦ (err (key_error name), m)
      | some ctx ↦
          let probe = p.health_check timeout m.world ctx in
          let ctx' : PluginContext C V = record ctx { services = probe.services } in
          (
            report name timeout probe.checked,
            record m { world = probe.world; contexts = insert name ctx' m.contexts },
          )
    ]
  ]
