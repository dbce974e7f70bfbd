-- ===== src/Plugins/Manager/Stopping.antt =====
-- `shutdown` of `PluginManager`.
use fastapi_infra.Common.{
  string_eq, String, false, Option, List, [], ◌∷◌, none, some, remove, reverse,
}
use fastapi_infra.Common.Dict.{lookup, insert, erase}
use fastapi_infra.Common.Result.{ok, err}
use fastapi_infra.Common.Action.{pure, raise, gets, modify, ◌>>=◌}
use fastapi_infra.Plugins.Contract.{exception, interrupt, PluginContext, Plugin}
use fastapi_infra.Plugins.Manager.State.{
  ManagerError, hook_raised, interrupted, key_error, Platform,
}
use fastapi_infra.Plugins.Manager.Methods.{Method, discard}

-- `if first_error is None: first_error = exc`
abbrev pub keep_first : Option ManagerError → ManagerError → ManagerError
keep_first none e = e
keep_first (some first) e = first

module _ {C V W : Type 0} (pf : Platform C V W) where
  -- The body of the loop behind `if ctx is None`: a plugin whose hook raises stays started,
  -- and what is no `Exception` leaves the loop.
  unfoldable pub stop :
      String
      → Plugin C V W
      → Option ManagerError
      → PluginContext C V
      → Method C V W (Option ManagerError)
  stop name p first ctx m =
      let h = p.shutdown m.world ctx in
      let ctx' : PluginContext C V = record ctx { services = h.services } in
      elim h.raised [
        | some (interrupt why) ↦ (
          err (interrupted why),
          record m { world = h.world; contexts = insert name ctx' m.contexts },
        )
        | some (exception why) ↦ (
          ok (some (keep_first first (hook_raised why))),
          record m { world = h.world; contexts = insert name ctx' m.contexts },
        )
        | none ↦ (
          ok first,
          record m {
            world = h.world;
            contexts = erase name m.contexts;
            started_plugins = remove m.started_plugins name;
            active_plugins = discard m.active_plugins name;
          },
        )
      ]

  unfoldable pub shutdown_one : String → Option ManagerError → Method C V W (Option ManagerError)
  unfolding stop
  shutdown_one name first m = elim (lookup name pf.plugins) [
    | none ↦ (err (key_error name), m)
    | some p ↦ elim (lookup name m.contexts) [
      | none ↦ (
        ok first,
        record m {
          started_plugins = remove m.started_plugins name;
          active_plugins = discard m.active_plugins name;
        },
      )
      | some ctx ↦ stop name p first ctx m
    ]
  ]

  unfoldable pub shutdown_each :
      List String → Option ManagerError → Method C V W (Option ManagerError)
  shutdown_each [] first = pure first
  shutdown_each (name ∷ names) first = do
    first' ← shutdown_one name first
    shutdown_each names first'

  -- The lines behind the loop.
  unfoldable pub conclude : Option ManagerError → Method C V W (Unit {0})
  conclude (some e) = raise e
  conclude none = modify (λ m. record m { services = []; started = false })

  unfoldable pub shutdown : Method C V W (Unit {0})
  unfolding shutdown_each shutdown_one conclude
  shutdown = do
    names ← gets (λ m. reverse m.started_plugins)
    first ← shutdown_each names none
    conclude first
