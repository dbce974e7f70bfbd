-- ===== src/Plugins/Tests.antt =====
-- Runs of the plugin manager on small platforms, and the theorems at those inputs.
use fastapi_infra.Common.{
  string_eq, nat_eq, ℕ, String, true, Option, List, [], ◌∷◌, none, some, ◌≡◌, ◌↔◌, refl, arith,
  ℕ_discrete, if◌then◌else◌, ◌==◌,
}
use fastapi_infra.Common.Int.{pos}
use fastapi_infra.Common.Dict.{Dict, lookup, insert, erase}
use fastapi_infra.Common.Result.{ok, err}
use fastapi_infra.Plugins.Contract.{
  Raised, exception, interrupt, PluginMetadata, Plugin, PluginContext, answered, healthy,
}
use fastapi_infra.Plugins.Order.{circular, visit, visit_all, visit_each, resolve_order}
use fastapi_infra.Plugins.Order.Sorted
use fastapi_infra.Plugins.Order.Cycles.{Chain, Cyclic}
use fastapi_infra.Plugins.Order.Cycles
use fastapi_infra.Plugins.Order.Positions
use fastapi_infra.Plugins.Manager.State.{
  Platform, Manager, fresh, hook_raised, interrupted, is_exception,
}
use fastapi_infra.Plugins.Manager.Starting.{startup_plugin}
use fastapi_infra.Plugins.Manager.Stopping.{shutdown}
use fastapi_infra.Plugins.Manager.Checks.{
  check_unknown_configured_plugins, missing_optional_dependencies, validate_config,
  validate_registered_services, configured_service_name, module_name,
}
use fastapi_infra.Plugins.Manager.Lifecycle.{startup}
use fastapi_infra.Plugins.Manager.Rollback
use fastapi_infra.Plugins.Manager.Checks.Laws
use fastapi_infra.Plugins.Manager.Closing
use fastapi_infra.Plugins.Manager.Consistent
use fastapi_infra.Plugins.Manager.Services

-- A plugin that adds one service, and writes its hooks to a log.
abbrev World : Type 0
World = List String

abbrev meta : String → List String → PluginMetadata
meta name deps = record {
  name = name;
  version = "1.0.0";
  dependencies = deps;
  optional_dependencies = [];
  default_enabled = true;
  provides = name ∷ [];
  service_name_config = none;
}

abbrev Simple : Type 0
Simple = Plugin (Unit {0}) (Unit {0}) World

plugin : String → List String → ℕ → Option Raised → Simple
unfolding insert string_eq
plugin name deps service trouble = record {
  metadata = meta name deps;
  config_model = none;
  validate_config = none;
  attribute = λ _ _. none;
  register =
      λ w ctx. record { world = w; services = insert name service ctx.services; raised = none };
  startup = λ w ctx. record { world = name ∷ w; services = ctx.services; raised = trouble };
  shutdown = λ w ctx. record { world = name ∷ w; services = ctx.services; raised = none };
  health_check = λ t w ctx. record {
    world = w;
    services = ctx.services;
    checked = answered (record { name = name; status = healthy; message = none; details = [] });
  };
}

abbrev boom : Raised
boom = exception "boom"

abbrev platform : Option Raised → Platform (Unit {0}) (Unit {0}) World
platform trouble = record {
  settings = [];
  default_settings = record { enabled = none; config = tt };
  timeout = some (pos 5);
  plugins = ("cache", plugin "cache" ("db" ∷ []) 1 trouble) ∷ ("db", plugin "db" [] 2 none) ∷ [];
  find_spec = λ _. true;
}

-- A plugin whose one service has the name that its configuration gives.
limits : Simple
unfolding insert string_eq
limits = record {
  metadata = record (meta "limits" ("db" ∷ [])) {
    provides = [];
    service_name_config = some "service_name";
  };
  config_model = some (λ _. ok tt);
  validate_config = none;
  attribute = λ _ field. if field == "service_name" then some "limiter" else none;
  register =
      λ w ctx. record { world = w; services = insert "limiter" 3 ctx.services; raised = none };
  startup = λ w ctx. record { world = "limits" ∷ w; services = ctx.services; raised = none };
  shutdown = λ w ctx. record { world = "limits" ∷ w; services = ctx.services; raised = none };
  health_check = (plugin "limits" [] 3 none).health_check;
}

abbrev limited : Platform (Unit {0}) (Unit {0}) World
limited = record (platform none) {
  plugins = ("limits", limits) ∷ ("db", plugin "db" [] 2 none) ∷ [];
}

program : Unit {0}
unfolding string_eq ℕ_discrete lookup insert erase visit visit_all visit_each resolve_order startup
    shutdown plugin limits startup_plugin check_unknown_configured_plugins
    missing_optional_dependencies is_exception validate_config validate_registered_services
    configured_service_name module_name
program = tt

abbrev names_of : Simple → PluginMetadata
names_of p = p.metadata

order_two : resolve_order names_of (platform none).plugins ≡ ok ("db" ∷ "cache" ∷ [])
unfolding program
order_two = refl

resolve_order-IsStartOrder_example :
    Sorted.IsStartOrder names_of (platform none).plugins ("db" ∷ "cache" ∷ [])
resolve_order-IsStartOrder_example =
    Sorted.resolve_order-IsStartOrder names_of (platform none).plugins ("db" ∷ "cache" ∷ [])
      order_two

resolve_order_acyclic_example : ¬ Chain names_of (platform none).plugins "db" "db"
resolve_order_acyclic_example =
    Positions.resolve_order_acyclic names_of (platform none).plugins ("db" ∷ "cache" ∷ []) "db"
      order_two

abbrev ring : Dict String Simple
ring = ("a", plugin "a" ("b" ∷ []) 1 none) ∷ ("b", plugin "b" ("a" ∷ []) 2 none) ∷ []

order_ring : resolve_order names_of ring ≡ err (circular "a")
unfolding program
order_ring = refl

resolve_order-Cyclic_example : Cyclic names_of ring (circular "a")
resolve_order-Cyclic_example = Cycles.resolve_order-Cyclic names_of ring (circular "a") order_ring

abbrev start_of : Option Raised → Manager (Unit {0}) (Unit {0}) World
start_of trouble = (startup (platform trouble) (fresh [])).1

startup_two : startup (platform none) (fresh []) ≡ (ok tt, start_of none)
unfolding program
startup_two = refl

startup_broken :
    startup (platform (some boom)) (fresh []) ≡ (err (hook_raised "boom"), start_of (some boom))
unfolding program
startup_broken = refl

-- Both hooks of the failed start ran, and so did the shutdown hooks of the rollback.
startup_broken_log : (start_of (some boom)).world ≡ "db" ∷ "cache" ∷ "cache" ∷ "db" ∷ []
unfolding program
startup_broken_log = refl

an_exception : is_exception (hook_raised "boom") ≡ true
unfolding program
an_exception = refl

startup-SameManager_example : Rollback.SameManager (fresh []) (start_of (some boom))
startup-SameManager_example =
    Rollback.startup-SameManager (platform (some boom)) (fresh []) (hook_raised "boom")
      startup_broken an_exception

-- A cancelled start is not rolled back.
startup_cancelled :
    (startup (platform (some (interrupt "CancelledError"))) (fresh [])).0
    ≡ err (interrupted "CancelledError")
unfolding program
startup_cancelled = refl

still_started : (start_of (some (interrupt "CancelledError"))).started_plugins ≡ "db" ∷ "cache" ∷ []
unfolding program
still_started = refl

startup-IsConsistent_example :
    Consistent.IsConsistent (platform none) (start_of none) × ((start_of none).started ≡ true)
startup-IsConsistent_example =
    Consistent.startup-IsConsistent (platform none) (fresh []) (start_of none) refl refl startup_two

reads_only : Services.AllReadOnly limited
unfolding lookup plugin limits
reads_only n p found t w ctx = ground arith

start_limited : startup limited (fresh []) ≡ (ok tt, (startup limited (fresh [])).1)
unfolding program
start_limited = refl

limiter_there : lookup "limiter" (startup limited (fresh [])).1.services ≡ some 3
unfolding program
limiter_there = refl

startup-Owned_example : Services.Owned limited (startup limited (fresh [])).1
startup-Owned_example =
    Services.startup-Owned limited (fresh []) (startup limited (fresh [])).1 reads_only refl
      start_limited

abbrev first_of_two : Manager (Unit {0}) (Unit {0}) World
first_of_two = (startup_plugin (platform none) "db" (fresh [])).1

second_of_two :
    startup_plugin (platform none) "cache" first_of_two
    ≡ (ok tt, (startup_plugin (platform none) "cache" first_of_two).1)
unfolding program
second_of_two = refl

db_there : lookup "db" first_of_two.services ≡ some 2
unfolding program
db_there = refl

shutdown_two :
    shutdown (platform none) (start_of none) ≡ (ok tt, (shutdown (platform none) (start_of none)).1)
unfolding program
shutdown_two = refl

shutdown-IsClosed_example :
    Closing.IsClosed (platform none) (start_of none) (shutdown (platform none) (start_of none)).1
shutdown-IsClosed_example = Closing.shutdown-IsClosed (platform none) (start_of none) shutdown_two

abbrev context : PluginContext (Unit {0}) (Unit {0})
context = record {
  plugin_settings = record { enabled = none; config = tt };
  services = ("db", 2) ∷ [];
  config = none;
}

validate_registered_services_iff_example :
    (validate_registered_services "db" (plugin "db" [] 2 none) [] context ≡ ok tt)
    ↔ Laws.Respects (plugin "db" [] 2 none) [] context
validate_registered_services_iff_example =
    Laws.validate_registered_services_iff "db" (plugin "db" [] 2 none) [] context
