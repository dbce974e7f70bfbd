-- ===== src/Plugins/Manager/State.antt =====
-- The attributes of `PluginManager`, what it raises, and its constructor.
use fastapi_infra.Common.{
  string_eq, ℕ, String, Bool, Option, List, [], ◌∷◌, none, some, false, true, if◌then◌else◌,
}
use fastapi_infra.Common.Dict.{Dict, lookup, insert, has_key}
use fastapi_infra.Common.Int.{ℤ, is_neg}
use fastapi_infra.Common.Result.{Result, ok, err, ◌>>=◌}
use fastapi_infra.Plugins.Contract.{
  Raised, exception, interrupt, PluginSettings, PluginContext, Plugin, HealthStatus,
}
use fastapi_infra.Plugins.Order.{OrderError}

-- `PluginDependencyError` with its message as data, and the other exceptions on the way out.
pub data ManagerError : Type 0 where
  negative_timeout : ManagerError
  duplicate_plugin : String → ManagerError
  already_started : ManagerError
  unknown_configured : List String → ManagerError
  order : OrderError → ManagerError
  unknown_required inactive_required missing_optional : List String → ManagerError
  invalid_config : String → ManagerError
  removed_services overwrote_services undeclared_services : String → List String → ManagerError
  unhealthy_plugin : String → ManagerError
  hook_raised interrupted : String → ManagerError
  key_error : String → ManagerError

-- What a method that does not catch it passes on
abbrev pub escaped : Raised → ManagerError
escaped (exception why) = hook_raised why
escaped (interrupt why) = interrupted why

-- `isinstance(error, Exception)`
unfoldable pub is_exception : ManagerError → Bool
is_exception (interrupted why) = false
is_exception _ = true

-- What the constructor fixes. `find_spec` is `importlib.util.find_spec` as a test.
pub record Platform (C V W : Type 0) : Type 0 where
  pub settings : Dict String (PluginSettings C)
  pub default_settings : PluginSettings C
  pub timeout : Option ℤ
  pub plugins : Dict String (Plugin C V W)
  pub find_spec : String → Bool

-- What the methods change. The outside world, which the hooks act on, stands beside it.
pub record Manager (C V W : Type 0) : Type 0 where
  pub services : Dict String ℕ
  pub health : Dict String HealthStatus
  pub started_plugins : List String
  pub active_plugins : List String
  pub contexts : Dict String (PluginContext C V)
  pub started : Bool
  pub world : W

-- `timeout_seconds is not None and timeout_seconds < 0`
abbrev pub is_negative : Option ℤ → Bool
is_negative none = false
is_negative (some t) = is_neg t

module _ {C V W : Type 0} where
  -- The loop of `__init__` that builds `self.plugins`.
  unfoldable pub add_plugins :
      List (Plugin C V W)
      → Dict String (Plugin C V W)
      → Result ManagerError (Dict String (Plugin C V W))
  add_plugins [] d = ok d
  add_plugins (p ∷ ps) d =
      let rest = add_plugins ps (insert p.metadata.name p d) in
      if has_key p.metadata.name d then err (duplicate_plugin p.metadata.name) else rest

  -- `PluginManager.__init__`
  unfoldable pub init :
      Dict String (PluginSettings C)
      → PluginSettings C
      → Option ℤ
      → (String → Bool)
      → List (Plugin C V W)
      → Result ManagerError (Platform C V W)
  unfolding add_plugins
  init settings default_settings timeout find_spec plugins =
      if is_negative timeout
      then err negative_timeout
      else add_plugins plugins [] >>= λ d. ok (record {
        settings = settings;
        default_settings = default_settings;
        timeout = timeout;
        plugins = d;
        find_spec = find_spec;
      })

  abbrev pub fresh : W → Manager C V W
  fresh world = record {
    services = [];
    health = [];
    started_plugins = [];
    active_plugins = [];
    contexts = [];
    started = false;
    world = world;
  }

  -- `InfraSettings.get_plugin`
  abbrev pub get_plugin : Platform C V W → String → PluginSettings C
  get_plugin pf name = elim (lookup name pf.settings) [ none ↦ pf.default_settings | some s ↦ s ]
