-- ===== src/Plugins/Contract.antt =====
-- infra/plugins/contract.py, infra/core/health.py and infra/config/models.py: what the manager
-- knows of a plugin, and the values that pass between the two.
use fastapi_infra.Common.{ℕ, String, Bool, Option, List}
use fastapi_infra.Common.Dict.{Dict}
use fastapi_infra.Common.Int.{ℤ}
use fastapi_infra.Common.Result.{Result}

-- `PluginMetadata`
pub record PluginMetadata : Type 0 where
  pub name : String
  pub version : String
  pub dependencies : List String
  pub optional_dependencies : List String
  pub default_enabled : Bool
  pub provides : List String
  pub service_name_config : Option String

-- `HealthState`
pub data HealthState : Type 0 where
  healthy degraded unhealthy disabled : HealthState

-- The texts that the manager writes, before they are rendered.
pub data Message : Type 0 where
  text : String → Message
  disabled_by_config invalid_plugin_config : Message
  unknown_required inactive_required missing_optional : List String → Message
  check_timed_out : Option ℤ → Message

-- `HealthStatus`; the redaction of secrets in its texts is in Health.Redaction.
pub record HealthStatus : Type 0 where
  pub name : String
  pub status : HealthState
  pub message : Option Message
  pub details : Dict String (List String)

-- `PluginSettings`, over the type of raw configurations.
pub record PluginSettings (C : Type 0) : Type 0 where
  pub enabled : Option Bool
  pub config : C

-- `PluginContext`: the settings and the health registry are shared, and stand with the manager.
-- A service is an object, known by its identity.
pub record PluginContext (C V : Type 0) : Type 0 where
  pub plugin_settings : PluginSettings C
  pub services : Dict String ℕ
  pub config : Option V

-- What a plugin's own code raises, with its text: an `Exception`, or another `BaseException`, such as
-- the `CancelledError` of a task that is cancelled, which no `except Exception` catches.
pub data Raised : Type 0 where
  exception interrupt : String → Raised

-- What a hook leaves behind: the outside world, the services of its context, and whether it raised.
pub record Hooked (W : Type 0) : Type 0 where
  pub world : W
  pub services : Dict String ℕ
  pub raised : Option Raised

-- How `wait_for` ends a health check: `cut_off` is a `BaseException` that is no `Exception`.
pub data Checked : Type 0 where
  answered : HealthStatus → Checked
  timed_out : Checked
  failed cut_off : String → Checked

-- A health check runs over the same context.
pub record Probed (W : Type 0) : Type 0 where
  pub world : W
  pub services : Dict String ℕ
  pub checked : Checked

-- `ValidationError` and `ValueError` are `invalid`; whatever else is raised is `broken`.
pub data ConfigError : Type 0 where
  invalid : String → ConfigError
  broken : Raised → ConfigError

-- `InfraPlugin`. The hooks are the plugin's own code, which may do anything to the world and to the
-- services of its context.
pub record Plugin (C V W : Type 0) : Type 0 where
  pub metadata : PluginMetadata
  pub config_model : Option (C → Result ConfigError V)
  pub validate_config : Option (V → Result ConfigError (Unit {0}))
  pub attribute : V → String → Option String
  pub register : W → PluginContext C V → Hooked W
  pub startup : W → PluginContext C V → Hooked W
  pub shutdown : W → PluginContext C V → Hooked W
  pub health_check : Option ℤ → W → PluginContext C V → Probed W
