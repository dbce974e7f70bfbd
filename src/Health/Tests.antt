-- ===== src/Health/Tests.antt =====
-- A report with secrets and providers of each kind, and the theorem on redaction at a run.
use fastapi_infra.Common.{
  string_eq, ℕ, suc, String, true, false, none, some, List, [], ◌∷◌, ◌≡◌, refl, arith,
  if◌then◌else◌, ◌==◌,
}
use fastapi_infra.Common.Dict.{lookup, insert}
use fastapi_infra.Common.Text.{drop_prefix, has_text}
use fastapi_infra.Plugins.Contract.{unhealthy}
use fastapi_infra.Health.Redaction.{
  Value, text, list, tuple, dict, other, no_value, value, no_entry, entry, redact_secret_value,
  is_clean, is_secret_key, underscored, has_any,
}
use fastapi_infra.Health.Redaction
use fastapi_infra.Health.Providers.{
  Provider, raised, merged, judged, provider_health_status, provider_statuses, worst_status, joined,
  by_name, aggregate_provider_health_status,
}

abbrev same_text : String → String
same_text s = s

-- One text that the regular expressions would change
abbrev bearer : String
bearer = "Bearer x"

abbrev hidden : String
hidden = "Bearer [redacted]"

abbrev hush : String → String
hush s = if s == bearer then hidden else s

program : Unit {0}
unfolding string_eq lookup insert drop_prefix has_text redact_secret_value is_secret_key underscored
    has_any merged judged provider_health_status provider_statuses worst_status joined by_name
    aggregate_provider_health_status
program = tt

changed : (hidden == bearer) ≡ false
unfolding program
changed = refl

hush-hush : (s : String) → hush (hush s) ≡ hush s
hush-hush s = ground (arith, changed)

-- The keys are strings, and so is every other object here.
abbrev name_of : String → String
name_of key = key

abbrev secret_pair : Value String
secret_pair = tuple (value (text "Bearer x") (value (other "8 bytes") no_value))

abbrev details : Value String
details = dict (
    entry "api-key" (list (value (text "k1") no_value))
      (entry "hosts" (list (value (text "Bearer x") (value secret_pair no_value))) no_entry))

abbrev shown_pair : Value String
shown_pair = tuple (value (text "Bearer [redacted]") (value (other "8 bytes") no_value))

shown :
    redact_secret_value name_of same_text hush details
    ≡ dict (
        entry "api-key" (text "[redacted]") (
          entry "hosts"
            (list (value (text "Bearer [redacted]") (value shown_pair no_value)))
            no_entry))
unfolding program
shown = refl

redact_secret_value-IsClean_example :
    is_clean name_of same_text hush (redact_secret_value name_of same_text hush details) ≡ true
redact_secret_value-IsClean_example =
    Redaction.redact_secret_value-IsClean name_of same_text hush hush-hush details

abbrev providers : List (Provider ℕ)
providers =
    record { name = "local"; probe = none }
    ∷ record { name = "s3"; probe = some (λ w. (raised "down", suc w)) }
    ∷ record { name = "gcs"; probe = none }
    ∷ []

worst : (aggregate_provider_health_status "storage" ("local" ∷ []) providers 0).0.status ≡ unhealthy
unfolding program
worst = refl

told :
    (aggregate_provider_health_status "storage" ("local" ∷ []) providers 0).0.message
    ≡ some "down; external provider configured; upstream is not checked by health"
unfolding program
told = refl
