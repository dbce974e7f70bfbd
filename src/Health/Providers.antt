-- ===== src/Health/Providers.antt =====
-- infra/plugins/provider_health.py: the health of a provider, and of several.
use fastapi_infra.Common.{
  string_eq, ℕ, max, String, ◌<>◌, Bool, true, false, ◌||◌, Option, none, some, List, [], ◌∷◌, ◌≡◌,
  refl, arith, if◌then◌else◌, contains, map,
}
use fastapi_infra.Common.Dict.{Dict, lookup, insert}
use fastapi_infra.Common.Text.{is_blank}
use fastapi_infra.Plugins.Contract.{HealthState, healthy, degraded, unhealthy, disabled}

pub record Report : Type 0 where
  pub status : HealthState
  pub message : Option String
  pub details : Dict String String

-- What a probe comes to: a report, something else, or an exception
pub data Probed : Type 0 where
  reported : Report → Probed
  invalid : Probed
  raised : String → Probed

pub record Provider (W : Type 0) : Type 0 where
  pub name : String
  pub probe : Option (W → Probed × W)

-- `{**details, **more}`
unfoldable pub merged : Dict String String → Dict String String → Dict String String
merged details [] = details
merged details ((k, v) ∷ more) = merged (insert k v details) more

unfoldable pub judged : Dict String String → Probed → Report
unfolding merged
judged details (reported r) = record {
  status = r.status;
  message = r.message;
  details = merged details r.details;
}
judged details invalid = record {
  status = unhealthy;
  message = some "provider health_check returned an invalid result";
  details = details;
}
judged details (raised e) = record { status = unhealthy; message = some e; details = details }

module _ {W : Type 0} where
  unfoldable pub provider_health_status : List String → Provider W → W → Report × W
  unfolding judged
  provider_health_status local_provider_names p w =
      let details = ("provider", p.name) ∷ [] in
      if contains local_provider_names p.name
      then (record { status = healthy; message = none; details = details }, w)
      else elim p.probe [
        | none ↦ (
          record {
            status = degraded;
            message = some "external provider configured; upstream is not checked by health";
            details = details;
          },
          w,
        )
        | some probe ↦ let (result, w) = probe w in (judged details result, w)
      ]

  unfoldable pub provider_statuses : List String → List (Provider W) → W → List Report × W
  unfolding provider_health_status
  provider_statuses local_provider_names [] w = ([], w)
  provider_statuses local_provider_names (p ∷ more) w =
      let (r, w) = provider_health_status local_provider_names p w in
      let (rest, w) = provider_statuses local_provider_names more w in (r ∷ rest, w)

abbrev is_unhealthy : HealthState → Bool
is_unhealthy unhealthy = true
is_unhealthy _ = false

abbrev is_degraded : HealthState → Bool
is_degraded degraded = true
is_degraded _ = false

abbrev any_status : (HealthState → Bool) → List HealthState → Bool
any_status p [] = false
any_status p (s ∷ more) = p s || any_status p more

unfoldable pub worst_status : List HealthState → HealthState
worst_status statuses =
    if any_status is_unhealthy statuses
    then unhealthy
    else (if any_status is_degraded statuses then degraded else healthy)

-- `"; ".join(messages)` of the messages that are there
unfoldable pub joined : List (Option String) → String
joined [] = ""
joined (none ∷ more) = joined more
joined (some m ∷ more) =
    let rest = joined more in
    if is_blank m then rest else (if is_blank rest then m else m <> "; " <> rest)

-- The name that a report goes by; a probe may give another.
abbrev pub name_of : String → Report → String
name_of service_name r = elim (lookup "provider" r.details) [
  | none ↦ service_name
  | some name ↦ name
]

unfoldable pub by_name : String → List Report → Dict String Report → Dict String Report
by_name service_name [] d = d
by_name service_name (r ∷ more) d = by_name service_name more (insert (name_of service_name r) r d)

pub record Aggregate : Type 0 where
  pub status : HealthState
  pub message : Option String
  pub providers : Dict String Report

unfoldable pub aggregate_provider_health_status :
    {W : Type 0} → String → List String → List (Provider W) → W → Aggregate × W
unfolding provider_statuses worst_status joined by_name
aggregate_provider_health_status service_name local_provider_names providers w =
    let (reports, w) = provider_statuses local_provider_names providers w in
    let message = joined (map (λ r. r.message) reports) in
    (
      record {
        status = worst_status (map (λ r. r.status) reports);
        message = if is_blank message then none else some message;
        providers = by_name service_name reports [];
      },
      w,
    )

-- How bad a state is; a disabled provider counts for nothing.
abbrev pub rank : HealthState → ℕ
rank healthy = 0
rank disabled = 0
rank degraded = 1
rank unhealthy = 2

abbrev pub worst_rank : List HealthState → ℕ
worst_rank [] = 0
worst_rank (s ∷ more) = max (rank s) (worst_rank more)

-- The worst state is as bad as the worst of the list.
rank-worst_status :
    (statuses : List HealthState) → rank (worst_status statuses) ≡ worst_rank statuses
unfolding worst_status
rank-worst_status [] = refl
rank-worst_status (healthy ∷ more) = ground (arith, rank-worst_status more)
rank-worst_status (degraded ∷ more) = ground (arith, rank-worst_status more)
rank-worst_status (unhealthy ∷ more) = ground (arith, rank-worst_status more)
rank-worst_status (disabled ∷ more) = ground (arith, rank-worst_status more)
