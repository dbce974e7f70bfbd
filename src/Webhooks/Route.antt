-- ===== src/Webhooks/Route.antt =====
-- The route of infra/plugins/webhooks/routes.py with the dispatcher of dispatcher.py beside it, over
-- the store in memory. `W` is the world of the handlers, with the clock.
use fastapi_infra.Common.{
  string_eq, pair_eq, ℕ, String, Bool, true, false, not, ◌&&◌, List, [], ◌∷◌, if◌then◌else◌,
  contains, keep_if, is_empty, map,
}
use fastapi_infra.Common.Dict.{Dict, keys}
use fastapi_infra.Common.Json.{Json}
use fastapi_infra.Common.Result.{Result, ok, err}
use fastapi_infra.Common.Text.{strip, is_blank}
use fastapi_infra.Webhooks.Models.{
  WebhookEvent, WebhookError, Provider, get, record_once, provider_error, unknown_provider,
}

-- A handler, which may raise
abbrev pub Handler : Type 0 → Type 0 → Type 0
Handler W F = String → Dict String (Json F) → W → Result WebhookError (Unit {0}) × W

pub record WebhookDispatcher (W B F : Type 0) : Type 0 where
  pub handlers : List (Handler W F)
  pub durable_store_required : Bool
  pub provider_registry : Dict String (Provider B F)
  pub required_providers : List String

pub data InstallError : Type 0 where
  route_collision not_durable : InstallError
  missing_providers : List String → InstallError

-- The responses, by their `status`
pub data Answer : Type 0 where
  not_found signature_failed : Answer
  bad_event : String → String → Answer
  duplicate processed : String → Answer

abbrev pub status_code : Answer → ℕ
status_code not_found = 404
status_code signature_failed = 401
status_code (bad_event status detail) = 400
status_code (duplicate id) = 200
status_code (processed id) = 200

pub record Route (W : Type 0) : Type 0 where
  pub event_keys : List (String × String)
  pub world : W

pub record Request (B : Type 0) : Type 0 where
  pub provider : String
  pub body : B
  pub headers : Dict String String

-- `WebhookDispatcher.__init__`, whose providers are a set
unfoldable pub required_names : (String → String) → List String → List String
unfolding strip
required_names lower providers =
    map (λ p. lower (strip p)) (keep_if (λ p. not (is_blank (strip p))) providers)

module _ {W B F : Type 0} where
  -- `is_durable` says whether a store is given that is not the one in memory, and `has_route` whether
  -- the path has a POST route already.
  unfoldable pub install_webhook_routes :
      Bool → Bool → WebhookDispatcher W B F → Result InstallError (Unit {0})
  install_webhook_routes has_route is_durable d =
      let absent =
        keep_if (λ name. not (contains (keys d.provider_registry) name)) d.required_providers in
      if has_route
      then err route_collision
      else (if d.durable_store_required && not is_durable
          then err not_durable
          else (if is_empty absent then ok tt else err (missing_providers absent)))

-- `register`: a handler goes to the end. `dispatch`: one after the other, up to an exception.
unfoldable pub dispatch :
    {W F : Type 0}
    → List (Handler W F)
    → String
    → Dict String (Json F)
    → W
    → Result WebhookError (Unit {0}) × W
dispatch [] event payload w = (ok tt, w)
dispatch (handler ∷ more) event payload w =
    let (r, w) = handler event payload w in
    elim r [ err e ↦ (err e, w) | ok _ ↦ dispatch more event payload w ]

module _ {W B F : Type 0} (lower : String → String) (clock : W → ℕ)
    (d : WebhookDispatcher W B F) where
  abbrev answered : Answer → Result WebhookError (Unit {0}) → Result WebhookError Answer
  answered answer (ok _) = ok answer
  answered answer (err e) = err e

  -- Behind `build_event`
  unfoldable pub deliver : WebhookEvent F → Route W → Result WebhookError Answer × Route W
  unfolding record_once dispatch
  deliver event s =
      let (is_new, event_keys) = record_once event s.event_keys in
      elim is_new [
        | false ↦ (ok (duplicate event.id), s)
        | true ↦
            let (r, w) = dispatch d.handlers event.type_name event.payload s.world in
            (answered (processed event.id) r, record { event_keys = event_keys; world = w })
      ]

  -- Only a WebhookProviderError is answered.
  abbrev build_failed : WebhookError → Result WebhookError Answer
  build_failed (provider_error status detail) = ok (bad_event status detail)
  build_failed e = err e

  unfoldable pub accept :
      Result WebhookError (WebhookEvent F) → Route W → Result WebhookError Answer × Route W
  unfolding deliver
  accept (ok event) s = deliver event s
  accept (err e) s = (build_failed e, s)

  unfoldable pub checked :
      Provider B F
      → Request B
      → Result WebhookError Bool
      → Route W
      → Result WebhookError Answer × Route W
  unfolding accept
  checked p request (err e) s = (err e, s)
  checked p request (ok false) s = (ok signature_failed, s)
  checked p request (ok true) s =
      accept (p.build_event (clock s.world) request.body request.headers) s

  -- Only a LookupError is answered: a blank name is a ValueError.
  abbrev get_failed : WebhookError → Result WebhookError Answer
  get_failed (unknown_provider name) = ok not_found
  get_failed e = err e

  unfoldable pub receive_webhook : Request B → Route W → Result WebhookError Answer × Route W
  unfolding get checked
  receive_webhook request s = elim (get lower request.provider d.provider_registry) [
    | err e ↦ (get_failed e, s)
    | ok p ↦ checked p request (p.verify (clock s.world) request.body request.headers) s
  ]
