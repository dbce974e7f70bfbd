-- ===== src/Webhooks/Once.antt =====
-- How often the route of infra/plugins/webhooks/routes.py hands an event to the handlers.
use fastapi_infra.Common.{
  string_eq, pair_eq, ℕ, String, Bool, true, false, ◌≡◌, arith, contains, Bool-cases, inl, inr,
}
use fastapi_infra.Common.Result.{Result, ok, err, Result-cases}
use fastapi_infra.Webhooks.Models.{WebhookEvent, WebhookError, Provider, get, record_once}
use fastapi_infra.Webhooks.Route.{
  WebhookDispatcher, Route, Request, duplicate, deliver, accept, checked, receive_webhook,
}

abbrev pub key_of : {F : Type 0} → WebhookEvent F → String × String
key_of event = (event.provider, event.id)

module _ {W B F : Type 0} (lower : String → String) (clock : W → ℕ)
    (d : WebhookDispatcher W B F) where
  -- `t` is reached from `s` by requests.
  pub data Later : Route W → Route W → Type 0 where
    idle : (s : Route W) → Later s s
    received :
        {s t : Route W} (request : Request B)
        → Later s t
        → Later s (receive_webhook lower clock d request t).1

  deliver-Recorded :
      (event : WebhookEvent F) (s : Route W)
      → contains (deliver lower clock d event s).1.event_keys (key_of event) ≡ true
  unfolding deliver record_once
  deliver-Recorded event s = elim (Bool-cases (contains s.event_keys (key_of event))) [
    | inl seen ↦ ground (arith, seen)
    | inr new ↦ ground (arith, new)
  ]

  deliver-keeps :
      (event : WebhookEvent F) (s : Route W) (k : String × String)
      → contains s.event_keys k ≡ true
      → contains (deliver lower clock d event s).1.event_keys k ≡ true
  unfolding deliver record_once
  deliver-keeps event s k h = elim (Bool-cases (contains s.event_keys (key_of event))) [
    | inl seen ↦ ground (arith, seen, h)
    | inr new ↦ ground (arith, new, h)
  ]

  accept_keeps :
      (r : Result WebhookError (WebhookEvent F)) (s : Route W) (k : String × String)
      → contains s.event_keys k ≡ true
      → contains (accept lower clock d r s).1.event_keys k ≡ true
  unfolding accept
  accept_keeps (ok event) s k h = deliver-keeps event s k h
  accept_keeps (err e) s k h = h

  checked_keeps :
      (p : Provider B F) (request : Request B) (r : Result WebhookError Bool) (s : Route W)
      (k : String × String)
      → contains s.event_keys k ≡ true
      → contains (checked lower clock d p request r s).1.event_keys k ≡ true
  unfolding checked
  checked_keeps p request (err e) s k h = h
  checked_keeps p request (ok false) s k h = h
  checked_keeps p request (ok true) s k h =
      accept_keeps (p.build_event (clock s.world) request.body request.headers) s k h

  receive_keeps :
      (request : Request B) (s : Route W) (k : String × String)
      → contains s.event_keys k ≡ true
      → contains (receive_webhook lower clock d request s).1.event_keys k ≡ true
  unfolding receive_webhook
  receive_keeps request s k h =
      elim (Result-cases (get lower request.provider d.provider_registry)) [
        | inr (e, unknown) ↦ ground (arith, unknown, h)
        | inl (p, is_known) ↦
            let kept =
              checked_keeps p request (p.verify (clock s.world) request.body request.headers) s k
                h in
            ground (arith, is_known, kept)
      ]

  Later-keeps :
      {s t : Route W}
      → Later s t
      → (k : String × String) → contains s.event_keys k ≡ true
      → contains t.event_keys k ≡ true
  Later-keeps (idle s) k h = h
  Later-keeps (received request later) k h = receive_keeps request _ k (Later-keeps later k h)

  -- A request that the provider verifies and reads
  pub record Reads (request : Request B) (s : Route W) (event : WebhookEvent F) : Type 0 where
    pub provider : Provider B F
    pub known : get lower request.provider d.provider_registry ≡ ok provider
    pub verified : provider.verify (clock s.world) request.body request.headers ≡ ok true
    pub built : provider.build_event (clock s.world) request.body request.headers ≡ ok event

  receive-deliver :
      (request : Request B) (s : Route W) (event : WebhookEvent F)
      → Reads request s event
      → receive_webhook lower clock d request s ≡ deliver lower clock d event s
  unfolding receive_webhook checked accept
  receive-deliver request s event r = ground (arith, r.known, r.verified, r.built)

  deliver-duplicate :
      (event : WebhookEvent F) (s : Route W)
      → contains s.event_keys (key_of event) ≡ true
      → deliver lower clock d event s ≡ (ok (duplicate event.id), s)
  unfolding deliver record_once
  deliver-duplicate event s h = ground (arith, h)

  -- Once a verified request has brought an event, then after any further requests, a verified request
  -- with an event of the same provider and the same id is answered as a duplicate and changes
  -- nothing: no handler runs. That holds too where a handler raised at the first request.
  pub receive_webhook-Once :
      (first second : Request B) (s t : Route W) (event again : WebhookEvent F)
      → Reads first s event
      → Later (receive_webhook lower clock d first s).1 t
      → Reads second t again
      → key_of again ≡ key_of event
      → receive_webhook lower clock d second t ≡ (ok (duplicate again.id), t)
  receive_webhook-Once first second s t event again before later now same =
      let recorded : contains (receive_webhook lower clock d first s).1.event_keys (key_of event)
          ≡ true =
        ground (arith, receive-deliver first s event before, deliver-Recorded event s) in
      let there : contains t.event_keys (key_of again) ≡ true =
        rw same (Later-keeps later (key_of event) recorded) in
      ground (arith, receive-deliver second t again now, deliver-duplicate again t there)
