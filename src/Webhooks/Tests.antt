-- ===== src/Webhooks/Tests.antt =====
-- A route with one provider and one handler, and the theorems on webhooks at runs over it.
use fastapi_infra.Common.{
  string_eq, pair_eq, ℕ, suc, String, ◌<>◌, false, Option, none, some, [], ◌∷◌, ◌≡◌, refl,
  if◌then◌else◌, ◌==◌,
}
use fastapi_infra.Common.Dict.{lookup, insert}
use fastapi_infra.Common.Int.{pos}
use fastapi_infra.Common.Json.{Json, text, object, no_field, field}
use fastapi_infra.Common.Result.{ok, err}
use fastapi_infra.Common.Text.{strip, split, partition}
use fastapi_infra.Webhooks.Models.{
  WebhookEvent, Provider, empty_provider, other, normalize_webhook_provider_name, get, register,
  required_text, build_event, json_webhook_provider, record_once,
}
use fastapi_infra.Webhooks.Signature.{
  Crypto, read_part, read_parts, check_signatures, matches_one, verify_webhook_signature,
  stripe_signature_verifier,
}
use fastapi_infra.Webhooks.Route.{
  WebhookDispatcher, Route, Request, Handler, duplicate, dispatch, deliver, accept, checked,
  receive_webhook,
}
use fastapi_infra.Webhooks.Once.{Later, idle, received, Reads}
use fastapi_infra.Webhooks.Once

abbrev same_text : String → String
same_text s = s

abbrev crypto : Crypto String
crypto = record {
  int_of = λ s. if s == "100" then some (pos 100) else none;
  str = λ _. "100";
  dated = λ t payload. t <> "." <> payload;
  hexdigest = λ secret payload. "f00d";
}

abbrev loads : String → Option (Json ℕ)
loads body =
    if body == "paid"
    then some (object (field "id" (text "e1") (field "type" (text "paid") no_field)))
    else none

abbrev provider : Provider String ℕ
provider = record {
  name = "stripe";
  verify = stripe_signature_verifier crypto "secret" "stripe-signature" (pos 300);
  build_event = build_event loads "stripe";
}

-- The handler counts its calls, and raises at each.
abbrev counts : Handler ℕ ℕ
counts _ _ w = (err (other "down"), suc w)

abbrev dispatcher : WebhookDispatcher ℕ String ℕ
dispatcher = record {
  handlers = counts ∷ [];
  durable_store_required = false;
  provider_registry = ("stripe", provider) ∷ [];
  required_providers = [];
}

abbrev clock : ℕ → ℕ
clock w = 150

abbrev request : Request String
request = record {
  provider = "stripe";
  body = "paid";
  headers = ("stripe-signature", "t=100,v0=x,v1=bad,v1=f00d") ∷ [];
}

abbrev start : Route ℕ
start = record { event_keys = []; world = 0 }

abbrev first : Route ℕ
first = record { event_keys = ("stripe", "e1") ∷ []; world = 1 }

abbrev event : WebhookEvent ℕ
event = record {
  id = "e1";
  provider = "stripe";
  type_name = "paid";
  payload = ("id", text "e1") ∷ ("type", text "paid") ∷ [];
  headers = request.headers;
  received_at = 150;
}

program : Unit {0}
unfolding string_eq pair_eq lookup insert strip split partition normalize_webhook_provider_name get
    register required_text build_event json_webhook_provider record_once read_part read_parts
    check_signatures matches_one verify_webhook_signature stripe_signature_verifier dispatch deliver
    accept checked receive_webhook
program = tt

-- The handler raises, and yet the event counts as seen.
raised : receive_webhook same_text clock dispatcher request start ≡ (err (other "down"), first)
unfolding program
raised = refl

-- A name of white space alone raises in place of an answer.
blank :
    receive_webhook same_text clock dispatcher (record request { provider = " " }) start
    ≡ (err empty_provider, start)
unfolding program
blank = refl

reads : (s : Route ℕ) → Reads same_text clock dispatcher request s event
unfolding program
reads s = record { provider = provider; known = refl; verified = refl; built = refl }

receive_webhook-Once_example :
    let next = (receive_webhook same_text clock dispatcher request start).1 in
    receive_webhook same_text clock dispatcher request next ≡ (ok (duplicate "e1"), next)
receive_webhook-Once_example =
    Once.receive_webhook-Once same_text clock dispatcher request request start
      (receive_webhook same_text clock dispatcher request start).1 event event (reads start)
      (idle (receive_webhook same_text clock dispatcher request start).1)
      (reads (receive_webhook same_text clock dispatcher request start).1) refl
