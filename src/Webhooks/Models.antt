-- ===== src/Webhooks/Models.antt =====
-- Events, providers and stores of infra/plugins/webhooks: models.py, providers.py and store.py. `B` is
-- the type of bodies, in bytes, and `loads` is `json.loads` of their UTF-8.
use fastapi_infra.Common.{
  string_eq, pair_eq, ℕ, String, ◌<>◌, Bool, true, false, Option, none, some, List, ◌∷◌,
  if◌then◌else◌, contains,
}
use fastapi_infra.Common.Dict.{Dict, lookup, insert}
use fastapi_infra.Common.Json.{Json, text, object, dict_of}
use fastapi_infra.Common.Result.{Result, ok, err, ◌>>=◌}
use fastapi_infra.Common.Text.{strip, is_blank}

-- `provider_error` is a WebhookProviderError; `not_comparable` comes out of `hmac`.
pub data WebhookError : Type 0 where
  empty_provider not_comparable : WebhookError
  unknown_provider other : String → WebhookError
  provider_error : String → String → WebhookError

pub record WebhookEvent (F : Type 0) : Type 0 where
  pub id : String
  pub provider : String
  pub type_name : String
  pub payload : Dict String (Json F)
  pub headers : Dict String String
  pub received_at : ℕ

-- What a route needs of a provider; `now` is the clock.
pub record Provider (B F : Type 0) : Type 0 where
  pub name : String
  pub verify : ℕ → B → Dict String String → Result WebhookError Bool
  pub build_event : ℕ → B → Dict String String → Result WebhookError (WebhookEvent F)

unfoldable pub normalize_webhook_provider_name :
    (String → String) → String → Result WebhookError String
unfolding strip
normalize_webhook_provider_name lower provider =
    let normalized = lower (strip provider) in
    if is_blank normalized then err empty_provider else ok normalized

abbrev as_object : {F : Type 0} → Option (Json F) → Result WebhookError (Dict String (Json F))
as_object none = err (provider_error "bad_json" "webhook payload must be JSON")
as_object (some (object fields)) = ok (dict_of fields)
as_object (some _) = err (provider_error "bad_json" "webhook payload must be a JSON object")

abbrev missing : String → String → WebhookError
missing name field_name =
    provider_error "invalid_event" (name <> " webhook payload missing " <> field_name)

unfoldable pub required_text :
    {F : Type 0} → String → String → Option (Json F) → Result WebhookError String
required_text name field_name (some (text value)) =
    if is_blank value then err (missing name field_name) else ok value
required_text name field_name _ = err (missing name field_name)

abbrev verified_by :
    {B : Type 0}
    → Option (ℕ → B → Dict String String → Result WebhookError Bool)
    → ℕ
    → B
    → Dict String String
    → Result WebhookError Bool
verified_by none now body headers = ok true
verified_by (some verifier) now body headers = verifier now body headers

module _ {B F : Type 0} where
  unfoldable pub register :
      (String → String)
      → Provider B F
      → Dict String (Provider B F)
      → Result WebhookError (Dict String (Provider B F))
  unfolding normalize_webhook_provider_name
  register lower provider registry = do
    name ← normalize_webhook_provider_name lower provider.name
    ok (insert name provider registry)

  abbrev pub known : String → Option (Provider B F) → Result WebhookError (Provider B F)
  known name none = err (unknown_provider name)
  known name (some provider) = ok provider

  unfoldable pub get :
      (String → String) → String → Dict String (Provider B F) → Result WebhookError (Provider B F)
  unfolding normalize_webhook_provider_name
  get lower name registry = do
    provider_name ← normalize_webhook_provider_name lower name
    known provider_name (lookup provider_name registry)

  -- `JsonWebhookProvider.build_event`
  unfoldable pub build_event :
      (B → Option (Json F))
      → String
      → ℕ
      → B
      → Dict String String
      → Result WebhookError (WebhookEvent F)
  unfolding required_text
  build_event loads name now body headers = do
    decoded ← as_object (loads body)
    id ← required_text name "id" (lookup "id" decoded)
    type_name ← required_text name "type" (lookup "type" decoded)
    ok record {
      id = id;
      provider = name;
      type_name = type_name;
      payload = decoded;
      headers = headers;
      received_at = now;
    }

  -- `JsonWebhookProvider`
  unfoldable pub json_webhook_provider :
      (String → String)
      → (B → Option (Json F))
      → String
      → Option (ℕ → B → Dict String String → Result WebhookError Bool)
      → Result WebhookError (Provider B F)
  unfolding normalize_webhook_provider_name build_event
  json_webhook_provider lower loads name verifier = do
    normalized ← normalize_webhook_provider_name lower name
    ok record {
      name = normalized;
      verify = verified_by verifier;
      build_event = build_event loads normalized;
    }

-- `InMemoryWebhookStore.record_once` on its set of keys
unfoldable pub record_once :
    {F : Type 0} → WebhookEvent F → List (String × String) → Bool × List (String × String)
record_once event event_keys =
    let key : String × String = (event.provider, event.id) in
    if contains event_keys key then (false, event_keys) else (true, key ∷ event_keys)

-- `SqlWebhookStore.record_once` over the database's answers to the two statements. What counts as a
-- duplicate key is told by the text of the exception.
pub record Database (W : Type 0) : Type 0 where
  pub create_table : W → Result String (Unit {0}) × W
  pub insert_event : String → String → W → Result String (Unit {0}) × W
  pub is_duplicate_key_error : String → Bool

pub record SqlStore (W : Type 0) : Type 0 where
  pub table_ready : Bool
  pub world : W

module _ {W : Type 0} (database : Database W) where
  unfoldable pub ensure_table : SqlStore W → Result String (Unit {0}) × SqlStore W
  ensure_table s = elim s.table_ready [
    | true ↦ (ok tt, s)
    | false ↦
        let (r, w) = database.create_table s.world in
        elim r [
          | err e ↦ (err e, record s { world = w })
          | ok _ ↦ (ok tt, record { table_ready = true; world = w })
        ]
  ]

  abbrev inserted : Result String (Unit {0}) → Result String Bool
  inserted (ok _) = ok true
  inserted (err e) = if database.is_duplicate_key_error e then ok false else err e

  unfoldable pub record_once_sql :
      {F : Type 0} → WebhookEvent F → SqlStore W → Result String Bool × SqlStore W
  unfolding ensure_table
  record_once_sql event s =
      let (r, s) = ensure_table s in
      elim r [
        | err e ↦ (err e, s)
        | ok _ ↦
            let (r, w) = database.insert_event event.provider event.id s.world in
            (inserted r, record s { world = w })
      ]
