-- ===== src/Auth/Tokens.antt =====
-- `AuthService` of infra/plugins/auth/service.py: signed tokens, bearer headers, scopes and roles.
-- `now` is `int(time.time())`.
use fastapi_infra.Common.{
  ◌++◌, string_eq, ℕ, String, ◌<>◌, Bool, true, false, not, ◌&&◌, ◌||◌, Option, none, some, List,
  [], ◌∷◌, leb, if◌then◌else◌, ◌==◌, contains, keep_if, is_empty,
}
use fastapi_infra.Common.Int.{ℤ, pos, add_int, has_reached}
use fastapi_infra.Common.Dict.{Dict, lookup, insert}
use fastapi_infra.Common.Result.{Result, ok, err, ◌>>=◌}
use fastapi_infra.Common.Text.{is_blank, strip, split}
use fastapi_infra.Auth.Models.{
  Json, Items, bool, int, float, text, list, object, no_item, item, dict_of, names,
  JwtSigningKeyRecord, HashedApiKeyRecord, Principal, AuthError, Toolbox, not_authenticated,
  not_authorized, not_encodable, bad_comparison,
}
use fastapi_infra.Auth.Keys.{
  build_jwt_keyring, resolve_active_jwt_key_id, is_ascii, b64_encode, b64_decode, require,
}
mod Claims
unfoldable pub use Claims.*

pub record AuthService (F : Type 0) : Type 0 where
  pub hashed_api_keys : List (HashedApiKeyRecord F)
  pub jwt_signing_keys : Dict String String
  pub jwt_key_id : Option String
  pub jwt_issuer : Option String
  pub jwt_audience : Option String
  pub access_token_ttl_seconds : ℤ

-- `AuthService.__init__`
unfoldable pub auth_service :
    {F : Type 0}
    → List (HashedApiKeyRecord F)
    → Option String
    → List JwtSigningKeyRecord
    → Option String
    → Option String
    → Option String
    → ℤ
    → Result AuthError (AuthService F)
unfolding build_jwt_keyring resolve_active_jwt_key_id
auth_service hashed_api_keys jwt_secret jwt_signing_keys jwt_key_id jwt_issuer jwt_audience ttl = do
  keyring ← build_jwt_keyring jwt_secret jwt_signing_keys
  active ← resolve_active_jwt_key_id jwt_key_id keyring
  ok record {
    hashed_api_keys = hashed_api_keys;
    jwt_signing_keys = keyring;
    jwt_key_id = active;
    jwt_issuer = jwt_issuer;
    jwt_audience = jwt_audience;
    access_token_ttl_seconds = ttl;
  }

unfoldable pub add_hashed_api_key :
    {F : Type 0} → HashedApiKeyRecord F → AuthService F → AuthService F
add_hashed_api_key r service = record service {
  hashed_api_keys = service.hashed_api_keys ++ r ∷ [];
}

module _ {B F : Type 0} (tools : Toolbox B F) (service : AuthService F) where
  -- `exp` is a number, and it is ahead.
  unfoldable pub is_current : ℕ → Option (Json F) → Bool
  is_current now (some (int z)) = not (has_reached now z)
  is_current now (some (bool true)) = not (leb 1 now)
  is_current now (some (float f)) = not (tools.has_passed now f)
  is_current now _ = false

  -- `signing_input.encode("ascii")` may fail.
  unfoldable pub sign : String → String → Result AuthError String
  unfolding b64_encode
  sign input secret =
      if is_ascii input
      then ok (b64_encode tools (tools.hmac_sha256 (tools.utf8 secret) (tools.utf8 input)))
      else err not_encodable

  unfoldable pub b64url_json : Dict String (Json F) → String
  unfolding b64_encode
  b64url_json d = b64_encode tools (tools.dumps d)

  abbrev as_dict : Option (Json F) → Result AuthError (Dict String (Json F))
  as_dict (some (object fields)) = ok (dict_of fields)
  as_dict _ = err not_authenticated

  unfoldable pub decode_json : String → Result AuthError (Dict String (Json F))
  unfolding b64_decode
  decode_json encoded = elim (b64_decode tools encoded) [
    | none ↦ err not_authenticated
    | some bytes ↦ as_dict (tools.loads bytes)
  ]

  abbrev pub jwt_header : String → Dict String (Json F)
  jwt_header key_id = ("alg", text "HS256") ∷ ("kid", text key_id) ∷ ("typ", text "JWT") ∷ []

  abbrev pub ttl : Option ℤ → ℤ
  ttl none = service.access_token_ttl_seconds
  ttl (some seconds) = seconds

  -- The payload of `issue_jwt`; `claims` is the caller's.
  unfoldable pub jwt_payload :
      ℕ
      → String
      → List String
      → List String
      → Dict String (Json F)
      → Option ℤ
      → Dict String (Json F)
  jwt_payload now subject scopes roles claims expires_in_seconds =
      let payload = insert "sub" (text subject) claims in
      let payload = insert "scopes" (list (names (tools.sorted_set scopes))) payload in
      let payload = insert "roles" (list (names (tools.sorted_set roles))) payload in
      let payload = insert "iat" (int (pos now)) payload in
      let payload = insert "exp" (int (add_int now (ttl expires_in_seconds))) payload in
      insert_some "aud" service.jwt_audience (insert_some "iss" service.jwt_issuer payload)

  abbrev pub chosen_key_id : Option String → Option String
  chosen_key_id none = service.jwt_key_id
  chosen_key_id (some key_id) = if is_blank key_id then service.jwt_key_id else some key_id

  abbrev pub named : Option String → Result AuthError String
  named none = err not_authenticated
  named (some key_id) = ok key_id

  unfoldable pub issue_jwt :
      ℕ
      → String
      → List String
      → List String
      → Dict String (Json F)
      → Option ℤ
      → Option String
      → Result AuthError String
  unfolding jwt_signing_secret jwt_payload b64url_json sign
  issue_jwt now subject scopes roles claims expires_in_seconds key_id = do
    key_id ← named (chosen_key_id key_id)
    secret ← jwt_signing_secret service.jwt_signing_keys (some key_id)
    let payload = jwt_payload now subject scopes roles claims expires_in_seconds
    let input = signing_input (b64url_json (jwt_header key_id)) (b64url_json payload)
    signature ← sign input secret
    ok (input <> "." <> signature)

  -- The tests behind a good signature
  unfoldable pub read_payload : ℕ → Dict String (Json F) → Result AuthError (Principal F)
  unfolding subject_of is_current issuer_fits audience_fits string_set
  read_payload now payload = do
    subject ← subject_of (lookup "sub" payload)
    _ ← require (is_current now (lookup "exp" payload))
    _ ← require (issuer_fits service.jwt_issuer (lookup "iss" payload))
    _ ← require (audience_fits service.jwt_audience (lookup "aud" payload))
    ok record {
      subject = subject;
      scopes = string_set (lookup "scopes" payload);
      roles = string_set (lookup "roles" payload);
      claims = payload;
    }

  unfoldable pub read_parts : ℕ → Parts → Result AuthError (Principal F)
  unfolding decode_json jwt_secret_for_key_id sign compare_texts read_payload
  read_parts now parts = do
    header ← decode_json parts.encoded_header
    _ ← require (is_text "HS256" (lookup "alg" header))
    secret ← jwt_secret_for_key_id service.jwt_signing_keys (lookup "kid" header)
    expected ← sign (signing_input parts.encoded_header parts.encoded_payload) secret
    same ← compare_texts parts.signature expected
    _ ← require same
    payload ← decode_json parts.encoded_payload
    read_payload now payload

  -- A missing token is an empty one.
  unfoldable pub authenticate_jwt : ℕ → String → Result AuthError (Principal F)
  unfolding read_parts split
  authenticate_jwt now token = do
    _ ← require (not (is_empty service.jwt_signing_keys))
    _ ← require (not (is_blank token))
    parts ← three_parts (split 46 token)
    read_parts now parts

  abbrev pub bearer_token : String → String × Option String → Result AuthError String
  bearer_token token (scheme, none) = ok token
  bearer_token token (scheme, some credentials) =
      if tools.lower scheme == "bearer" then ok (strip credentials) else err not_authenticated

  unfoldable pub authenticate_bearer : ℕ → String → Result AuthError (Principal F)
  unfolding authenticate_jwt partition_space strip
  authenticate_bearer now authorization_header = do
    _ ← require (not (is_blank authorization_header))
    let token = strip authorization_header
    token ← bearer_token token (partition_space token)
    authenticate_jwt now token

-- `set(required) - granted`
unfoldable pub require_all : List String → List String → Result AuthError (Unit {0})
require_all granted required =
    if is_empty (keep_if (λ r. not (contains granted r)) required)
    then ok tt
    else err not_authorized

abbrev pub require_scopes : {F : Type 0} → Principal F → List String → Result AuthError (Unit {0})
require_scopes principal required = require_all principal.scopes required

abbrev pub require_roles : {F : Type 0} → Principal F → List String → Result AuthError (Unit {0})
require_roles principal required = require_all principal.roles required
