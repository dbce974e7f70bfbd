-- ===== src/Auth/Tests.antt =====
-- A toolbox of finite tables, and the theorems on tokens at runs over it.
use fastapi_infra.Common.{
  string_eq, ℕ, String, Bool, true, false, not, ◌&&◌, Option, none, some, List, [], ◌∷◌, ◌≡◌, refl,
  if◌then◌else◌, ◌==◌, contains,
}
use fastapi_infra.Common.Int.{pos}
use fastapi_infra.Common.Dict.{Dict, lookup, insert, has_key}
use fastapi_infra.Common.Result.{ok, err}
use fastapi_infra.Common.Text.{split, strip, lacks}
use fastapi_infra.Auth.Models.{
  Json, Fields, no_field, field, object, Principal, Toolbox, not_authenticated,
}
use fastapi_infra.Auth.Keys.{
  rstrip_equals, padded, b64_encode, b64_decode, hash_api_key, verify_parts, verify_api_key_hash,
  first_match, authenticate_api_key, add_key, add_keys, build_jwt_keyring, is_ascii,
}
use fastapi_infra.Auth.Tokens.{
  AuthService, Parts, partition_space, compare_texts, jwt_signing_secret, jwt_secret_for_key_id,
  has_item, audience_matches, texts_of, string_set, subject_of, issuer_fits, audience_fits,
  is_current, sign, b64url_json, decode_json, jwt_payload, jwt_header, issue_jwt, read_payload,
  read_parts, authenticate_jwt, authenticate_bearer, require_all,
}
use fastapi_infra.Auth.Dependencies.{principal_of, require_principal, dependency, scopes_dependency}
use fastapi_infra.Auth.Accepted
use fastapi_infra.Auth.Accepted.{IsSigned, IsValid}
use fastapi_infra.Auth.Issued
use fastapi_infra.Auth.Issued.{IsEncoding, IsReadBack}
use fastapi_infra.Auth.Rights

abbrev service : AuthService ℕ
service = record {
  hashed_api_keys = [];
  jwt_signing_keys = ("k1", "secret") ∷ [];
  jwt_key_id = some "k1";
  jwt_issuer = some "me";
  jwt_audience = none;
  access_token_ttl_seconds = pos 60;
}

abbrev fields_of : Dict String (Json ℕ) → Fields ℕ
fields_of [] = no_field
fields_of ((k, v) ∷ more) = field k v (fields_of more)

abbrev same_text : String → String
same_text s = s

abbrev pick : Bool → Bool → String
pick true _ = "H"
pick false true = "B"
pick false false = "S"

abbrev letter : String → String
letter b = pick (b == "HEAD") (b == "BODY")

abbrev unletter : String → Option String
unletter s = if s == "H===" then some "HEAD" else (if s == "B===" then some "BODY" else none)

-- The parts of the toolbox that need no payload
abbrev blind : Toolbox String ℕ
blind = record {
  utf8 = same_text;
  pbkdf2_hmac = λ key salt _. key;
  hmac_sha256 = λ key message. key;
  compare_digest = λ a b. a == b;
  b64encode = letter;
  b64decode = unletter;
  dumps = λ d. if has_key "alg" d then "HEAD" else "BODY";
  loads = λ _. none;
  int_of = λ _. some (pos 260000);
  str = λ _. "260000";
  sorted_set = λ xs. xs;
  has_passed = λ now f. true;
  lower = same_text;
}

abbrev scopes : List String
scopes = "read" ∷ []

abbrev the_payload : Dict String (Json ℕ)
the_payload = jwt_payload blind service 100 "ann" scopes [] [] none

abbrev header : Dict String (Json ℕ)
header = jwt_header blind service "k1"

abbrev loaded : String → Option (Json ℕ)
loaded b =
    if b == "HEAD" then some (object (fields_of header)) else some (object (fields_of the_payload))

abbrev tools : Toolbox String ℕ
tools = record blind { loads = loaded }

program : Unit {0}
unfolding string_eq lookup insert split strip rstrip_equals padded b64_encode b64_decode
    hash_api_key verify_parts verify_api_key_hash first_match authenticate_api_key add_key add_keys
    build_jwt_keyring partition_space compare_texts jwt_signing_secret jwt_secret_for_key_id
    has_item audience_matches texts_of string_set subject_of issuer_fits audience_fits is_current
    sign b64url_json decode_json jwt_payload issue_jwt read_payload read_parts authenticate_jwt
    authenticate_bearer require_all principal_of require_principal dependency scopes_dependency
program = tt

pick_lem :
    (a b : Bool)
    → (lacks 46 (rstrip_equals (pick a b)) ≡ true) × (is_ascii (rstrip_equals (pick a b)) ≡ true)
unfolding program
pick_lem true b = (refl, refl)
pick_lem false true = (refl, refl)
pick_lem false false = (refl, refl)

encoding : IsEncoding tools service
unfolding b64_encode
encoding = record {
  undotted = λ b. (pick_lem (b == "HEAD") (b == "BODY")).0;
  encodable = λ b. (pick_lem (b == "HEAD") (b == "BODY")).1;
}

header_back : IsReadBack tools service header
unfolding program
header_back = record { found = header; is_read = refl; same = λ k. refl }

payload_back : IsReadBack tools service (jwt_payload tools service 100 "ann" scopes [] [] none)
unfolding program
payload_back = record { found = the_payload; is_read = refl; same = λ k. refl }

known : lookup "k1" service.jwt_signing_keys ≡ some "secret"
unfolding program
known = refl

authenticate_jwt-issue_jwt_example :
    (token : String) × (p : Principal ℕ) × (issue_jwt tools service 100 "ann" scopes [] [] none none
      ≡ ok token)
    × (authenticate_jwt tools service 159 token ≡ ok p)
    × (p.subject ≡ "ann")
    × (p.scopes ≡ scopes)
    × (p.roles ≡ [])
    × ((c : String)
        → lookup c p.claims ≡ lookup c (jwt_payload tools service 100 "ann" scopes [] [] none))
authenticate_jwt-issue_jwt_example =
    Issued.authenticate_jwt-issue_jwt tools service 100 "ann" scopes [] [] none encoding 159 none
      "k1" "secret" refl known header_back payload_back refl refl refl

abbrev ann : Principal ℕ
ann = record { subject = "ann"; scopes = scopes; roles = []; claims = the_payload }

accepted : authenticate_jwt tools service 159 "H.B.S" ≡ ok ann
unfolding program
accepted = refl

-- Its time is over.
expired : authenticate_jwt tools service 160 "H.B.S" ≡ err not_authenticated
unfolding program
expired = refl

authenticate_jwt-IsSigned_example :
    (parts : Parts) × (payload : Dict String (Json ℕ)) × (split 46 "H.B.S"
      ≡ parts.encoded_header ∷ parts.encoded_payload ∷ parts.signature ∷ [])
    × IsSigned tools service parts payload
    × IsValid tools service 159 payload ann
authenticate_jwt-IsSigned_example =
    Accepted.authenticate_jwt-IsSigned tools service 159 "H.B.S" ann accepted

let_in : scopes_dependency tools scopes (some service) 159 "bearer H.B.S" none ≡ ok ann
unfolding program
let_in = refl

scopes_dependency-Granted_example :
    (require_principal tools (some service) 159 "bearer H.B.S" none ≡ ok ann)
    × ((r : String) → (contains scopes r && not (contains scopes r)) ≡ false)
scopes_dependency-Granted_example =
    Rights.scopes_dependency-Granted tools scopes (some service) 159 "bearer H.B.S" none ann let_in
