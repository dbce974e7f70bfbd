-- ===== src/Auth/Keys.antt =====
-- infra/plugins/auth/service.py: hashed API keys, the ring of signing keys, and the encodings.
use fastapi_infra.Common.{
  string_eq, ℕ, zero, suc, ◌-◌, ◌%◌, String, ◌<>◌, Bool, true, false, not, ◌&&◌, Option, none, some,
  List, [], ◌∷◌, ltb, if◌then◌else◌, ◌==◌,
}
use fastapi_infra.Common.Int.{pos_part, is_nonpos}
use fastapi_infra.Common.Dict.{Dict, insert, has_key}
use fastapi_infra.Common.Result.{Result, ok, err, ◌>>=◌}
use fastapi_infra.Common.Text.{is_blank, all_codes, split}
use fastapi_infra.Auth.Models.{
  HashedApiKeyRecord, JwtSigningKeyRecord, Principal, AuthError, Toolbox, not_authenticated,
  duplicate_key, unknown_key,
}
use Prim.Native.String.{count}

abbrev pub is_ascii : String → Bool
is_ascii = all_codes λ c. ltb c 128

-- `s.rstrip("=")`
unfoldable pub rstrip_equals : String → String
rstrip_equals String.[] = String.[]
rstrip_equals (String.◌∷◌ c s) =
    let rest = rstrip_equals s in
    if is_blank rest && (String.◌∷◌ c String.[] == "=") then String.[] else String.◌∷◌ c rest

-- `"=" * n`
abbrev equals_signs : ℕ → String
equals_signs zero = String.[]
equals_signs (suc n) = "=" <> equals_signs n

-- `encoded + "=" * (-len(encoded) % 4)`
unfoldable pub padded : String → String
padded s = s <> equals_signs ((4 - count s % 4) % 4)

abbrev pub api_key_hash_algorithm : String
api_key_hash_algorithm = "pbkdf2_sha256"

abbrev pub api_key_hash_iterations : ℕ
api_key_hash_iterations = 260000

-- `if not b: raise AuthenticationError()`
abbrev pub require : Bool → Result AuthError (Unit {0})
require true = ok tt
require false = err not_authenticated

module _ {B F : Type 0} (tools : Toolbox B F) where
  unfoldable pub b64_encode : B → String
  unfolding rstrip_equals
  b64_encode b = rstrip_equals (tools.b64encode b)

  -- Text that is not ASCII cannot be encoded.
  unfoldable pub b64_decode : String → Option B
  unfolding padded
  b64_decode s = if is_ascii s then tools.b64decode (padded s) else none

  -- `salt` is the one of `_salt_bytes`.
  unfoldable pub hash_api_key : String → B → String
  unfolding b64_encode
  hash_api_key api_key salt =
      let digest = tools.pbkdf2_hmac (tools.utf8 api_key) salt api_key_hash_iterations in
      api_key_hash_algorithm
      <> "$"
      <> tools.str api_key_hash_iterations
      <> "$"
      <> b64_encode salt
      <> "$"
      <> b64_encode digest

  abbrev matches : String → Option B → Option B → ℕ → Bool
  matches api_key (some salt) (some expected) iterations =
      tools.compare_digest (tools.pbkdf2_hmac (tools.utf8 api_key) salt iterations) expected
  matches api_key _ _ iterations = false

  unfoldable pub verify_parts : String → List String → Bool
  unfolding b64_decode
  verify_parts api_key (algorithm ∷ iterations ∷ salt ∷ digest ∷ []) =
      elim (tools.int_of iterations) [
        | none ↦ false
        | some n ↦
            algorithm == api_key_hash_algorithm
            && not (is_nonpos n)
            && matches api_key (b64_decode salt) (b64_decode digest) (pos_part n)
      ]
  verify_parts api_key _ = false

  unfoldable pub verify_api_key_hash : String → String → Bool
  unfolding verify_parts split
  verify_api_key_hash api_key encoded_hash = verify_parts api_key (split 36 encoded_hash)

  -- A set of a record is copied.
  abbrev pub principal_from_api_key_record : HashedApiKeyRecord F → Principal F
  principal_from_api_key_record r = record {
    subject = r.subject;
    scopes = r.scopes;
    roles = r.roles;
    claims = r.claims;
  }

  unfoldable pub first_match : String → List (HashedApiKeyRecord F) → Result AuthError (Principal F)
  unfolding verify_api_key_hash
  first_match api_key [] = err not_authenticated
  first_match api_key (r ∷ more) =
      let rest = first_match api_key more in
      if verify_api_key_hash api_key r.key_hash then ok (principal_from_api_key_record r) else rest

  -- `if not api_key`
  unfoldable pub authenticate_api_key :
      List (HashedApiKeyRecord F) → Option String → Result AuthError (Principal F)
  unfolding first_match
  authenticate_api_key hashed_api_keys none = err not_authenticated
  authenticate_api_key hashed_api_keys (some api_key) =
      if is_blank api_key then err not_authenticated else first_match api_key hashed_api_keys

-- `x or default`
abbrev pub or_default : String → Option String → String
or_default default none = default
or_default default (some x) = if is_blank x then default else x

abbrev add_secret : Option String → Dict String String
add_secret none = []
add_secret (some secret) = if is_blank secret then [] else ("default", secret) ∷ []

unfoldable pub add_key :
    JwtSigningKeyRecord → Dict String String → Result AuthError (Dict String String)
add_key r keyring =
    let key_id = or_default "default" r.key_id in
    if is_blank r.secret
    then err not_authenticated
    else (if has_key key_id keyring
        then err (duplicate_key key_id)
        else ok (insert key_id r.secret keyring))

unfoldable pub add_keys :
    List JwtSigningKeyRecord → Dict String String → Result AuthError (Dict String String)
unfolding add_key
add_keys [] keyring = ok keyring
add_keys (r ∷ more) keyring = add_key r keyring >>= add_keys more

unfoldable pub build_jwt_keyring :
    Option String → List JwtSigningKeyRecord → Result AuthError (Dict String String)
unfolding add_keys
build_jwt_keyring jwt_secret records = add_keys records (add_secret jwt_secret)

unfoldable pub resolve_active_jwt_key_id :
    Option String → Dict String String → Result AuthError (Option String)
resolve_active_jwt_key_id jwt_key_id [] = ok none
resolve_active_jwt_key_id none ((first, _) ∷ _) = ok (some first)
resolve_active_jwt_key_id (some key_id) (one ∷ more) =
    if has_key key_id (one ∷ more) then ok (some key_id) else err (unknown_key key_id)
