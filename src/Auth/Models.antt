-- ===== src/Auth/Models.antt =====
-- The records of infra/plugins/auth/models.py, and what service.py beside it takes from
-- Python's library: `hashlib`, `hmac`, `base64` and `json`. A set of names is the list of its members.
use fastapi_infra.Common.{ℕ, String, Bool, Option, List, [], ◌∷◌}
use fastapi_infra.Common.Int.{ℤ}
use fastapi_infra.Common.Dict.{Dict}
pub use fastapi_infra.Common.Json.{
  Json, Items, Fields, null, bool, int, float, text, list, object, no_item, item, no_field, field,
  dict_of,
}

module _ {F : Type 0} where
  abbrev pub names : List String → Items F
  names [] = no_item
  names (x ∷ xs) = item (text x) (names xs)

pub record Principal (F : Type 0) : Type 0 where
  pub subject : String
  pub scopes : List String
  pub roles : List String
  pub claims : Dict String (Json F)

pub record HashedApiKeyRecord (F : Type 0) : Type 0 where
  pub key_id : Option String
  pub subject : String
  pub scopes : List String
  pub roles : List String
  pub claims : Dict String (Json F)
  pub key_hash : String

pub record JwtSigningKeyRecord : Type 0 where
  pub key_id : Option String
  pub secret : String

-- `not_authenticated` and `not_authorized` are the two errors of infra/exceptions/base.py that the
-- service raises on purpose; the last two come out of Python's library.
pub data AuthError : Type 0 where
  not_authenticated not_authorized : AuthError
  duplicate_key unknown_key : String → AuthError
  not_encodable bad_comparison : AuthError

pub record Toolbox (B F : Type 0) : Type 0 where
  -- `str.encode("utf-8")`
  pub utf8 : String → B
  -- `hashlib.pbkdf2_hmac` with sha256: key, salt and iterations
  pub pbkdf2_hmac : B → B → ℕ → B
  -- `hmac.new(key, message, sha256).digest()`
  pub hmac_sha256 : B → B → B
  -- `hmac.compare_digest` of bytes
  pub compare_digest : B → B → Bool
  -- `urlsafe_b64encode` to text, and its inverse on ASCII text, which may refuse
  pub b64encode : B → String
  pub b64decode : String → Option B
  -- `json.dumps` with sorted keys, to UTF-8, and `json.loads`
  pub dumps : Dict String (Json F) → B
  pub loads : B → Option (Json F)
  -- `int(s)`, `str(n)` and `sorted(set(xs))`
  pub int_of : String → Option ℤ
  pub str : ℕ → String
  pub sorted_set : List String → List String
  -- `now >= f`
  pub has_passed : ℕ → F → Bool
  pub lower : String → String
