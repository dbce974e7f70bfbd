-- ===== src/Auth/Tokens/Claims.antt =====
-- What infra/plugins/auth/service.py reads in a token: its parts, the key of its header and the claims
-- of its payload.
use fastapi_infra.Common.{
  string_eq, String, ◌<>◌, Bool, true, false, ◌&&◌, ◌||◌, Option, none, some, List, [], ◌∷◌,
  if◌then◌else◌, ◌==◌,
}
use fastapi_infra.Common.Dict.{Dict, lookup, insert}
use fastapi_infra.Common.Result.{Result, ok, err}
use fastapi_infra.Common.Text.{is_blank}
use fastapi_infra.Auth.Models.{
  Json, Items, text, list, no_item, item, AuthError, not_authenticated, bad_comparison,
}
use fastapi_infra.Auth.Keys.{is_ascii}

-- The parts of a token
pub record Parts : Type 0 where
  pub encoded_header : String
  pub encoded_payload : String
  pub signature : String

abbrev pub signing_input : String → String → String
signing_input encoded_header encoded_payload = encoded_header <> "." <> encoded_payload

abbrev pub three_parts : List String → Result AuthError Parts
three_parts (h ∷ p ∷ s ∷ []) = ok record { encoded_header = h; encoded_payload = p; signature = s }
three_parts _ = err not_authenticated

-- `scheme, separator, credentials = token.partition(" ")`; `none` is an empty separator.
unfoldable pub partition_space : String → String × Option String
partition_space String.[] = (String.[], none)
partition_space (String.◌∷◌ c s) =
    let (before, after) = partition_space s in
    if String.◌∷◌ c String.[] == " " then (String.[], some s) else (String.◌∷◌ c before, after)

-- `hmac.compare_digest` of texts, which takes ASCII only
unfoldable pub compare_texts : String → String → Result AuthError Bool
compare_texts a b = if is_ascii a && is_ascii b then ok (a == b) else err bad_comparison

abbrev pub secret_of : Option String → Result AuthError String
secret_of none = err not_authenticated
secret_of (some secret) = ok secret

-- `_jwt_signing_secret`
unfoldable pub jwt_signing_secret : Dict String String → Option String → Result AuthError String
jwt_signing_secret keyring none = err not_authenticated
jwt_signing_secret keyring (some key_id) = secret_of (lookup key_id keyring)

abbrev pub the_only_secret : Dict String String → Result AuthError String
the_only_secret ((_, secret) ∷ []) = ok secret
the_only_secret _ = err not_authenticated

module _ {F : Type 0} where
  -- `_jwt_secret_for_header`, by the header's `kid`
  unfoldable pub jwt_secret_for_key_id :
      Dict String String → Option (Json F) → Result AuthError String
  unfolding jwt_signing_secret
  jwt_secret_for_key_id keyring (some (text key_id)) =
      if is_blank key_id then the_only_secret keyring else jwt_signing_secret keyring (some key_id)
  jwt_secret_for_key_id keyring _ = the_only_secret keyring

  -- `value == t`
  abbrev pub is_text : String → Option (Json F) → Bool
  is_text t (some (text s)) = s == t
  is_text t _ = false

  unfoldable pub has_item : String → Items F → Bool
  has_item t no_item = false
  has_item t (item j more) = is_text t (some j) || has_item t more

  -- `_audience_matches`
  unfoldable pub audience_matches : String → Option (Json F) → Bool
  unfolding has_item
  audience_matches audience (some (text s)) = s == audience
  audience_matches audience (some (list items)) = has_item audience items
  audience_matches audience _ = false

  unfoldable pub texts_of : Items F → List String
  texts_of no_item = []
  texts_of (item (text s) more) = s ∷ texts_of more
  texts_of (item _ more) = texts_of more

  -- `_string_set`
  unfoldable pub string_set : Option (Json F) → List String
  unfolding texts_of
  string_set (some (text s)) = s ∷ []
  string_set (some (list items)) = texts_of items
  string_set _ = []

  -- `isinstance(subject, str) and subject`
  unfoldable pub subject_of : Option (Json F) → Result AuthError String
  subject_of (some (text s)) = if is_blank s then err not_authenticated else ok s
  subject_of _ = err not_authenticated

  -- What a service that asks for an issuer or an audience tests
  unfoldable pub issuer_fits : Option String → Option (Json F) → Bool
  issuer_fits none claim = true
  issuer_fits (some issuer) claim = is_text issuer claim

  unfoldable pub audience_fits : Option String → Option (Json F) → Bool
  unfolding audience_matches
  audience_fits none claim = true
  audience_fits (some audience) claim = audience_matches audience claim

  abbrev pub insert_some : String → Option String → Dict String (Json F) → Dict String (Json F)
  insert_some k none d = d
  insert_some k (some t) d = insert k (text t) d
