-- ===== src/Auth/Accepted.antt =====
-- What a token that infra/plugins/auth/service.py accepts is.
use fastapi_infra.Common.{
  string_eq, ℕ, String, Bool, true, false, not, Option, none, some, List, [], ◌∷◌, ◌≡◌, refl, arith,
  is_empty, Bool-cases, inl, inr,
}
use fastapi_infra.Common.Dict.{Dict, lookup}
use fastapi_infra.Common.Result.{ok, >>=-eq-ok}
use fastapi_infra.Common.Text.{is_blank, split}
use fastapi_infra.Auth.Models.{Json, null, bool, int, float, text, list, object, Principal, Toolbox}
use fastapi_infra.Auth.Keys.{require}
use fastapi_infra.Auth.Tokens.{
  AuthService, Parts, is_text, string_set, subject_of, is_current, issuer_fits, audience_fits, sign,
  decode_json, signing_input, three_parts, jwt_signing_secret, secret_of, the_only_secret,
  jwt_secret_for_key_id, compare_texts, read_payload, read_parts, authenticate_jwt,
}

require-eq-ok : (b : Bool) {x : Unit {0}} → require b ≡ ok x → b ≡ true
require-eq-ok true h = refl
require-eq-ok false h = absurd (ground arith)

three_parts-eq-ok :
    (xs : List String) {parts : Parts}
    → three_parts xs ≡ ok parts
    → xs ≡ parts.encoded_header ∷ parts.encoded_payload ∷ parts.signature ∷ []
three_parts-eq-ok [] h = absurd (ground arith)
three_parts-eq-ok (a ∷ []) h = absurd (ground arith)
three_parts-eq-ok (a ∷ b ∷ []) h = absurd (ground arith)
three_parts-eq-ok (a ∷ b ∷ c ∷ []) h = ground arith
three_parts-eq-ok (a ∷ b ∷ c ∷ d ∷ more) h = absurd (ground arith)

compare_texts-eq-ok : (a b : String) → compare_texts a b ≡ ok true → b ≡ a
unfolding compare_texts
compare_texts-eq-ok a b h = ground arith

secret_of-eq-ok : (o : Option String) {s : String} → secret_of o ≡ ok s → o ≡ some s
secret_of-eq-ok none h = absurd (ground arith)
secret_of-eq-ok (some t) h = ground arith

the_only_secret-Known :
    (keyring : Dict String String) {s : String}
    → the_only_secret keyring ≡ ok s
    → (key_id : String) × (lookup key_id keyring ≡ some s)
unfolding lookup
the_only_secret-Known [] h = absurd (ground arith)
the_only_secret-Known ((k, t) ∷ []) h = (k, ground arith)
the_only_secret-Known (a ∷ b ∷ more) h = absurd (ground arith)

module _ {F : Type 0} where
  is_text-eq : (t : String) (o : Option (Json F)) → is_text t o ≡ true → o ≡ some (text t)
  is_text-eq t none h = absurd (ground arith)
  is_text-eq t (some null) h = absurd (ground arith)
  is_text-eq t (some (bool b)) h = absurd (ground arith)
  is_text-eq t (some (int z)) h = absurd (ground arith)
  is_text-eq t (some (float f)) h = absurd (ground arith)
  is_text-eq t (some (text s)) h = ground arith
  is_text-eq t (some (list l)) h = absurd (ground arith)
  is_text-eq t (some (object d)) h = absurd (ground arith)

  subject_of-eq-ok :
      (o : Option (Json F)) {s : String}
      → subject_of o ≡ ok s
      → (o ≡ some (text s)) × (is_blank s ≡ false)
  unfolding subject_of
  subject_of-eq-ok none h = absurd (ground arith)
  subject_of-eq-ok (some null) h = absurd (ground arith)
  subject_of-eq-ok (some (bool b)) h = absurd (ground arith)
  subject_of-eq-ok (some (int z)) h = absurd (ground arith)
  subject_of-eq-ok (some (float f)) h = absurd (ground arith)
  subject_of-eq-ok (some (text s)) h = (ground arith, ground arith)
  subject_of-eq-ok (some (list l)) h = absurd (ground arith)
  subject_of-eq-ok (some (object d)) h = absurd (ground arith)

  jwt_secret_for_key_id-Known :
      (keyring : Dict String String) (kid : Option (Json F)) {s : String}
      → jwt_secret_for_key_id keyring kid ≡ ok s
      → (key_id : String) × (lookup key_id keyring ≡ some s)
  unfolding jwt_secret_for_key_id jwt_signing_secret
  jwt_secret_for_key_id-Known keyring none h = the_only_secret-Known keyring h
  jwt_secret_for_key_id-Known keyring (some null) h = the_only_secret-Known keyring h
  jwt_secret_for_key_id-Known keyring (some (bool b)) h = the_only_secret-Known keyring h
  jwt_secret_for_key_id-Known keyring (some (int z)) h = the_only_secret-Known keyring h
  jwt_secret_for_key_id-Known keyring (some (float f)) h = the_only_secret-Known keyring h
  jwt_secret_for_key_id-Known keyring (some (text k)) h = elim (Bool-cases (is_blank k)) [
    | inl blank ↦ the_only_secret-Known keyring (rw blank at h)
    | inr given ↦ (k, secret_of-eq-ok (lookup k keyring) (rw given at h))
  ]
  jwt_secret_for_key_id-Known keyring (some (list l)) h = the_only_secret-Known keyring h
  jwt_secret_for_key_id-Known keyring (some (object d)) h = the_only_secret-Known keyring h

module _ {B F : Type 0} (tools : Toolbox B F) (service : AuthService F) where
  -- Claims that stand for a principal at the time `now`
  pub record IsValid (now : ℕ) (payload : Dict String (Json F)) (p : Principal F) : Type 0 where
    pub claims : p.claims ≡ payload
    pub scopes : p.scopes ≡ string_set (lookup "scopes" payload)
    pub roles : p.roles ≡ string_set (lookup "roles" payload)
    pub subject : lookup "sub" payload ≡ some (text p.subject)
    pub subject_given : is_blank p.subject ≡ false
    pub current : is_current tools service now (lookup "exp" payload) ≡ true
    pub issuer : issuer_fits service.jwt_issuer (lookup "iss" payload) ≡ true
    pub audience : audience_fits service.jwt_audience (lookup "aud" payload) ≡ true

  -- Parts whose signature is that of a secret of the ring
  pub record IsSigned (parts : Parts) (payload : Dict String (Json F)) : Type 0 where
    pub header : Dict String (Json F)
    pub secret : String
    pub key_id : String
    pub header_read : decode_json tools service parts.encoded_header ≡ ok header
    pub algorithm : lookup "alg" header ≡ some (text "HS256")
    pub secret_known : lookup key_id service.jwt_signing_keys ≡ some secret
    pub signed :
        sign tools service (signing_input parts.encoded_header parts.encoded_payload) secret
        ≡ ok parts.signature
    pub payload_read : decode_json tools service parts.encoded_payload ≡ ok payload

  read_payload-IsValid :
      (now : ℕ) (payload : Dict String (Json F)) (p : Principal F)
      → read_payload tools service now payload ≡ ok p
      → IsValid now payload p
  unfolding read_payload
  read_payload-IsValid now payload p h =
      let (subject, given, h) = >>=-eq-ok (subject_of (lookup "sub" payload)) _ h in
      let (_, current, h) =
        >>=-eq-ok (require (is_current tools service now (lookup "exp" payload))) _ h in
      let (_, issuer, h) =
        >>=-eq-ok (require (issuer_fits service.jwt_issuer (lookup "iss" payload))) _ h in
      let (_, audience, h) =
        >>=-eq-ok (require (audience_fits service.jwt_audience (lookup "aud" payload))) _ h in
      let (is_subject, not_blank) = subject_of-eq-ok (lookup "sub" payload) given in
      let same : subject ≡ p.subject = ground (arith, h) in
      record {
        claims = ground (arith, h);
        scopes = ground (arith, h);
        roles = ground (arith, h);
        subject = rw same at is_subject;
        subject_given = rw same at not_blank;
        current = require-eq-ok _ current;
        issuer = require-eq-ok _ issuer;
        audience = require-eq-ok _ audience;
      }

  read_parts-IsSigned :
      (now : ℕ) (parts : Parts) (p : Principal F)
      → read_parts tools service now parts ≡ ok p
      → (payload : Dict String (Json F)) × IsSigned parts payload × IsValid now payload p
  unfolding read_parts
  read_parts-IsSigned now parts p h =
      let (header, header_read, h) =
        >>=-eq-ok (decode_json tools service parts.encoded_header) _ h in
      let (_, alg, h) = >>=-eq-ok (require (is_text "HS256" (lookup "alg" header))) _ h in
      let (secret, chosen, h) =
        >>=-eq-ok (jwt_secret_for_key_id service.jwt_signing_keys (lookup "kid" header)) _ h in
      let input = signing_input parts.encoded_header parts.encoded_payload in
      let (expected, signed, h) = >>=-eq-ok (sign tools service input secret) _ h in
      let (same, compared, h) = >>=-eq-ok (compare_texts parts.signature expected) _ h in
      let (_, is_same, h) = >>=-eq-ok (require same) _ h in
      let (payload, payload_read, h) =
        >>=-eq-ok (decode_json tools service parts.encoded_payload) _ h in
      let (key_id, secret_known) =
        jwt_secret_for_key_id-Known service.jwt_signing_keys (lookup "kid" header) chosen in
      let matched : compare_texts parts.signature expected ≡ ok true =
        rw (require-eq-ok same is_same) at compared in
      (
        payload,
        record {
          header = header;
          secret = secret;
          key_id = key_id;
          header_read = header_read;
          algorithm = is_text-eq "HS256" _ (require-eq-ok _ alg);
          secret_known = secret_known;
          signed = rw (compare_texts-eq-ok parts.signature expected matched) at signed;
          payload_read = payload_read;
        },
        read_payload-IsValid now payload p h,
      )

  -- A token that is accepted has three parts, of which the third is the signature of the first two
  -- under a secret of the ring, and the first names HS256. The claims in the second have a subject,
  -- are not expired, and fit the issuer and the audience of the service, and the principal is
  -- made of them.
  pub authenticate_jwt-IsSigned :
      (now : ℕ) (token : String) (p : Principal F)
      → authenticate_jwt tools service now token ≡ ok p
      → (parts : Parts) × (payload : Dict String (Json F)) × (split 46 token
          ≡ parts.encoded_header ∷ parts.encoded_payload ∷ parts.signature ∷ [])
        × IsSigned parts payload
        × IsValid now payload p
  unfolding authenticate_jwt
  authenticate_jwt-IsSigned now token p h =
      let (_, _, h) = >>=-eq-ok (require (not (is_empty service.jwt_signing_keys))) _ h in
      let (_, _, h) = >>=-eq-ok (require (not (is_blank token))) _ h in
      let (parts, cut, h) = >>=-eq-ok (three_parts (split 46 token)) _ h in
      let (payload, signed, valid) = read_parts-IsSigned now parts p h in
      (parts, payload, three_parts-eq-ok (split 46 token) cut, signed, valid)
