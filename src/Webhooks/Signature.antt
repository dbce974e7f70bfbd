-- ===== src/Webhooks/Signature.antt =====
-- Signed bodies: `verify_webhook_signature` of infra/plugins/payment/stripe.py, for a time in whole
-- seconds, and infra/plugins/webhooks/verification.py, which uses it.
use fastapi_infra.Common.{
  string_eq, ℕ, suc, ◌+◌, ◌-◌, max, String, Bool, true, false, not, ◌&&◌, ◌||◌, Option, none, some,
  List, [], ◌∷◌, ◌++◌, ltb, if◌then◌else◌, ◌==◌, is_empty,
}
use fastapi_infra.Common.Dict.{Dict, lookup, insert}
use fastapi_infra.Common.Int.{ℤ, pos, negsuc, is_neg, pos_part}
use fastapi_infra.Common.Result.{Result, ok, err, ◌>>=◌}
use fastapi_infra.Common.Text.{split, partition, all_codes}
use fastapi_infra.Webhooks.Models.{WebhookError, not_comparable, normalize_webhook_provider_name}

pub record Crypto (B : Type 0) : Type 0 where
  -- `int(s)`, `None` for its ValueError, and `str` of an integer
  pub int_of : String → Option ℤ
  pub str : ℤ → String
  -- `str(t).encode() + b"." + payload`
  pub dated : String → B → B
  -- the hexadecimal digest of `hmac` with sha256
  pub hexdigest : String → B → String

-- The time and the signatures of a header, as far as it was read
pub record Parsed : Type 0 where
  pub timestamp : Option ℤ
  pub signatures : List String

abbrev pub is_ascii : String → Bool
is_ascii = all_codes λ c. ltb c 128

-- `abs(now - t)`
abbrev pub distance : ℕ → ℤ → ℕ
distance now (pos t) = max (now - t) (t - now)
distance now (negsuc t) = now + suc t

-- `hmac.compare_digest` of texts, which takes ASCII only; the digest is.
unfoldable pub matches_one : String → List String → Result WebhookError Bool
matches_one expected [] = ok false
matches_one expected (signature ∷ more) =
    let rest = matches_one expected more in
    if is_ascii signature
    then (if expected == signature then ok true else rest)
    else err not_comparable

module _ {B : Type 0} (crypto : Crypto B) where
  abbrev timed : Option ℤ → Parsed → Option Parsed
  timed none parsed = none
  timed (some t) parsed = some record parsed { timestamp = some t }

  -- One part of the header; `none` is the early `return False`.
  unfoldable pub read_part : Option (String × String) → Parsed → Option Parsed
  read_part none parsed = some parsed
  read_part (some (key, value)) parsed =
      if key == "t"
      then timed (crypto.int_of value) parsed
      else (if key == "v1"
          then some record parsed { signatures = parsed.signatures ++ value ∷ [] }
          else some parsed)

  abbrev read_on : (Parsed → Option Parsed) → Option Parsed → Option Parsed
  read_on rest none = none
  read_on rest (some parsed) = rest parsed

  unfoldable pub read_parts : List String → Parsed → Option Parsed
  unfolding read_part partition
  read_parts [] parsed = some parsed
  read_parts (part ∷ more) parsed = read_on (read_parts more) (read_part (partition 61 part) parsed)

  unfoldable pub check_signatures :
      String → ℤ → ℕ → B → Option ℤ → List String → Result WebhookError Bool
  unfolding matches_one
  check_signatures secret tolerance now payload none signatures = ok false
  check_signatures secret tolerance now payload (some t) signatures =
      if is_empty signatures
        || (not (is_neg tolerance) && ltb (pos_part tolerance) (distance now t))
      then ok false
      else matches_one (crypto.hexdigest secret (crypto.dated (crypto.str t) payload)) signatures

  unfoldable pub verify_webhook_signature : B → String → String → ℤ → ℕ → Result WebhookError Bool
  unfolding split read_parts check_signatures
  verify_webhook_signature payload header secret tolerance now =
      elim (read_parts (split 44 header) record { timestamp = none; signatures = [] }) [
        | none ↦ ok false
        | some parsed ↦
            check_signatures secret tolerance now payload parsed.timestamp parsed.signatures
      ]

  -- The verifier that `stripe_signature_verifier` returns
  unfoldable pub stripe_signature_verifier :
      String → String → ℤ → ℕ → B → Dict String String → Result WebhookError Bool
  unfolding verify_webhook_signature
  stripe_signature_verifier webhook_secret header_name tolerance now payload headers =
      elim (lookup header_name headers) [
        | none ↦ ok false
        | some signature ↦ verify_webhook_signature payload signature webhook_secret tolerance now
      ]

-- `WebhookSignatureVerifierRegistry`
abbrev Verifier : Type 0 → Type 0
Verifier B = ℕ → B → Dict String String → Result WebhookError Bool

unfoldable pub register_verifier :
    {B : Type 0}
    → (String → String)
    → String
    → Verifier B
    → Dict String (Verifier B)
    → Result WebhookError (Dict String (Verifier B))
unfolding normalize_webhook_provider_name
register_verifier lower provider verifier verifiers =
    normalize_webhook_provider_name lower provider >>= λ name. ok (insert name verifier verifiers)

unfoldable pub verify_with :
    {B : Type 0} → (String → String) → Dict String (Verifier B) → String → Verifier B
unfolding normalize_webhook_provider_name
verify_with lower verifiers provider now payload headers =
    normalize_webhook_provider_name lower provider >>= λ name.
    elim (lookup name verifiers) as (λ o. Result WebhookError Bool) [
      | none ↦ ok false
      | some verifier ↦ verifier now payload headers
    ]
