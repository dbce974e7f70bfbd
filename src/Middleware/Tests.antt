-- ===== src/Middleware/Tests.antt =====
-- The theorems on the headers at small responses.
use fastapi_infra.Common.{
  string_eq, String, true, false, none, some, List, [], ◌∷◌, ◌≡◌, refl, contains,
}
use fastapi_infra.Common.Dict.{lookup}
use fastapi_infra.Common.Result.{ok}
use fastapi_infra.Middleware.{Headers, SecurityHeaders, Cors, cors_init, allowed_origin}
use fastapi_infra.Middleware.Grants

abbrev security : SecurityHeaders
security = record {
  frame_options = "DENY";
  content_type_options = "nosniff";
  referrer_policy = "no-referrer";
  permissions_policy = none;
  cross_origin_opener_policy = some "same-origin";
  hsts_max_age = some 60;
  hsts_include_subdomains = true;
  hsts_preload = false;
}

abbrev own : Headers
own = ("X-Frame-Options", "SAMEORIGIN") ∷ []

set_before : lookup "X-Frame-Options" own ≡ some "SAMEORIGIN"
unfolding lookup string_eq
set_before = refl

abbrev site : List String
site = "https://a.example" ∷ "https://b.example" ∷ []

abbrev b : String
b = "https://b.example"

abbrev cors : Cors
cors = record {
  allow_origins = site;
  allow_methods = "GET" ∷ "POST" ∷ "PUT" ∷ "DELETE" ∷ "OPTIONS" ∷ [];
  allow_headers = "*" ∷ [];
  expose_headers = [];
  allow_credentials = true;
  max_age = 600;
}

built : cors_init (some site) none none none true 600 ≡ ok cors
unfolding cors_init string_eq
built = refl

allowed : allowed_origin cors (some b) ≡ some b
unfolding allowed_origin string_eq
allowed = refl

allowed_origin-Listed_example : (b ≡ b) × (contains cors.allow_origins b ≡ true)
allowed_origin-Listed_example =
    Grants.allowed_origin-Listed (some site) none none none 600 cors b b built allowed
