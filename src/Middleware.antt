-- ===== src/Middleware.antt =====
-- `SecurityHeadersMiddleware` and `CORSMiddleware` of infra/middleware/middleware.py. Headers are
-- found by their names as they are spelled here. `show` is `str` of a number, `joined` is
-- `", ".join`, and `add_vary` is the framework's `add_vary_header`.
use fastapi_infra.Common.{
  string_eq, ℕ, String, ◌<>◌, Bool, true, false, ◌&&◌, Option, none, some, is_some, List, [], ◌∷◌,
  contains, is_empty, ◌==◌, if◌then◌else◌,
}
use fastapi_infra.Common.Dict.{Dict, lookup, insert}
use fastapi_infra.Common.Result.{Result, ok, err}
pub mod Grants
mod Tests

abbrev pub Headers : Type 0
Headers = Dict String String

-- `headers.setdefault(name, value)`
unfoldable pub set_default : String → String → Headers → Headers
set_default name value h = elim (lookup name h) [ none ↦ insert name value h | some _ ↦ h ]

abbrev pub set_default_some : String → Option String → Headers → Headers
set_default_some name none h = h
set_default_some name (some value) h = set_default name value h

pub record SecurityHeaders : Type 0 where
  pub frame_options : String
  pub content_type_options : String
  pub referrer_policy : String
  pub permissions_policy : Option String
  pub cross_origin_opener_policy : Option String
  pub hsts_max_age : Option ℕ
  pub hsts_include_subdomains : Bool
  pub hsts_preload : Bool

-- `_hsts_header`, if there is an age
unfoldable pub hsts_header : (ℕ → String) → SecurityHeaders → Option String
hsts_header show m = elim m.hsts_max_age [
  | none ↦ none
  | some age ↦
      let value = "max-age=" <> show age in
      let value1 = if m.hsts_include_subdomains then value <> "; includeSubDomains" else value in
      some (if m.hsts_preload then value1 <> "; preload" else value1)
]

unfoldable pub apply : (ℕ → String) → SecurityHeaders → Headers → Headers
unfolding set_default hsts_header
apply show m h =
    let h1 = set_default "X-Frame-Options" m.frame_options h in
    let h2 = set_default "X-Content-Type-Options" m.content_type_options h1 in
    let h3 = set_default "Referrer-Policy" m.referrer_policy h2 in
    let h4 = set_default_some "Permissions-Policy" m.permissions_policy h3 in
    let h5 = set_default_some "Cross-Origin-Opener-Policy" m.cross_origin_opener_policy h4 in
    set_default_some "Strict-Transport-Security" (hsts_header show m) h5

pub record Cors : Type 0 where
  pub allow_origins : List String
  pub allow_methods : List String
  pub allow_headers : List String
  pub expose_headers : List String
  pub allow_credentials : Bool
  pub max_age : ℕ

pub data CorsError : Type 0 where
  credentials_for_all : CorsError

-- `tuple(given or default)`
abbrev or_default : Option (List String) → List String → List String
or_default none default = default
or_default (some given) default = if is_empty given then default else given

-- `__init__`
unfoldable pub cors_init :
    Option (List String)
    → Option (List String)
    → Option (List String)
    → Option (List String)
    → Bool
    → ℕ
    → Result CorsError Cors
cors_init origins methods headers expose credentials max_age =
    let allow_origins = or_default origins ("*" ∷ []) in
    if credentials && contains allow_origins "*"
    then err credentials_for_all
    else ok (record {
      allow_origins = allow_origins;
      allow_methods = or_default methods ("GET" ∷ "POST" ∷ "PUT" ∷ "DELETE" ∷ "OPTIONS" ∷ []);
      allow_headers = or_default headers ("*" ∷ []);
      expose_headers = or_default expose [];
      allow_credentials = credentials;
      max_age = max_age;
    })

-- `_allowed_origin`
unfoldable pub allowed_origin : Cors → Option String → Option String
allowed_origin m none = none
allowed_origin m (some origin) =
    if contains m.allow_origins "*"
    then some "*"
    else (if contains m.allow_origins origin then some origin else none)

pub record Request : Type 0 where
  pub method : String
  pub headers : Headers

pub record Response : Type 0 where
  pub status_code : ℕ
  pub headers : Headers

abbrev pub is_preflight : Request → Bool
is_preflight r =
    r.method == "OPTIONS"
    && is_some (lookup "origin" r.headers)
    && is_some (lookup "access-control-request-method" r.headers)

module _ (show : ℕ → String) (joined : List String → String)
    (add_vary : String → Headers → Headers) where
  -- The headers that an allowed origin gets
  unfoldable pub grant : Cors → String → Headers → Headers
  grant m origin h =
      let h1 = insert "Access-Control-Allow-Origin" origin h in
      let h2 = insert "Access-Control-Allow-Methods" (joined m.allow_methods) h1 in
      let h3 = insert "Access-Control-Allow-Headers" (joined m.allow_headers) h2 in
      let h4 = insert "Access-Control-Max-Age" (show m.max_age) h3 in
      let h5 =
        if is_empty m.expose_headers
        then h4
        else insert "Access-Control-Expose-Headers" (joined m.expose_headers) h4 in
      let h6 =
        if m.allow_credentials then insert "Access-Control-Allow-Credentials" "true" h5 else h5 in
      if origin == "*" then h6 else add_vary "Origin" h6

  unfoldable pub dispatch : Cors → (Request → Response) → Request → Response
  unfolding grant allowed_origin
  dispatch m call_next request =
      let response : Response =
        if is_preflight request
        then record { status_code = 204; headers = [] }
        else call_next request in
      elim (allowed_origin m (lookup "origin" request.headers)) [
        | none ↦ response
        | some origin ↦ record response { headers = grant m origin response.headers }
      ]
