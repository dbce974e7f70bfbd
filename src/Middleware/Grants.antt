-- ===== src/Middleware/Grants.antt =====
-- Which headers infra/middleware/middleware.py sets, and for whom.
use fastapi_infra.Common.{
  string_eq, ℕ, String, true, Option, none, some, List, contains, ◌≡◌, arith, Option-cases, inl,
  inr,
}
use fastapi_infra.Common.Dict.{lookup, lookup-insert}
use fastapi_infra.Common.Result.{ok}
use fastapi_infra.Middleware.{
  Headers, set_default, set_default_some, SecurityHeaders, hsts_header, apply, Cors, cors_init,
  allowed_origin,
}

set_default-keeps :
    (name value : String) (j v : String) (h : Headers)
    → lookup j h ≡ some v
    → lookup j (set_default name value h) ≡ some v
unfolding set_default
set_default-keeps name value j v h found = elim (Option-cases (lookup name h)) [
  | inl free ↦ ground (arith, lookup-insert j name value h)
  | inr (u, set) ↦ ground arith
]

set_default_some-keeps :
    (name : String) (value : Option String) (j v : String) (h : Headers)
    → lookup j h ≡ some v
    → lookup j (set_default_some name value h) ≡ some v
set_default_some-keeps name none j v h found = found
set_default_some-keeps name (some value) j v h found = set_default-keeps name value j v h found

-- A header that the application set itself is never overridden by the security headers.
apply-keeps :
    (show : ℕ → String) (m : SecurityHeaders) (h : Headers) (name value : String)
    → lookup name h ≡ some value
    → lookup name (apply show m h) ≡ some value
unfolding apply
apply-keeps show m h name value found =
    let k1 = set_default-keeps "X-Frame-Options" m.frame_options name value h found in
    let k2 = set_default-keeps "X-Content-Type-Options" m.content_type_options name value _ k1 in
    let k3 = set_default-keeps "Referrer-Policy" m.referrer_policy name value _ k2 in
    let k4 = set_default_some-keeps "Permissions-Policy" m.permissions_policy name value _ k3 in
    let k5 =
      set_default_some-keeps "Cross-Origin-Opener-Policy" m.cross_origin_opener_policy name value _
        k4 in
    set_default_some-keeps "Strict-Transport-Security" (hsts_header show m) name value _ k5

-- Credentials are never offered to every origin: a middleware that was built and that allows
-- credentials answers an origin with that origin or not at all, and only if it is on the list.
pub allowed_origin-Listed :
    (origins methods headers expose : Option (List String)) (max_age : ℕ) (m : Cors)
    (origin answer : String)
    → cors_init origins methods headers expose true max_age ≡ ok m
    → allowed_origin m (some origin) ≡ some answer
    → (answer ≡ origin) × (contains m.allow_origins origin ≡ true)
unfolding cors_init allowed_origin
allowed_origin-Listed origins methods headers expose max_age m origin answer built allowed =
    (ground arith, ground arith)
