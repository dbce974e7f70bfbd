-- ===== src/RateLimit.antt =====
-- The limiters and the dependency of infra/plugins/ratelimit/memory.py. Times are whole ticks; a
-- window is given in ticks as well, and `ticks` of them make one second of the headers.
use fastapi_infra.Common.{
  string_eq, ℕ, suc, ◌+◌, ◌-◌, ◌/◌, max, String, ◌<>◌, Bool, true, false, ◌&&◌, Option, none, some,
  List, [], ◌∷◌, ◌++◌, length, ltb, leb, keep_if, if◌then◌else◌,
}
use fastapi_infra.Common.Int.{ℤ, pos, negsuc, pos_part, is_nonpos}
use fastapi_infra.Common.Dict.{Dict, lookup, insert}
use fastapi_infra.Common.Result.{Result, ok, err}
use fastapi_infra.Common.Text.{strip, is_blank}
pub mod Window
mod Tests

-- `_hits` of `MemoryRateLimiter`
abbrev pub Hits : Type 0
Hits = Dict String (List ℕ)

-- `self._hits.get(key, [])`
abbrev pub hits_of : String → Hits → List ℕ
hits_of key d = elim (lookup key d) [ none ↦ [] | some hits ↦ hits ]

-- `hit > now - max(window_seconds, 0)`
abbrev pub in_window : ℕ → ℤ → ℕ → Bool
in_window now window_seconds hit = ltb now (hit + pos_part window_seconds)

-- `MemoryRateLimiter.allow` at the time `now`
unfoldable pub allow : ℕ → String → ℤ → ℤ → Hits → Bool × Hits
allow now key limit window_seconds d =
    let hits = keep_if (in_window now window_seconds) (hits_of key d) in
    if is_nonpos limit
    then (false, d)
    else (if leb (pos_part limit) (length hits)
        then (false, insert key hits d)
        else (true, insert key (hits ++ now ∷ []) d))

-- A client of Redis: `incr` and `expire` on a world.
pub record Redis (W : Type 0) : Type 0 where
  pub incr : String → W → ℕ × W
  pub expire : String → ℕ → W → W

abbrev pub window_of : ℤ → ℕ
window_of window_seconds = max 1 (pos_part window_seconds)

-- `RedisRateLimiter.allow`; `show` is `str` of a number, and windows are whole seconds.
unfoldable pub allow_redis :
    {W : Type 0} → (ℕ → String) → Redis W → String → ℕ → String → ℤ → ℤ → W → Bool × W
allow_redis show redis key_prefix now key limit window_seconds w =
    let window = window_of window_seconds in
    let redis_key = key_prefix <> ":" <> key <> ":" <> show window <> ":" <> show (now / window) in
    let (count, w1) = redis.incr redis_key w in
    let w2 = if leb count 1 && leb 1 count then redis.expire redis_key window w1 else w1 in
    if is_nonpos limit then (false, w) else (leb count (pos_part limit), w2)

pub record Request : Type 0 where
  pub client_host : Option String

-- `client_ip_key`
unfoldable pub client_ip_key : Request → String
client_ip_key request = elim request.client_host [
  | none ↦ "client:unknown"
  | some host ↦ if is_blank host then "client:unknown" else "client:" <> host
]

-- `_rate_limit_headers`, for a window of whole seconds
unfoldable pub rate_limit_headers : (ℤ → String) → ℤ → ℤ → Dict String String
rate_limit_headers show limit window_seconds =
    let retry_after = show (pos (max 1 (pos_part window_seconds))) in
    ("X-RateLimit-Limit", show limit)
    ∷ ("X-RateLimit-Window", retry_after)
    ∷ ("Retry-After", retry_after)
    ∷ []

pub data RateLimitError : Type 0 where
  bad_limit : RateLimitError
  bad_window : RateLimitError
  empty_service : RateLimitError
  too_many_requests : Dict String String → RateLimitError

-- The checks of `rate_limit` before it gives the dependency.
unfoldable pub rate_limit : ℤ → ℤ → String → Result RateLimitError (Unit {0})
rate_limit limit window_seconds service =
    if is_nonpos limit
    then err bad_limit
    else (if is_nonpos window_seconds
        then err bad_window
        else (if is_blank (strip service) then err empty_service else ok tt))

-- The `dependency` of `rate_limit` over a `MemoryRateLimiter`: the outcome, and the headers that
-- the response got.
unfoldable pub dependency :
    (ℤ → String)
    → (Request → String)
    → ℤ
    → ℤ
    → ℕ
    → Request
    → Hits
    → Result RateLimitError (Dict String String) × Hits
unfolding allow rate_limit_headers
dependency show key_func limit window_seconds now request d =
    let (allowed, d') = allow now (key_func request) limit window_seconds d in
    let headers = rate_limit_headers show limit window_seconds in
    if allowed then (ok headers, d') else (err (too_many_requests headers), d')
