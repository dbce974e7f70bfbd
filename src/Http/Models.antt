-- ===== src/Http/Models.antt =====
-- The retry policy, responses and errors of infra/http/client.py, its URLs and its headers. Delays
-- are counted in ticks. `urljoin` and `lower` are Python's.
use fastapi_infra.Common.{
  string_eq, ℕ, String, ◌<>◌, Bool, true, false, ◌||◌, ◌&&◌, Option, none, some, List, [], ◌∷◌, ltb,
  leb, if◌then◌else◌, ◌==◌, contains, map,
}
use fastapi_infra.Common.Dict.{Dict, insert, keys}
use fastapi_infra.Common.Result.{Result, ok, err}
use fastapi_infra.Common.Text.{is_blank}

pub record HttpResponse : Type 0 where
  pub status_code : ℕ
  pub headers : Dict String String
  pub text : String
  pub url : String

pub record HttpRetryConfig : Type 0 where
  pub max_attempts : ℕ
  pub base_delay : ℕ
  pub retry_status_codes : List ℕ
  pub retry_methods : List String
  pub retry_all_methods : Bool

-- What the session, or the sleep between two attempts, raises. `cancelled` is no `Exception`.
pub data Failure : Type 0 where
  timeout cancelled : Failure
  client_error other : String → Failure

-- An `HttpError`, or a failure that passes as it is
pub data Raised : Type 0 where
  closed no_session : Raised
  timed_out : String → String → Raised
  request_failed request_error : String → Raised
  bad_status : ℕ → String → Raised
  passed : Failure → Raised

-- `is_success`
abbrev pub is_success : HttpResponse → Bool
is_success r = leb 200 r.status_code && ltb r.status_code 300

unfoldable pub raise_for_status : HttpResponse → Result Raised (Unit {0})
raise_for_status r = if is_success r then ok tt else err (bad_status r.status_code r.text)

-- `__post_init__` of a policy; that a delay is not negative is in its type here.
unfoldable pub post_init : HttpRetryConfig → Result String HttpRetryConfig
post_init c = if ltb c.max_attempts 1 then err "max_attempts must be a positive integer" else ok c

-- `s.startswith(prefix)`
unfoldable pub starts_with : String → String → Bool
starts_with String.[] s = true
starts_with (String.◌∷◌ c p) String.[] = false
starts_with (String.◌∷◌ c p) (String.◌∷◌ d s) =
    let rest = starts_with p s in (String.◌∷◌ c String.[] == String.◌∷◌ d String.[]) && rest

-- `s.lstrip("/")`
unfoldable pub lstrip_slashes : String → String
lstrip_slashes String.[] = String.[]
lstrip_slashes (String.◌∷◌ c s) =
    let rest = lstrip_slashes s in if String.◌∷◌ c String.[] == "/" then rest else String.◌∷◌ c s

unfoldable pub build_url : (String → String → String) → String → String → String
unfolding starts_with lstrip_slashes
build_url urljoin base_url url =
    if starts_with "http://" url || starts_with "https://" url
    then url
    else (if is_blank base_url then url else urljoin (base_url <> "/") (lstrip_slashes url))

-- `_has_header`
unfoldable pub has_header : (String → String) → List String → String → Bool
has_header lower names name = contains (map lower names) (lower name)

-- `headers.update(more)`
unfoldable pub update : Dict String String → Dict String String → Dict String String
update headers [] = headers
update headers ((k, v) ∷ more) = update (insert k v headers) more

abbrev pub trace_id_header : String
trace_id_header = "X-Trace-ID"

abbrev pub request_id_header : String
request_id_header = "X-Request-ID"

-- `if id and not _has_header(headers, name): headers[name] = id`
unfoldable pub attach :
    (String → String) → String → Option String → Dict String String → Dict String String
unfolding has_header
attach lower name none headers = headers
attach lower name (some id) headers =
    if is_blank id || has_header lower (keys headers) name then headers else insert name id headers

-- `a or b`
abbrev pub or_option : Option String → Option String → Option String
or_option none b = b
or_option (some a) b = if is_blank a then b else some a

unfoldable pub attach_trace_headers :
    (String → String) → Option String → Option String → Dict String String → Dict String String
unfolding attach
attach_trace_headers lower trace_id request_id headers =
    attach lower request_id_header (or_option request_id trace_id)
      (attach lower trace_id_header trace_id headers)

unfoldable pub request_headers :
    (String → String)
    → Bool
    → Option String
    → Option String
    → Dict String String
    → Dict String String
    → Dict String String
unfolding update attach_trace_headers
request_headers lower propagate_trace trace_id request_id default_headers headers =
    let given = update default_headers headers in
    if propagate_trace then attach_trace_headers lower trace_id request_id given else given
