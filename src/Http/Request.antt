-- ===== src/Http/Request.antt =====
-- `HttpClient.request` of infra/http/client.py: one request with its retries. The session, the clock,
-- the sleep and the instrumentation are an argument, the peer.
use fastapi_infra.Common.{
  string_eq, nat_eq, ℕ, zero, suc, ◌-◌, ◌*◌, ◌^◌, String, ◌<>◌, Bool, true, false, not, ◌&&◌, ◌||◌,
  Option, none, some, leb, ltb, if◌then◌else◌, contains,
}
use fastapi_infra.Common.Dict.{Dict}
use fastapi_infra.Common.Result.{Result, ok, err}
use fastapi_infra.Http.Models.{
  HttpResponse, HttpRetryConfig, Failure, Raised, timeout, client_error, other, cancelled, closed,
  no_session, timed_out, request_failed, request_error, passed, build_url, request_headers,
}

-- `K` is the type of the other keyword arguments, which go to the session as they are.
pub record Peer (W K : Type 0) : Type 0 where
  -- whether there is a session, or what making one raised
  pub ensure_session : W → Result Failure Bool × W
  -- `session.request` and the reading of its response
  pub send : String → String → Dict String String → K → W → Result Failure HttpResponse × W
  pub retry_sleep : ℕ → W → Result Failure (Unit {0}) × W
  pub increment : String → W → W
  pub timing : String → ℕ → W → W
  pub monotonic : W → ℕ
  pub upper : String → String
  pub lower : String → String
  pub urljoin : String → String → String
  pub str : ℕ → String

pub record HttpClient (W : Type 0) : Type 0 where
  pub base_url : String
  pub default_headers : Dict String String
  pub retry_config : Option HttpRetryConfig
  pub propagate_trace_headers : Bool
  pub trace_id : Option String
  pub request_id : Option String
  pub is_closed : Bool
  pub request_count : ℕ
  pub world : W

-- The arguments of a call. `retry_config` is `none` where the caller leaves it to the client.
pub record Call (K : Type 0) : Type 0 where
  pub method : String
  pub url : String
  pub headers : Dict String String
  pub retry_config : Option (Option HttpRetryConfig)
  pub rest : K

abbrev pub Answer : Type 0
Answer = Result Raised HttpResponse

module _ {W K : Type 0} (peer : Peer W K) where
  unfoldable pub can_retry_method : String → HttpRetryConfig → Bool
  can_retry_method method c = c.retry_all_methods || contains c.retry_methods (peer.upper method)

  unfoldable pub should_retry_exception : String → Option HttpRetryConfig → ℕ → Bool
  unfolding can_retry_method
  should_retry_exception method none attempt = false
  should_retry_exception method (some c) attempt =
      not (leb c.max_attempts attempt) && can_retry_method method c

  unfoldable pub should_retry_response : String → HttpResponse → Option HttpRetryConfig → ℕ → Bool
  unfolding can_retry_method
  should_retry_response method response none attempt = false
  should_retry_response method response (some c) attempt =
      not (leb c.max_attempts attempt)
      && can_retry_method method c
      && contains c.retry_status_codes response.status_code

  abbrev pub base_delay_of : Option HttpRetryConfig → ℕ
  base_delay_of none = 0
  base_delay_of (some c) = c.base_delay

  unfoldable pub sleep_before_retry : Option HttpRetryConfig → ℕ → W → Result Failure (Unit {0}) × W
  sleep_before_retry config attempt w =
      let delay = base_delay_of config * 2 ^ (attempt - 1) in
      if ltb 0 delay then peer.retry_sleep delay w else (ok tt, w)

  unfoldable pub record_response_metrics : String → ℕ → ℕ → W → W
  record_response_metrics method status_code start_time w =
      let w = peer.timing "http_client_request_seconds" (peer.monotonic w - start_time) w in
      let w = peer.increment "http_client_responses_total" w in
      let w = peer.increment ("http_client_status_" <> peer.str status_code <> "_total") w in
      peer.increment ("http_client_method_" <> peer.lower (peer.upper method) <> "_total") w

  unfoldable pub record_error_metrics : String → ℕ → W → W
  record_error_metrics method start_time w =
      let w = peer.timing "http_client_request_seconds" (peer.monotonic w - start_time) w in
      let w = peer.increment "http_client_errors_total" w in
      peer.increment ("http_client_method_" <> peer.lower (peer.upper method) <> "_errors_total") w

  module _ (method full_url : String) (headers : Dict String String) (rest : K)
      (config : Option HttpRetryConfig) where
    unfoldable pub send_request_attempt : ℕ → W → Result Failure HttpResponse × W
    unfolding record_response_metrics
    send_request_attempt start_time w =
        let (r, w) = peer.send method full_url headers rest w in
        elim r [
          | err e ↦ (err e, w)
          | ok response ↦
              (ok response, record_response_metrics method response.status_code start_time w)
        ]

    -- The error that a failure becomes in the end
    abbrev pub wrapped : Failure → Raised
    wrapped timeout = timed_out method full_url
    wrapped cancelled = passed cancelled
    wrapped (client_error e) = request_failed e
    wrapped (other e) = request_error e

    -- Only a timeout and an error of the client library are tried again.
    abbrev pub is_transient : Failure → Bool
    is_transient timeout = true
    is_transient cancelled = false
    is_transient (client_error e) = true
    is_transient (other e) = false

    -- Inside an `except` clause a sleep may raise, and nothing catches that.
    abbrev pub after_sleep :
        (HttpClient W → Option Answer × HttpClient W)
        → Result Failure (Unit {0})
        → HttpClient W
        → Option Answer × HttpClient W
    after_sleep again (ok _) c = again c
    after_sleep again (err e) c = (some (err (passed e)), c)

    -- The `except` clauses of the three kinds of exception; `again` is the rest of the loop.
    unfoldable pub on_exception :
        ℕ
        → ℕ
        → (HttpClient W → Option Answer × HttpClient W)
        → Failure
        → HttpClient W
        → Option Answer × HttpClient W
    unfolding record_error_metrics should_retry_exception sleep_before_retry
    on_exception attempt start_time again e c =
        let c = record c { world = record_error_metrics method start_time c.world } in
        elim (is_transient e && should_retry_exception method config attempt) [
          | false ↦ (some (err (wrapped e)), c)
          | true ↦
              let w = peer.increment "http_client_retries_total" c.world in
              let (r, w) = sleep_before_retry config attempt w in
              after_sleep again r (record c { world = w })
        ]

    -- A cancellation passes.
    unfoldable pub on_failure :
        ℕ
        → ℕ
        → (HttpClient W → Option Answer × HttpClient W)
        → Failure
        → HttpClient W
        → Option Answer × HttpClient W
    unfolding on_exception
    on_failure attempt start_time again cancelled c = (some (err (passed cancelled)), c)
    on_failure attempt start_time again e c = on_exception attempt start_time again e c

    -- The end of the `try` block, behind a response; a sleep that raises meets the `except` clauses.
    abbrev pub rested :
        (HttpClient W → Option Answer × HttpClient W)
        → (Failure → HttpClient W → Option Answer × HttpClient W)
        → Result Failure (Unit {0})
        → HttpClient W
        → Option Answer × HttpClient W
    rested again failed (ok _) c = again c
    rested again failed (err e) c = failed e c

    unfoldable pub on_response :
        ℕ
        → ℕ
        → (HttpClient W → Option Answer × HttpClient W)
        → HttpResponse
        → HttpClient W
        → Option Answer × HttpClient W
    unfolding on_failure should_retry_response sleep_before_retry
    on_response attempt start_time again response c =
        elim (should_retry_response method response config attempt) [
          | false ↦ (some (ok response), c)
          | true ↦
              let w = peer.increment "http_client_retries_total" c.world in
              let (r, w) = sleep_before_retry config attempt w in
              rested again (on_failure attempt start_time again) r (record c { world = w })
        ]

    abbrev pub on_attempt :
        ℕ
        → ℕ
        → (HttpClient W → Option Answer × HttpClient W)
        → Result Failure HttpResponse
        → HttpClient W
        → Option Answer × HttpClient W
    on_attempt attempt start_time again (ok response) c =
        on_response attempt start_time again response c
    on_attempt attempt start_time again (err e) c = on_failure attempt start_time again e c

    -- `while True` on fuel, behind `attempt` attempts; `none` is out of fuel.
    unfoldable pub attempts : ℕ → ℕ → HttpClient W → Option Answer × HttpClient W
    unfolding send_request_attempt on_response on_failure
    attempts zero attempt c = (none, c)
    attempts (suc fuel) attempt c =
        let w = peer.increment "http_client_attempts_total" c.world in
        let start_time = peer.monotonic w in
        let (r, w) = send_request_attempt start_time w in
        on_attempt (suc attempt) start_time (attempts fuel (suc attempt)) r
          (record c { request_count = suc c.request_count; world = w })

  -- `request_kwargs.pop("retry_config", self.retry_config)`
  abbrev pub config_of : HttpClient W → Call K → Option HttpRetryConfig
  config_of c call = elim call.retry_config [ none ↦ c.retry_config | some given ↦ given ]

  abbrev pub headers_of : HttpClient W → Call K → Dict String String
  headers_of c call =
      request_headers peer.lower c.propagate_trace_headers c.trace_id c.request_id c.default_headers
        call.headers

  unfoldable pub request : ℕ → Call K → HttpClient W → Option Answer × HttpClient W
  unfolding attempts build_url request_headers
  request fuel call c = elim c.is_closed [
    | true ↦ (some (err closed), c)
    | false ↦
        let (session, w) = peer.ensure_session c.world in
        let c = record c { world = w } in
        elim session [
          | err e ↦ (some (err (passed e)), c)
          | ok false ↦ (some (err no_session), c)
          | ok true ↦
              attempts call.method (build_url peer.urljoin c.base_url call.url) (headers_of c call)
                call.rest (config_of c call) fuel 0
                (record c { world = peer.increment "http_client_requests_total" c.world })
        ]
  ]

  unfoldable pub get : ℕ → Call K → HttpClient W → Option Answer × HttpClient W
  unfolding request
  get fuel call = request fuel (record call { method = "GET" })

  unfoldable pub post : ℕ → Call K → HttpClient W → Option Answer × HttpClient W
  unfolding request
  post fuel call = request fuel (record call { method = "POST" })

  unfoldable pub put : ℕ → Call K → HttpClient W → Option Answer × HttpClient W
  unfolding request
  put fuel call = request fuel (record call { method = "PUT" })

  unfoldable pub delete : ℕ → Call K → HttpClient W → Option Answer × HttpClient W
  unfolding request
  delete fuel call = request fuel (record call { method = "DELETE" })

  unfoldable pub patch : ℕ → Call K → HttpClient W → Option Answer × HttpClient W
  unfolding request
  patch fuel call = request fuel (record call { method = "PATCH" })
