-- ===== src/Http/Tests.antt =====
-- A peer that answers from a script, and the theorems on requests at runs over it.
use fastapi_infra.Common.{
  string_eq, nat_eq, ℕ_discrete, ℕ, String, ◌<>◌, true, false, none, some, List, [], ◌∷◌, ◌≡◌, refl,
}
use fastapi_infra.Common.Dict.{lookup, insert}
use fastapi_infra.Common.Result.{Result, ok, err}
use fastapi_infra.Http.Models.{
  HttpResponse, HttpRetryConfig, Failure, timeout, starts_with, lstrip_slashes, build_url,
  has_header, update, attach, attach_trace_headers, request_headers,
}
use fastapi_infra.Http.Request.{
  Peer, HttpClient, Call, can_retry_method, should_retry_exception, should_retry_response,
  sleep_before_retry, record_response_metrics, record_error_metrics, send_request_attempt,
  on_exception, on_failure, on_response, attempts, request,
}
use fastapi_infra.Http.Answers

-- What the server answers, in order, and what was slept
abbrev World : Type 0
World = List (Result Failure HttpResponse) × List ℕ

abbrev answered : ℕ → HttpResponse
answered n = record { status_code = n; headers = []; text = ""; url = "http://h/a" }

abbrev next : World → Result Failure HttpResponse × World
next ([], slept) = (err timeout, ([], slept))
next (one ∷ more, slept) = (one, (more, slept))

abbrev peer : Peer World (Unit {0})
peer = record {
  ensure_session = λ w. (ok true, w);
  send = λ _ _ _ _ w. next w;
  retry_sleep = λ n w. (ok tt, (w.0, n ∷ w.1));
  increment = λ _ w. w;
  timing = λ _ _ w. w;
  monotonic = λ _. 0;
  upper = λ s. s;
  lower = λ s. s;
  urljoin = λ a b. a <> b;
  str = λ _. "500";
}

abbrev policy : HttpRetryConfig
policy = record {
  max_attempts = 3;
  base_delay = 2;
  retry_status_codes = 429 ∷ 503 ∷ [];
  retry_methods = "GET" ∷ "PUT" ∷ [];
  retry_all_methods = false;
}

abbrev script : List (Result Failure HttpResponse)
script = ok (answered 503) ∷ err timeout ∷ ok (answered 200) ∷ []

abbrev client : HttpClient World
client = record {
  base_url = "http://h";
  default_headers = ("Accept", "json") ∷ [];
  retry_config = some policy;
  propagate_trace_headers = true;
  trace_id = some "t1";
  request_id = none;
  is_closed = false;
  request_count = 0;
  world = (script, []);
}

abbrev call : Call (Unit {0})
call = record { method = "GET"; url = "/a"; headers = []; retry_config = none; rest = tt }

program : Unit {0}
unfolding ℕ_discrete string_eq lookup insert starts_with lstrip_slashes build_url has_header update
    attach attach_trace_headers request_headers can_retry_method should_retry_exception
    should_retry_response sleep_before_retry record_response_metrics record_error_metrics
    send_request_attempt on_exception on_failure on_response attempts request
program = tt

-- A busy answer and a timeout are tried again, with doubled delays.
third_time :
    request peer 3 call client
    ≡ (some (ok (answered 200)), record client { request_count = 3; world = ([], 4 ∷ 2 ∷ []) })
unfolding program
third_time = refl

-- A POST is sent once.
only_once : (request peer 3 (record call { method = "POST" }) client).0 ≡ some (ok (answered 503))
unfolding program
only_once = refl

abbrev same_text : String → String
same_text s = s

given : lookup "Accept" (update client.default_headers (("X-Trace-ID", "mine") ∷ [])) ≡ some "json"
unfolding program
given = refl
