-- ===== src/Http/Attempts.antt =====
-- How often infra/http/client.py sends one request, and what it then answers.
use fastapi_infra.Common.{
  ℕ, zero, suc, ◌+◌, ◌≤◌, ◌<◌, max, String, Bool, true, not, ◌&&◌, Option, none, some, ◌≡◌, refl,
  subst, arith, if◌then◌else◌, Bool-cases, inl, inr,
}
use fastapi_infra.Common.Dict.{Dict}
use fastapi_infra.Common.Result.{Result, ok, err}
use fastapi_infra.Http.Models.{HttpResponse, HttpRetryConfig, Failure, Raised, cancelled, passed}
use fastapi_infra.Http.Request.{
  Peer, HttpClient, Answer, can_retry_method, should_retry_exception, should_retry_response,
  record_error_metrics, wrapped, is_transient, after_sleep, on_exception, on_failure, rested,
  on_response, on_attempt, attempts,
}

module _ {W K : Type 0} (peer : Peer W K) (method : String) where
  -- The attempts that a policy allows a method
  abbrev pub allowed : Option HttpRetryConfig → ℕ
  allowed none = 1
  allowed (some c) = if can_retry_method peer method c then max 1 c.max_attempts else 1

  -- No answer is given that asks for another attempt.
  abbrev pub is_settled : Option HttpRetryConfig → Answer → ℕ → Bool
  is_settled config (ok response) attempt =
      not (should_retry_response peer method response config attempt)
  is_settled config (err e) attempt = true

  exception-allowed :
      (config : Option HttpRetryConfig) (attempt : ℕ)
      → should_retry_exception peer method config attempt ≡ true
      → attempt < allowed config
  unfolding should_retry_exception
  exception-allowed none attempt h = absurd (ground arith)
  exception-allowed (some c) attempt h = ground arith

  response-allowed :
      (config : Option HttpRetryConfig) (response : HttpResponse) (attempt : ℕ)
      → should_retry_response peer method response config attempt ≡ true
      → attempt < allowed config
  unfolding should_retry_response
  response-allowed none response attempt h = absurd (ground arith)
  response-allowed (some c) response attempt h = ground arith

module _ {W K : Type 0} (peer : Peer W K) (method full_url : String) (headers : Dict String String)
    (rest : K) (config : Option HttpRetryConfig) where
  -- What has come of `attempt` attempts and those that followed: an answer, after `more` attempts
  pub record Ends (attempt count : ℕ) (outcome : Option Answer × HttpClient W) : Type 0 where
    pub answer : Answer
    pub client : HttpClient W
    pub more : ℕ
    pub is_outcome : outcome ≡ (some answer, client)
    pub counted : client.request_count ≡ more + count
    pub sent : 0 < more + attempt
    pub bounded : more + attempt ≤ allowed peer method config
    pub settled : is_settled peer method config answer (more + attempt) ≡ true

  module _ (attempt start_time count : ℕ) (again : HttpClient W → Option Answer × HttpClient W)
      (positive : 0 < attempt) (some_left : attempt ≤ allowed peer method config)
      (goes_on : (c : HttpClient W)
        → c.request_count ≡ count
        → attempt < allowed peer method config
        → Ends attempt count (again c)) where
    ended :
        (e : Raised) (c : HttpClient W)
        → c.request_count ≡ count
        → Ends attempt count (some (err e), c)
    ended e c h = record {
      answer = err e;
      client = c;
      more = 0;
      is_outcome = refl;
      counted = ground arith;
      sent = ground arith;
      bounded = ground arith;
      settled = refl;
    }

    after_sleep-Ends :
        attempt < allowed peer method config
        → (r : Result Failure (Unit {0})) (c : HttpClient W) → c.request_count ≡ count
        → Ends attempt count (after_sleep peer method full_url headers rest config again r c)
    after_sleep-Ends left (ok x) c h = goes_on c h left
    after_sleep-Ends left (err e) c h = ended (passed e) c h

    on_exception-Ends :
        (e : Failure) (c : HttpClient W)
        → c.request_count ≡ count
        → Ends attempt count
            (on_exception peer method full_url headers rest config attempt start_time again e c)
    unfolding on_exception
    on_exception-Ends e c h =
        let kind = is_transient peer method full_url headers rest config e in
        elim (Bool-cases (kind && should_retry_exception peer method config attempt)) [
          | inr over ↦
              rw (over, on_exception)
                (ended (wrapped peer method full_url headers rest config e)
                  (record c { world = record_error_metrics peer method start_time c.world }) h)
          | inl tried ↦
              let left = exception-allowed peer method config attempt (ground (arith, tried)) in
              rw (tried, on_exception) (after_sleep-Ends left _ _ h)
        ]

    on_failure-Ends :
        (e : Failure) (c : HttpClient W)
        → c.request_count ≡ count
        → Ends attempt count
            (on_failure peer method full_url headers rest config attempt start_time again e c)
    unfolding on_failure
    on_failure-Ends e c h =
        elim e
          as (λ k.
            Ends attempt count
              (on_failure peer method full_url headers rest config attempt start_time again k c)) [
                | cancelled ↦ ended (passed cancelled) c h
                | k ↦ on_exception-Ends k c h
              ]

    rested-Ends :
        attempt < allowed peer method config
        → (r : Result Failure (Unit {0})) (c : HttpClient W) → c.request_count ≡ count
        → Ends attempt count (
            rested peer method full_url headers rest config again
              (on_failure peer method full_url headers rest config attempt start_time again)
              r
              c)
    rested-Ends left (ok x) c h = goes_on c h left
    rested-Ends left (err e) c h = on_failure-Ends e c h

    on_response-Ends :
        (response : HttpResponse) (c : HttpClient W)
        → c.request_count ≡ count
        → Ends attempt count (
            on_response peer method full_url headers rest config attempt start_time again response
              c)
    unfolding on_response
    on_response-Ends response c h =
        elim (Bool-cases (should_retry_response peer method response config attempt)) [
          | inr over ↦
              rw (over, on_response)
                record {
                  answer = ok response;
                  client = c;
                  more = 0;
                  is_outcome = refl;
                  counted = ground arith;
                  sent = ground arith;
                  bounded = ground arith;
                  settled = ground (arith, over);
                }
          | inl tried ↦
              let left = response-allowed peer method config response attempt tried in
              rw (tried, on_response) (rested-Ends left _ _ h)
        ]

    on_attempt-Ends :
        (r : Result Failure HttpResponse) (c : HttpClient W)
        → c.request_count ≡ count
        → Ends attempt count
            (on_attempt peer method full_url headers rest config attempt start_time again r c)
    on_attempt-Ends (ok response) c h = on_response-Ends response c h
    on_attempt-Ends (err e) c h = on_failure-Ends e c h

  -- One attempt more was made before.
  one_more :
      (attempt count : ℕ) (outcome : Option Answer × HttpClient W)
      → Ends (suc attempt) (suc count) outcome
      → Ends attempt count outcome
  one_more attempt count outcome e = record {
    answer = e.answer;
    client = e.client;
    more = suc e.more;
    is_outcome = e.is_outcome;
    counted = ground (arith, e.counted);
    sent = ground (arith, e.sent);
    bounded = ground (arith, e.bounded);
    settled =
        let same : e.more + suc attempt ≡ suc e.more + attempt = omega arith in
        subst (λ k. is_settled peer method config e.answer k ≡ true) same e.settled;
  }

  pub attempts-Ends :
      (fuel attempt : ℕ) (c : HttpClient W)
      → attempt < allowed peer method config
      → allowed peer method config ≤ attempt + fuel
      → Ends attempt c.request_count
          (attempts peer method full_url headers rest config fuel attempt c)
  unfolding attempts
  attempts-Ends zero attempt c left enough = absurd (ground arith)
  attempts-Ends (suc fuel) attempt c left enough = one_more attempt c.request_count _ (
      on_attempt-Ends (suc attempt) _ (suc c.request_count) _ (omega arith) (ground arith)
        (λ d same more_left.
          subst
            (λ k.
              Ends (suc attempt) k
                (attempts peer method full_url headers rest config fuel (suc attempt) d))
            same (attempts-Ends fuel (suc attempt) d more_left (ground arith)))
        _ _ refl)
