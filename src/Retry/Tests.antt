-- ===== src/Retry/Tests.antt =====
-- A retried operation, and the theorem at that input.
use fastapi_infra.Common.{ℕ, suc, true, none, ◌≡◌, refl}
use fastapi_infra.Common.Int.{pos, pos_part}
use fastapi_infra.Common.Result.{Result, err}
use fastapi_infra.Retry.{exc, Policy, retry_provider_operation, attempts_from, judge}
use fastapi_infra.Retry.Calls.{IsCounted, Spends}
use fastapi_infra.Retry.Calls

-- The world counts the calls, and every call fails.
abbrev broken : ℕ → Result ℕ ℕ × ℕ
broken w = (err w, suc w)

abbrev sleep : ℕ → ℕ → ℕ
sleep d w = w

abbrev policy : Policy ℕ ℕ
policy = record {
  base_delay = pos 1;
  is_retryable_exception = λ _. true;
  is_retryable_result = none;
  retry_delay_for_exception = none;
  retry_delay_for_result = none;
}

counted : IsCounted (λ w. w) broken sleep
counted = record { called = λ w. refl; slept = λ d w. refl }

three_calls : retry_provider_operation broken sleep policy (pos 3) 0 ≡ (err (exc 2), 3)
unfolding retry_provider_operation attempts_from judge
three_calls = refl

retry_provider_operation-Spends_example :
    Spends broken sleep policy
      (λ w. w)
      counted
      (pos_part (pos 3))
      0
      (retry_provider_operation broken sleep policy (pos 3) 0)
retry_provider_operation-Spends_example =
    Calls.retry_provider_operation-Spends broken sleep policy (λ w. w) counted (pos 3) 0 refl refl
