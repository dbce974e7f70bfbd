-- ===== src/Retry.antt =====
-- Retry loops: `retry_provider_operation` of infra/plugins/retry.py, and `RetryMechanism` of
-- infra/http/resilience.py. Delays are whole ticks. An operation and a sleep act on a world.
use fastapi_infra.Common.{
  ℕ, zero, suc, ◌+◌, ◌-◌, ◌*◌, ◌^◌, min, Bool, true, false, not, ◌||◌, Option, none, some, leb,
  if◌then◌else◌,
}
use fastapi_infra.Common.Int.{ℤ, pos, negsuc, is_neg, is_nonpos, pos_part}
use fastapi_infra.Common.Result.{Result, ok, err}
pub mod Calls
mod Tests

pub data Failure (X : Type 0) : Type 0 where
  exc : X → Failure X
  attempts_not_positive : Failure X
  delay_negative : Failure X
  no_attempt : Failure X

-- What the caller passes.
pub record Policy (X A : Type 0) : Type 0 where
  pub base_delay : ℤ
  pub is_retryable_exception : X → Bool
  pub is_retryable_result : Option (A → Bool)
  pub retry_delay_for_exception : Option (X → Option ℤ)
  pub retry_delay_for_result : Option (A → Option ℤ)

-- `_retry_delay`
unfoldable pub retry_delay : ℕ → ℕ → Option ℤ → ℕ
retry_delay attempt base_delay none = base_delay * 2 ^ attempt
retry_delay attempt base_delay (some (pos d)) = d
retry_delay attempt base_delay (some (negsuc d)) = base_delay * 2 ^ attempt

abbrev pub asked : {Y : Type 0} → Option (Y → Option ℤ) → Y → Option ℤ
asked none y = none
asked (some f) y = f y

abbrev pub wants_retry : {A : Type 0} → Option (A → Bool) → A → Bool
wants_retry none result = false
wants_retry (some f) result = f result

module _ {X A W : Type 0} (operation : W → Result X A × W) (sleep : ℕ → W → W)
    (policy : Policy X A) where
  -- One turn of the loop behind the call; `left` turns are left after it, and `rest` is the rest.
  unfoldable pub judge :
      ℕ → ℕ → (W → Result (Failure X) A × W) → Result X A × W → Result (Failure X) A × W
  unfolding retry_delay
  judge left attempt rest (ok result, w) =
      elim (not (wants_retry policy.is_retryable_result result) || leb left 0) [
        | true ↦ (ok result, w)
        | false ↦ rest (
            sleep
              (retry_delay attempt (pos_part policy.base_delay)
                (asked policy.retry_delay_for_result result))
              w)
      ]
  judge left attempt rest (err x, w) = elim (not (policy.is_retryable_exception x) || leb left 0) [
    | true ↦ (err (exc x), w)
    | false ↦ rest (
        sleep
          (retry_delay attempt (pos_part policy.base_delay)
            (asked policy.retry_delay_for_exception x))
          w)
  ]

  -- `for attempt in range(max_attempts)`, from `attempt` on
  unfoldable pub attempts_from : ℕ → ℕ → W → Result (Failure X) A × W
  unfolding judge
  attempts_from zero attempt w = (err no_attempt, w)
  attempts_from (suc left) attempt w =
      judge left attempt (attempts_from left (suc attempt)) (operation w)

  unfoldable pub retry_provider_operation : ℤ → W → Result (Failure X) A × W
  unfolding attempts_from
  retry_provider_operation max_attempts w =
      if is_nonpos max_attempts
      then (err attempts_not_positive, w)
      else (if is_neg policy.base_delay
          then (err delay_negative, w)
          else attempts_from (pos_part max_attempts) 0 w)

-- `RetryConfig` without jitter's random factor, which `jitter` stands for.
pub record RetryConfig : Type 0 where
  pub max_attempts : ℤ
  pub base_delay : ℕ
  pub max_delay : ℕ
  pub exponential_base : ℕ
  pub jitter : Bool

module _ {X A W : Type 0} (func : W → Result X A × W) (sleep : ℕ → W → W) (randomly : ℕ → W → ℕ)
    (config : RetryConfig) where
  unfoldable pub calculate_delay : ℕ → W → ℕ
  calculate_delay attempt w =
      let delay = min (config.base_delay * config.exponential_base ^ attempt) config.max_delay in
      if config.jitter then randomly delay w else delay

  -- One turn behind the call: the last exception is raised after the last turn.
  unfoldable pub turn :
      ℕ → ℕ → (W → Result (Failure X) A × W) → Result X A × W → Result (Failure X) A × W
  unfolding calculate_delay
  turn left attempt rest (ok a, w) = (ok a, w)
  turn left attempt rest (err x, w) = elim (leb left 0) [
    | true ↦ (err (exc x), w)
    | false ↦ rest (sleep (calculate_delay attempt w) w)
  ]

  unfoldable pub execute_from : ℕ → ℕ → W → Result (Failure X) A × W
  unfolding turn
  execute_from zero attempt w = (err no_attempt, w)
  execute_from (suc left) attempt w = turn left attempt (execute_from left (suc attempt)) (func w)

  unfoldable pub execute : W → Result (Failure X) A × W
  unfolding execute_from
  execute w = execute_from (pos_part config.max_attempts) 0 w
