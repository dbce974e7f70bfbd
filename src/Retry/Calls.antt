-- ===== src/Retry/Calls.antt =====
-- How often the loops of infra/plugins/retry.py and infra/http/resilience.py call, and with what
-- they end.
use fastapi_infra.Common.{
  ℕ, zero, suc, ◌+◌, ◌≤◌, Bool, true, false, not, ◌||◌, ◌≡◌, ◌≢◌, ◌⊎◌, inl, inr, refl, subst, arith,
  leb, Bool-cases,
}
use fastapi_infra.Common.Int.{ℤ, pos_part, is_nonpos, is_neg, pos, negsuc}
use fastapi_infra.Common.Result.{Result, ok, err}
use fastapi_infra.Retry.{
  Failure, exc, no_attempt, Policy, wants_retry, judge, attempts_from, retry_provider_operation,
}

not_zero : (z : ℤ) → is_nonpos z ≡ false → pos_part z ≢ 0
not_zero (pos n) h = ground arith
not_zero (negsuc n) h = absurd (ground arith)

-- A world that counts the calls of the operation.
pub record IsCounted {X A W : Type 0} (calls : W → ℕ) (operation : W → Result X A × W)
    (sleep : ℕ → W → W) : Type 0 where
  pub called : (w : W) → calls (operation w).1 ≡ suc (calls w)
  pub slept : (d : ℕ) (w : W) → calls (sleep d w) ≡ calls w

-- An end that asks for no further call.
abbrev pub is_final : {X A : Type 0} → Policy X A → Result (Failure X) A → Bool
is_final policy (ok a) = not (wants_retry policy.is_retryable_result a)
is_final policy (err (exc x)) = not (policy.is_retryable_exception x)
is_final policy (err _) = false

module _ {X A W : Type 0} (operation : W → Result X A × W) (sleep : ℕ → W → W) (policy : Policy X A)
    (calls : W → ℕ) (counted : IsCounted calls operation sleep) where
  -- With `left` turns: a final end within them, or a spent budget; never an end without a call.
  abbrev pub Spends : ℕ → ℕ → Result (Failure X) A × W → Type 0
  Spends left before end =
      (calls end.1 ≤ before + left)
      × (end.0 ≢ err no_attempt)
      × ((is_final policy end.0 ≡ true) ⊎ (calls end.1 ≡ before + left))

  slept-Spends :
      (left : ℕ) (rest : W → Result (Failure X) A × W) (d : ℕ) (w : W)
      → left ≢ 0
      → ((v : W) → left ≢ 0 → Spends left (calls v) (rest v))
      → Spends left (calls w) (rest (sleep d w))
  slept-Spends left rest d w more next =
      subst (λ n. Spends left n (rest (sleep d w))) (counted.slept d w) (next (sleep d w) more)

  stop-Spends :
      (left : ℕ) (r : Result (Failure X) A) (w : W)
      → r ≢ err no_attempt
      → (is_final policy r || leb left 0) ≡ true
      → Spends left (calls w) (r, w)
  stop-Spends left r w some_call stop = (
    omega arith,
    some_call,
    elim (Bool-cases (is_final policy r)) [ inl final ↦ inl final | inr more ↦ inr (ground arith) ],
  )

  judge-Spends :
      (left attempt : ℕ) (rest : W → Result (Failure X) A × W) (o : Result X A × W)
      → ((w : W) → left ≢ 0 → Spends left (calls w) (rest w))
      → Spends left (calls o.1) (judge operation sleep policy left attempt rest o)
  unfolding judge
  judge-Spends left attempt rest (ok a, w) next =
      elim (Bool-cases (is_final policy (ok a) || leb left 0)) [
        | inl stop ↦ rw (stop, judge) (stop-Spends left (ok a) w (λ p. absurd (ground arith)) stop)
        | inr on ↦ rw (on, judge) (slept-Spends left rest _ w (ground arith) next)
      ]
  judge-Spends left attempt rest (err x, w) next =
      elim (Bool-cases (is_final policy (err (exc x)) || leb left 0)) [
        | inl stop ↦
            rw (stop, judge) (stop-Spends left (err (exc x)) w (λ p. absurd (ground arith)) stop)
        | inr on ↦ rw (on, judge) (slept-Spends left rest _ w (ground arith) next)
      ]

  attempts_from-Spends :
      (left attempt : ℕ) (w : W)
      → left ≢ 0
      → Spends left (calls w) (attempts_from operation sleep policy left attempt w)
  unfolding attempts_from
  attempts_from-Spends zero attempt w some_left = absurd (some_left refl)
  attempts_from-Spends (suc left) attempt w some_left =
      let (a, b, c) =
        judge-Spends left attempt (attempts_from operation sleep policy left (suc attempt))
          (operation w) (λ v more. attempts_from-Spends left (suc attempt) v more) in
      (
        omega (arith, a, counted.called w),
        b,
        elim c [ inl final ↦ inl final | inr spent ↦ inr (omega (arith, spent, counted.called w)) ],
      )

  -- With a positive budget and a base delay that is not negative, the operation is called at most
  -- `max_attempts` times; the loop ends with an answer or exception that asks for no retry, or else
  -- with all the attempts spent; and it never ends with the error of an empty loop.
  pub retry_provider_operation-Spends :
      (max_attempts : ℤ) (w : W)
      → is_nonpos max_attempts ≡ false
      → is_neg policy.base_delay ≡ false
      → Spends
          (pos_part max_attempts)
          (calls w)
          (retry_provider_operation operation sleep policy max_attempts w)
  unfolding retry_provider_operation
  retry_provider_operation-Spends max_attempts w positive delay =
      rw (positive, delay, retry_provider_operation)
        (attempts_from-Spends (pos_part max_attempts) 0 w (not_zero max_attempts positive))
