-- ===== src/Saga/Tests.antt =====
-- A transaction that fails at its second step, and the theorem at that input.
use fastapi_infra.Common.{string_eq, ℕ, String, false, none, some, List, [], ◌∷◌, ◌≡◌, ◌⊎◌, refl}
use fastapi_infra.Common.Int.{ℤ, pos}
use fastapi_infra.Common.Dict.{insert}
use fastapi_infra.Common.Result.{Result, ok, err}
use fastapi_infra.Common.Text.{strip}
use fastapi_infra.Saga.{
  Operation, TransactionResult, no_progress, execute_with_compensation, execute_each,
  execute_operation, validate_operations, validate_each, after, give_up, compensate,
  compensate_each, compensate_one,
}
use fastapi_infra.Saga.Undo.{IsDone, IsUndone}
use fastapi_infra.Saga.Undo

-- The world is a log.
abbrev World : Type 0
World = List String

abbrev step : String → Result String ℕ → Operation String ℕ World
step name answer = record {
  name = name;
  execute = λ w. (answer, name ∷ w);
  compensate = some (λ w. (none, "undo" ∷ w));
  timeout_seconds = some (pos 5);
}

abbrev operations : List (Operation String ℕ World)
operations = step "reserve" (ok 1) ∷ step "charge" (err "declined") ∷ step "ship" (ok 2) ∷ []

abbrev in_time : ℤ → (World → Result String ℕ × World) → World → Result String ℕ × World
in_time seconds call = call

abbrev report : TransactionResult String ℕ
report = record {
  success = false;
  completed_operations = "reserve" ∷ [];
  results = ("reserve", 1) ∷ [];
  failed_operations = record { operation = "charge"; error = "declined" } ∷ [];
  compensated_operations = "reserve" ∷ [];
  compensation_failures = [];
  error = some "declined";
}

failed :
    execute_with_compensation in_time operations false []
    ≡ ok (report, "undo" ∷ "charge" ∷ "reserve" ∷ [])
unfolding execute_with_compensation execute_each execute_operation validate_operations validate_each
    after give_up compensate compensate_each compensate_one strip string_eq insert
failed = refl

execute_with_compensation-outcome_example :
    IsDone operations no_progress report ⊎ IsUndone operations no_progress report
execute_with_compensation-outcome_example =
    Undo.execute_with_compensation-outcome in_time operations []
      ("undo" ∷ "charge" ∷ "reserve" ∷ []) report failed
