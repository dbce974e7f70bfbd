-- ===== src/Saga.antt =====
-- `TransactionCoordinator` of infra/plugins/transaction/coordinator.py. An exception is a value of
-- `E`, the world that the steps act on is `W`, and `asyncio.wait_for` is an argument. The outer
-- handler of `execute_with_compensation` is left out: in its block only a call of the log could
-- raise, and the log is not modelled.
use fastapi_infra.Common.{
  string_eq, String, Bool, true, false, not, Option, none, some, is_some, List, [], ◌∷◌, ◌++◌, map,
  reverse, contains, is_empty, if◌then◌else◌,
}
use fastapi_infra.Common.Int.{ℤ, is_nonpos}
use fastapi_infra.Common.Dict.{Dict, insert}
use fastapi_infra.Common.Result.{Result, ok, err, ◌>>=◌}
use fastapi_infra.Common.Text.{strip, is_blank}
pub mod Undo
mod Tests

pub record Operation (E A W : Type 0) : Type 0 where
  pub name : String
  pub execute : W → Result E A × W
  pub compensate : Option (W → Option E × W)
  pub timeout_seconds : Option ℤ

pub record OperationFailure (E : Type 0) : Type 0 where
  pub operation : String
  pub error : E

pub record TransactionResult (E A : Type 0) : Type 0 where
  pub success : Bool
  pub completed_operations : List String
  pub results : Dict String A
  pub failed_operations : List (OperationFailure E)
  pub compensated_operations : List String
  pub compensation_failures : List (OperationFailure E)
  pub error : Option E

pub data InvalidOperation : Type 0 where
  empty_name : InvalidOperation
  duplicate_name : String → InvalidOperation
  bad_timeout : String → InvalidOperation

-- The local lists of `execute_with_compensation`.
pub record Progress (E A W : Type 0) : Type 0 where
  pub completed : List String
  pub results : Dict String A
  pub failed : List (OperationFailure E)
  pub compensation_stack : List (Operation E A W)

abbrev pub first_error : {E : Type 0} → List (OperationFailure E) → Option E
first_error [] = none
first_error (f ∷ fs) = some f.error

abbrev some_nonpos : Option ℤ → Bool
some_nonpos none = false
some_nonpos (some t) = is_nonpos t

-- `failed_operation`
abbrev pub failed_operation : {E A : Type 0} → TransactionResult E A → Option String
failed_operation r = elim r.failed_operations [ [] ↦ none | f ∷ fs ↦ some f.operation ]

-- `compensation_succeeded`
abbrev pub compensation_succeeded : {E A : Type 0} → TransactionResult E A → Bool
compensation_succeeded r = is_empty r.compensation_failures

-- What `_compensate` returns.
abbrev pub Report : Type 0 → Type 0
Report E = List String × List (OperationFailure E)

abbrev pub note_compensation : {E : Type 0} → String → Option E → Report E → Report E
note_compensation name none (done, failures) = (done ++ name ∷ [], failures)
note_compensation name (some e) (done, failures) =
    (done, failures ++ record { operation = name; error = e } ∷ [])

module _ {E A W : Type 0} where
  abbrev pub no_progress : Progress E A W
  no_progress = record { completed = []; results = []; failed = []; compensation_stack = [] }

  unfoldable pub validate_each :
      List String → List (Operation E A W) → Result InvalidOperation (Unit {0})
  validate_each names [] = ok tt
  validate_each names (op ∷ ops) =
      let rest = validate_each (op.name ∷ names) ops in
      if is_blank (strip op.name)
      then err empty_name
      else (if contains names op.name
          then err (duplicate_name op.name)
          else (if some_nonpos op.timeout_seconds then err (bad_timeout op.name) else rest))

  unfoldable pub validate_operations : List (Operation E A W) → Result InvalidOperation (Unit {0})
  unfolding validate_each
  validate_operations = validate_each []

  -- One turn of the loop of `_compensate`, and the loop over the stack from its top.
  unfoldable pub compensate_one : Operation E A W → Report E → W → Report E × W
  compensate_one op report w = elim op.compensate [
    | none ↦ (report, w)
    | some undo ↦ let (r, w') = undo w in (note_compensation op.name r report, w')
  ]

  unfoldable pub compensate_each : List (Operation E A W) → Report E → W → Report E × W
  unfolding compensate_one
  compensate_each [] report w = (report, w)
  compensate_each (op ∷ ops) report w =
      let (report', w') = compensate_one op report w in compensate_each ops report' w'

  -- `_compensate`
  unfoldable pub compensate : List (Operation E A W) → W → Report E × W
  unfolding compensate_each
  compensate compensation_stack w = compensate_each (reverse compensation_stack) ([], []) w

  abbrev pub add_done : Operation E A W → A → Progress E A W → Progress E A W
  add_done op a p = record p {
    completed = p.completed ++ op.name ∷ [];
    results = insert op.name a p.results;
    compensation_stack =
        if is_some op.compensate then p.compensation_stack ++ op ∷ [] else p.compensation_stack;
  }

  abbrev pub add_failed : Operation E A W → E → Progress E A W → Progress E A W
  add_failed op e p = record p {
    failed = p.failed ++ record { operation = op.name; error = e } ∷ [];
  }

  -- The `return` behind the loop.
  abbrev pub finish : Progress E A W → TransactionResult E A
  finish p = record {
    success = is_empty p.failed;
    completed_operations = p.completed;
    results = p.results;
    failed_operations = p.failed;
    compensated_operations = [];
    compensation_failures = [];
    error = first_error p.failed;
  }

  -- `if not continue_on_error`
  unfoldable pub give_up : Progress E A W → E → W → TransactionResult E A × W
  unfolding compensate
  give_up p e w =
      let ((done, failures), w') = compensate p.compensation_stack w in
      (
        record {
          success = false;
          completed_operations = p.completed;
          results = p.results;
          failed_operations = p.failed;
          compensated_operations = done;
          compensation_failures = failures;
          error = some e;
        },
        w',
      )

  -- The loop's body behind the call of the operation; `rest` is the rest of the loop.
  unfoldable pub after :
      Bool
      → Operation E A W
      → Progress E A W
      → (Progress E A W → W → TransactionResult E A × W)
      → Result E A × W
      → TransactionResult E A × W
  unfolding give_up
  after continue_on_error op p rest (ok a, w) = rest (add_done op a p) w
  after true op p rest (err e, w) = rest (add_failed op e p) w
  after false op p rest (err e, w) = give_up (add_failed op e p) e w

module _ {E A W : Type 0} (wait_for : ℤ → (W → Result E A × W) → W → Result E A × W) where
  unfoldable pub execute_operation : Operation E A W → W → Result E A × W
  execute_operation op w = elim op.timeout_seconds [
    | none ↦ op.execute w
    | some seconds ↦ wait_for seconds op.execute w
  ]

  unfoldable pub execute_each :
      Bool → List (Operation E A W) → Progress E A W → W → TransactionResult E A × W
  unfolding after execute_operation
  execute_each continue_on_error [] p w = (finish p, w)
  execute_each continue_on_error (op ∷ ops) p w =
      after continue_on_error op p (execute_each continue_on_error ops) (execute_operation op w)

  unfoldable pub execute_with_compensation :
      List (Operation E A W) → Bool → W → Result InvalidOperation (TransactionResult E A × W)
  unfolding validate_operations execute_each
  execute_with_compensation operations continue_on_error w = do
    _ ← validate_operations operations
    ok (execute_each continue_on_error operations no_progress w)
