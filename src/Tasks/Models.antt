-- ===== src/Tasks/Models.antt =====
-- infra/plugins/tasks/models.py. Times are whole ticks of the queue's clock.
use fastapi_infra.Common.{ℕ, String, Option, none, some, if◌then◌else◌}
use fastapi_infra.Common.Result.{Result, ok, err}
use fastapi_infra.Common.Text.{strip, is_blank}

pub data TaskState : Type 0 where
  queued : TaskState
  running : TaskState
  completed : TaskState
  failed : TaskState
  dead_lettered : TaskState

pub record TaskEnvelope (P : Type 0) : Type 0 where
  pub id : String
  pub name : String
  pub payload : Option P
  pub idempotency_key : Option String
  pub state : TaskState
  pub error : Option String
  pub attempts : ℕ
  pub max_attempts : ℕ
  pub available_at : ℕ

-- What the queue and the worker raise: a blank key, a `max_attempts` below one (the model's `ge=1`),
-- an id that is not in the dictionary, `popleft` of an empty deque, no handler registered.
pub data TaskError : Type 0 where
  blank_key : TaskError
  invalid_attempts : TaskError
  unknown_task : String → TaskError
  empty_deque : TaskError
  no_handlers : TaskError

unfoldable pub normalize_idempotency_key : Option String → Result TaskError (Option String)
normalize_idempotency_key none = ok none
normalize_idempotency_key (some value) =
    let normalized = strip value in
    if is_blank normalized then err blank_key else ok (some normalized)
