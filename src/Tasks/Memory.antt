-- ===== src/Tasks/Memory.antt =====
-- `MemoryTaskQueue` of infra/plugins/tasks/adapters/memory.py. The clock and `uuid4().hex` are
-- arguments of the operations that read them.
use fastapi_infra.Common.{
  string_eq, ℕ, zero, suc, ◌+◌, String, Bool, true, false, Option, none, some, List, [], ◌∷◌, ◌++◌,
  length, ltb, leb, if◌then◌else◌,
}
use fastapi_infra.Common.Int.{ℤ, pos_part}
use fastapi_infra.Common.Dict.{Dict, lookup, insert}
use fastapi_infra.Common.Result.{Result, ok, err}
use fastapi_infra.Common.Action.{Action, pure, raise, ◌>>=◌}
use fastapi_infra.Tasks.Models.{
  TaskState, queued, running, completed, failed, dead_lettered, TaskEnvelope, TaskError,
  invalid_attempts, unknown_task, empty_deque, normalize_idempotency_key,
}
pub mod Order
pub mod Sound
pub mod Reach

pub record MemoryTaskQueue (P : Type 0) : Type 0 where
  pub queue : List String
  pub tasks : Dict String (TaskEnvelope P)
  pub idempotency_keys : Dict String String

abbrev pub is_queued : TaskState → Bool
is_queued TaskState.queued = true
is_queued _ = false

abbrev pub Queue : Type 0 → Type 0 → Type 0
Queue P A = Action TaskError (MemoryTaskQueue P) A

-- `if normalized_key is not None: self._idempotency_keys[normalized_key] = task.id`
abbrev pub remember : Option String → String → Dict String String → Dict String String
remember none task_id d = d
remember (some key) task_id d = insert key task_id d

-- What one turn of the loop of `dequeue` does with the id it took from the left.
pub data Turn (P : Type 0) : Type 0 where
  drop : Turn P
  rotate : Turn P
  take : TaskEnvelope P → Turn P

module _ {P : Type 0} where
  abbrev pub empty_queue : MemoryTaskQueue P
  empty_queue = record { queue = []; tasks = []; idempotency_keys = [] }

  -- `self._tasks[task_id]`
  unfoldable pub get : String → Queue P (TaskEnvelope P)
  get task_id q = elim (lookup task_id q.tasks) [
    | none ↦ (err (unknown_task task_id), q)
    | some task ↦ (ok task, q)
  ]

  -- An assignment to fields of the task, which the dictionary shares.
  unfoldable pub write : String → (TaskEnvelope P → TaskEnvelope P) → Queue P (Unit {0})
  write task_id change q = elim (lookup task_id q.tasks) [
    | none ↦ (err (unknown_task task_id), q)
    | some task ↦ (ok tt, record q { tasks = insert task_id (change task) q.tasks })
  ]

  abbrev pub new_task : ℕ → String → String → Option P → Option String → ℤ → ℕ → TaskEnvelope P
  new_task now uuid name payload key delay_seconds max_attempts = record {
    id = uuid;
    name = name;
    payload = payload;
    idempotency_key = key;
    state = TaskState.queued;
    error = none;
    attempts = 0;
    max_attempts = max_attempts;
    available_at = now + pos_part delay_seconds;
  }

  -- `enqueue` behind the look-up of its key.
  unfoldable pub add_task : TaskEnvelope P → Queue P (TaskEnvelope P)
  add_task task q =
      if leb 1 task.max_attempts
      then (
        ok task,
        record {
          queue = q.queue ++ task.id ∷ [];
          tasks = insert task.id task q.tasks;
          idempotency_keys = remember task.idempotency_key task.id q.idempotency_keys;
        },
      )
      else (err invalid_attempts, q)

  -- `self._idempotency_keys.get(normalized_key)` if there is a key
  abbrev pub existing : Option String → MemoryTaskQueue P → Option String
  existing none q = none
  existing (some key) q = lookup key q.idempotency_keys

  unfoldable pub enqueue :
      ℕ → String → String → Option P → Option String → ℤ → ℕ → Queue P (TaskEnvelope P)
  unfolding add_task get
  enqueue now uuid name payload idempotency_key delay_seconds max_attempts q =
      elim (normalize_idempotency_key idempotency_key) [
        | err e ↦ (err e, q)
        | ok key ↦ elim (existing key q) [
          | some task_id ↦ get task_id q
          | none ↦ add_task (new_task now uuid name payload key delay_seconds max_attempts) q
        ]
      ]

  abbrev pub started : TaskEnvelope P → TaskEnvelope P
  started task = record task { state = TaskState.running; attempts = suc task.attempts }

  abbrev pub judge_task : ℕ → TaskEnvelope P → Turn P
  judge_task now task =
      if is_queued task.state
      then (if ltb now task.available_at then rotate else take (started task))
      else drop

  abbrev pub judge : ℕ → Option (TaskEnvelope P) → Turn P
  judge now none = drop
  judge now (some task) = judge_task now task

  unfoldable pub dequeue_loop : ℕ → ℕ → Queue P (Option (TaskEnvelope P))
  dequeue_loop zero now q = (ok none, q)
  dequeue_loop (suc n) now q = elim q.queue [
    | [] ↦ (err empty_deque, q)
    | task_id ∷ rest ↦ elim (judge now (lookup task_id q.tasks)) [
      | drop ↦ dequeue_loop n now (record q { queue = rest })
      | rotate ↦ dequeue_loop n now (record q { queue = rest ++ task_id ∷ [] })
      | take task ↦ (ok (some task), record q { queue = rest; tasks = insert task_id task q.tasks })
    ]
  ]

  unfoldable pub dequeue : ℕ → Queue P (Option (TaskEnvelope P))
  unfolding dequeue_loop
  dequeue now q = dequeue_loop (length q.queue) now q

  unfoldable pub complete : String → Queue P (Unit {0})
  unfolding write
  complete task_id = write task_id λ task. record task { state = TaskState.completed; error = none }

  unfoldable pub fail : String → String → Queue P (Unit {0})
  unfolding write
  fail task_id reason =
      write task_id λ task. record task { state = TaskState.failed; error = some reason }

  unfoldable pub dead_letter : String → String → Queue P (Unit {0})
  unfolding write
  dead_letter task_id reason =
      write task_id λ task. record task { state = TaskState.dead_lettered; error = some reason }

  unfoldable pub retry : ℕ → String → String → ℤ → Queue P (Unit {0})
  retry now task_id reason delay_seconds q = elim (lookup task_id q.tasks) [
    | none ↦ (err (unknown_task task_id), q)
    | some task ↦ (
      ok tt,
      record q {
        queue = q.queue ++ task_id ∷ [];
        tasks =
            insert task_id
              (record task {
                state = TaskState.queued;
                error = some reason;
                available_at = now + pos_part delay_seconds;
              })
              q.tasks;
      },
    )
  ]
