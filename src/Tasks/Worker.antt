-- ===== src/Tasks/Worker.antt =====
-- `TaskWorker` of infra/plugins/tasks/worker.py over a `MemoryTaskQueue`, without instrumentation.
-- Handlers, the clock and the sleep act on a world of the caller's, which also holds the stop flag.
use fastapi_infra.Common.{
  string_eq, ℕ, zero, suc, ◌+◌, ◌-◌, min, max, String, ◌<>◌, Bool, true, false, not, ◌&&◌, Option,
  none, some, List, [], ◌∷◌, length, ltb, leb, if◌then◌else◌, count_if, keep_if, is_empty,
}
use fastapi_infra.Common.Int.{ℤ, pos, pos_part, is_neg, is_nonpos}
use fastapi_infra.Common.Dict.{Dict, lookup}
use fastapi_infra.Common.Result.{Result, ok, err}
use fastapi_infra.Common.Text.{is_blank}
use fastapi_infra.Common.Action.{Action, pure, raise, gets, modify, ◌>>=◌, ◌>>◌}
use fastapi_infra.Tasks.Models.{TaskEnvelope, TaskError, no_handlers}
use fastapi_infra.Tasks.Memory.{MemoryTaskQueue, Queue, dequeue, complete, retry, dead_letter}
pub mod Run
pub mod Counts
pub mod Taken

pub data TaskRunOutcome : Type 0 where
  idle : TaskRunOutcome
  completed : TaskRunOutcome
  retried : TaskRunOutcome
  dead_lettered : TaskRunOutcome

-- `result.processed`
abbrev pub processed : TaskRunOutcome → Bool
processed idle = false
processed _ = true

abbrev pub is_completed : TaskRunOutcome → Bool
is_completed completed = true
is_completed _ = false

abbrev pub is_retried : TaskRunOutcome → Bool
is_retried retried = true
is_retried _ = false

abbrev pub is_dead_lettered : TaskRunOutcome → Bool
is_dead_lettered dead_lettered = true
is_dead_lettered _ = false

pub record TaskWorkerRunConfig : Type 0 where
  pub poll_interval : ℤ
  pub idle_sleep : ℤ
  pub max_tasks : Option ℤ
  pub idle_poll_limit : Option ℤ
  pub require_handlers : Bool
  pub concurrency : ℤ

pub data ConfigError : Type 0 where
  bad_poll_interval : ConfigError
  bad_idle_sleep : ConfigError
  bad_max_tasks : ConfigError
  bad_idle_poll_limit : ConfigError
  bad_concurrency : ConfigError

abbrev some_nonpos : Option ℤ → Bool
some_nonpos none = false
some_nonpos (some n) = is_nonpos n

-- `__post_init__`
unfoldable pub post_init : TaskWorkerRunConfig → Result ConfigError (Unit {0})
post_init c =
    if is_neg c.poll_interval
    then err bad_poll_interval
    else (if is_neg c.idle_sleep
        then err bad_idle_sleep
        else (if some_nonpos c.max_tasks
            then err bad_max_tasks
            else (if some_nonpos c.idle_poll_limit
                then err bad_idle_poll_limit
                else (if is_nonpos c.concurrency then err bad_concurrency else ok tt))))

-- A configuration that `__post_init__` let through: its counts are numbers.
pub record RunConfig : Type 0 where
  pub poll_interval : ℤ
  pub idle_sleep : ℤ
  pub max_tasks : Option ℕ
  pub idle_poll_limit : Option ℕ
  pub require_handlers : Bool
  pub concurrency : ℕ

pub record TaskWorkerRunStats : Type 0 where
  pub processed_count : ℕ
  pub idle_polls : ℕ
  pub stopped : Bool
  pub completed_count : ℕ
  pub retried_count : ℕ
  pub dead_lettered_count : ℕ

-- How a handler's call ends: awaited to its end, an exception with its text and its class, or a
-- result that is not awaitable.
pub data Handled (W : Type 0) : Type 0 where
  returned : W → Handled W
  raised : String → String → W → Handled W
  not_async : W → Handled W

pub data RetryBackoff (P : Type 0) : Type 0 where
  constant : ℤ → RetryBackoff P
  computed : (TaskEnvelope P → ℤ) → RetryBackoff P

pub record TaskWorker (P W : Type 0) : Type 0 where
  pub handlers : Dict String (TaskEnvelope P → W → Handled W)
  pub retry_backoff : RetryBackoff P

pub record Site (P W : Type 0) : Type 0 where
  pub queue : MemoryTaskQueue P
  pub world : W

-- What stands outside: the clock, `repr` of a string, the stop flag, the sleep, and
-- `asyncio.gather` of that many `_run_once`.
pub record Outside (P W : Type 0) : Type 0 where
  pub now : W → ℕ
  pub repr : String → String
  pub stopped : W → Bool
  pub clear_stop : W → W
  pub sleep_or_stop : ℤ → W → W
  pub gather : ℕ → Site P W → Result TaskError (List TaskRunOutcome) × Site P W

abbrev pub Work : Type 0 → Type 0 → Type 0 → Type 0
Work P W A = Action TaskError (Site P W) A

abbrev pub delay_for : {P : Type 0} → RetryBackoff P → TaskEnvelope P → ℤ
delay_for (constant d) task = pos (pos_part d)
delay_for (computed f) task = pos (pos_part (f task))

module _ {P W : Type 0} where
  -- A call of the queue's.
  abbrev pub on_queue : {A : Type 0} → Queue P A → Work P W A
  on_queue call s = let (r, q) = call s.queue in (r, record s { queue = q })

module _ {P W : Type 0} (out : Outside P W) (worker : TaskWorker P W) where
  unfoldable pub handle_failure : TaskEnvelope P → String → Work P W TaskRunOutcome
  handle_failure task reason =
      if ltb task.attempts task.max_attempts
      then (do
        now ← gets (λ s. out.now s.world)
        on_queue (retry now task.id reason (delay_for worker.retry_backoff task))
        pure retried)
      else (do on_queue (dead_letter task.id reason); pure dead_lettered)

  -- What follows the handler's call.
  unfoldable pub conclude : TaskEnvelope P → Handled W → Work P W TaskRunOutcome
  unfolding handle_failure
  conclude task (returned w) = do
    modify (λ s. record s { world = w })
    on_queue (complete task.id)
    pure completed
  conclude task (raised text class w) = do
    modify (λ s. record s { world = w })
    handle_failure task (if is_blank text then class else text)
  conclude task (not_async w) = do
    modify (λ s. record s { world = w })
    handle_failure task ("Task handler " <> out.repr task.name <> " must be async")

  unfoldable pub process_task : TaskEnvelope P → Work P W TaskRunOutcome
  unfolding conclude
  process_task task = elim (lookup task.name worker.handlers) [
    | none ↦ do
      on_queue (dead_letter task.id ("No task handler registered for " <> out.repr task.name))
      pure dead_lettered
    | some handler ↦ λ s. conclude task (handler task s.world) s
  ]

  unfoldable pub process_some : Option (TaskEnvelope P) → Work P W TaskRunOutcome
  unfolding process_task
  process_some none = pure idle
  process_some (some task) = process_task task

  unfoldable pub run_once : Work P W TaskRunOutcome
  unfolding process_some
  run_once = do now ← gets (λ s. out.now s.world); task ← on_queue (dequeue now); process_some task

  unfoldable pub run_batch : ℕ → Work P W (List TaskRunOutcome)
  unfolding run_once
  run_batch (suc zero) = do result ← run_once; pure (result ∷ [])
  run_batch n = out.gather n
