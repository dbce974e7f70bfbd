-- ===== src/Tasks/Worker/Run.antt =====
-- The loop of `TaskWorker.run` in infra/plugins/tasks/worker.py, on fuel.
use fastapi_infra.Common.{
  ℕ, zero, suc, ◌+◌, ◌-◌, min, max, Bool, true, false, ◌||◌, ◌&&◌, Option, none, some, List, leb,
  ltb, count_if, if◌then◌else◌, is_empty,
}
use fastapi_infra.Common.Int.{ℤ}
use fastapi_infra.Common.Result.{ok}
use fastapi_infra.Common.Action.{pure, raise, gets, modify, ◌>>=◌, ◌>>◌}
use fastapi_infra.Tasks.Models.{no_handlers}
use fastapi_infra.Tasks.Worker.{
  TaskRunOutcome, processed, is_completed, is_retried, is_dead_lettered, RunConfig,
  TaskWorkerRunStats, TaskWorker, Outside, Work, run_batch,
}

-- The counters of `run`.
pub record Tally : Type 0 where
  pub processed_count : ℕ
  pub completed_count : ℕ
  pub retried_count : ℕ
  pub dead_lettered_count : ℕ
  pub idle_polls : ℕ

abbrev pub no_tally : Tally
no_tally = record {
  processed_count = 0;
  completed_count = 0;
  retried_count = 0;
  dead_lettered_count = 0;
  idle_polls = 0;
}

unfoldable pub count_results : List TaskRunOutcome → Tally → Tally
count_results results c =
    let n = count_if processed results in
    if ltb 0 n
    then record {
      processed_count = c.processed_count + n;
      completed_count = c.completed_count + count_if is_completed results;
      retried_count = c.retried_count + count_if is_retried results;
      dead_lettered_count = c.dead_lettered_count + count_if is_dead_lettered results;
      idle_polls = 0;
    }
    else record c { idle_polls = suc c.idle_polls }

abbrev pub reached : Option ℕ → ℕ → Bool
reached none n = false
reached (some limit) n = leb limit n

-- The two tests that leave the loop.
unfoldable pub is_finished : RunConfig → Tally → Bool
is_finished config c =
    reached config.max_tasks c.processed_count || reached config.idle_poll_limit c.idle_polls

unfoldable pub remaining_task_budget : RunConfig → ℕ → ℕ
remaining_task_budget config processed_count = elim config.max_tasks [
  | none ↦ config.concurrency
  | some max_tasks ↦ max 1 (max_tasks - processed_count)
]

-- `min(run_config.concurrency, remaining)`
unfoldable pub run_count : RunConfig → Tally → ℕ
unfolding remaining_task_budget
run_count config c = min config.concurrency (remaining_task_budget config c.processed_count)

abbrev pub pause : RunConfig → List TaskRunOutcome → ℤ
pause config results =
    if ltb 0 (count_if processed results) then config.poll_interval else config.idle_sleep

module _ {P W : Type 0} (out : Outside P W) (worker : TaskWorker P W) (config : RunConfig) where
  abbrev pub sleep : ℤ → Work P W (Unit {0})
  sleep delay = modify (λ s. record s { world = out.sleep_or_stop delay s.world })

  -- Leave the loop, or sleep and go on with the rest of it.
  unfoldable pub leave_or :
      (Tally → Work P W (Option Tally)) → List TaskRunOutcome → Tally → Work P W (Option Tally)
  leave_or rest results c = elim (is_finished config c) [
    | true ↦ pure (some c)
    | false ↦ sleep (pause config results) >> rest c
  ]

  -- One turn behind the test of the stop flag.
  unfoldable pub turn : (Tally → Work P W (Option Tally)) → Tally → Work P W (Option Tally)
  unfolding run_count leave_or
  turn rest c = do
    results ← run_batch out worker (run_count config c)
    leave_or rest results (count_results results c)

  -- `none`: out of fuel.
  unfoldable pub run_loop : ℕ → Tally → Work P W (Option Tally)
  unfolding turn
  run_loop zero c s = (ok none, s)
  run_loop (suc n) c s = elim (out.stopped s.world) [
    | true ↦ (ok (some c), s)
    | false ↦ turn (run_loop n) c s
  ]

  abbrev pub stats : Option Tally → Bool → Option TaskWorkerRunStats
  stats none stopped = none
  stats (some c) stopped = some (record {
    processed_count = c.processed_count;
    idle_polls = c.idle_polls;
    stopped = stopped;
    completed_count = c.completed_count;
    retried_count = c.retried_count;
    dead_lettered_count = c.dead_lettered_count;
  })

  unfoldable pub report : ℕ → Work P W (Option TaskWorkerRunStats)
  unfolding run_loop
  report fuel = do
    c ← run_loop fuel no_tally
    stopped ← gets (λ s. out.stopped s.world)
    pure (stats c stopped)

  unfoldable pub run : ℕ → Work P W (Option TaskWorkerRunStats)
  unfolding report
  run fuel = elim (config.require_handlers && is_empty worker.handlers) [
    | true ↦ raise no_handlers
    | false ↦ modify (λ s. record s { world = out.clear_stop s.world }) >> report fuel
  ]
