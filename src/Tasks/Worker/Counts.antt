-- ===== src/Tasks/Worker/Counts.antt =====
-- What the counters of `TaskWorker.run` (infra/plugins/tasks/worker.py) say, and that it ends.
use fastapi_infra.Common.{
  ℕ, zero, suc, ◌+◌, ◌-◌, ◌*◌, ◌≤◌, ◌<◌, false, Option, none, some, List, [], ◌∷◌, ◌≡◌, refl, arith,
  length, count_if, Bool-cases, inl, inr, Option-cases, is_empty, ◌&&◌, ◌≢◌, subst,
}
use fastapi_infra.Common.Result.{ok}
use fastapi_infra.Common.Action.{>>=-eq-ok}
use fastapi_infra.Tasks.Worker.{
  TaskRunOutcome, idle, completed, retried, dead_lettered, processed, RunConfig, TaskWorkerRunStats,
  TaskWorker, Outside, Work, Site, run_once, run_batch,
}
use fastapi_infra.Tasks.Worker.Run.{
  Tally, no_tally, count_results, is_finished, run_count, remaining_task_budget, turn, leave_or,
  run_loop, report, run, pause,
}
use fastapi_infra.Tasks.Worker.Taken.{count_outcomes, IsCounted, report-IsCounted}

processed-le : (results : List TaskRunOutcome) → count_if processed results ≤ length results
processed-le [] = omega arith
processed-le (idle ∷ results) = omega (arith, processed-le results)
processed-le (completed ∷ results) = omega (arith, processed-le results)
processed-le (retried ∷ results) = omega (arith, processed-le results)
processed-le (dead_lettered ∷ results) = omega (arith, processed-le results)

abbrev pub IsFair : RunConfig → Tally → Type 0
IsFair config c =
    (c.processed_count ≡ c.completed_count + c.retried_count + c.dead_lettered_count)
    × ((m : ℕ) → config.max_tasks ≡ some m → c.processed_count ≤ m)

count_results-IsFair :
    (config : RunConfig) (c : Tally) (results : List TaskRunOutcome)
    → is_finished config c ≡ false
    → length results ≤ run_count config c
    → IsFair config c
    → IsFair config (count_results results c)
unfolding count_results is_finished run_count remaining_task_budget
count_results-IsFair config c results more few (sum, within) = (
  ground (arith, count_outcomes results),
  λ m most. ground (arith, processed-le results, within m most, few, more, most),
)

-- One batch leaves fewer turns: `m` tasks to go and `k` idle polls in a row.
abbrev measure : ℕ → ℕ → Tally → ℕ
measure m k c = (m - c.processed_count) * k + (k - c.idle_polls)

-- `asyncio.gather` gives one result for each call.
abbrev pub Gathers : {P W : Type 0} → Outside P W → Type 0
Gathers {P} {W} out =
    (n : ℕ) (s s' : Site P W) (results : List TaskRunOutcome)
    → out.gather n s ≡ (ok results, s')
    → length results ≡ n

measure_fresh : (m k : ℕ) → measure m k no_tally < suc (m * k + k)
measure_fresh m k = grind arith

-- With tasks taken off, a whole round of idle polls is left.
rounds : (a b k : ℕ) → a < b → a * k + k ≤ b * k
rounds a b k h = grind arith

measure-lt :
    (config : RunConfig) (m k : ℕ) (c : Tally) (results : List TaskRunOutcome)
    → config.max_tasks ≡ some m
    → config.idle_poll_limit ≡ some k
    → is_finished config c ≡ false
    → measure m k (count_results results c) < measure m k c
unfolding count_results is_finished
measure-lt config m k c results hm hk more =
    ground (
      arith,
      rounds (m - (c.processed_count + count_if processed results)) (m - c.processed_count) k,
    )

module _ {P W : Type 0} (out : Outside P W) (worker : TaskWorker P W) (config : RunConfig) where
  run_batch-length :
      (n : ℕ) (s s' : Site P W) (results : List TaskRunOutcome)
      → Gathers out
      → run_batch out worker n s ≡ (ok results, s')
      → length results ≡ n
  unfolding run_batch
  run_batch-length zero s s' results g h = g zero s s' results h
  run_batch-length (suc zero) s s' results g h =
      let (r, u, a, b) = >>=-eq-ok (run_once out worker) _ s h in ground arith
  run_batch-length (suc (suc n)) s s' results g h = g (suc (suc n)) s s' results h

  -- The rest of the loop keeps the counters fair.
  abbrev Keeps : (Tally → Work P W (Option Tally)) → Type 0
  Keeps rest =
      (c c' : Tally) (s s' : Site P W)
      → is_finished config c ≡ false
      → IsFair config c
      → rest c s ≡ (ok (some c'), s')
      → IsFair config c'

  leave_or-IsFair :
      (rest : Tally → Work P W (Option Tally)) (results : List TaskRunOutcome) (c c' : Tally)
      (s s' : Site P W)
      → Keeps rest
      → IsFair config c
      → leave_or out worker config rest results c s ≡ (ok (some c'), s')
      → IsFair config c'
  unfolding leave_or
  leave_or-IsFair rest results c c' s s' keeps fair h = elim (Bool-cases (is_finished config c)) [
    | inl end ↦ subst (IsFair config) {x = c} {y = c'} (ground arith) fair
    | inr more ↦ keeps c c' _ s' more fair (rw (more, leave_or) at h)
  ]

  turn-IsFair :
      (rest : Tally → Work P W (Option Tally))
      → Gathers out
      → Keeps rest
      → Keeps (turn out worker config rest)
  unfolding turn
  turn-IsFair rest g keeps c c' s s' more fair h =
      let (results, u, a, b) = >>=-eq-ok (run_batch out worker (run_count config c)) _ s h in
      leave_or-IsFair rest results (count_results results c) c' u s' keeps
        (count_results-IsFair config c results more
          (omega (arith, run_batch-length (run_count config c) s u results g a)) fair)
        b

  run_loop-IsFair : (n : ℕ) → Gathers out → Keeps (run_loop out worker config n)
  unfolding run_loop
  run_loop-IsFair zero g c c' s s' more fair h = absurd (ground arith)
  run_loop-IsFair (suc n) g c c' s s' more fair h = elim (Bool-cases (out.stopped s.world)) [
    | inl stop ↦ subst (IsFair config) {x = c} {y = c'} (ground arith) fair
    | inr on ↦
        turn-IsFair (run_loop out worker config n) g (run_loop-IsFair n g) c c' s s' more fair
          (rw (on, run_loop) at h)
  ]

  report-IsFair :
      (fuel : ℕ) (s s' : Site P W) (st : TaskWorkerRunStats)
      → Gathers out
      → is_finished config no_tally ≡ false
      → report out worker config fuel s ≡ (ok (some st), s')
      → (st.processed_count ≡ st.completed_count + st.retried_count + st.dead_lettered_count)
        × ((m : ℕ) → config.max_tasks ≡ some m → st.processed_count ≤ m)
  unfolding report
  report-IsFair fuel s s' st g fresh h =
      let (o, u, a, b) = >>=-eq-ok (run_loop out worker config fuel no_tally) _ s h in
      elim (Option-cases o) [
        | inl out_of_fuel ↦ absurd (ground arith)
        | inr (c, same) ↦
            let fair =
              run_loop-IsFair fuel g no_tally c s u fresh (refl, λ m _. omega arith)
                (ground arith) in
            (ground (arith, fair.0), λ m most. ground (arith, fair.1 m most))
      ]

  -- The statistics that `run` returns, with any handlers and whether it was stopped or not: from the
  -- cleared stop flag to the end the worker made batches with nothing but sleeps between them, and
  -- each counter is the number of results of its kind in all of these batches. Every task that was
  -- taken has one of the three outcomes, and no more than `max_tasks` were taken. The limits are
  -- positive, as `__post_init__` wants them, and `gather` answers each call once.
  pub run-IsFair :
      (fuel : ℕ) (s s' : Site P W) (st : TaskWorkerRunStats)
      → Gathers out
      → is_finished config no_tally ≡ false
      → run out worker config fuel s ≡ (ok (some st), s')
      → IsCounted out worker (record s { world = out.clear_stop s.world }) s' st
        × (st.processed_count ≡ st.completed_count + st.retried_count + st.dead_lettered_count)
        × ((m : ℕ) → config.max_tasks ≡ some m → st.processed_count ≤ m)
  unfolding run
  run-IsFair fuel s s' st g fresh h =
      elim (Bool-cases (config.require_handlers && is_empty worker.handlers)) [
        | inl idle_worker ↦ absurd (ground arith)
        | inr ready ↦
            let ran = rw (ready, run) at h in
            let (sum, within) = report-IsFair fuel _ s' st g fresh ran in
            (report-IsCounted out worker config fuel _ s' st ran, sum, within)
      ]

  -- Out of fuel: nothing was returned.
  abbrev Ends : (Tally → Work P W (Option Tally)) → (Tally → Type 0) → Type 0
  Ends rest Small =
      (c : Tally) (s s' : Site P W)
      → is_finished config c ≡ false
      → Small c
      → rest c s ≢ (ok none, s')

  turn-Ends :
      (m k n : ℕ) (rest : Tally → Work P W (Option Tally))
      → config.max_tasks ≡ some m
      → config.idle_poll_limit ≡ some k
      → Ends rest (λ c. measure m k c < n)
      → Ends (turn out worker config rest) (λ c. measure m k c < suc n)
  unfolding turn leave_or
  turn-Ends m k n rest hm hk ends c s s' more small h =
      let (results, u, a, b) = >>=-eq-ok (run_batch out worker (run_count config c)) _ s h in
      let c' = count_results results c in
      elim (Bool-cases (is_finished config c')) [
        | inl end ↦ ground arith
        | inr on ↦ ground (
          arith,
          ends c' (record u { world = out.sleep_or_stop (pause config results) u.world }) s' on
              (omega (arith, measure-lt config m k c results hm hk more)),
        )
      ]

  run_loop-Ends :
      (m k n : ℕ)
      → config.max_tasks ≡ some m
      → config.idle_poll_limit ≡ some k
      → Ends (run_loop out worker config n) (λ c. measure m k c < n)
  unfolding run_loop
  run_loop-Ends m k zero hm hk c s s' more small h = omega (arith, small)
  run_loop-Ends m k (suc n) hm hk c s s' more small h = elim (Bool-cases (out.stopped s.world)) [
    | inl stop ↦ ground arith
    | inr on ↦ ground (
      arith,
      turn-Ends m k n (run_loop out worker config n) hm hk (run_loop-Ends m k n hm hk) c s s' more
          small,
    )
  ]

  report-Ends :
      (m k : ℕ) (s s' : Site P W)
      → config.max_tasks ≡ some m
      → config.idle_poll_limit ≡ some k
      → is_finished config no_tally ≡ false
      → report out worker config (suc (m * k + k)) s ≢ (ok none, s')
  unfolding report
  report-Ends m k s s' hm hk fresh h =
      let (o, u, a, b) = >>=-eq-ok (run_loop out worker config (suc (m * k + k)) no_tally) _ s h in
      elim (Option-cases o) [
        | inl out_of_fuel ↦
            run_loop-Ends m k (suc (m * k + k)) hm hk no_tally s u fresh (measure_fresh m k)
              (ground arith)
        | inr (c, same) ↦ ground arith
      ]

  -- The worker's loop ends: with limits `m` on the tasks and `k` on the idle polls, both positive,
  -- `m * k + k + 1` turns are enough, whatever the handlers, the clock and the other workers do.
  pub run-Ends :
      (m k : ℕ) (s s' : Site P W)
      → config.max_tasks ≡ some m
      → config.idle_poll_limit ≡ some k
      → is_finished config no_tally ≡ false
      → run out worker config (suc (m * k + k)) s ≢ (ok none, s')
  unfolding run
  run-Ends m k s s' hm hk fresh h =
      elim (Bool-cases (config.require_handlers && is_empty worker.handlers)) [
        | inl idle_worker ↦ ground arith
        | inr ready ↦ report-Ends m k _ s' hm hk fresh (rw (ready, run) at h)
      ]
