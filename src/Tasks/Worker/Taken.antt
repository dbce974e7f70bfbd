-- ===== src/Tasks/Worker/Taken.antt =====
-- Which tasks `TaskWorker.run` of infra/plugins/tasks/worker.py takes, batch by batch, beside its
-- counters.
use fastapi_infra.Common.{
  ℕ, zero, suc, ◌+◌, Bool, Option, some, List, [], ◌∷◌, ◌++◌, ◌≡◌, refl, arith, count_if,
  Bool-cases, inl, inr, Option-cases, ltb, subst,
}
use fastapi_infra.Common.Int.{ℤ}
use fastapi_infra.Common.Result.{ok}
use fastapi_infra.Common.Action.{>>=-eq-ok}
use fastapi_infra.Tasks.Worker.{
  TaskRunOutcome, idle, completed, retried, dead_lettered, processed, is_completed, is_retried,
  is_dead_lettered, RunConfig, TaskWorkerRunStats, TaskWorker, Outside, Work, Site, run_batch,
}
use fastapi_infra.Tasks.Worker.Run.{
  Tally, no_tally, count_results, is_finished, run_count, turn, leave_or, run_loop, report, pause,
}

-- Every outcome but `idle` is of one of three kinds.
pub count_outcomes :
    (results : List TaskRunOutcome)
    → count_if processed results
      ≡ count_if is_completed results
        + count_if is_retried results
        + count_if is_dead_lettered results
count_outcomes [] = refl
count_outcomes (idle ∷ results) = omega (arith, count_outcomes results)
count_outcomes (completed ∷ results) = omega (arith, count_outcomes results)
count_outcomes (retried ∷ results) = omega (arith, count_outcomes results)
count_outcomes (dead_lettered ∷ results) = omega (arith, count_outcomes results)

count_if-append :
    (p : TaskRunOutcome → Bool) (xs ys : List TaskRunOutcome)
    → count_if p (xs ++ ys) ≡ count_if p xs + count_if p ys
count_if-append p [] ys = omega arith
count_if-append p (x ∷ xs) ys = ground (arith, count_if-append p xs ys)

-- From one tally to a later one: the results of each kind are added.
abbrev Adds : Tally → List TaskRunOutcome → Tally → Type 0
Adds c all c' =
    (c'.processed_count ≡ c.processed_count + count_if processed all)
    × (c'.completed_count ≡ c.completed_count + count_if is_completed all)
    × (c'.retried_count ≡ c.retried_count + count_if is_retried all)
    × (c'.dead_lettered_count ≡ c.dead_lettered_count + count_if is_dead_lettered all)

count_results-Adds :
    (results : List TaskRunOutcome) (c : Tally) → Adds c results (count_results results c)
unfolding count_results
count_results-Adds results c = elim (Bool-cases (ltb 0 (count_if processed results))) [
  | inl some_taken ↦ (ground arith, ground arith, ground arith, ground arith)
  | inr all_idle ↦ (
    ground (arith, count_outcomes results),
    ground (arith, count_outcomes results),
    ground (arith, count_outcomes results),
    ground (arith, count_outcomes results),
  )
]

Adds-trans :
    (c d e : Tally) (xs ys : List TaskRunOutcome) → Adds c xs d → Adds d ys e → Adds c (xs ++ ys) e
Adds-trans c d e xs ys (p, q, r, s) (p', q', r', s') = (
  omega (arith, p, p', count_if-append processed xs ys),
  omega (arith, q, q', count_if-append is_completed xs ys),
  omega (arith, r, r', count_if-append is_retried xs ys),
  omega (arith, s, s', count_if-append is_dead_lettered xs ys),
)

module _ {P W : Type 0} (out : Outside P W) (worker : TaskWorker P W) where
  -- What the worker does from one site to another: batches, with the results of all of them, and
  -- sleeps in between.
  pub data Batches : Site P W → Site P W → List TaskRunOutcome → Type 0 where
    no_batch : (s : Site P W) → Batches s s []
    batch :
        {s u v : Site P W} {results later : List TaskRunOutcome} (n : ℕ)
        → run_batch out worker n s ≡ (ok results, u)
        → Batches u v later
        → Batches s v (results ++ later)
    asleep :
        {s v : Site P W} {later : List TaskRunOutcome} (delay : ℤ)
        → Batches (record s { world = out.sleep_or_stop delay s.world }) v later
        → Batches s v later

  -- The statistics count the results of all batches.
  abbrev pub IsCounted : Site P W → Site P W → TaskWorkerRunStats → Type 0
  IsCounted s s' st =
      (all : List TaskRunOutcome) × Batches s s' all
      × (st.processed_count ≡ count_if processed all)
      × (st.completed_count ≡ count_if is_completed all)
      × (st.retried_count ≡ count_if is_retried all)
      × (st.dead_lettered_count ≡ count_if is_dead_lettered all)

  module _ (config : RunConfig) where
    abbrev Took : Tally → Tally → Site P W → Site P W → Type 0
    Took c c' s s' = (all : List TaskRunOutcome) × Batches s s' all × Adds c all c'

    abbrev Takes : (Tally → Work P W (Option Tally)) → Type 0
    Takes rest = (c c' : Tally) (s s' : Site P W) → rest c s ≡ (ok (some c'), s') → Took c c' s s'

    Took-nothing : (c c' : Tally) (s s' : Site P W) → c ≡ c' → s ≡ s' → Took c c' s s'
    Took-nothing c c' s s' same here = (
      [],
      rw (← here) (no_batch s),
      rw (← same) (omega arith, omega arith, omega arith, omega arith),
    )

    leave_or-Takes :
        (rest : Tally → Work P W (Option Tally)) (results : List TaskRunOutcome)
        → Takes rest
        → Takes (leave_or out worker config rest results)
    unfolding leave_or
    leave_or-Takes rest results takes c c' s s' h = elim (Bool-cases (is_finished config c)) [
      | inl end ↦ Took-nothing c c' s s' (ground arith) (ground arith)
      | inr more ↦
          let (all, batches, adds) = takes c c' _ s' (rw (more, leave_or) at h) in
          (all, asleep (pause config results) batches, adds)
    ]

    turn-Takes :
        (rest : Tally → Work P W (Option Tally)) → Takes rest → Takes (turn out worker config rest)
    unfolding turn
    turn-Takes rest takes c c' s s' h =
        let (results, u, a, b) = >>=-eq-ok (run_batch out worker (run_count config c)) _ s h in
        let d = count_results results c in
        let (later, batches, adds) = leave_or-Takes rest results takes d c' u s' b in
        (
          results ++ later,
          batch (run_count config c) a batches,
          Adds-trans c d c' results later (count_results-Adds results c) adds,
        )

    run_loop-Takes : (n : ℕ) → Takes (run_loop out worker config n)
    unfolding run_loop
    run_loop-Takes zero c c' s s' h = absurd (ground arith)
    run_loop-Takes (suc n) c c' s s' h = elim (Bool-cases (out.stopped s.world)) [
      | inl stop ↦ Took-nothing c c' s s' (ground arith) (ground arith)
      | inr on ↦
          turn-Takes (run_loop out worker config n) (run_loop-Takes n) c c' s s'
            (rw (on, run_loop) at h)
    ]

    pub report-IsCounted :
        (fuel : ℕ) (s s' : Site P W) (st : TaskWorkerRunStats)
        → report out worker config fuel s ≡ (ok (some st), s')
        → IsCounted s s' st
    unfolding report
    report-IsCounted fuel s s' st h =
        let (o, u, a, b) = >>=-eq-ok (run_loop out worker config fuel no_tally) _ s h in
        elim (Option-cases o) [
          | inl out_of_fuel ↦ absurd (ground arith)
          | inr (c, same) ↦
              let (all, batches, (p, q, r, d)) =
                run_loop-Takes fuel no_tally c s u (ground arith) in
              let here : u ≡ s' = ground arith in
              (
                all,
                subst (λ v. Batches s v all) here batches,
                ground arith,
                ground arith,
                ground arith,
                ground arith,
              )
        ]
