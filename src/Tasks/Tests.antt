-- ===== src/Tasks/Tests.antt =====
-- Runs of the queues and of the worker, and the theorems at those inputs.
use fastapi_infra.Common.{
  string_eq, ℕ_discrete, ℕ, suc, ◌+◌, ◌≤◌, true, false, none, some, [], ◌∷◌, ◌≡◌, ◌≢◌, refl, arith,
}
use fastapi_infra.Common.Int.{pos}
use fastapi_infra.Common.Dict.{lookup, insert, erase}
use fastapi_infra.Common.Result.{Result, ok, err}
use fastapi_infra.Common.Text.{strip}
use fastapi_infra.Tasks.Models.{TaskEnvelope, TaskError, normalize_idempotency_key}
use fastapi_infra.Tasks.Memory.{
  MemoryTaskQueue, empty_queue, enqueue, add_task, get, dequeue, dequeue_loop, complete, retry,
  dead_letter, write, new_task,
}
use fastapi_infra.Tasks.Memory.Order.{first_due, is_due}
use fastapi_infra.Tasks.Memory.Order
use fastapi_infra.Tasks.Memory.Sound.{IsSound}
use fastapi_infra.Tasks.Memory.Reach.{Reachable, start, enqueued, dequeued}
use fastapi_infra.Tasks.Memory.Reach
use fastapi_infra.Tasks.Worker.{
  RunConfig, TaskWorker, TaskWorkerRunStats, Outside, Site, returned, constant, run_batch, run_once,
  process_some, process_task, conclude, handle_failure,
}
use fastapi_infra.Tasks.Worker.Run.{
  no_tally, run, report, run_loop, turn, leave_or, run_count, remaining_task_budget, is_finished,
  count_results,
}
use fastapi_infra.Tasks.Worker.Counts.{Gathers}
use fastapi_infra.Tasks.Worker.Counts
use fastapi_infra.Tasks.Worker.Taken.{IsCounted}

abbrev Queue : Type 0
Queue = MemoryTaskQueue (Unit {0})

program : Unit {0}
unfolding string_eq ℕ_discrete lookup insert erase strip normalize_idempotency_key enqueue add_task
    get dequeue dequeue_loop complete retry dead_letter write first_due run report run_loop turn
    leave_or run_count remaining_task_budget is_finished count_results run_batch run_once
    process_some process_task conclude handle_failure
program = tt

-- One task with a key, due from 10 on.
abbrev later : Result TaskError (TaskEnvelope (Unit {0})) × Queue
later = enqueue 3 "t1" "mail" none (some " k ") (pos 7) 2 empty_queue

abbrev mail : TaskEnvelope (Unit {0})
mail = new_task 3 "t1" "mail" none (some "k") (pos 7) 2

later_is : later ≡ (ok mail, later.1)
unfolding program
later_is = refl

waiting : (dequeue 9 later.1).0 ≡ ok none
unfolding program
waiting = refl

mail_there : lookup "t1" later.1.tasks ≡ some mail
unfolding program
mail_there = refl

unused : lookup "t1" (empty_queue {P = Unit {0}}).tasks ≡ none
unfolding program
unused = refl

later_reached : Reachable (Unit {0}) later.1
later_reached = enqueued 3 "t1" "mail" none (some " k ") (pos 7) 2 unused start

dequeue-first_due_example : (dequeue 10 later.1).0 ≡ ok (first_due 10 later.1.tasks later.1.queue)
dequeue-first_due_example = Order.dequeue-first_due 10 later.1

Reachable-IsSound_example : IsSound later.1
Reachable-IsSound_example = Reach.Reachable-IsSound later.1 later_reached

dequeue-none_example : is_due 9 mail ≡ false
dequeue-none_example = Reach.dequeue-none 9 later.1 "t1" mail later_reached waiting mail_there

normal : normalize_idempotency_key (some " k ") ≡ ok (some "k")
unfolding program
normal = refl

enqueue_twice_example :
    enqueue 5 "t2" "post" none (some " k ") (pos 0) 9 later.1 ≡ (ok mail, later.1)
enqueue_twice_example =
    Reach.enqueue_twice 3 5 "t1" "t2" "mail" "post" none none (some " k ") (pos 7) (pos 0) 2 9 "k"
      empty_queue later.1 mail normal later_is

-- A worker whose world is the clock.
abbrev clocked : Outside (Unit {0}) ℕ
clocked = record {
  now = λ w. w;
  repr = λ s. s;
  stopped = λ _. false;
  clear_stop = λ w. w;
  sleep_or_stop = λ _ w. suc w;
  gather = λ _ s. (err TaskError.empty_deque, s);
}

clocked-Gathers : Gathers clocked
clocked-Gathers n s s' results h = absurd (ground arith)

abbrev worker : TaskWorker (Unit {0}) ℕ
worker = record { handlers = ("mail", λ _ w. returned w) ∷ []; retry_backoff = constant (pos 0) }

abbrev config : RunConfig
config = record {
  poll_interval = pos 0;
  idle_sleep = pos 1;
  max_tasks = some 1;
  idle_poll_limit = some 3;
  require_handlers = true;
  concurrency = 1;
}

abbrev site : Site (Unit {0}) ℕ
site = record { queue = later.1; world = 8 }

abbrev one_done : TaskWorkerRunStats
one_done = record {
  processed_count = 1;
  idle_polls = 0;
  stopped = false;
  completed_count = 1;
  retried_count = 0;
  dead_lettered_count = 0;
}

ran : run clocked worker config 4 site ≡ (ok (some one_done), (run clocked worker config 4 site).1)
unfolding program
ran = refl

fresh_run : is_finished config no_tally ≡ false
unfolding program
fresh_run = refl

run-IsFair_example :
    IsCounted clocked worker
      (record site { world = clocked.clear_stop site.world })
      (run clocked worker config 4 site).1
      one_done
    × (1 ≡ 1 + 0 + 0)
    × ((m : ℕ) → config.max_tasks ≡ some m → 1 ≤ m)
run-IsFair_example =
    Counts.run-IsFair clocked worker config 4 site (run clocked worker config 4 site).1 one_done
      clocked-Gathers fresh_run ran

run-Ends_example : run clocked worker config 7 site ≢ (ok none, site)
run-Ends_example = Counts.run-Ends clocked worker config 1 3 site site refl refl fresh_run
