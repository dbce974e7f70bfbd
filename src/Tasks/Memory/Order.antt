-- ===== src/Tasks/Memory/Order.antt =====
-- `dequeue` of infra/plugins/tasks/adapters/memory.py against a search of the deque from its left.
use mathlib.Core.List.{append_assoc, append-nil}
use fastapi_infra.Common.{
  string_eq, ℕ, String, Bool, not, ◌&&◌, Option, none, some, List, [], ◌∷◌, ◌++◌, length, ◌≡◌, refl,
  arith, ltb, if◌then◌else◌,
}
use fastapi_infra.Common.Dict.{Dict, lookup}
use fastapi_infra.Common.Result.{ok}
use fastapi_infra.Tasks.Models.{TaskEnvelope}
use fastapi_infra.Tasks.Memory.{MemoryTaskQueue, is_queued, dequeue_loop, dequeue, started}

abbrev pub or_else : {A : Type 0} → Option A → Option A → Option A
or_else none later = later
or_else (some a) later = some a

module _ {P : Type 0} where
  abbrev pub is_due : ℕ → TaskEnvelope P → Bool
  is_due now task = is_queued task.state && not (ltb now task.available_at)

  -- The task as `dequeue` hands it out, if the id stands for one that is queued and due.
  abbrev pub due : ℕ → Option (TaskEnvelope P) → Option (TaskEnvelope P)
  due now none = none
  due now (some task) = if is_due now task then some (started task) else none

  unfoldable pub first_due :
      ℕ → Dict String (TaskEnvelope P) → List String → Option (TaskEnvelope P)
  first_due now tasks [] = none
  first_due now tasks (task_id ∷ rest) =
      or_else (due now (lookup task_id tasks)) (first_due now tasks rest)

  loop-first :
      (now : ℕ) (tasks : Dict String (TaskEnvelope P)) (ids : Dict String String)
      (front back : List String)
      → (dequeue_loop
          (length front)
          now
          (record { queue = front ++ back; tasks = tasks; idempotency_keys = ids })).0
        ≡ ok (first_due now tasks front)
  unfolding dequeue_loop first_due
  loop-first now tasks ids [] back = refl
  loop-first now tasks ids (task_id ∷ front) back = ground (
    arith,
    append_assoc front back (task_id ∷ []),
    loop-first now tasks ids front back,
    loop-first now tasks ids front (back ++ task_id ∷ []),
  )

  -- `dequeue` never raises, and hands out the leftmost queued task that is due.
  pub dequeue-first_due :
      (now : ℕ) (q : MemoryTaskQueue P) → (dequeue now q).0 ≡ ok (first_due now q.tasks q.queue)
  unfolding dequeue
  dequeue-first_due now q =
      ground (arith, append-nil q.queue, loop-first now q.tasks q.idempotency_keys q.queue [])
