-- ===== src/Tasks/Memory/Reach.antt =====
-- The states of a `MemoryTaskQueue` (infra/plugins/tasks/adapters/memory.py) by its operations.
use fastapi_infra.Common.{
  string_eq, ℕ, String, true, false, Option, none, some, List, [], ◌∷◌, ◌≡◌, refl, arith, contains,
  Option-cases, inl, inr,
}
use fastapi_infra.Common.Int.{ℤ}
use fastapi_infra.Common.Dict.{lookup, lookup-nil, lookup-insert_self}
use fastapi_infra.Common.Result.{ok, Result-cases}
use fastapi_infra.Tasks.Models.{TaskEnvelope, normalize_idempotency_key}
use fastapi_infra.Tasks.Memory.{
  MemoryTaskQueue, empty_queue, dequeue, enqueue, add_task, new_task, existing, get, complete, fail,
  dead_letter, retry,
}
use fastapi_infra.Tasks.Memory.Order.{is_due, first_due, dequeue-first_due}
use fastapi_infra.Tasks.Memory.Sound.{
  IsSound, add_task-IsSound, get-IsSound, dequeue-IsSound, complete-IsSound, fail-IsSound,
  dead_letter-IsSound, retry-IsSound,
}

-- Any sequence of calls, with any clock. `uuid4` gives an id that no task has.
pub data Reachable (P : Type 0) : MemoryTaskQueue P → Type 0 where
  start : Reachable P empty_queue
  enqueued :
      {q : MemoryTaskQueue P} (now : ℕ) (uuid name : String) (payload : Option P)
      (key : Option String) (delay : ℤ) (max_attempts : ℕ)
      → lookup uuid q.tasks ≡ none
      → Reachable P q
      → Reachable P (enqueue now uuid name payload key delay max_attempts q).1
  dequeued : {q : MemoryTaskQueue P} (now : ℕ) → Reachable P q → Reachable P (dequeue now q).1
  completed :
      {q : MemoryTaskQueue P} (task_id : String)
      → Reachable P q
      → Reachable P (complete task_id q).1
  failed :
      {q : MemoryTaskQueue P} (task_id reason : String)
      → Reachable P q
      → Reachable P (fail task_id reason q).1
  retried :
      {q : MemoryTaskQueue P} (now : ℕ) (task_id reason : String) (delay : ℤ)
      → Reachable P q
      → Reachable P (retry now task_id reason delay q).1
  dead_lettered :
      {q : MemoryTaskQueue P} (task_id reason : String)
      → Reachable P q
      → Reachable P (dead_letter task_id reason q).1

module _ {P : Type 0} where
  enqueue-IsSound :
      (now : ℕ) (uuid name : String) (payload : Option P) (key : Option String) (delay : ℤ)
      (max_attempts : ℕ) (q : MemoryTaskQueue P)
      → lookup uuid q.tasks ≡ none
      → IsSound q
      → IsSound (enqueue now uuid name payload key delay max_attempts q).1
  unfolding enqueue
  enqueue-IsSound now uuid name payload key delay max_attempts q fresh s =
      elim (Result-cases (normalize_idempotency_key key)) [
        | inr (e, h) ↦ rw (h, enqueue) s
        | inl (o, h) ↦ elim (Option-cases (existing o q)) [
          | inl new ↦
              rw (h, new, enqueue)
                (add_task-IsSound (new_task now uuid name payload o delay max_attempts) q fresh s)
          | inr (k, old) ↦ rw (h, old, enqueue) (get-IsSound k q s)
        ]
      ]

  -- Whatever calls led to the state: no queued task is lost from the deque, every task is kept
  -- under its id, and every remembered key leads to a task with that key.
  pub Reachable-IsSound : (q : MemoryTaskQueue P) → Reachable P q → IsSound q
  Reachable-IsSound q start = (
    λ k t h. ground (arith, lookup-nil {V = TaskEnvelope P} k),
    λ k t h. ground (arith, lookup-nil {V = TaskEnvelope P} k),
    λ key k h. absurd (ground (arith, lookup-nil {V = String} key)),
  )
  Reachable-IsSound q (enqueued {q = p} now uuid name payload key delay max_attempts fresh r) =
      enqueue-IsSound now uuid name payload key delay max_attempts p fresh (Reachable-IsSound p r)
  Reachable-IsSound q (dequeued {q = p} now r) = dequeue-IsSound now p (Reachable-IsSound p r)
  Reachable-IsSound q (completed {q = p} k r) = complete-IsSound k p (Reachable-IsSound p r)
  Reachable-IsSound q (failed {q = p} k why r) = fail-IsSound k why p (Reachable-IsSound p r)
  Reachable-IsSound q (retried {q = p} now k why delay r) =
      retry-IsSound now k why delay p (Reachable-IsSound p r)
  Reachable-IsSound q (dead_lettered {q = p} k why r) =
      dead_letter-IsSound k why p (Reachable-IsSound p r)

  none_due :
      (now : ℕ) (q : MemoryTaskQueue P) (ids : List String) (k : String) (t : TaskEnvelope P)
      → first_due now q.tasks ids ≡ none
      → contains ids k ≡ true
      → lookup k q.tasks ≡ some t
      → is_due now t ≡ false
  unfolding first_due
  none_due now q [] k t h i at = absurd (ground arith)
  none_due now q (id ∷ ids) k t h i at = ground (arith, none_due now q ids k t)

  -- An empty hand means that there is no work: in every reachable state, if `dequeue` gives no task
  -- then no task of the queue is queued and due.
  pub dequeue-none :
      (now : ℕ) (q : MemoryTaskQueue P) (k : String) (t : TaskEnvelope P)
      → Reachable P q
      → (dequeue now q).0 ≡ ok none
      → lookup k q.tasks ≡ some t
      → is_due now t ≡ false
  dequeue-none now q k t r h at =
      ground (
        arith,
        dequeue-first_due now q,
        none_due now q q.queue k t,
        (Reachable-IsSound q r).1 k t at,
      )

  -- Where a call with a key leaves its task.
  get_lem :
      (k : String) (q q' : MemoryTaskQueue P) (t : TaskEnvelope P)
      → get k q ≡ (ok t, q')
      → (lookup k q.tasks ≡ some t) × (q' ≡ q)
  unfolding get
  get_lem k q q' t h = elim (Option-cases (lookup k q.tasks)) [
    | inl miss ↦ absurd (ground arith)
    | inr (u, found) ↦ (ground arith, ground arith)
  ]

  add_task_lem :
      (u : TaskEnvelope P) (key : String) (q q' : MemoryTaskQueue P) (t : TaskEnvelope P)
      → u.idempotency_key ≡ some key
      → add_task u q ≡ (ok t, q')
      → (lookup key q'.idempotency_keys ≡ some u.id) × (lookup u.id q'.tasks ≡ some t)
  unfolding add_task
  add_task_lem u key q q' t mine h = (
    ground (arith, lookup-insert_self key u.id q.idempotency_keys, mine),
    ground (arith, lookup-insert_self u.id u q.tasks),
  )

  keyed :
      (now : ℕ) (uuid name : String) (payload : Option P) (given : Option String) (delay : ℤ)
      (max_attempts : ℕ) (key : String) (q q' : MemoryTaskQueue P) (t : TaskEnvelope P)
      → normalize_idempotency_key given ≡ ok (some key)
      → enqueue now uuid name payload given delay max_attempts q ≡ (ok t, q')
      → (j : String) × (lookup key q'.idempotency_keys ≡ some j) × (lookup j q'.tasks ≡ some t)
  unfolding enqueue
  keyed now uuid name payload given delay max_attempts key q q' t n h =
      elim (Option-cases (lookup key q.idempotency_keys)) [
        | inl new ↦
            let (a, b) =
              add_task_lem (new_task now uuid name payload (some key) delay max_attempts) key q q' t
                refl (ground arith) in
            (uuid, a, b)
        | inr (j, old) ↦
            let (a, b) = get_lem j q q' t (ground arith) in (j, ground arith, ground arith)
      ]

  -- A key is spent once: right after `enqueue` gave a task for a key, another call with the key
  -- gives the same task, whatever its other arguments are, and changes nothing.
  pub enqueue_twice :
      (now now' : ℕ) (uuid uuid' name name' : String) (payload payload' : Option P)
      (given : Option String) (delay delay' : ℤ) (max_attempts max_attempts' : ℕ) (key : String)
      (q q' : MemoryTaskQueue P) (t : TaskEnvelope P)
      → normalize_idempotency_key given ≡ ok (some key)
      → enqueue now uuid name payload given delay max_attempts q ≡ (ok t, q')
      → enqueue now' uuid' name' payload' given delay' max_attempts' q' ≡ (ok t, q')
  unfolding enqueue get
  enqueue_twice now now' uuid uuid' name name' payload payload' given delay delay' m m' key q q' t n
        h =
      let (j, at, found) = keyed now uuid name payload given delay m key q q' t n h in ground arith
