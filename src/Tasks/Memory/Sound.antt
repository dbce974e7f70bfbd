-- ===== src/Tasks/Memory/Sound.antt =====
-- What `MemoryTaskQueue` keeps true (infra/plugins/tasks/adapters/memory.py): no queued task is
-- lost from the deque, and a remembered key leads to its task.
use fastapi_infra.Common.{
  string_eq, ℕ, zero, suc, String, true, false, Option, none, some, List, [], ◌∷◌, ◌++◌, length,
  ◌≡◌, refl, arith, contains, contains-append, ◌==◌, ◌⊎◌, Bool-cases, Option-cases, List-cases, inl,
  inr, leb,
}
use fastapi_infra.Common.Int.{ℤ}
use fastapi_infra.Common.Dict.{Dict, lookup, insert, lookup-insert}
use fastapi_infra.Tasks.Models.{TaskEnvelope}
use fastapi_infra.Tasks.Memory.{
  MemoryTaskQueue, judge, Turn, drop, rotate, take, is_queued, dequeue_loop, dequeue, started,
  write, add_task, remember, get, complete, fail, dead_letter, retry,
}

module _ {P : Type 0} where
  abbrev pub Named : MemoryTaskQueue P → Type 0
  Named q = (k : String) (t : TaskEnvelope P) → lookup k q.tasks ≡ some t → t.id ≡ k

  abbrev pub Waiting : MemoryTaskQueue P → Type 0
  Waiting q =
      (k : String) (t : TaskEnvelope P)
      → lookup k q.tasks ≡ some t
      → is_queued t.state ≡ true
      → contains q.queue k ≡ true

  abbrev pub HasTask : Dict String (TaskEnvelope P) → String → String → Type 0
  HasTask tasks key k =
      (t : TaskEnvelope P) × (lookup k tasks ≡ some t) × (t.idempotency_key ≡ some key)

  abbrev pub Remembered : MemoryTaskQueue P → Type 0
  Remembered q = (key k : String) → lookup key q.idempotency_keys ≡ some k → HasTask q.tasks key k

  abbrev pub IsSound : MemoryTaskQueue P → Type 0
  IsSound q = Named q × Waiting q × Remembered q

  -- One task changes in place: its id and key stay.
  pub change-HasTask :
      (tasks : Dict String (TaskEnvelope P)) (k : String) (t t' : TaskEnvelope P)
      → lookup k tasks ≡ some t
      → t'.idempotency_key ≡ t.idempotency_key
      → (key j : String) → HasTask tasks key j
      → HasTask (insert k t' tasks) key j
  change-HasTask tasks k t t' found same key j (u, at, mine) = elim (Bool-cases (j == k)) [
    | inl hit ↦ (t', ground (arith, lookup-insert j k t' tasks), ground arith)
    | inr miss ↦ (u, ground (arith, lookup-insert j k t' tasks), mine)
  ]

  pub change-IsSound :
      (q : MemoryTaskQueue P) (queue : List String) (k : String) (t t' : TaskEnvelope P)
      → lookup k q.tasks ≡ some t
      → t'.idempotency_key ≡ t.idempotency_key
      → t'.id ≡ t.id
      → ((j : String) → contains q.queue j ≡ true → (j == k) ≡ false → contains queue j ≡ true)
      → (is_queued t'.state ≡ true → contains queue k ≡ true)
      → IsSound q
      → IsSound (record q { queue = queue; tasks = insert k t' q.tasks })
  change-IsSound q queue k t t' found same named others mine (ns, ws, rs) = (
    λ j u at. ground (arith, lookup-insert j k t' q.tasks, ns j u, ns k t),
    λ j u at w. ground (arith, lookup-insert j k t' q.tasks, ws j u, others j),
    λ key j at. change-HasTask q.tasks k t t' found same key j (rs key j at),
  )

  -- The new state of the task, unless the id is unknown.
  write-IsSound :
      (k : String) (f : TaskEnvelope P → TaskEnvelope P) (q : MemoryTaskQueue P)
      → ((t : TaskEnvelope P) → (f t).idempotency_key ≡ t.idempotency_key)
      → ((t : TaskEnvelope P) → (f t).id ≡ t.id)
      → ((t : TaskEnvelope P) → is_queued (f t).state ≡ false)
      → IsSound q
      → IsSound (write k f q).1
  unfolding write
  write-IsSound k f q key name ended s = elim (Option-cases (lookup k q.tasks)) [
    | inl h ↦ rw (h, write) s
    | inr (t, h) ↦
        rw (h, write)
          (change-IsSound q q.queue k t (f t) h (key t) (name t) (λ j at _. at)
            (λ w. absurd (ground (arith, ended t))) s)
  ]

  pub complete-IsSound : (k : String) (q : MemoryTaskQueue P) → IsSound q → IsSound (complete k q).1
  unfolding complete
  complete-IsSound k q s = write-IsSound k _ q (λ t. refl) (λ t. refl) (λ t. refl) s

  pub fail-IsSound :
      (k reason : String) (q : MemoryTaskQueue P) → IsSound q → IsSound (fail k reason q).1
  unfolding fail
  fail-IsSound k reason q s = write-IsSound k _ q (λ t. refl) (λ t. refl) (λ t. refl) s

  pub dead_letter-IsSound :
      (k reason : String) (q : MemoryTaskQueue P) → IsSound q → IsSound (dead_letter k reason q).1
  unfolding dead_letter
  dead_letter-IsSound k reason q s = write-IsSound k _ q (λ t. refl) (λ t. refl) (λ t. refl) s

  pub retry-IsSound :
      (now : ℕ) (k reason : String) (delay : ℤ) (q : MemoryTaskQueue P)
      → IsSound q
      → IsSound (retry now k reason delay q).1
  unfolding retry
  retry-IsSound now k reason delay q s = elim (Option-cases (lookup k q.tasks)) [
    | inl h ↦ rw (h, retry) s
    | inr (t, h) ↦
        rw (h, retry)
          (change-IsSound q (q.queue ++ k ∷ []) k t _ h refl refl
            (λ j at _. ground (arith, contains-append q.queue (k ∷ []) j))
            (λ _. ground (arith, contains-append q.queue (k ∷ []) k)) s)
  ]

  add_HasTask :
      (t : TaskEnvelope P) (tasks : Dict String (TaskEnvelope P)) (key k : String)
      → lookup t.id tasks ≡ none
      → HasTask tasks key k
      → HasTask (insert t.id t tasks) key k
  add_HasTask t tasks key k fresh (u, at, mine) =
      (u, ground (arith, lookup-insert k t.id t tasks), mine)

  remember-Remembered :
      (t : TaskEnvelope P) (tasks : Dict String (TaskEnvelope P)) (ids : Dict String String)
      (o : Option String)
      → t.idempotency_key ≡ o
      → lookup t.id tasks ≡ none
      → ((key k : String) → lookup key ids ≡ some k → HasTask tasks key k)
      → (key k : String) → lookup key (remember o t.id ids) ≡ some k
      → HasTask (insert t.id t tasks) key k
  remember-Remembered t tasks ids none mine fresh rs key k at =
      add_HasTask t tasks key k fresh (rs key k at)
  remember-Remembered t tasks ids (some own) mine fresh rs key k at =
      elim (Bool-cases (key == own)) [
        | inl hit ↦ (
          t,
          ground (arith, lookup-insert key own t.id ids, lookup-insert k t.id t tasks),
          ground arith,
        )
        | inr miss ↦
            add_HasTask t tasks key k fresh
              (rs key k (ground (arith, lookup-insert key own t.id ids)))
      ]

  pub add_task-IsSound :
      (t : TaskEnvelope P) (q : MemoryTaskQueue P)
      → lookup t.id q.tasks ≡ none
      → IsSound q
      → IsSound (add_task t q).1
  unfolding add_task
  add_task-IsSound t q fresh s = elim (Bool-cases (leb 1 t.max_attempts)) [
    | inr few ↦ rw (few, add_task) s
    | inl enough ↦
        rw (enough, add_task)
          (
            λ j u at. ground (arith, lookup-insert j t.id t q.tasks, s.0 j u),
            λ j u at w. ground (
              arith,
              lookup-insert j t.id t q.tasks,
              s.1 j u,
              contains-append q.queue (t.id ∷ []) j,
            ),
            remember-Remembered t q.tasks q.idempotency_keys t.idempotency_key refl fresh s.2,
          )
  ]

  drop-IsSound :
      (now : ℕ) (k : String) (rest : List String) (q : MemoryTaskQueue P)
      → q.queue ≡ k ∷ rest
      → judge now (lookup k q.tasks) ≡ drop
      → IsSound q
      → IsSound (record q { queue = rest })
  drop-IsSound now k rest q h j (ns, ws, rs) =
      (ns, λ i t at w. ground (arith, ws i t at w, j, h), rs)

  rotate-IsSound :
      (k : String) (rest : List String) (q : MemoryTaskQueue P)
      → q.queue ≡ k ∷ rest
      → IsSound q
      → IsSound (record q { queue = rest ++ k ∷ [] })
  rotate-IsSound k rest q h (ns, ws, rs) =
      (ns, λ i t at w. ground (arith, ws i t at w, contains-append rest (k ∷ []) i, h), rs)

  -- What a task that is handed out was.
  pub judge-take :
      (now : ℕ) (o : Option (TaskEnvelope P)) (t' : TaskEnvelope P)
      → judge now o ≡ take t'
      → (t : TaskEnvelope P) × (o ≡ some t) × (t' ≡ started t) × (is_queued t.state ≡ true)
  judge-take now none t' h = absurd (ground arith)
  judge-take now (some t) t' h = (t, refl, ground arith, ground arith)

  take-IsSound :
      (now : ℕ) (k : String) (rest : List String) (q : MemoryTaskQueue P) (t' : TaskEnvelope P)
      → q.queue ≡ k ∷ rest
      → judge now (lookup k q.tasks) ≡ take t'
      → IsSound q
      → IsSound (record q { queue = rest; tasks = insert k t' q.tasks })
  take-IsSound now k rest q t' h j s =
      let (t, found, is, w) = judge-take now (lookup k q.tasks) t' j in
      rw is (
        change-IsSound q rest k t (started t) found refl refl (λ i at other. ground arith)
          (λ v. absurd (ground arith)) s)

  Turn-cases : (j : Turn P) → (j ≡ drop) ⊎ ((j ≡ rotate) ⊎ ((t : TaskEnvelope P) × (j ≡ take t)))
  Turn-cases drop = inl refl
  Turn-cases rotate = inr (inl refl)
  Turn-cases (take t) = inr (inr (t, refl))

  dequeue_loop-IsSound :
      (n now : ℕ) (q : MemoryTaskQueue P) → IsSound q → IsSound (dequeue_loop n now q).1
  unfolding dequeue_loop
  dequeue_loop-IsSound zero now q s = s
  dequeue_loop-IsSound (suc n) now q s = elim (List-cases q.queue) [
    | inl h ↦ rw (h, dequeue_loop) s
    | inr (k, rest, h) ↦ elim (Turn-cases (judge now (lookup k q.tasks))) [
      | inl j ↦
          rw (h, j, dequeue_loop)
            (dequeue_loop-IsSound n now (record q { queue = rest })
              (drop-IsSound now k rest q h j s))
      | inr (inl j) ↦
          rw (h, j, dequeue_loop)
            (dequeue_loop-IsSound n now (record q { queue = rest ++ k ∷ [] })
              (rotate-IsSound k rest q h s))
      | inr (inr (t, j)) ↦ rw (h, j, dequeue_loop) (take-IsSound now k rest q t h j s)
    ]
  ]

  pub dequeue-IsSound : (now : ℕ) (q : MemoryTaskQueue P) → IsSound q → IsSound (dequeue now q).1
  unfolding dequeue
  dequeue-IsSound now q s = dequeue_loop-IsSound (length q.queue) now q s

  pub get-IsSound : (k : String) (q : MemoryTaskQueue P) → IsSound q → IsSound (get k q).1
  unfolding get
  get-IsSound k q s = elim (Option-cases (lookup k q.tasks)) [
    | inl h ↦ rw (h, get) s
    | inr (t, h) ↦ rw (h, get) s
  ]
