-- ===== src/Tasks/Broker/Receipts.antt =====
-- Who acknowledges a message of infra/plugins/tasks/adapters/_broker.py, and when.
use fastapi_infra.Common.{string_eq, String, none, some, ◌≡◌, arith, Option-cases, inl, inr}
use fastapi_infra.Common.Dict.{lookup, lookup-insert_self, lookup-erase}
use fastapi_infra.Tasks.Models.{TaskEnvelope, TaskState}
use fastapi_infra.Tasks.Broker.{Transport, BrokerTaskQueue, ack_task, complete, cache_task}

module _ {P R W : Type 0} (tr : Transport P R W) where
  ack_task-Spent :
      (k : String) (q : BrokerTaskQueue P R W) → lookup k (ack_task tr k q).receipts ≡ none
  unfolding ack_task
  ack_task-Spent k q = elim (Option-cases (lookup k q.receipts)) [
    | inl none_left ↦ ground arith
    | inr (r, left) ↦ ground (arith, lookup-erase k k q.receipts)
  ]

  complete_spent :
      (k : String) (q : BrokerTaskQueue P R W)
      → lookup k q.receipts ≡ none
      → (complete tr k q).1.world ≡ q.world
  unfolding complete ack_task
  complete_spent k q h = elim (Option-cases (lookup k q.tasks)) [
    | inl unknown ↦ ground arith
    | inr (t, known) ↦ ground arith
  ]

  complete_known :
      (k : String) (q : BrokerTaskQueue P R W) (t : TaskEnvelope P)
      → lookup k q.tasks ≡ some t
      → lookup k (complete tr k q).1.receipts ≡ none
  unfolding complete
  complete_known k q t h = ground (
    arith,
    ack_task-Spent k (cache_task (record t { state = TaskState.completed; error = none }) q),
  )

  complete_acks :
      (k : String) (q : BrokerTaskQueue P R W) (t : TaskEnvelope P) (r : R)
      → lookup k q.tasks ≡ some t
      → lookup k q.receipts ≡ some r
      → ((complete tr k q).1.world ≡ tr.ack r q.world)
        × (lookup t.id (complete tr k q).1.tasks
            ≡ some (record t { state = TaskState.completed; error = none }))
  unfolding complete ack_task
  complete_acks k q t r known left = (
    ground arith,
    ground (
      arith,
      lookup-insert_self t.id (record t { state = TaskState.completed; error = none }) q.tasks,
    ),
  )

  -- A message is acknowledged once: `complete` of a task that is known and has a receipt
  -- acknowledges that receipt and does nothing else to the world, keeps the task as completed, and
  -- the receipt is gone; another `complete` of it changes nothing of the world.
  pub complete-complete :
      (k : String) (q : BrokerTaskQueue P R W) (t : TaskEnvelope P) (r : R)
      → lookup k q.tasks ≡ some t
      → lookup k q.receipts ≡ some r
      → let once = (complete tr k q).1 in
        (once.world ≡ tr.ack r q.world)
        × (lookup t.id once.tasks ≡ some (record t { state = TaskState.completed; error = none }))
        × (lookup k once.receipts ≡ none)
        × ((complete tr k once).1.world ≡ once.world)
  complete-complete k q t r known left =
      let (acked, done) = complete_acks k q t r known left in
      let gone = complete_known k q t known in
      (acked, done, gone, complete_spent k (complete tr k q).1 gone)
