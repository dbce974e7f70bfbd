-- ===== src/Tasks/Broker.antt =====
-- `BrokerTaskQueue` of infra/plugins/tasks/adapters/_broker.py over a transport that its subclasses
-- provide. The transport acts on the world, and none of its calls raises.
use fastapi_infra.Common.{
  string_eq, ℕ, suc, ◌+◌, ◌-◌, String, Bool, true, false, ◌||◌, Option, none, some, leb, ltb,
  if◌then◌else◌,
}
use fastapi_infra.Common.Int.{ℤ, pos_part}
use fastapi_infra.Common.Dict.{Dict, lookup, insert, erase}
use fastapi_infra.Common.Result.{Result, ok, err}
use fastapi_infra.Common.Action.{Action, pure, raise, gets, modify, ◌>>=◌, ◌>>◌}
use fastapi_infra.Tasks.Models.{
  TaskState, TaskEnvelope, TaskError, unknown_task, invalid_attempts, normalize_idempotency_key,
}
use fastapi_infra.Tasks.Memory.{remember, new_task, started}
pub mod Receipts
mod Tests

pub record BrokerMessage (P R : Type 0) : Type 0 where
  pub task : TaskEnvelope P
  pub receipt : R

pub record Transport (P R W : Type 0) : Type 0 where
  pub now : W → ℕ
  pub send : TaskEnvelope P → ℕ → W → W
  pub receive : W → Option (BrokerMessage P R) × W
  pub ack : R → W → W
  pub send_dead_letter : TaskEnvelope P → W → W

pub record BrokerTaskQueue (P R W : Type 0) : Type 0 where
  pub tasks : Dict String (TaskEnvelope P)
  pub receipts : Dict String R
  pub idempotency_keys : Dict String String
  pub world : W

-- `task.state in ("queued", "running")`
abbrev pub is_live : TaskState → Bool
is_live TaskState.queued = true
is_live TaskState.running = true
is_live _ = false

abbrev pub Call : Type 0 → Type 0 → Type 0 → Type 0 → Type 0
Call P R W A = BrokerTaskQueue P R W → Result TaskError A × BrokerTaskQueue P R W

module _ {P R W : Type 0} where
  abbrev pub on_world : (W → W) → BrokerTaskQueue P R W → BrokerTaskQueue P R W
  on_world f q = record q { world = f q.world }

  -- `_cache_task`
  abbrev pub cache_task : TaskEnvelope P → BrokerTaskQueue P R W → BrokerTaskQueue P R W
  cache_task task q = record q { tasks = insert task.id task q.tasks }

  unfoldable pub get : String → Call P R W (TaskEnvelope P)
  get task_id q = elim (lookup task_id q.tasks) [
    | none ↦ (err (unknown_task task_id), q)
    | some task ↦ (ok task, q)
  ]

  abbrev pub existing : Option String → BrokerTaskQueue P R W → Option String
  existing none q = none
  existing (some key) q = lookup key q.idempotency_keys

  -- The common shape of the four calls that end an attempt.
  abbrev pub with_task :
      String
      → (TaskEnvelope P → BrokerTaskQueue P R W → BrokerTaskQueue P R W)
      → Call P R W (Unit {0})
  with_task task_id change q = elim (lookup task_id q.tasks) [
    | none ↦ (err (unknown_task task_id), q)
    | some task ↦ (ok tt, change task q)
  ]

module _ {P R W : Type 0} (tr : Transport P R W) where
  -- `_ack_task`
  unfoldable pub ack_task : String → BrokerTaskQueue P R W → BrokerTaskQueue P R W
  ack_task task_id q = elim (lookup task_id q.receipts) [
    | none ↦ q
    | some receipt ↦ record q {
      receipts = erase task_id q.receipts;
      world = tr.ack receipt q.world;
    }
  ]

  -- `enqueue` behind the look-up of its key
  unfoldable pub add_task : TaskEnvelope P → ℕ → Call P R W (TaskEnvelope P)
  add_task task delay q =
      if leb 1 task.max_attempts
      then (
        ok task,
        record {
          tasks = insert task.id task q.tasks;
          receipts = q.receipts;
          idempotency_keys = remember task.idempotency_key task.id q.idempotency_keys;
          world = tr.send task delay q.world;
        },
      )
      else (err invalid_attempts, q)

  unfoldable pub enqueue :
      String → String → Option P → Option String → ℤ → ℕ → Call P R W (TaskEnvelope P)
  unfolding add_task get
  enqueue uuid name payload idempotency_key delay_seconds max_attempts q =
      elim (normalize_idempotency_key idempotency_key) [
        | err e ↦ (err e, q)
        | ok key ↦ elim (existing key q) [
          | some task_id ↦ get task_id q
          | none ↦
              add_task (new_task (tr.now q.world) uuid name payload key delay_seconds max_attempts)
                (pos_part delay_seconds) q
        ]
      ]

  -- `_defer`
  unfoldable pub defer : BrokerMessage P R → BrokerTaskQueue P R W → BrokerTaskQueue P R W
  defer message q =
      let remaining = message.task.available_at - tr.now q.world in
      let w = tr.ack message.receipt (tr.send message.task remaining q.world) in
      record q { receipts = erase message.task.id q.receipts; world = w }

  -- `dequeue` behind `_receive`
  unfoldable pub accept : BrokerMessage P R → Call P R W (Option (TaskEnvelope P))
  unfolding defer
  accept message q =
      let task = message.task in
      let noted = record q { receipts = insert task.id message.receipt q.receipts } in
      if is_live task.state
      then (if ltb (tr.now q.world) task.available_at
          then (ok none, defer message noted)
          else (ok (some (started task)), cache_task (started task) noted))
      else (
        ok none,
        record noted {
          receipts = erase task.id noted.receipts;
          world = tr.ack message.receipt q.world;
        },
      )

  unfoldable pub dequeue : Call P R W (Option (TaskEnvelope P))
  unfolding accept
  dequeue q =
      let (message, w) = tr.receive q.world in
      elim message [
        | none ↦ (ok none, record q { world = w })
        | some m ↦ accept m (record q { world = w })
      ]

  unfoldable pub complete : String → Call P R W (Unit {0})
  unfolding ack_task
  complete task_id = with_task task_id λ task q.
      ack_task task_id (cache_task (record task { state = TaskState.completed; error = none }) q)

  unfoldable pub fail : String → String → Call P R W (Unit {0})
  unfolding ack_task
  fail task_id reason = with_task task_id λ task q.
      ack_task task_id
        (cache_task (record task { state = TaskState.failed; error = some reason }) q)

  unfoldable pub retry : String → String → ℤ → Call P R W (Unit {0})
  unfolding ack_task
  retry task_id reason delay_seconds = with_task task_id λ task q.
      let retried = record task {
        state = TaskState.queued;
        error = some reason;
        available_at = tr.now q.world + pos_part delay_seconds;
      } in
      ack_task task_id (on_world (tr.send retried (pos_part delay_seconds)) (cache_task retried q))

  unfoldable pub dead_letter : String → String → Call P R W (Unit {0})
  unfolding ack_task
  dead_letter task_id reason = with_task task_id λ task q.
      let dead = record task { state = TaskState.dead_lettered; error = some reason } in
      ack_task task_id (on_world (tr.send_dead_letter dead) (cache_task dead q))
