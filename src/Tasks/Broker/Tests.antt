-- ===== src/Tasks/Broker/Tests.antt =====
-- A broker queue over a transport of one message, and the theorems at that input.
use fastapi_infra.Common.{string_eq, ℕ, none, some, List, [], ◌∷◌, ◌≡◌, refl}
use fastapi_infra.Common.Int.{pos}
use fastapi_infra.Common.Dict.{lookup, insert}
use fastapi_infra.Tasks.Models.{TaskEnvelope, TaskState}
use fastapi_infra.Tasks.Memory.{started, new_task}
use fastapi_infra.Tasks.Broker.{
  BrokerMessage, Transport, BrokerTaskQueue, dequeue, accept, complete,
}
use fastapi_infra.Tasks.Broker.Receipts

abbrev mail : TaskEnvelope (Unit {0})
mail = new_task 3 "t1" "mail" none none (pos 0) 2

abbrev message : BrokerMessage (Unit {0}) ℕ
message = record { task = mail; receipt = 7 }

-- The world is the log of the acknowledged receipts.
abbrev line : Transport (Unit {0}) ℕ (List ℕ)
line = record {
  now = λ _. 5;
  send = λ _ _ w. w;
  receive = λ w. (some message, w);
  ack = λ r w. r ∷ w;
  send_dead_letter = λ _ w. w;
}

abbrev empty : BrokerTaskQueue (Unit {0}) ℕ (List ℕ)
empty = record { tasks = []; receipts = []; idempotency_keys = []; world = [] }

abbrev taken : BrokerTaskQueue (Unit {0}) ℕ (List ℕ)
taken = (dequeue line empty).1

program : Unit {0}
unfolding dequeue accept lookup insert string_eq
program = tt

known : lookup "t1" taken.tasks ≡ some (started mail)
unfolding program
known = refl

left : lookup "t1" taken.receipts ≡ some 7
unfolding program
left = refl

complete-complete_example :
    let once = (complete line "t1" taken).1 in
    (once.world ≡ line.ack 7 taken.world)
    × (lookup "t1" once.tasks
        ≡ some (record (started mail) { state = TaskState.completed; error = none }))
    × (lookup "t1" once.receipts ≡ none)
    × ((complete line "t1" once).1.world ≡ once.world)
complete-complete_example = Receipts.complete-complete line "t1" taken (started mail) 7 known left
