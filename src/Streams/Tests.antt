-- ===== src/Streams/Tests.antt =====
-- A server that logs its commands, and the theorems on streams at runs over it.
use fastapi_infra.Common.{
  string_eq, ℕ, String, Bool, true, false, none, some, List, [], ◌∷◌, ◌++◌, ◌≡◌, ◌≢◌, refl, arith,
  length,
}
use fastapi_infra.Common.Dict.{lookup, insert}
use fastapi_infra.Common.Result.{Result, ok, err}
use fastapi_infra.Streams.Message.{
  StreamMessage, StreamConfig, StreamError, Codec, Entry, number, text, pending, cancelled,
  unexpected_field, from_dict, parse_status, check_fields,
}
use fastapi_infra.Streams.Manager.{
  Client, Site, Command, initialize, create_groups, create_consumer_group, publish, message_data,
  ack_message, nack_message, move_to_dead_letter, retry_or_bury,
}
use fastapi_infra.Streams.Consumer.{
  Handler, process_message, process_all, settle, recovered, fail_again, consume_loop, consume_once,
  claim_pending_messages, claim_one,
}
use fastapi_infra.Streams.Outcomes

-- What was added where, and what was acknowledged
data Event : Type 0 where
  added : String → Entry → Event
  acked : String → Event

abbrev World : Type 0
World = List Event

abbrev done : Command World (Unit {0})
done w = (ok tt, w)

abbrev client : Client World
client = record {
  connect = done;
  xgroup_create = λ _ _. done;
  xadd = λ stream fields _ w. (ok "1-0", w ++ added stream fields ∷ []);
  xack = λ _ _ message_id w. (ok tt, w ++ acked message_id ∷ []);
  xreadgroup = λ _ _ _ _ _ w. (ok [], w);
  xpending_range = λ _ _ _ w. (ok [], w);
  xclaim = λ _ _ _ _ _ w. (ok [], w);
  xlen = λ _ w. (ok (length w), w);
  xpending = λ _ _ w. (ok none, w);
  xtrim = λ _ _. done;
  delete = λ _. done;
  utcnow = λ _. "now";
  sleep = done;
  is_busy_group = λ _. false;
}

abbrev three : ℕ → String
three _ = "3"

-- Parameters are texts here.
abbrev codec : Codec String
codec = record { dumps = λ s. s; loads = λ s. some s; str = three }

abbrev config : StreamConfig
config = record {
  stream_name = "jobs";
  consumer_group = "workers";
  consumer_name = "one";
  max_len = 9;
  block_ms = 5;
  count = 2;
  max_retries = 3;
  ack_timeout = 300;
  dead_letter_suffix = "_dlq";
}

program : Unit {0}
unfolding string_eq lookup insert from_dict parse_status check_fields message_data publish
    initialize create_groups create_consumer_group ack_message nack_message move_to_dead_letter
    retry_or_bury process_message settle recovered fail_again consume_loop consume_once
    claim_pending_messages claim_one process_all
program = tt

abbrev site : Site World
site = record { initialized = true; running = true; world = [] }

abbrev fields : Entry
fields = message_data codec "then" "t1" "mail" "p" (number 5) (number 3)

abbrev yes_sir : Handler World String
yes_sir _ w = (ok true, w)

abbrev no_sir : Handler World String
no_sir _ w = (ok false, w)

abbrev message : StreamMessage String
message = record {
  message_id = "7-0";
  task_id = "t1";
  task_type = "mail";
  params = "p";
  priority = text "3";
  retry_count = text "0";
  max_retries = text "3";
  created_at = "then";
  status = pending;
}

published :
    (publish client codec config "t1" "mail" "p" (number 5) none site).1.world
    ≡ added "jobs" (message_data codec "now" "t1" "mail" "p" (number 5) (number 3)) ∷ []
unfolding program
published = refl

-- An entry of the dead letter stream does not parse.
no_message :
    from_dict codec "now" "7-0" (insert "failed_at" "now" fields)
    ≡ err (unexpected_field "failed_at")
unfolding program
no_message = refl

abbrev count : String
count = "0"

counted : lookup "retry_count" fields ≡ some count
unfolding program
counted = refl

parsed : from_dict codec (client.utcnow site.world) "7-0" fields ≡ ok message
unfolding program
parsed = refl

from_dict-message_data_example :
    from_dict codec "now" "7-0" (message_data codec "then" "t1" "mail" "p" (number 5) (number 3))
    ≡ ok message
from_dict-message_data_example =
    Outcomes.from_dict-message_data codec (λ j. refl) "now" "7-0" "then" "t1" "mail" "p" (number 5)
      (number 3)

acknowledged :
    (process_message client codec config yes_sir "7-0" fields site).1.world ≡ acked "7-0" ∷ []
unfolding program
acknowledged = refl

abbrev answer : Result StreamError Bool
answer = ok false

refusal : answer ≢ ok true
refusal = λ h. absurd (ground arith)

going_on : answer ≢ err cancelled
going_on = λ h. absurd (ground arith)

process_message-Stuck_example :
    process_message client codec config no_sir "7-0" fields site ≡ (ok tt, site)
process_message-Stuck_example =
    Outcomes.process_message-Stuck client codec config no_sir "7-0" fields count message site answer
      [] counted parsed refl refusal going_on
