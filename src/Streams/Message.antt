-- ===== src/Streams/Message.antt =====
-- `StreamMessage` and `StreamConfig` of infra/streaming/streams_manager.py. A field of an entry comes
-- back from Redis as text, so an attribute that is declared a number may hold either. `J` is the
-- type of JSON values.
use fastapi_infra.Common.{
  string_eq, ℕ, String, ◌<>◌, Option, none, some, List, [], ◌∷◌, contains, if◌then◌else◌, ◌==◌,
}
use fastapi_infra.Common.Dict.{Dict, lookup, keys}
use fastapi_infra.Common.Result.{Result, ok, err, ◌>>=◌}

pub data MessageStatus : Type 0 where
  pending processing completed failed dead_letter : MessageStatus

abbrev pub status_value : MessageStatus → String
status_value pending = "pending"
status_value processing = "processing"
status_value completed = "completed"
status_value failed = "failed"
status_value dead_letter = "dead_letter"

-- An attribute: a number, or the text that Redis gave.
pub data Value : Type 0 where
  number : ℕ → Value
  text : String → Value

-- What the parser of an entry raises
pub data ParseError : Type 0 where
  bad_json : ParseError
  bad_status unexpected_field missing_field : String → ParseError

-- What may be raised. `cancelled` is the only one that `except Exception` lets pass.
pub data StreamError : Type 0 where
  bad_operands cancelled : StreamError
  bad_entry : ParseError → StreamError
  server_failed response_error : String → StreamError

-- `json` and the `str` of numbers
pub record Codec (J : Type 0) : Type 0 where
  pub dumps : J → String
  pub loads : String → Option J
  pub str : ℕ → String

pub record StreamMessage (J : Type 0) : Type 0 where
  pub message_id : String
  pub task_id : String
  pub task_type : String
  pub params : J
  pub priority : Value
  pub retry_count : Value
  pub max_retries : Value
  pub created_at : String
  pub status : MessageStatus

pub record StreamConfig : Type 0 where
  pub stream_name : String
  pub consumer_group : String
  pub consumer_name : String
  pub max_len : ℕ
  pub block_ms : ℕ
  pub count : ℕ
  pub max_retries : ℕ
  pub ack_timeout : ℕ
  pub dead_letter_suffix : String

abbrev pub dead_letter_stream : StreamConfig → String
dead_letter_stream c = c.stream_name <> c.dead_letter_suffix

abbrev pub Entry : Type 0
Entry = Dict String String

-- `MessageStatus(value)`
unfoldable pub parse_status : String → Result ParseError MessageStatus
parse_status s =
    if s == "pending"
    then ok pending
    else (if s == "processing"
        then ok processing
        else (if s == "completed"
            then ok completed
            else (if s == "failed"
                then ok failed
                else (if s == "dead_letter" then ok dead_letter else err (bad_status s)))))

-- The fields of the data class, which are the arguments that `cls(**processed_data)` takes
abbrev field_names : List String
field_names =
    "message_id" ∷ "task_id" ∷ "task_type" ∷ "params" ∷ "priority" ∷ "retry_count" ∷ "max_retries"
    ∷ "created_at" ∷ "status" ∷ []

unfoldable pub check_fields : List String → Result ParseError (Unit {0})
check_fields [] = ok tt
check_fields (k ∷ more) =
    let rest = check_fields more in
    if contains field_names k then rest else err (unexpected_field k)

abbrev required : String → Option String → Result ParseError String
required name none = err (missing_field name)
required name (some v) = ok v

abbrev pub text_or : ℕ → Option String → Value
text_or default none = number default
text_or default (some v) = text v

abbrev pub or_else : String → Option String → String
or_else default none = default
or_else default (some v) = v

module _ {J : Type 0} (codec : Codec J) where
  abbrev parse_json : String → Result ParseError J
  parse_json s = elim (codec.loads s) [ none ↦ err bad_json | some j ↦ ok j ]

  -- `params` parsed, where the entry has any
  abbrev parse_params : Option String → Result ParseError (Option J)
  parse_params none = ok none
  parse_params (some s) = parse_json s >>= λ j. ok (some j)

  abbrev need_params : Option J → Result ParseError J
  need_params none = err (missing_field "params")
  need_params (some j) = ok j

  -- `now` is the clock, for an entry without `created_at`.
  unfoldable pub from_dict : String → String → Entry → Result ParseError (StreamMessage J)
  unfolding parse_status check_fields
  from_dict now message_id fields = do
    params ← parse_params (lookup "params" fields)
    status ← parse_status (or_else "pending" (lookup "status" fields))
    _ ← check_fields (keys fields)
    task_id ← required "task_id" (lookup "task_id" fields)
    task_type ← required "task_type" (lookup "task_type" fields)
    params ← need_params params
    ok record {
      message_id = message_id;
      task_id = task_id;
      task_type = task_type;
      params = params;
      priority = text_or 5 (lookup "priority" fields);
      retry_count = text_or 0 (lookup "retry_count" fields);
      max_retries = text_or 3 (lookup "max_retries" fields);
      created_at = or_else now (lookup "created_at" fields);
      status = status;
    }
