-- ===== src/Streams/Manager.antt =====
-- `StreamsManager` of infra/streaming/streams_manager.py: the producer, and what becomes of a message
-- once its handler is done. The Redis client is an argument.
use fastapi_infra.Common.{
  string_eq, nat_eq, ℕ, suc, ◌-◌, max, String, Bool, true, false, Option, none, some, List, [], ◌∷◌,
  leb, if◌then◌else◌, ◌==◌,
}
use fastapi_infra.Common.Dict.{insert}
use fastapi_infra.Common.Result.{Result, ok, err}
use fastapi_infra.Common.Action.{Action, pure, raise, gets, modify, ◌>>=◌, ◌>>◌}
use fastapi_infra.Common.Text.{is_blank}
use fastapi_infra.Streams.Message.{
  StreamMessage, StreamConfig, StreamError, Codec, Entry, Value, number, text, dead_letter_stream,
  cancelled, bad_operands, response_error,
}

-- A command, on a world that holds the server and the clock
abbrev pub Command : Type 0 → Type 0 → Type 0
Command W A = W → Result StreamError A × W

pub record Client (W : Type 0) : Type 0 where
  -- `_get_redis_client`
  pub connect : Command W (Unit {0})
  pub xgroup_create : String → String → Command W (Unit {0})
  pub xadd : String → Entry → ℕ → Command W String
  pub xack : String → String → String → Command W (Unit {0})
  pub xreadgroup :
      String → String → String → ℕ → ℕ → Command W (List (String × List (String × Entry)))
  -- the idle time of each pending message, in milliseconds
  pub xpending_range : String → String → ℕ → Command W (List (String × ℕ))
  pub xclaim : String → String → String → ℕ → List String → Command W (List (String × Entry))
  pub xlen : String → Command W ℕ
  pub xpending : String → String → Command W (Option ℕ)
  pub xtrim : String → ℕ → Command W (Unit {0})
  pub delete : String → Command W (Unit {0})
  pub utcnow : W → String
  pub sleep : Command W (Unit {0})
  -- `"BUSYGROUP" in str(e)`
  pub is_busy_group : String → Bool

pub record Site (W : Type 0) : Type 0 where
  pub initialized : Bool
  pub running : Bool
  pub world : W

abbrev pub Op : Type 0 → Type 0 → Type 0
Op W A = Action StreamError (Site W) A

-- `x or default` of a number, and of an attribute
abbrev pub or_number : ℕ → Option ℕ → ℕ
or_number default none = default
or_number default (some n) = if n == 0 then default else n

abbrev pub or_value : ℕ → Option Value → Value
or_value default none = number default
or_value default (some (number n)) = number (or_number default (some n))
or_value default (some (text s)) = if is_blank s then number default else text s

-- `try: ... except Exception: answer`
abbrev pub caught : Result StreamError (Unit {0}) → Result StreamError (Unit {0})
caught (ok _) = ok tt
caught (err cancelled) = err cancelled
caught (err _) = ok tt

module _ {W : Type 0} where
  abbrev pub send : {A : Type 0} → Command W A → Op W A
  send c s = let (r, w) = c s.world in (r, record s { world = w })

  abbrev pub swallow : Op W (Unit {0}) → Op W (Unit {0})
  swallow m s = let (r, s') = m s in (caught r, s')

-- `value + 1`, `value - 1` and `a <= b`: Python's operators refuse text beside a number.
abbrev pub add_one : {W : Type 0} → Value → Op W Value
add_one (number n) = pure (number (suc n))
add_one (text _) = raise bad_operands

-- `max(1, value - 1)`
abbrev pub lowered : {W : Type 0} → Value → Op W Value
lowered (number n) = pure (number (max 1 (n - 1)))
lowered (text _) = raise bad_operands

-- `<=` of texts is by code point; here one operand is a number whenever it is reached.
abbrev pub at_most : {W : Type 0} → Value → Value → Op W Bool
at_most (number a) (number b) = pure (leb a b)
at_most (number _) (text _) = raise bad_operands
at_most (text _) _ = raise bad_operands

module _ {J : Type 0} (codec : Codec J) where
  abbrev pub str_value : Value → String
  str_value (number n) = codec.str n
  str_value (text s) = s

  -- `message_data` of `publish`
  unfoldable pub message_data : String → String → String → J → Value → Value → Entry
  message_data created_at task_id task_type params priority max_retries =
      ("task_id", task_id)
      ∷ ("task_type", task_type)
      ∷ ("params", codec.dumps params)
      ∷ ("priority", str_value priority)
      ∷ ("retry_count", "0")
      ∷ ("max_retries", str_value max_retries)
      ∷ ("created_at", created_at)
      ∷ ("status", "pending")
      ∷ []

module _ {W J : Type 0} (client : Client W) (codec : Codec J) (config : StreamConfig) where
  -- A group that is there already is no error.
  abbrev pub group_exists : Result StreamError (Unit {0}) → Result StreamError (Unit {0})
  group_exists (err (response_error e)) =
      if client.is_busy_group e then ok tt else err (response_error e)
  group_exists r = r

  unfoldable pub create_consumer_group : String → Op W (Unit {0})
  create_consumer_group stream s =
      let (r, s') =
        (send client.connect >> send (client.xgroup_create stream config.consumer_group)) s in
      (group_exists r, s')

  unfoldable pub create_groups : Op W (Unit {0})
  unfolding create_consumer_group
  create_groups = do
    create_consumer_group config.stream_name
    create_consumer_group (dead_letter_stream config)

  unfoldable pub initialize : Op W (Unit {0})
  unfolding create_groups
  initialize s = elim s.initialized [
    | true ↦ (ok tt, s)
    | false ↦
        (send client.connect >> create_groups >> modify λ t. record t { initialized = true }) s
  ]

  unfoldable pub publish : String → String → J → Value → Option Value → Op W String
  unfolding initialize message_data
  publish task_id task_type params priority max_retries = do
    initialize
    send client.connect
    now ← gets λ s. client.utcnow s.world
    let retries = or_value config.max_retries max_retries
    let fields = message_data codec now task_id task_type params priority retries
    send (client.xadd config.stream_name fields config.max_len)

  unfoldable pub ack_message : String → Op W (Unit {0})
  ack_message message_id = swallow (
      send client.connect >> send (client.xack config.stream_name config.consumer_group message_id))

  unfoldable pub move_to_dead_letter : StreamMessage J → Entry → Op W (Unit {0})
  move_to_dead_letter message original = swallow do
    send client.connect
    now ← gets λ s. client.utcnow s.world
    let fields = insert "status" "dead_letter" original
    let fields = insert "failed_at" now fields
    let fields = insert "original_message_id" message.message_id fields
    _ ← send (client.xadd (dead_letter_stream config) fields config.max_len)
    pure tt

  -- The message is published again, or is dead.
  unfoldable pub retry_or_bury : StreamMessage J → Entry → Bool → Op W (Unit {0})
  unfolding publish move_to_dead_letter
  retry_or_bury message original true = do
    priority ← lowered message.priority
    _ ← publish message.task_id message.task_type message.params priority (some message.max_retries)
    pure tt
  retry_or_bury message original false = move_to_dead_letter message original

  unfoldable pub nack_message : StreamMessage J → Entry → Op W (Unit {0})
  unfolding retry_or_bury ack_message
  nack_message message original = swallow do
    retry_count ← add_one message.retry_count
    again ← at_most retry_count message.max_retries
    retry_or_bury message original again
    ack_message message.message_id
