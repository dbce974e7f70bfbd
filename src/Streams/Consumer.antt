-- ===== src/Streams/Consumer.antt =====
-- `StreamsManager` of infra/streaming/streams_manager.py: the consumer and the administration.
use fastapi_infra.Common.{
  ℕ, zero, suc, ◌*◌, String, Bool, true, false, Option, none, some, List, [], ◌∷◌, ltb,
}
use fastapi_infra.Common.Result.{Result, ok, err}
use fastapi_infra.Common.Action.{pure, raise, gets, ◌>>=◌, ◌>>◌}
use fastapi_infra.Streams.Message.{
  StreamMessage, StreamConfig, StreamError, ParseError, bad_entry, Codec, Entry, dead_letter_stream,
  cancelled, from_dict,
}
use fastapi_infra.Streams.Manager.{
  Client, Command, Site, Op, send, swallow, or_number, ack_message, nack_message, create_groups,
}

pub record StreamStats : Type 0 where
  pub stream_name : String
  pub stream_length : ℕ
  pub dead_letter_length : ℕ
  pub pending_count : ℕ
  pub consumer_group : String
  pub consumer_name : String
  pub is_running : Bool

abbrev pub Handler : Type 0 → Type 0 → Type 0
Handler W J = StreamMessage J → Command W Bool

abbrev for_each : {W A : Type 0} → (A → Op W (Unit {0})) → List A → Op W (Unit {0})
for_each f [] = pure tt
for_each f (a ∷ more) = f a >> for_each f more

abbrev parsed : {W A : Type 0} → Result ParseError A → Op W A
parsed (ok a) = pure a
parsed (err e) = raise (bad_entry e)

module _ {W J : Type 0} (client : Client W) (codec : Codec J) (config : StreamConfig) where
  abbrev parse : String → Entry → Op W (StreamMessage J)
  parse message_id fields = do
    now ← gets λ s. client.utcnow s.world
    parsed (from_dict codec now message_id fields)

  -- After the handler
  unfoldable pub settle : StreamMessage J → String → Entry → Bool → Op W (Unit {0})
  unfolding ack_message nack_message
  settle message message_id fields true = ack_message client codec config message_id
  settle message message_id fields false = nack_message client codec config message fields

  -- The message is parsed again, and counts as failed.
  unfoldable pub fail_again : String → Entry → Op W (Unit {0})
  unfolding nack_message from_dict
  fail_again message_id fields =
      swallow
        (parse message_id fields >>= λ message. nack_message client codec config message fields)

  -- What an exception leads to
  unfoldable pub recovered : String → Entry → Result StreamError (Unit {0}) → Op W (Unit {0})
  unfolding fail_again
  recovered message_id fields (ok _) = pure tt
  recovered message_id fields (err cancelled) = raise cancelled
  recovered message_id fields (err _) = fail_again message_id fields

  unfoldable pub process_message : Handler W J → String → Entry → Op W (Unit {0})
  unfolding settle recovered from_dict
  process_message handler message_id fields s =
      let (r, s') =
        (do
          message ← parse message_id fields
          success ← send (handler message)
          settle message message_id fields success)
          s in
      recovered message_id fields r s'

  unfoldable pub process_all : Handler W J → List (String × Entry) → Op W (Unit {0})
  unfolding process_message
  process_all handler = for_each (λ (message_id, fields). process_message handler message_id fields)

  unfoldable pub claim_one : Handler W J → String × ℕ → Op W (Unit {0})
  unfolding process_all
  claim_one handler (message_id, idle_time) = elim (ltb (config.ack_timeout * 1000) idle_time) [
    | false ↦ pure tt
    | true ↦ do
      claimed ← send (
          client.xclaim config.stream_name config.consumer_group config.consumer_name
            (config.ack_timeout * 1000) (message_id ∷ []))
      process_all handler claimed
  ]

  unfoldable pub claim_pending_messages : Handler W J → Op W (Unit {0})
  unfolding claim_one
  claim_pending_messages handler = swallow do
    send client.connect
    pending ← send (client.xpending_range config.stream_name config.consumer_group 10)
    for_each (claim_one handler) pending

  -- One round of the loop, up to its exception
  unfoldable pub consume_once : Handler W J → Op W (Unit {0})
  unfolding claim_pending_messages process_all
  consume_once handler = do
    send client.connect
    claim_pending_messages handler
    messages ← send (
        client.xreadgroup config.consumer_group config.consumer_name config.stream_name config.count
          config.block_ms)
    for_each (λ (_, entries). process_all handler entries) messages

  -- Where a round leaves the loop: it goes on, with a pause behind an exception, or ends when it is
  -- cancelled.
  abbrev pub next_round :
      (Site W → Option (Result StreamError (Unit {0})) × Site W)
      → Result StreamError (Unit {0})
      → Site W
      → Option (Result StreamError (Unit {0})) × Site W
  next_round rest (ok _) s = rest s
  next_round rest (err cancelled) s = (some (ok tt), s)
  next_round rest (err _) s =
      let (r, s') = send client.sleep s in elim r [ ok _ ↦ rest s' | err e ↦ (some (err e), s') ]

  -- `while self._running` on fuel
  unfoldable pub consume_loop :
      ℕ → Handler W J → Site W → Option (Result StreamError (Unit {0})) × Site W
  unfolding consume_once
  consume_loop zero handler s = (none, s)
  consume_loop (suc fuel) handler s = elim s.running [
    | false ↦ (some (ok tt), s)
    | true ↦ let (r, s') = consume_once handler s in next_round (consume_loop fuel handler) r s'
  ]

  -- `get_stats`; `none` is the empty dict.
  unfoldable pub get_stats : Site W → Result StreamError (Option StreamStats) × Site W
  get_stats s =
      let (r, s') =
        (do
          send client.connect
          stream_length ← send (client.xlen config.stream_name)
          dead_letter_length ← send (client.xlen (dead_letter_stream config))
          pending ← send (client.xpending config.stream_name config.consumer_group)
          is_running ← gets λ t. t.running
          pure record {
            stream_name = config.stream_name;
            stream_length = stream_length;
            dead_letter_length = dead_letter_length;
            pending_count = elim pending [ none ↦ 0 | some n ↦ n ];
            consumer_group = config.consumer_group;
            consumer_name = config.consumer_name;
            is_running = is_running;
          })
          s in
      (shown r, s')
    where
      shown : Result StreamError StreamStats → Result StreamError (Option StreamStats)
      shown (ok stats) = ok (some stats)
      shown (err cancelled) = err cancelled
      shown (err _) = ok none

  unfoldable pub trim_stream : Option ℕ → Op W (Unit {0})
  trim_stream max_len = swallow (
      send client.connect
      >> send (client.xtrim config.stream_name (or_number config.max_len max_len)))

  unfoldable pub clear_stream : Op W (Unit {0})
  unfolding create_groups
  clear_stream = swallow do
    send client.connect
    send (client.delete config.stream_name)
    send (client.delete (dead_letter_stream config))
    create_groups client codec config
