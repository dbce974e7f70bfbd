-- ===== src/Streams/Outcomes.antt =====
-- What becomes of a message of infra/streaming/streams_manager.py, by what its handler answers.
use fastapi_infra.Common.{
  string_eq, String, Bool, true, some, ◌≡◌, refl, arith, inl, inr, ◌⊎◌, ◌≢◌, Bool-cases,
}
use fastapi_infra.Common.Dict.{lookup, keys}
use fastapi_infra.Common.Result.{Result, ok, err, Result-cases}
use fastapi_infra.Streams.Message.{
  StreamMessage, StreamConfig, StreamError, Codec, Entry, Value, text, pending, cancelled,
  from_dict, parse_status, check_fields,
}
use fastapi_infra.Streams.Manager.{Client, Site, str_value, message_data, ack_message, nack_message}
use fastapi_infra.Streams.Consumer.{Handler, process_message, settle, recovered, fail_again}

module _ {J : Type 0} (codec : Codec J) where
  message_data-found :
      (created_at task_id task_type : String) (params : J) (priority retries : Value)
      → let fields = message_data codec created_at task_id task_type params priority retries in
        (lookup "params" fields ≡ some (codec.dumps params))
        × (lookup "status" fields ≡ some "pending")
        × (lookup "task_id" fields ≡ some task_id)
        × (lookup "task_type" fields ≡ some task_type)
        × (lookup "priority" fields ≡ some (str_value codec priority))
        × (lookup "retry_count" fields ≡ some "0")
        × (lookup "max_retries" fields ≡ some (str_value codec retries))
        × (lookup "created_at" fields ≡ some created_at)
        × (check_fields (keys fields) ≡ ok tt)
        × (parse_status "pending" ≡ ok pending)
  unfolding message_data parse_status check_fields lookup string_eq
  message_data-found created_at task_id task_type params priority retries =
      (refl, refl, refl, refl, refl, refl, refl, refl, refl, refl)

  -- A published entry is read back as the message that was published, under the id that it was given,
  -- where `json` reads what it wrote: its numbers come back as their texts, and its status is
  -- pending.
  pub from_dict-message_data :
      ((j : J) → codec.loads (codec.dumps j) ≡ some j)
      → (now message_id created_at task_id task_type : String) (params : J)
        (priority retries : Value)
      → from_dict codec now message_id
          (message_data codec created_at task_id task_type params priority retries)
        ≡ ok record {
          message_id = message_id;
          task_id = task_id;
          task_type = task_type;
          params = params;
          priority = text (str_value codec priority);
          retry_count = text "0";
          max_retries = text (str_value codec retries);
          created_at = created_at;
          status = pending;
        }
  unfolding from_dict
  from_dict-message_data h now message_id created_at task_id task_type params priority retries =
      let (a, b, c, d, e, f, g, i, j, k) =
        message_data-found created_at task_id task_type params priority retries in
      ground (arith, h params, a, b, c, d, e, f, g, i, j, k)

  -- The count of retries that an entry has is text.
  pub from_dict-retry_count :
      (now message_id count : String) (fields : Entry) (message : StreamMessage J)
      → lookup "retry_count" fields ≡ some count
      → from_dict codec now message_id fields ≡ ok message
      → message.retry_count ≡ text count
  unfolding from_dict
  from_dict-retry_count now message_id count fields message found h = ground (arith, found)

module _ {W J : Type 0} (client : Client W) (codec : Codec J) (config : StreamConfig) where
  -- One more than a text is a TypeError, which is swallowed.
  pub nack_message-Stuck :
      (message : StreamMessage J) (fields : Entry) (count : String) (s : Site W)
      → message.retry_count ≡ text count
      → nack_message client codec config message fields s ≡ (ok tt, s)
  unfolding nack_message
  nack_message-Stuck message fields count s is_text = ground (arith, is_text)

  fail_again-Stuck :
      (message_id : String) (fields : Entry) (count : String) (s : Site W)
      → lookup "retry_count" fields ≡ some count
      → fail_again client codec config message_id fields s ≡ (ok tt, s)
  unfolding fail_again
  fail_again-Stuck message_id fields count s found =
      elim (Result-cases (from_dict codec (client.utcnow s.world) message_id fields)) [
        | inl (message, parsed) ↦
            let stuck = nack_message-Stuck message fields count s (
              from_dict-retry_count codec (client.utcnow s.world) message_id count fields message
                found parsed) in
            ground (arith, parsed, stuck)
        | inr (_, unparsed) ↦ ground (arith, unparsed)
      ]

  -- An exception of a handler, or of the parser
  recovered-Stuck :
      (message_id : String) (fields : Entry) (count : String) (e : StreamError) (s : Site W)
      → lookup "retry_count" fields ≡ some count
      → (e ≡ cancelled) ⊎ (recovered client codec config message_id fields (err e) s ≡ (ok tt, s))
  unfolding recovered
  recovered-Stuck message_id fields count e s found =
      let stuck = fail_again-Stuck message_id fields count s found in
      elim e
        as (λ k.
          (k ≡ cancelled)
          ⊎ (recovered client codec config message_id fields (err k) s ≡ (ok tt, s))) [
            | cancelled ↦ inl refl
            | _ ↦ inr stuck
          ]

  -- Where a message was read from its entry and its handler answers true, the message is
  -- acknowledged, and nothing else is done.
  process_message-Acks :
      (handler : Handler W J) (message_id : String) (fields : Entry) (message : StreamMessage J)
      (s : Site W) (w : W)
      → from_dict codec (client.utcnow s.world) message_id fields ≡ ok message
      → handler message s.world ≡ (ok true, w)
      → process_message client codec config handler message_id fields s
        ≡ ack_message client codec config message_id (record s { world = w })
  unfolding process_message settle recovered ack_message
  process_message-Acks handler message_id fields message s w parsed answered =
      ground (arith, parsed, answered)

  -- A message is left as it is by the consumer when its handler fails: where its entry has a count
  -- of retries, as every published one has, and its handler answers false or raises anything but a
  -- cancellation, nothing is done behind the handler. The message is not acknowledged, not published
  -- again and not put into the dead letter stream.
  pub process_message-Stuck :
      (handler : Handler W J) (message_id : String) (fields : Entry) (count : String)
      (message : StreamMessage J) (s : Site W) (answer : Result StreamError Bool) (w : W)
      → lookup "retry_count" fields ≡ some count
      → from_dict codec (client.utcnow s.world) message_id fields ≡ ok message
      → handler message s.world ≡ (answer, w)
      → answer ≢ ok true
      → answer ≢ err cancelled
      → process_message client codec config handler message_id fields s
        ≡ (ok tt, record s { world = w })
  unfolding process_message settle
  process_message-Stuck handler message_id fields count message s answer w found parsed answered
        failed uncancelled =
      elim (Result-cases answer) [
        | inl (a, is_ok) ↦ elim (Bool-cases a) [
          | inl good ↦ absurd (failed (ground arith))
          | inr bad ↦
              let stuck =
                nack_message-Stuck message fields count (record s { world = w })
                  (from_dict-retry_count codec (client.utcnow s.world) message_id count fields
                    message found parsed) in
              ground (arith, parsed, answered, is_ok, bad, stuck)
        ]
        | inr (e, raised) ↦
            elim (recovered-Stuck message_id fields count e (record s { world = w }) found) [
              | inl stopped ↦ absurd (uncancelled (ground arith))
              | inr stuck ↦ ground (arith, parsed, answered, raised, stuck)
            ]
      ]
