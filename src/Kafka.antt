-- ===== src/Kafka.antt =====
-- internal/kafka/consumer.go: the consumer of the invalidation worker.
pub mod Event
pub mod Trace
pub mod Batches
pub mod Retry
pub mod Run
pub mod Feed
pub mod Queue
pub mod Settings
mod Tests
use investor_cache.Base.{
  String, Bool, true, false, ℕ, suc, zero, ◌+◌, ◌*◌, ◌-◌, ◌/◌, ℤ, pos, List, [], ◌∷◌, Option, none,
  some, map, length, take, drop, ltb, if◌then◌else◌, ◌||◌,
}
use investor_cache.Go.{
  Result, ok, err, Error, wrap, errors_is, canceled, pure, call, note, lift, ◌>>=◌, ◌>>◌,
}
use investor_cache.Go.Strings.{concat}
use investor_cache.Go.Strconv.{format_int}
use investor_cache.Journal.{
  Proc, Message, cache_delete, cache_delete_batch, fetch_message, commit_message, dlq_write, sleep,
  close_reader, close_dlq,
}
use investor_cache.Metrics.{
  record_kafka_error, record_invalidation_success, record_invalidation_retry_success,
  record_dlq_write_failure, record_invalidation_dlq,
}
use text.Mathlib.Text.{◌==◌ as str_eq}
use investor_cache.Domain.{CacheStore}
use investor_cache.Cache.Outcome.{cache_key}
use investor_cache.Kafka.Event.{InvalidationEvent}

abbrev pub max_retries : ℕ
max_retries = 5

abbrev pub batch_size : ℕ
batch_size = 1000

-- `end`, the index behind the batch that begins at `i`.
abbrev pub end_of : ℕ → List String → ℕ
end_of i ids = if ltb (length ids) (i + batch_size) then length ids else i + batch_size

-- The consumer, with the libraries' calls that it makes: `kafka.Reader`, `kafka.Writer`,
-- `json.Unmarshal` into an event, the text of an error, and the test of `ctx.Done()`.
pub record InvalidationConsumer (W : Type 0) : Type 0 where
  pub fetch : W → Result Message × W
  pub commit : Message → W → Result (Unit {0}) × W
  pub reader_close : W → Result (Unit {0}) × W
  pub cache : CacheStore W
  pub dlq_send : Message → W → Result (Unit {0}) × W
  pub dlq_close : W → Result (Unit {0}) × W
  pub unmarshal : String → Result InvalidationEvent
  pub error_text : Error → String
  pub is_done : W → Bool × W

abbrev pub writer_closed : Result (Unit {0}) → Result (Unit {0})
writer_closed (err e) = err (wrap "failed to close dlq writer" e)
writer_closed (ok _) = ok tt

module _ {W : Type 0} (c : InvalidationConsumer W) where
  unfoldable pub bulk_error : ℕ → Error → Error
  bulk_error i e =
      wrap (concat "bulk invalidation failed at batch " (format_int (pos (i / batch_size)))) e

  -- `return` with a failed batch's error, or on to the next round.
  unfoldable pub after_batch :
      Proc W (Result (Unit {0})) → ℕ → Result (Unit {0}) → Proc W (Result (Unit {0}))
  after_batch rest i (ok _) = rest
  after_batch rest i (err e) = pure (err (bulk_error i e))

  -- `for i := 0; i < len(ids); i += batchSize`, from `i` on. A round moves `i` by a positive step, so
  -- as many rounds as there are identifiers are enough (`Batches` proves it).
  unfoldable pub bulk_from : ℕ → ℕ → List String → Proc W (Result (Unit {0}))
  bulk_from zero i ids = pure (ok tt)
  bulk_from (suc fuel) i ids =
      let keys = map cache_key (take (end_of i ids - i) (drop i ids)) in
      let rest = bulk_from fuel (i + batch_size) ids in
      if ltb i (length ids)
      then (call (cache_delete_batch keys) (c.cache.delete_batch keys) >>= after_batch rest i)
      else pure (ok tt)

  unfoldable pub process_bulk_invalidation : List String → Proc W (Result (Unit {0}))
  process_bulk_invalidation ids = bulk_from (length ids) 0 ids

  unfoldable pub process_event : InvalidationEvent → Proc W (Result (Unit {0}))
  process_event event =
      if str_eq event.event_type "update" || str_eq event.event_type "delete"
      then (let key = cache_key event.investor_id in call (cache_delete key) (c.cache.delete key))
      else if str_eq event.event_type "bulk_update"
      then process_bulk_invalidation event.investor_ids
      else pure (ok tt)

  -- Behind an attempt: commit and `return`, or double the wait and go on.
  unfoldable pub after_attempt : Proc W Bool → ℕ → Message → Result (Unit {0}) → Proc W Bool
  after_attempt rest attempt msg (err _) = rest
  after_attempt rest attempt msg (ok _) = do
    call (commit_message msg) (c.commit msg)
    record_invalidation_retry_success attempt
    pure true

  -- The loop over the attempts: `left` are still to come. The answer says whether one succeeded.
  unfoldable pub retry_from : ℕ → ℕ → ℕ → Message → InvalidationEvent → Proc W Bool
  retry_from zero attempt backoff msg event = pure false
  retry_from (suc left) attempt backoff msg event =
      let rest = retry_from left (attempt + 1) (backoff * 2) msg event in
      call (sleep backoff) (λ w. (tt, w)) >> process_event event >>= after_attempt rest attempt msg

  abbrev pub dead_letter : Message → Error → Message
  dead_letter msg e = record {
    partition = 0;
    offset = 0;
    key = msg.key;
    value = msg.value;
    headers =
        ("original-error", c.error_text e) ∷ ("retry-count", format_int (pos max_retries)) ∷ [];
    time = pos 0;
  }

  -- Behind the write of the dead letter.
  unfoldable pub after_letter : Message → Result (Unit {0}) → Proc W (Unit {0})
  after_letter msg (err _) = record_dlq_write_failure
  after_letter msg (ok _) = do call (commit_message msg) (c.commit msg); record_invalidation_dlq

  unfoldable pub send_to_dlq : Message → Error → Proc W (Unit {0})
  send_to_dlq msg e =
      call (dlq_write (dead_letter msg e)) (c.dlq_send (dead_letter msg e)) >>= after_letter msg

  unfoldable pub handle_failure : Message → InvalidationEvent → Error → Proc W (Unit {0})
  handle_failure msg event e = do
    handled ← retry_from max_retries 1 100_000_000 msg event
    if handled then pure tt else send_to_dlq msg e

  -- `close`: the reader, and the writer of the dead letters where that succeeds.
  unfoldable pub after_reader_close : Result (Unit {0}) → Proc W (Result (Unit {0}))
  after_reader_close (err e) = pure (err (wrap "failed to close kafka reader" e))
  after_reader_close (ok _) = do r ← call close_dlq c.dlq_close; pure (writer_closed r)

  unfoldable pub close : Proc W (Result (Unit {0}))
  close = call close_reader c.reader_close >>= after_reader_close

  -- Behind the first attempt.
  unfoldable pub after_event : Message → InvalidationEvent → Result (Unit {0}) → Proc W (Unit {0})
  after_event msg event (err e) = handle_failure msg event e
  after_event msg event (ok _) = do
    call (commit_message msg) (c.commit msg)
    record_invalidation_success

  unfoldable pub handle_decoded : Message → Result InvalidationEvent → Proc W (Unit {0})
  handle_decoded msg (err _) = do call (commit_message msg) (c.commit msg); pure tt
  handle_decoded msg (ok event) = process_event event >>= after_event msg event

  -- What a round does with a fetched message.
  unfoldable pub handle_message : Message → Proc W (Unit {0})
  handle_message msg = handle_decoded msg (c.unmarshal msg.value)

  unfoldable pub handle_fetched : Result Message → Proc W (Option (Result (Unit {0})))
  handle_fetched (err e) =
      if errors_is e canceled then pure (some (ok tt)) else (do record_kafka_error; pure none)
  handle_fetched (ok msg) = do handle_message msg; pure none

  -- One round of the loop of `Run`: `none` goes on to the next, `some r` is `return r`.
  unfoldable pub run_round : Proc W (Option (Result (Unit {0})))
  run_round = do
    stop ← lift c.is_done
    if stop then (close >>= λ r. pure (some r)) else (call fetch_message c.fetch >>= handle_fetched)

  -- Behind a round.
  unfoldable pub after_round :
      Proc W (Option (Result (Unit {0})))
      → Option (Result (Unit {0}))
      → Proc W (Option (Result (Unit {0})))
  after_round rest none = rest
  after_round rest (some result) = pure (some result)

  -- The first rounds of `Run`, which has no bound of its own.
  unfoldable pub run : ℕ → Proc W (Option (Result (Unit {0})))
  run zero = pure none
  run (suc rounds) = let rest = run rounds in run_round >>= after_round rest
