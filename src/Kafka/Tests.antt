-- ===== src/Kafka/Tests.antt =====
-- Runs of the consumer on small inputs, and the theorems at concrete inputs.
use investor_cache.Base.{Bool, true, false, [], ◌∷◌, ◌++◌, none, ◌≡◌, refl, pos, if◌then◌else◌}
use investor_cache.Go.{Result, ok, err, World, message, sentinel, canceled, errors_is}
use investor_cache.Journal.{Entry, Message}
use investor_cache.Kafka.{
  run, InvalidationConsumer, process_event, handle_failure, process_bulk_invalidation, bulk_from,
  run_round, handle_fetched, handle_message, handle_decoded, after_event, after_batch, retry_from,
  after_attempt, send_to_dlq, after_letter, close, after_reader_close, dead_letter,
}
use investor_cache.Kafka.Event.{InvalidationEvent}
use investor_cache.Kafka.Trace.{deleted_keys, commits, dead_letters, waits}
use investor_cache.Kafka.Batches.{
  IsTrace, IsBulkRun, process_bulk_invalidation-IsBulkRun, keys_of, process_event-deletes,
}
use investor_cache.Kafka.Retry.{IsSettled, handle_failure-IsSettled}
use investor_cache.Kafka.Feed.{IsConsumed, IsUpdate, update_of, no_update, run-IsConsumed}
use investor_cache.Kafka.Queue
use investor_cache.Kafka.Run.{IsHandled, handle_fetched-IsHandled, IsStop, run_round-IsStop}

-- A world with nothing in it: the cache works or fails, and so does the dead letter topic.
abbrev answer : Bool → Unit {0} → Result (Unit {0}) × Unit {0}
answer works w = (if works then ok tt else err (message "unavailable"), tt)

abbrev update : InvalidationEvent
update = record {
  investor_id = "7";
  event_type = "update";
  timestamp_ms = pos 0;
  version = pos 2;
  investor_ids = [];
}

abbrev consumer : Bool → Bool → InvalidationConsumer (Unit {0})
consumer cache_works dlq_works = record {
  fetch = λ w. (err (sentinel canceled), w);
  commit = λ m. answer true;
  reader_close = answer true;
  cache = record {
    get = λ k w. (ok none, w);
    set_versioned = λ k p ttl w. (ok true, w);
    delete = λ k. answer cache_works;
    delete_batch = λ ks. answer cache_works;
  };
  dlq_send = λ m. answer dlq_works;
  dlq_close = answer true;
  unmarshal = λ s. ok update;
  error_text = λ e. "error";
  is_done = λ w. (false, w);
}

abbrev start : World Entry (Unit {0})
start = record { outside = tt; log = [] }

abbrev msg : Message
msg = record { partition = 0; offset = 4; key = "7"; value = "{}"; headers = []; time = pos 0 }

consumer_run : Unit {0}
unfolding process_event process_bulk_invalidation bulk_from after_batch handle_failure retry_from
    after_attempt send_to_dlq after_letter handle_fetched handle_message handle_decoded after_event
    run_round close after_reader_close errors_is
consumer_run = tt

process_bulk_invalidation-IsBulkRun_example :
    IsTrace
      (consumer true true)
      ("1" ∷ "2" ∷ [])
      start
      (process_bulk_invalidation (consumer true true) ("1" ∷ "2" ∷ []) start)
    × IsBulkRun
        (consumer true true)
        ("1" ∷ "2" ∷ [])
        start
        (process_bulk_invalidation (consumer true true) ("1" ∷ "2" ∷ []) start)
process_bulk_invalidation-IsBulkRun_example =
    process_bulk_invalidation-IsBulkRun (consumer true true) ("1" ∷ "2" ∷ []) start

process_event-deletes_example :
    deleted_keys (process_event (consumer true true) update start).1.log ≡ [] ++ keys_of update
unfolding consumer_run
process_event-deletes_example = process_event-deletes (consumer true true) update start refl

handle_failure-IsSettled_example :
    IsSettled
      (consumer false true)
      msg
      update
      (message "down")
      start
      (handle_failure (consumer false true) msg update (message "down") start).1
handle_failure-IsSettled_example =
    handle_failure-IsSettled (consumer false true) msg update (message "down") start

handle_fetched-IsHandled_example :
    ((handle_fetched (consumer false false) (ok msg) start).0 ≡ none)
    × IsHandled
        (consumer false false)
        msg
        start
        (handle_fetched (consumer false false) (ok msg) start).1
handle_fetched-IsHandled_example = handle_fetched-IsHandled (consumer false false) msg start

run_round-IsStop_example :
    IsStop (consumer true true) start (ok tt) (run_round (consumer true true) start).1
unfolding consumer_run
run_round-IsStop_example = run_round-IsStop (consumer true true) start refl

-- With the cache down, the message goes to the dead letter topic behind five waits, and is
-- committed; with that topic down too, it is not.
after_failures :
    let down = (handle_fetched (consumer false true) (ok msg) start).1 in
    let lost = (handle_fetched (consumer false false) (ok msg) start).1 in
    (waits down.log ≡ 1_600_000_000 ∷ 800_000_000 ∷ 400_000_000 ∷ 200_000_000 ∷ 100_000_000 ∷ [])
    × (commits down.log ≡ msg ∷ [])
    × (dead_letters down.log ≡ dead_letter (consumer false true) msg (message "unavailable") ∷ [])
    × (commits lost.log ≡ [])
unfolding consumer_run
after_failures = (refl, refl, refl, refl)

-- Two messages, both of them updates of investor 7.
run-IsConsumed_example :
    IsConsumed
      (Queue.consumer (λ s. ok update))
      (λ ms. ms)
      (Queue.consumer-IsFed (λ s. ok update))
      (msg ∷ msg ∷ [])
      ("7" ∷ "7" ∷ [])
      (record { outside = msg ∷ msg ∷ []; log = [] })
      (run (Queue.consumer (λ s. ok update)) 2 (record { outside = msg ∷ msg ∷ []; log = [] }))
run-IsConsumed_example =
    let u : IsUpdate (Queue.consumer (λ s. ok update)) msg "7" = record {
      event = update;
      read = refl;
      update = refl;
      investor = refl;
    } in
    run-IsConsumed (Queue.consumer (λ s. ok update)) (λ ms. ms)
      (Queue.consumer-IsFed (λ s. ok update)) (record { outside = msg ∷ msg ∷ []; log = [] })
      (update_of u (update_of u no_update)) refl
