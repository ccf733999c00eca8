-- ===== src/Outbox.antt =====
-- internal/outbox/relay.go: the relay that publishes the outbox's events to Kafka.
pub mod Events
pub mod Repository
pub mod Publishing
pub mod Cycle
pub mod Settings
pub mod Drain
mod Tests
use investor_cache.Base.{
  String, Bool, true, false, ℕ, zero, suc, Option, none, some, ℤ, pos, leb_ℤ, List, [], ◌∷◌, ◌++◌,
  if◌then◌else◌,
}
use investor_cache.Go.{
  Result, ok, err, Error, wrap, errors_is, canceled, pure, call, lift, ◌>>=◌, ◌>>◌,
}
use investor_cache.Journal.{
  Proc, Message, begin_tx, commit_tx, rollback_tx, sql_fetch_unpublished, sql_mark_published,
  sql_record_error, sql_count_unpublished, publish,
}
use investor_cache.Outbox.Events.{Event}
use investor_cache.Outbox.Repository.{
  Statements, fetch_unpublished, mark_published, record_error, count_unpublished,
}
use investor_cache.Metrics.{record_published, record_publish_error, set_unpublished_count}

-- The relay, with the calls that it makes: the transaction's begin and end, the statements, the
-- writer, and `err.Error()`.
pub record Relay (W : Type 0) : Type 0 where
  pub begin : W → Result (Unit {0}) × W
  pub tx_commit : W → Result (Unit {0}) × W
  pub tx_rollback : W → Result (Unit {0}) × W
  pub statements : Statements W
  pub send : Message → W → Result (Unit {0}) × W
  pub error_text : Error → String
  pub has_metrics : Bool
  pub poll_interval : ℤ
  pub batch_size : ℤ

-- `NewRelay` replaces an interval and a size that are not positive.
unfoldable pub new_relay : {W : Type 0} → Relay W → Relay W
new_relay r = record r {
  poll_interval = if leb_ℤ r.poll_interval (pos 0) then pos 100_000_000 else r.poll_interval;
  batch_size = if leb_ℤ r.batch_size (pos 0) then pos 100 else r.batch_size;
}

abbrev pub message_of : Event → Message
message_of e = record {
  partition = 0;
  offset = 0;
  key = e.aggregate_id;
  value = e.payload;
  headers = [];
  time = e.created_at;
}

module _ {W : Type 0} (r : Relay W) where
  -- `if r.metrics != nil { … }`
  abbrev pub with_metrics : Proc W (Unit {0}) → Proc W (Unit {0})
  with_metrics m w = if r.has_metrics then m w else (tt, w)

  abbrev pub counted : Result ℤ → Proc W (Unit {0})
  counted (err e) = pure tt
  counted (ok n) = set_unpublished_count n

  unfoldable pub refresh_queue_depth : Proc W (Unit {0})
  refresh_queue_depth = with_metrics (count_unpublished r.statements >>= counted)

  -- The deferred rollback, and the error that is returned.
  unfoldable pub roll_back : Error → Proc W (Result (Unit {0}))
  roll_back e = do call rollback_tx r.tx_rollback; pure (err e)

  -- Behind a commit: the depth of the queue, or the rollback with the wrapped error.
  unfoldable pub after_commit : String → Result (Unit {0}) → Proc W (Result (Unit {0}))
  after_commit text (err e) = roll_back (wrap text e)
  after_commit text (ok _) = do refresh_queue_depth; pure (ok tt)

  unfoldable pub commit : String → Proc W (Result (Unit {0}))
  commit text = call commit_tx r.tx_commit >>= after_commit text

  -- Behind the write of one event; `sent` are the identifiers so far.
  unfoldable pub after_write :
      (List ℤ → Proc W (Result (List ℤ)))
      → Event
      → List ℤ
      → Result (Unit {0})
      → Proc W (Result (List ℤ))
  after_write rest e sent (ok _) = with_metrics record_published >> rest (sent ++ e.id ∷ [])
  after_write rest e sent (err x) =
      if errors_is x canceled
      then pure (err x)
      else (record_error r.statements e.id (r.error_text x)
          >> with_metrics record_publish_error
          >> pure (ok sent))

  -- The loop over the events: the identifiers of those that were written.
  unfoldable pub publish_from : List Event → List ℤ → Proc W (Result (List ℤ))
  publish_from [] sent = pure (ok sent)
  publish_from (e ∷ es) sent =
      call (publish (message_of e)) (r.send (message_of e)) >>= after_write (publish_from es) e sent

  unfoldable pub after_mark : Result (Unit {0}) → Proc W (Result (Unit {0}))
  after_mark (err e) = roll_back e
  after_mark (ok _) = commit "commit publish cycle"

  unfoldable pub after_publishing : Result (List ℤ) → Proc W (Result (Unit {0}))
  after_publishing (err e) = roll_back e
  after_publishing (ok ids) = mark_published r.statements ids >>= after_mark

  unfoldable pub after_fetch : Result (List Event) → Proc W (Result (Unit {0}))
  after_fetch (err e) = roll_back e
  after_fetch (ok []) = commit "commit empty cycle"
  after_fetch (ok (e ∷ es)) = publish_from (e ∷ es) [] >>= after_publishing

  unfoldable pub after_begin : Result (Unit {0}) → Proc W (Result (Unit {0}))
  after_begin (err e) = pure (err (wrap "begin tx" e))
  after_begin (ok _) = fetch_unpublished r.statements r.batch_size >>= after_fetch

  unfoldable pub run_cycle : Proc W (Result (Unit {0}))
  run_cycle = call begin_tx r.begin >>= after_begin

  -- The first rounds of `Run`: `select` waits for the end of the context, `true`, or for a tick. The
  -- error of a cycle is only logged.
  unfoldable pub run : (W → Bool × W) → ℕ → Proc W (Option (Result (Unit {0})))
  run select zero = pure none
  run select (suc rounds) =
      let rest = run select rounds in
      do stop ← lift select; if stop then pure (some (ok tt)) else (run_cycle >> rest)
