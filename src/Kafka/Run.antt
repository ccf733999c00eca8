-- ===== src/Kafka/Run.antt =====
-- The rounds of `Run`: what becomes of each message, and how the loop ends.
use investor_cache.Base.{
  Bool, true, false, ◌∷◌, ◌≡◌, refl, ap, subst, ◌∙◌, arith, none, some, if◌then◌else◌,
}
use investor_cache.Go.{Result, ok, err, Error, World, wrap, errors_is, canceled, ◌>>=◌, pure, call}
use investor_cache.Journal.{Entry, Message, fetch_message, close_reader, close_dlq}
use investor_cache.Kafka.{
  InvalidationConsumer, process_event, after_event, handle_decoded, handle_message, handle_fetched,
  run_round, close, after_reader_close, writer_closed,
}
use investor_cache.Kafka.Event.{InvalidationEvent}
use investor_cache.Kafka.Trace.{commits, dead_letters, deleted_keys}
use investor_cache.Kafka.Retry.{IsQuiet, process_event-IsQuiet, IsSettled, handle_failure-IsSettled}

-- What `close` returns where closing the writer gives `q`.
abbrev pub IsWriterEnd : Result (Unit {0}) → Result (Unit {0}) → Type 0
IsWriterEnd (err e) r = r ≡ err (wrap "failed to close dlq writer" e)
IsWriterEnd (ok _) r = r ≡ ok tt

writer_closed-IsWriterEnd : (q : Result (Unit {0})) → IsWriterEnd q (writer_closed q)
writer_closed-IsWriterEnd (err e) = refl
writer_closed-IsWriterEnd (ok _) = refl

some_inj : {q r : Result (Unit {0})} → some q ≡ some r → q ≡ r
some_inj h = ground arith

module _ {W : Type 0} (c : InvalidationConsumer W) where
  -- What becomes of a fetched message.
  pub data IsHandled (msg : Message) (w w' : World Entry W) : Type 0 where
    -- Its payload is no event: it is committed, once, and nothing is deleted.
    undecodable :
        (e : Error)
        → c.unmarshal msg.value ≡ err e
        → commits w'.log ≡ msg ∷ commits w.log
        → dead_letters w'.log ≡ dead_letters w.log
        → deleted_keys w'.log ≡ deleted_keys w.log
        → IsHandled msg w w'
    -- The first attempt succeeded: it is committed, once.
    processed :
        (event : InvalidationEvent)
        → c.unmarshal msg.value ≡ ok event
        → (process_event c event w).0 ≡ ok tt
        → commits w'.log ≡ msg ∷ commits w.log
        → dead_letters w'.log ≡ dead_letters w.log
        → deleted_keys w'.log ≡ deleted_keys (process_event c event w).1.log
        → IsHandled msg w w'
    -- The first attempt failed, and the failure is settled.
    failed :
        (event : InvalidationEvent) (e : Error)
        → c.unmarshal msg.value ≡ ok event
        → (process_event c event w).0 ≡ err e
        → IsSettled c msg event e (process_event c event w).1 w'
        → IsQuiet c w (process_event c event w).1
        → IsHandled msg w w'

  after_event-IsHandled :
      (msg : Message) (event : InvalidationEvent) (r : Result (Unit {0})) (w : World Entry W)
      → c.unmarshal msg.value ≡ ok event
      → (process_event c event w).0 ≡ r
      → IsHandled msg w (after_event c msg event r (process_event c event w).1).1
  unfolding after_event
  after_event-IsHandled msg event (ok tt) w decoded done =
      let quiet = process_event-IsQuiet c event w in
      processed event decoded done (ap (λ l. msg ∷ l) quiet.0) quiet.1 refl
  after_event-IsHandled msg event (err e) w decoded done =
      failed event e decoded done (handle_failure-IsSettled c msg event e _)
        (process_event-IsQuiet c event w)

  handle_decoded-IsHandled :
      (msg : Message) (d : Result InvalidationEvent) (w : World Entry W)
      → c.unmarshal msg.value ≡ d
      → IsHandled msg w (handle_decoded c msg d w).1
  unfolding handle_decoded
  handle_decoded-IsHandled msg (err e) w h = undecodable e h refl refl refl
  handle_decoded-IsHandled msg (ok event) w h = after_event-IsHandled msg event _ w h refl

  -- A round in which a message is fetched goes on to the next round. It requests the commit of the
  -- message exactly once, except where all six attempts at the event failed and the dead letter topic
  -- refused the message; then it requests none.
  pub handle_fetched-IsHandled :
      (msg : Message) (w : World Entry W)
      → ((handle_fetched c (ok msg) w).0 ≡ none) × IsHandled msg w (handle_fetched c (ok msg) w).1
  unfolding handle_fetched handle_message
  handle_fetched-IsHandled msg w =
      (refl, handle_decoded-IsHandled msg (c.unmarshal msg.value) w refl)

  -- The reader is closed first, and the writer of the dead letters where that succeeds. The first
  -- error is returned.
  pub data IsClosed (w : World Entry W) (r : Result (Unit {0})) (w' : World Entry W) : Type 0 where
    reader_fails :
        (e : Error)
        → (c.reader_close w.outside).0 ≡ err e
        → r ≡ err (wrap "failed to close kafka reader" e)
        → w' ≡ record { outside = (c.reader_close w.outside).1; log = close_reader ∷ w.log }
        → IsClosed w r w'
    writer_asked :
        (c.reader_close w.outside).0 ≡ ok tt
        → IsWriterEnd (c.dlq_close (c.reader_close w.outside).1).0 r
        → w' ≡ record {
          outside = (c.dlq_close (c.reader_close w.outside).1).1;
          log = close_dlq ∷ close_reader ∷ w.log;
        }
        → IsClosed w r w'

  after_reader_close-IsClosed :
      (q : Result (Unit {0})) (w v : World Entry W)
      → (c.reader_close w.outside).0 ≡ q
      → v ≡ record { outside = (c.reader_close w.outside).1; log = close_reader ∷ w.log }
      → IsClosed w (after_reader_close c q v).0 (after_reader_close c q v).1
  unfolding after_reader_close
  after_reader_close-IsClosed (err e) w v h same = reader_fails e h refl same
  after_reader_close-IsClosed (ok _) w v h same =
      rw same (writer_asked h (writer_closed-IsWriterEnd _) refl)

  close-IsClosed : (w : World Entry W) → IsClosed w (close c w).0 (close c w).1
  unfolding close
  close-IsClosed w = after_reader_close-IsClosed (c.reader_close w.outside).0 w _ refl refl

  -- `Run` returns in two ways.
  pub data IsStop (w : World Entry W) (r : Result (Unit {0})) (w' : World Entry W) : Type 0 where
    -- The test of the context before a fetch sees that it is done: reader and writer are closed.
    seen_done :
        (before : World Entry W)
        → (c.is_done w.outside).0 ≡ true
        → before.log ≡ w.log
        → before.outside ≡ (c.is_done w.outside).1
        → IsClosed before r w'
        → IsStop w r w'
    -- A fetch is cancelled: `Run` returns nil, and neither the reader nor the writer is closed.
    fetch_canceled :
        (e : Error) (at : W)
        → (c.is_done w.outside).0 ≡ false
        → (c.fetch at).0 ≡ err e
        → errors_is e canceled ≡ true
        → r ≡ ok tt
        → w'.log ≡ fetch_message ∷ w.log
        → IsStop w r w'

  handle_fetched-stop :
      (e : Error) (w : World Entry W) {r : Result (Unit {0})}
      → (handle_fetched c (err e) w).0 ≡ some r
      → (errors_is e canceled ≡ true) × (r ≡ ok tt) × ((handle_fetched c (err e) w).1 ≡ w)
  unfolding handle_fetched
  handle_fetched-stop e w h = ground arith

  fetched-IsStop :
      (q : Result Message) (w w1 w2 : World Entry W) {r : Result (Unit {0})}
      → (c.is_done w.outside).0 ≡ false
      → (c.fetch w1.outside).0 ≡ q
      → w2.log ≡ fetch_message ∷ w.log
      → (handle_fetched c q w2).0 ≡ some r
      → IsStop w r (handle_fetched c q w2).1
  fetched-IsStop (ok msg) w w1 w2 seen fetched same h = cc ((handle_fetched-IsHandled msg w2).0)
  fetched-IsStop (err e) w w1 w2 seen fetched same h =
      let (is_canceled, nil, stays) = handle_fetched-stop e w2 h in
      fetch_canceled e w1.outside seen fetched is_canceled nil
        (ap (λ (v : World Entry W). v.log) stays ∙ same)

  after_test-IsStop :
      (b : Bool) (w w1 : World Entry W) {r : Result (Unit {0})}
      → (c.is_done w.outside).0 ≡ b
      → w1.log ≡ w.log
      → w1.outside ≡ (c.is_done w.outside).1
      → ((if b
            then (close c >>= λ q. pure (some q))
            else (call fetch_message c.fetch >>= handle_fetched c))
          w1).0
        ≡ some r
      → IsStop w r
          ((if b
              then (close c >>= λ q. pure (some q))
              else (call fetch_message c.fetch >>= handle_fetched c))
            w1).1
  after_test-IsStop true w w1 seen same tested h =
      seen_done w1 seen same tested
        (subst (λ q. IsClosed w1 q (close c w1).1) (some_inj h) (close-IsClosed w1))
  after_test-IsStop false w w1 seen same tested h =
      fetched-IsStop (c.fetch w1.outside).0 w w1 _ seen refl (ap (λ l. fetch_message ∷ l) same) h

  -- `Run` ends in two ways only. It sees before a fetch that its context is done, and closes the
  -- reader, and then the writer if that succeeded, and returns the first error of the two; or the
  -- fetch itself is cancelled, and it returns nil with neither of them closed.
  pub run_round-IsStop :
      (w : World Entry W) {r : Result (Unit {0})}
      → (run_round c w).0 ≡ some r
      → IsStop w r (run_round c w).1
  unfolding run_round
  run_round-IsStop w h = after_test-IsStop (c.is_done w.outside).0 w _ refl refl refl h
