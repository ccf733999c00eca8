-- ===== src/Kafka/Feed.antt =====
-- `Run` while messages come in, the cache deletes and nobody stops the consumer.
use investor_cache.Base.{
  String, false, List, [], ◌∷◌, ◌++◌, Option, none, map, length, ◌≡◌, refl, ap, ◌∙◌, sym,
}
use mathlib.Core.List.{append_assoc, append-nil}
use investor_cache.Go.{Result, ok, World}
use investor_cache.Journal.{Entry, Message, fetch_message}
use investor_cache.Cache.Outcome.{cache_key}
use investor_cache.Kafka.Event.{InvalidationEvent}
use investor_cache.Kafka.{
  InvalidationConsumer, process_event, after_event, handle_decoded, handle_message, handle_fetched,
  run_round, after_round, run,
}
use investor_cache.Kafka.Trace.{deleted_keys, commits}

-- `queue` are the messages that are still to be fetched, the next one first.
pub record IsFed {W : Type 0} (k : InvalidationConsumer W) (queue : W → List Message) : Type 0 where
  pub goes_on : (w : W) → ((k.is_done w).0 ≡ false) × (queue (k.is_done w).1 ≡ queue w)
  pub fetches :
      (w : W) (m : Message) (ms : List Message)
      → queue w ≡ m ∷ ms
      → ((k.fetch w).0 ≡ ok m) × (queue (k.fetch w).1 ≡ ms)
  pub deletes :
      (key : String) (w : W)
      → ((k.cache.delete key w).0 ≡ ok tt) × (queue (k.cache.delete key w).1 ≡ queue w)
  pub commits : (m : Message) (w : W) → queue (k.commit m w).1 ≡ queue w

-- A message that reads as the update of an investor.
pub record IsUpdate {W : Type 0} (k : InvalidationConsumer W) (m : Message) (id : String)
    : Type 0 where
  pub event : InvalidationEvent
  pub read : k.unmarshal m.value ≡ ok event
  pub update : event.event_type ≡ "update"
  pub investor : event.investor_id ≡ id

pub data AllUpdates {W : Type 0} (k : InvalidationConsumer W)
    : List Message → List String → Type 0 where
  no_update : AllUpdates k [] []
  update_of :
      {m : Message} {id : String} {ms : List Message} {ids : List String}
      → IsUpdate k m id
      → AllUpdates k ms ids
      → AllUpdates k (m ∷ ms) (id ∷ ids)

-- The messages in front of a list, the last one first, as a log has them.
abbrev pub reversed_onto : List Message → List Message → List Message
reversed_onto [] acc = acc
reversed_onto (m ∷ ms) acc = reversed_onto ms (m ∷ acc)

module _ {W : Type 0} (k : InvalidationConsumer W) (queue : W → List Message)
    (h : IsFed k queue) where
  -- What the rounds over `ms` leave.
  pub record IsConsumed (ms : List Message) (ids : List String) (w : World Entry W)
      (out : Option (Result (Unit {0})) × World Entry W) : Type 0 where
    pub running : out.0 ≡ none
    pub left : queue out.1.outside ≡ []
    pub deleted : deleted_keys out.1.log ≡ deleted_keys w.log ++ map cache_key ids
    pub committed : commits out.1.log ≡ reversed_onto ms (commits w.log)

  -- A message is handled.
  pub record IsDone (m : Message) (id : String) (w v : World Entry W) : Type 0 where
    pub still : queue v.outside ≡ queue w.outside
    pub deletes : deleted_keys v.log ≡ deleted_keys w.log ++ cache_key id ∷ []
    pub commits_it : commits v.log ≡ m ∷ commits w.log
    pub place : v.outside ≡ (k.commit m (k.cache.delete (cache_key id) w.outside).1).1

  handle_decoded-IsDone :
      (m : Message) (event : InvalidationEvent) (w : World Entry W)
      → event.event_type ≡ "update"
      → IsDone m event.investor_id w (handle_decoded k m (ok event) w).1
  unfolding handle_decoded process_event after_event
  handle_decoded-IsDone m event w update =
      let (gone, same) = h.deletes (cache_key event.investor_id) w.outside in
      rw (update, gone)
        (record {
          still = h.commits m (k.cache.delete (cache_key event.investor_id) w.outside).1 ∙ same;
          deletes = refl;
          commits_it = refl;
          place = refl;
        })

  handle_message-IsDone :
      (m : Message) (id : String) (w : World Entry W)
      → IsUpdate k m id
      → IsDone m id w (handle_message k m w).1
  unfolding handle_message
  handle_message-IsDone m id w u =
      rw (u.read, ← u.investor) (handle_decoded-IsDone m u.event w u.update)

  -- The world in which a round handles its message.
  abbrev pub fetched : World Entry W → World Entry W
  fetched w = record { outside = (k.fetch (k.is_done w.outside).1).1; log = fetch_message ∷ w.log }

  pub run_round-IsDone :
      (m : Message) (ms : List Message) (id : String) (w : World Entry W)
      → queue w.outside ≡ m ∷ ms
      → IsUpdate k m id
      → ((run_round k w).0 ≡ none)
        × IsDone m id (fetched w) (run_round k w).1
        × (queue (fetched w).outside ≡ ms)
  unfolding run_round handle_fetched
  run_round-IsDone m ms id w next u =
      let (going, same) = h.goes_on w.outside in
      let (got, rest) = h.fetches (k.is_done w.outside).1 m ms (same ∙ next) in
      rw (going, got) (refl, handle_message-IsDone m id (fetched w) u, rest)

  -- While the cache deletes and the context lives, and where the messages to come are updates of the
  -- investors `ids`: as many rounds of `Run` as there are messages leave none to be fetched, have
  -- requested the deletion of the investors' keys, in the order of the messages, and have committed
  -- every message, and `Run` goes on.
  pub run-IsConsumed :
      {ms : List Message} {ids : List String} (w : World Entry W)
      → AllUpdates k ms ids
      → queue w.outside ≡ ms
      → IsConsumed ms ids w (run k (length ms) w)
  unfolding run after_round
  run-IsConsumed w no_update empty = record {
    running = refl;
    left = empty;
    deleted = sym (append-nil (deleted_keys w.log));
    committed = refl;
  }
  run-IsConsumed w (update_of {m} {id} {ms} {ids} u us) next =
      let (going, done, rest) = run_round-IsDone m ms id w next u in
      let later = run-IsConsumed (run_round k w).1 us (done.still ∙ rest) in
      rw going (record {
        running = later.running;
        left = later.left;
        deleted =
            later.deleted
            ∙ ap (λ l. l ++ map cache_key ids) done.deletes
            ∙ append_assoc (deleted_keys w.log) (cache_key id ∷ []) (map cache_key ids);
        committed = later.committed ∙ ap (reversed_onto ms) done.commits_it;
      })
