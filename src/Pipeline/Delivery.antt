-- ===== src/Pipeline/Delivery.antt =====
-- The events of the outbox through the relay and Kafka to the consumer's deletions: the `Run` of
-- internal/outbox/relay.go and that of internal/kafka/consumer.go.
use investor_cache.Base.{
  String, Bool, ℕ, ◌*◌, ◌≤◌, pos, List, [], ◌∷◌, ◌++◌, map, length, ◌≡◌, refl, ap, subst, ◌∙◌,
}
use investor_cache.Go.{World}
use investor_cache.Journal.{Entry, Message}
use investor_cache.Domain.{InvestorProfile}
use investor_cache.Outbox.Events.{Event, Encoder, payload_of}
use investor_cache.Outbox.{Relay, message_of}
use investor_cache.Outbox
use investor_cache.Outbox.Publishing.{attempts}
use investor_cache.Outbox.Drain.{IsDistinct, IsHealthy}
use investor_cache.Outbox.Drain.Emptied.{run-drains}
use investor_cache.Kafka.{InvalidationConsumer}
use investor_cache.Kafka
use investor_cache.Kafka.Feed.{
  IsFed, IsUpdate, AllUpdates, no_update, update_of, IsConsumed, run-IsConsumed,
}
use investor_cache.Pipeline.{event_of, unmarshal-payload, JsonLaws, IsRowOf}

pub data AllRows {V : Type 0} (c : Encoder V) (stored : String → String)
    : List InvestorProfile → List Event → Type 0 where
  no_row : AllRows c stored [] []
  row_of :
      {p : InvestorProfile} {row : Event} {ps : List InvestorProfile} {rows : List Event}
      → IsRowOf c stored p row
      → AllRows c stored ps rows
      → AllRows c stored (p ∷ ps) (row ∷ rows)

-- Kafka delivers what it was handed, with places of its own, in the order in which it was handed.
pub data IsDelivered : List Message → List Message → Type 0 where
  none_left : IsDelivered [] []
  delivers :
      {m m' : Message} {ms ms' : List Message}
      → m'.value ≡ m.value
      → IsDelivered ms ms'
      → IsDelivered (m ∷ ms) (m' ∷ ms')

abbrev pub id_of : InvestorProfile → String
id_of p = p.investor_id

module _ {V W : Type 0} (c : Encoder V) (k : InvalidationConsumer W) (stored : String → String)
    (json : JsonLaws c k stored) where
  row-IsUpdate :
      (p : InvestorProfile) (row : Event) (m : Message)
      → IsRowOf c stored p row
      → m.value ≡ row.payload
      → IsUpdate k m p.investor_id
  row-IsUpdate p row m r same =
      let (_, read) = unmarshal-payload c k stored json p r.fields r.world r.event r.built in
      record {
        event = event_of (payload_of p r.fields (c.now r.world.outside).0);
        read = ap k.unmarshal (same ∙ r.payload) ∙ read;
        update = refl;
        investor = refl;
      }

  rows-AllUpdates :
      {ps : List InvestorProfile} {rows : List Event} {ms : List Message}
      → AllRows c stored ps rows
      → IsDelivered (map message_of rows) ms
      → AllUpdates k ms (map id_of ps)
  rows-AllUpdates no_row none_left = no_update
  rows-AllUpdates (row_of {p} {row} r rs) (delivers {m' = m} same ds) =
      update_of (row-IsUpdate p row m r same) (rows-AllUpdates rs ds)

  module _ {R : Type 0} (relay : Relay R) (select : R → Bool × R) (view : R → List Event)
      (healthy : IsHealthy relay select view) where
    -- What the relay leaves, and what the delivered messages are to the consumer.
    pub run-AllUpdates :
        (n rounds : ℕ) (ps : List InvestorProfile) (w : World Entry R) (ms : List Message)
        → relay.batch_size ≡ pos n
        → IsDistinct (view w.outside)
        → length (view w.outside) ≤ rounds * n
        → attempts w.log ≡ []
        → AllRows c stored ps (view w.outside)
        → IsDelivered (attempts (Outbox.run relay select rounds w).1.log) ms
        → (view (Outbox.run relay select rounds w).1.outside ≡ []) × AllUpdates k ms (map id_of ps)
    run-AllUpdates n rounds ps w ms size distinct enough nothing rows delivered =
        let (_, empty, tried) =
          run-drains relay select view healthy n size rounds w distinct enough in
        let handed : attempts (Outbox.run relay select rounds w).1.log
            ≡ map message_of (view w.outside) =
          tried ∙ ap (λ l. l ++ map message_of (view w.outside)) nothing in
        (empty, rows-AllUpdates rows (subst (λ l. IsDelivered l ms) handed delivered))

    module _ (queue : W → List Message) (fed : IsFed k queue) where
      -- For an outbox whose rows carry events that the profile service made of the profiles `ps`, a
      -- relay in a healthy world that has handed over nothing yet and rounds enough for the rows, and
      -- a consumer that is fed, in their order, the values that the relay hands over, where
      -- encoding/json goes by the fields' tags and JSONB keeps an object's members: the relay leaves
      -- nothing unpublished, and as many rounds of the consumer as messages request the deletion of
      -- the keys of all the profiles, in the order of the rows, and of no other key, and commit every
      -- message.
      pub run-delivers :
          (n rounds : ℕ) (ps : List InvestorProfile) (w : World Entry R) (ms : List Message)
          (u : World Entry W)
          → relay.batch_size ≡ pos n
          → IsDistinct (view w.outside)
          → length (view w.outside) ≤ rounds * n
          → attempts w.log ≡ []
          → AllRows c stored ps (view w.outside)
          → IsDelivered (attempts (Outbox.run relay select rounds w).1.log) ms
          → queue u.outside ≡ ms
          → (view (Outbox.run relay select rounds w).1.outside ≡ [])
            × IsConsumed k queue fed ms (map id_of ps) u (Kafka.run k (length ms) u)
      run-delivers n rounds ps w ms u size distinct enough nothing rows delivered next =
          let (empty, updates) =
            run-AllUpdates n rounds ps w ms size distinct enough nothing rows delivered in
          (empty, run-IsConsumed k queue fed u updates next)
