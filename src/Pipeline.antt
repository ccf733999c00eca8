-- ===== src/Pipeline.antt =====
-- An update from the profile service's outbox to the cache: internal/outbox/event.go, the message that
-- internal/outbox/relay.go makes of it, and internal/kafka/consumer.go.
pub mod Delivery
pub mod Freshness
pub mod Ordering
pub mod Visible
pub mod Sample
mod Shared
mod Tests
use investor_cache.Base.{
  none, String, ℤ, List, [], ◌∷◌, ◌++◌, some, Option, ◌≡◌, refl, ap, sym, ◌∙◌, inl, inr, arith,
}
use investor_cache.Go.{Result, Result-cases, ok, err, World}
use investor_cache.Journal.{Entry, Message}
use investor_cache.Domain.{InvestorProfile}
use investor_cache.Cache.Outcome.{cache_key}
use investor_cache.Outbox.Events.{
  Event, KafkaPayload, Encoder, payload_of, event_with, marshalled, members_of, changed_member,
  new_profile_updated_event,
}
use investor_cache.Outbox.{message_of}
use investor_cache.Go.Json.{Value, member_of}
use investor_cache.Kafka.Event.{InvalidationEvent, event_from}
use investor_cache.Kafka.{
  InvalidationConsumer, handle_message, handle_decoded, after_event, process_event,
}
use investor_cache.Kafka.Trace.{deleted_keys, commits}

-- The fields that a payload and an event name alike.
abbrev pub event_of : KafkaPayload → InvalidationEvent
event_of p = record {
  investor_id = p.investor_id;
  event_type = p.event_type;
  timestamp_ms = p.timestamp_ms;
  version = p.version;
  investor_ids = [];
}

-- What the way of a payload relies on. `stored` is the text that PostgreSQL gives back for a JSONB
-- column, which is not the text that was inserted; `member` is a member of a text's object.
pub record JsonLaws {V W : Type 0} (c : Encoder V) (k : InvalidationConsumer W)
    (stored : String → String) : Type 0 where
  pub member : String → String → Option Value
  -- json.Marshal writes the fields under their tags.
  pub marshals :
      (p : KafkaPayload) (raw : String)
      → c.marshal p ≡ ok raw
      → (key : String) → member raw key ≡ member_of key (members_of p)
  -- JSONB keeps the members, and neither their order nor the space between them.
  pub keeps : (raw key : String) → member (stored raw) key ≡ member raw key
  -- json.Unmarshal fills the fields by their tags.
  pub unmarshals :
      (raw : String) (event : InvalidationEvent)
      → event_from (member raw) ≡ some event
      → k.unmarshal raw ≡ ok event

-- A row of the outbox with an event that the profile service made of a profile: the relay reads the
-- payload as the JSONB column gives it.
pub record IsRowOf {V : Type 0} (c : Encoder V) (stored : String → String) (p : InvestorProfile)
    (row : Event) : Type 0 where
  pub fields : List String
  pub world : World Entry V
  pub event : Event
  pub built : (new_profile_updated_event c (some p) fields world).0 ≡ ok event
  pub aggregate : row.aggregate_id ≡ event.aggregate_id
  pub payload : row.payload ≡ stored event.payload

no_ids : (fields : List String) → member_of "investor_ids" (changed_member fields) ≡ none
no_ids [] = refl
no_ids (f ∷ fs) = refl

-- The tags of the two types agree.
event_from-members_of :
    (member : String → Option Value) (p : KafkaPayload)
    → ((key : String) → member key ≡ member_of key (members_of p))
    → event_from member ≡ some (event_of p)
event_from-members_of member p h =
    rw
      (
        h "investor_id",
        h "event_type",
        h "timestamp",
        h "version",
        h "investor_ids",
        no_ids p.changed_fields,
      )
      refl

module _ {V W : Type 0} (c : Encoder V) (k : InvalidationConsumer W) (stored : String → String)
    (json : JsonLaws c k stored) where
  unmarshal-stored :
      (p : KafkaPayload) (raw : String)
      → c.marshal p ≡ ok raw
      → k.unmarshal (stored raw) ≡ ok (event_of p)
  unmarshal-stored p raw h = json.unmarshals (stored raw) (event_of p) (
      event_from-members_of (json.member (stored raw)) p
        (λ key. json.keeps raw key ∙ json.marshals p raw h key))

  -- The payload of an event is what the consumer reads as the update of its profile.
  pub unmarshal-payload :
      (profile : InvestorProfile) (fields : List String) (v : World Entry V) (e : Event)
      → (new_profile_updated_event c (some profile) fields v).0 ≡ ok e
      → (e.aggregate_id ≡ profile.investor_id)
        × (k.unmarshal (stored e.payload)
            ≡ ok (event_of (payload_of profile fields (c.now v.outside).0)))
  unfolding new_profile_updated_event
  unmarshal-payload profile fields v e built =
      let p = payload_of profile fields (c.now v.outside).0 in
      elim (Result-cases (c.marshal p)) [
        | inl (raw, m) ↦
            let event : event_with profile raw ≡ e = ground (arith, built, m) in
            (
              ap (λ (x : Event). x.aggregate_id) (sym event),
              ap (λ (x : Event). k.unmarshal (stored x.payload)) (sym event)
                  ∙ unmarshal-stored p raw m,
            )
        | inr (error, m) ↦ ground (arith, built, m)
      ]

  handle_decoded-update :
      (event : InvalidationEvent) (msg : Message) (w : World Entry W)
      → event.event_type ≡ "update"
      → (k.cache.delete (cache_key event.investor_id) w.outside).0 ≡ ok tt
      → (deleted_keys (handle_decoded k msg (ok event) w).1.log
          ≡ deleted_keys w.log ++ cache_key event.investor_id ∷ [])
        × (commits (handle_decoded k msg (ok event) w).1.log ≡ msg ∷ commits w.log)
  unfolding handle_decoded process_event after_event
  handle_decoded-update event msg w update deleted = rw (update, deleted) (refl, refl)

  -- Where encoding/json goes by the fields' tags and JSONB keeps an object's members: for a row of the
  -- outbox with an event that the profile service made of a profile, and a delivered message with
  -- the value that the relay gives it, the relay's key is the investor, and when the cache deletes
  -- the profile's key the consumer's handling of the message has requested the deletion of that key
  -- and no other, and has committed the message and no other.
  pub handle_message-new_profile_updated_event :
      (profile : InvestorProfile) (row : Event)
      → IsRowOf c stored profile row
      → (msg : Message) → msg.value ≡ (message_of row).value
      → (w : World Entry W) → (k.cache.delete (cache_key profile.investor_id) w.outside).0 ≡ ok tt
      → ((message_of row).key ≡ profile.investor_id)
        × (deleted_keys (handle_message k msg w).1.log
            ≡ deleted_keys w.log ++ cache_key profile.investor_id ∷ [])
        × (commits (handle_message k msg w).1.log ≡ msg ∷ commits w.log)
  unfolding handle_message
  handle_message-new_profile_updated_event profile row r msg delivered w deleted =
      let (same, read) = unmarshal-payload profile r.fields r.world r.event r.built in
      let event = event_of (payload_of profile r.fields (c.now r.world.outside).0) in
      let (deletes, committed) = handle_decoded-update event msg w refl deleted in
      let said = ap k.unmarshal (delivered ∙ r.payload) ∙ read in
      (r.aggregate ∙ same, rw said deletes, rw said committed)
