-- ===== src/Pipeline/Sample.antt =====
-- Updates of investor 7 through a marshaller that writes the identifier, in an outbox and on a topic.
use text.Mathlib.Text.{◌==◌ as str_eq}
use text.Mathlib.TextEquality.{eq_iff}
use investor_cache.Base.{
  String, List, map, ap, sym, ◌∙◌, ◌||◌, Option, some, Bool, ◌&&◌, arith, ℤ, leb_ℤ, Bool-cases, inl,
  inr, if◌then◌else◌, true, false, [], ◌∷◌, ◌≡◌, refl, pos, none,
}
use investor_cache.Go.{Result, ok, err, message, sentinel, canceled, World}
use investor_cache.Journal.{Entry, Message}
use investor_cache.Domain.{InvestorProfile}
use investor_cache.Outbox.Events.{
  Encoder, KafkaPayload, Event, event_with, members_of, new_profile_updated_event,
}
use investor_cache.Outbox.{message_of}
use investor_cache.Go.Json.{Value, member_of}
use investor_cache.Kafka.Event.{InvalidationEvent, event_from}
use investor_cache.Kafka.{InvalidationConsumer}
use investor_cache.Outbox
use investor_cache.Outbox.Publishing.{attempts}
use investor_cache.Outbox.Drain.Emptied.{run-drains}
use investor_cache.Outbox.Drain.Memory.{Table, table, unpublished, relay, tick, relay-IsHealthy}
use investor_cache.Kafka.Queue
use investor_cache.Pipeline.Delivery.{AllRows, no_row, row_of, IsDelivered, none_left, delivers}
use investor_cache.Pipeline.{JsonLaws, IsRowOf}

abbrev pub profile : InvestorProfile
profile = record {
  investor_id = "7";
  full_name = "Ann";
  email = "ann@example.org";
  risk_profile = "moderate";
  kyc_status = "verified";
  portfolio_value = "10.00";
  preferences = "{}";
  qualified_investor = true;
  investment_horizon = "medium";
  updated_at = "2026-01-01";
  cache_version = pos 5;
}

-- The marshaller knows one payload.
abbrev pub payload : KafkaPayload
payload = record {
  investor_id = "7";
  event_type = "update";
  timestamp_ms = pos 3;
  version = pos 5;
  changed_fields = "email" ∷ [];
}

abbrev pub email_alone : List String → Bool
email_alone [] = false
email_alone (f ∷ []) = str_eq f "email"
email_alone (f ∷ g ∷ fs) = false

abbrev pub is_update : KafkaPayload → Bool
is_update p =
    str_eq p.investor_id "7"
    && str_eq p.event_type "update"
    && leb_ℤ p.timestamp_ms (pos 3)
    && leb_ℤ (pos 3) p.timestamp_ms
    && leb_ℤ p.version (pos 5)
    && leb_ℤ (pos 5) p.version
    && email_alone p.changed_fields

abbrev pub marshal : KafkaPayload → Result String
marshal p = if is_update p then ok "{}" else err (message "unknown")

-- The column writes the object with a space.
abbrev pub stored : String → String
stored raw = if str_eq raw "{}" then "{ }" else raw

abbrev pub member : String → String → Option Value
member raw key =
    if str_eq raw "{}" || str_eq raw "{ }" then member_of key (members_of payload) else none

abbrev pub decoded : Option InvalidationEvent → Result InvalidationEvent
decoded none = err (message "no event")
decoded (some event) = ok event

abbrev pub unmarshal : String → Result InvalidationEvent
unmarshal raw = decoded (event_from (member raw))

-- The clock stands at 3.
abbrev pub encoder : Encoder (Unit {0})
encoder = record { now = λ w. (pos 3, w); marshal = marshal }

abbrev pub consumer : InvalidationConsumer (Unit {0})
consumer = record {
  fetch = λ w. (err (sentinel canceled), w);
  commit = λ m w. (ok tt, w);
  reader_close = λ w. (ok tt, w);
  cache = record {
    get = λ k w. (ok none, w);
    set_versioned = λ k p ttl w. (ok true, w);
    delete = λ k w. (ok tt, w);
    delete_batch = λ ks w. (ok tt, w);
  };
  dlq_send = λ m w. (ok tt, w);
  dlq_close = λ w. (ok tt, w);
  unmarshal = unmarshal;
  error_text = λ e. "error";
  is_done = λ w. (false, w);
}

pub le_antisym : (a b : ℤ) → leb_ℤ a b ≡ true → leb_ℤ b a ≡ true → a ≡ b
le_antisym a b h h' = ground arith

pub email_alone-eq : (fs : List String) → email_alone fs ≡ true → "email" ∷ [] ≡ fs
email_alone-eq [] h = cc h
email_alone-eq (f ∷ []) h = ap (λ g. g ∷ []) (sym ((eq_iff f "email").0 h))
email_alone-eq (f ∷ g ∷ fs) h = cc h

pub is_update-eq : (p : KafkaPayload) → is_update p ≡ true → payload ≡ p
is_update-eq p h =
    let id : "7" ≡ p.investor_id = ground (arith, eq_iff p.investor_id "7") in
    let type : "update" ≡ p.event_type = ground (arith, eq_iff p.event_type "update") in
    let time : pos 3 ≡ p.timestamp_ms = ground (arith, le_antisym (pos 3) p.timestamp_ms) in
    let version : pos 5 ≡ p.version = ground (arith, le_antisym (pos 5) p.version) in
    let fields : "email" ∷ [] ≡ p.changed_fields = email_alone-eq p.changed_fields (ground arith) in
    λ i. record {
      investor_id = id i;
      event_type = type i;
      timestamp_ms = time i;
      version = version i;
      changed_fields = fields i;
    }

pub marshal-member :
    (p : KafkaPayload) (raw : String)
    → marshal p ≡ ok raw
    → (key : String) → member raw key ≡ member_of key (members_of p)
marshal-member p raw h key = elim (Bool-cases (is_update p)) [
  | inl known ↦
      let same : "{}" ≡ raw = ground arith in
      ap (λ r. member r key) (sym same)
      ∙ ap (λ q. member_of key (members_of q)) (is_update-eq p known)
  | inr unknown ↦ ground arith
]

pub stored-member : (raw key : String) → member (stored raw) key ≡ member raw key
stored-member raw key = elim (Bool-cases (str_eq raw "{}")) [
  | inl known ↦ rw known refl
  | inr other ↦ let same : stored raw ≡ raw = rw other refl in ap (λ r. member r key) same
]

module _ {W : Type 0} (k : InvalidationConsumer W)
    (same : (raw : String) → k.unmarshal raw ≡ unmarshal raw) where
  pub json : JsonLaws encoder k stored
  json = record {
    member = member;
    marshals = marshal-member;
    keeps = stored-member;
    unmarshals = λ raw e h. same raw ∙ ap decoded h;
  }

abbrev pub event : Event
event = event_with profile "{}"

abbrev pub delivered : Message
delivered = record {
  partition = 2;
  offset = 40;
  key = "7";
  value = "{ }";
  headers = [];
  time = pos 0;
}

abbrev pub empty : World Entry (Unit {0})
empty = record { outside = tt; log = [] }

-- Three rows that carry the update, and what Kafka makes of their messages.
abbrev pub row : ℤ → Event
row id = record event { id = id; payload = "{ }" }

abbrev pub rows : List Event
rows = row (pos 1) ∷ row (pos 2) ∷ row (pos 3) ∷ []

abbrev pub outbox : World Entry Table
outbox = record { outside = table rows; log = [] }

pub row-IsRowOf : (id : ℤ) → IsRowOf encoder stored profile (row id)
unfolding new_profile_updated_event
row-IsRowOf id = record {
  fields = "email" ∷ [];
  world = empty;
  event = event;
  built = refl;
  aggregate = refl;
  payload = refl;
}

pub rows-AllRows : AllRows encoder stored (profile ∷ profile ∷ profile ∷ []) rows
rows-AllRows =
    row_of (row-IsRowOf (pos 1))
      (row_of (row-IsRowOf (pos 2)) (row_of (row-IsRowOf (pos 3)) no_row))

abbrev pub three_delivered : List Message
three_delivered = delivered ∷ delivered ∷ delivered ∷ []

pub three-IsDelivered : IsDelivered (map message_of rows) three_delivered
three-IsDelivered = delivers refl (delivers refl (delivers refl none_left))

abbrev pub queue_consumer : InvalidationConsumer (List Message)
queue_consumer = Queue.consumer unmarshal

abbrev pub waiting : World Entry (List Message)
waiting = record { outside = three_delivered; log = [] }

-- What the relay hands over in two rounds.
pub handed : attempts (Outbox.run relay tick 2 outbox).1.log ≡ map message_of rows
handed =
    (run-drains relay tick unpublished relay-IsHealthy 2 refl 2 outbox (refl, (refl, (refl, tt)))
      (omega arith)).2
