-- ===== src/Kafka/Event.antt =====
-- The event of a message. `Timestamp()` only feeds a histogram of lags.
use investor_cache.Base.{String, ℤ, List, Option, some}
use investor_cache.Go.Json.{Value, text_field, number_field, texts_field, with_field}

pub record InvalidationEvent : Type 0 where
  pub investor_id : String
  pub event_type : String
  pub timestamp_ms : ℤ
  pub version : ℤ
  pub investor_ids : List String

-- The event of an object's members, by the tags of the fields.
abbrev pub event_from : (String → Option Value) → Option InvalidationEvent
event_from member = with_field (text_field (member "investor_id")) (λ investor_id.
    with_field (text_field (member "event_type")) (λ event_type.
      with_field (number_field (member "timestamp")) (λ timestamp_ms.
        with_field (number_field (member "version")) (λ version.
          with_field (texts_field (member "investor_ids")) (λ investor_ids. some (record {
            investor_id = investor_id;
            event_type = event_type;
            timestamp_ms = timestamp_ms;
            version = version;
            investor_ids = investor_ids;
          }))))))
