-- ===== src/Outbox/Events.antt =====
-- internal/outbox/event.go: the events of the outbox and the payload that Kafka carries. The clock and
-- `json.Marshal` are parameters.
use investor_cache.Go.Json.{Value, json_text, json_number, json_texts}
use investor_cache.Base.{String, ℤ, pos, List, [], ◌∷◌, Option, none, some}
use investor_cache.Go.{Result, ok, err, message, wrap, pure, lift, ◌>>=◌}
use investor_cache.Journal.{Proc}
use investor_cache.Domain.{InvestorProfile}

pub record Event : Type 0 where
  pub id : ℤ
  pub aggregate_id : String
  pub aggregate_type : String
  pub event_type : String
  pub payload : String
  pub created_at : ℤ
  pub retry_count : ℤ

abbrev pub aggregate_type_investor : String
aggregate_type_investor = "investor"

abbrev pub event_type_profile_updated : String
event_type_profile_updated = "profile_updated"

pub record KafkaPayload : Type 0 where
  pub investor_id : String
  pub event_type : String
  pub timestamp_ms : ℤ
  pub version : ℤ
  pub changed_fields : List String

-- The list is left out where it is empty.
abbrev pub changed_member : List String → List (String × Value)
changed_member [] = []
changed_member (f ∷ fs) = ("changed_fields", json_texts (f ∷ fs)) ∷ []

-- The members of a payload's object, by the tags of the fields.
abbrev pub members_of : KafkaPayload → List (String × Value)
members_of p =
    ("investor_id", json_text p.investor_id)
    ∷ ("event_type", json_text p.event_type)
    ∷ ("timestamp", json_number p.timestamp_ms)
    ∷ ("version", json_number p.version)
    ∷ changed_member p.changed_fields

-- `time.Now().UnixMilli()` and `json.Marshal`.
pub record Encoder (W : Type 0) : Type 0 where
  pub now : W → ℤ × W
  pub marshal : KafkaPayload → Result String

abbrev pub payload_of : InvestorProfile → List String → ℤ → KafkaPayload
payload_of profile changed_fields now = record {
  investor_id = profile.investor_id;
  event_type = "update";
  timestamp_ms = now;
  version = profile.cache_version;
  changed_fields = changed_fields;
}

-- The fields that the literal leaves out are zero; the table fills them.
abbrev pub event_with : InvestorProfile → String → Event
event_with profile raw = record {
  id = pos 0;
  aggregate_id = profile.investor_id;
  aggregate_type = aggregate_type_investor;
  event_type = event_type_profile_updated;
  payload = raw;
  created_at = pos 0;
  retry_count = pos 0;
}

abbrev pub marshalled : InvestorProfile → Result String → Result Event
marshalled profile (err e) = err (wrap "marshal kafka payload" e)
marshalled profile (ok raw) = ok (event_with profile raw)

module _ {W : Type 0} (c : Encoder W) where
  unfoldable pub new_profile_updated_event :
      Option InvestorProfile → List String → Proc W (Result Event)
  new_profile_updated_event none changed_fields = pure (err (message "nil profile"))
  new_profile_updated_event (some profile) changed_fields = do
    now ← lift c.now
    pure (marshalled profile (c.marshal (payload_of profile changed_fields now)))
