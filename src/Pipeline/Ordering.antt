-- ===== src/Pipeline/Ordering.antt =====
-- The order of an investor's events on the topic: the messages of internal/outbox/relay.go behind the
-- writer of cmd/outbox-relay/main.go.
use text.Mathlib.Text.{◌==◌ as str_eq}
use text.Mathlib.TextEquality.{eq_iff}
use investor_cache.Base.{
  String, Bool, true, ℕ, ◌*◌, ◌≤◌, ◌==◌, pos, List, [], ◌∷◌, ◌++◌, map, filter, length, ◌≡◌, refl,
  ap, ◌∙◌, inl, inr, Bool-cases, if◌then◌else◌,
}
use investor_cache.Go.{World}
use investor_cache.Journal.{Entry, Message}
use investor_cache.Config.{KafkaConfig}
use investor_cache.Outbox.Events.{Event}
use investor_cache.Outbox.{Relay, message_of, run}
use investor_cache.Outbox.Publishing.{attempts}
use investor_cache.Outbox.Drain.{IsDistinct, IsHealthy}
use investor_cache.Outbox.Drain.Emptied.{run-drains}
use investor_cache.Kafka.Settings.{Balancer, hash}
use investor_cache.Programs.Wiring.{relay_writer}

-- The writer's choice of a partition. `kafka.Hash` goes by the key alone.
pub record Partitioner : Type 0 where
  pub partition_of : Balancer → Message → ℕ
  pub hash_key : (m m' : Message) → m.key ≡ m'.key → partition_of hash m ≡ partition_of hash m'

-- A message of which only the key is given.
abbrev pub keyed : String → Message
keyed id = record { partition = 0; offset = 0; key = id; value = ""; headers = []; time = pos 0 }

abbrev pub has_key : String → Message → Bool
has_key id m = str_eq m.key id

abbrev pub is_about : String → Event → Bool
is_about id e = str_eq e.aggregate_id id

abbrev pub value_of : Message → String
value_of m = m.value

abbrev pub payload_text : Event → String
payload_text e = e.payload

module _ (parts : Partitioner) (cfg : KafkaConfig) where
  -- The number of the partition that the relay's writer chooses.
  abbrev pub partition : Message → ℕ
  partition m = parts.partition_of (relay_writer cfg).balancer m

  -- What the writer appends to a partition.
  abbrev pub appended : ℕ → List Message → List Message
  appended q ms = filter (λ m. partition m == q) ms

  message-partition :
      (id : String) (e : Event)
      → is_about id e ≡ true
      → partition (message_of e) ≡ partition (keyed id)
  message-partition id e about =
      parts.hash_key (message_of e) (keyed id) ((eq_iff e.aggregate_id id).0 about)

  appended-message_of :
      (q : ℕ) (id : String) (es : List Event)
      → map value_of (filter (has_key id) (appended q (map message_of es)))
        ≡ (if partition (keyed id) == q then map payload_text (filter (is_about id) es) else [])
  appended-message_of q id [] = elim (Bool-cases (partition (keyed id) == q)) [
    | inl here ↦ rw here refl
    | inr there ↦ rw there refl
  ]
  appended-message_of q id (e ∷ es) =
      let chosen = λ (b : Bool). if b then map payload_text (filter (is_about id) es) else [] in
      let later = appended-message_of q id es in
      elim (Bool-cases (is_about id e)) [
        | inl about ↦ elim (Bool-cases (partition (keyed id) == q)) [
          | inl here ↦
              rw (message-partition id e about, here, about)
                (ap (λ l. e.payload ∷ l) (later ∙ ap chosen here))
          | inr there ↦ rw (message-partition id e about, there) (later ∙ ap chosen there)
        ]
        | inr other ↦ elim (Bool-cases (partition (message_of e) == q)) [
          | inl same ↦ rw (same, other) later
          | inr apart ↦ rw (apart, other) later
        ]
      ]

  module _ {W : Type 0} (relay : Relay W) (select : W → Bool × W) (view : W → List Event)
      (healthy : IsHealthy relay select view) where
    -- For a relay in a healthy world that has handed over nothing yet, rounds enough for the rows of
    -- the outbox, and a writer whose `hash` balancer goes by the key alone: one partition of the topic
    -- gets the payloads of all of an investor's rows, once each and in the table's order, and the
    -- other partitions get none of them.
    pub run-appended :
        (n rounds : ℕ) (w : World Entry W) (q : ℕ) (id : String)
        → relay.batch_size ≡ pos n
        → IsDistinct (view w.outside)
        → length (view w.outside) ≤ rounds * n
        → attempts w.log ≡ []
        → map value_of
            (filter (has_key id) (appended q (attempts (run relay select rounds w).1.log)))
          ≡ (if partition (keyed id) == q
              then map payload_text (filter (is_about id) (view w.outside))
              else [])
    run-appended n rounds w q id size distinct enough nothing =
        let (_, _, tried) = run-drains relay select view healthy n size rounds w distinct enough in
        let handed : attempts (run relay select rounds w).1.log ≡ map message_of (view w.outside) =
          tried ∙ ap (λ l. l ++ map message_of (view w.outside)) nothing in
        ap (λ ms. map value_of (filter (has_key id) (appended q ms))) handed
        ∙ appended-message_of q id (view w.outside)
