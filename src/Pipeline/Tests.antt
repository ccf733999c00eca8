-- ===== src/Pipeline/Tests.antt =====
-- Updates of investor 7, from the outbox to the consumer.

use investor_cache.Base.{pos, map, subst, sym, ap, arith, [], ◌∷◌, ◌≡◌, refl, ◌++◌}
use investor_cache.Journal.{Message}
use investor_cache.Cache.Outcome.{cache_key}
use investor_cache.Outbox.Events.{new_profile_updated_event}
use investor_cache.Outbox.{message_of}
use investor_cache.Kafka.{InvalidationConsumer, handle_message}
use investor_cache.Kafka.Trace.{deleted_keys, commits}
use investor_cache.Outbox
use investor_cache.Outbox.Publishing.{attempts}
use investor_cache.Outbox.Drain.Memory.{unpublished, relay, tick, relay-IsHealthy}
use investor_cache.Kafka
use investor_cache.Kafka.Queue
use investor_cache.Kafka.Feed.{IsConsumed}
use investor_cache.Pipeline.Delivery.{IsDelivered, run-delivers}
use Prim.Native.String.{len}
use investor_cache.Base.{ℕ, filter}
use investor_cache.Config.{KafkaConfig}
use investor_cache.Kafka.Settings.{Balancer, hash, least_bytes}
use investor_cache.Pipeline.Ordering.{Partitioner, has_key, value_of, appended, run-appended}
use investor_cache.Pipeline.{handle_message-new_profile_updated_event}
use investor_cache.Pipeline.Sample.{
  profile, encoder, consumer, stored, json, unmarshal, row, row-IsRowOf, delivered, empty, outbox,
  rows-AllRows, three_delivered, three-IsDelivered, queue_consumer, waiting, handed,
}

handle_message-new_profile_updated_event_example :
    ((message_of (row (pos 1))).key ≡ "7")
    × (deleted_keys (handle_message consumer delivered empty).1.log ≡ [] ++ cache_key "7" ∷ [])
    × (commits (handle_message consumer delivered empty).1.log ≡ delivered ∷ [])
unfolding new_profile_updated_event
handle_message-new_profile_updated_event_example =
    handle_message-new_profile_updated_event encoder consumer stored (json consumer (λ raw. refl))
      profile (row (pos 1)) (row-IsRowOf (pos 1)) delivered refl empty refl

run-delivers_example :
    (unpublished (Outbox.run relay tick 2 outbox).1.outside ≡ [])
    × IsConsumed queue_consumer
        (λ ms. ms)
        (Queue.consumer-IsFed unmarshal)
        three_delivered
        ("7" ∷ "7" ∷ "7" ∷ [])
        waiting
        (Kafka.run queue_consumer 3 waiting)
run-delivers_example =
    run-delivers encoder queue_consumer stored (json queue_consumer (λ raw. refl)) relay tick
      unpublished relay-IsHealthy (λ ms. ms) (Queue.consumer-IsFed unmarshal) 2 2
      (profile ∷ profile ∷ profile ∷ []) outbox three_delivered waiting refl
      (refl, (refl, (refl, tt))) (omega arith) refl rows-AllRows
      (subst (λ l. IsDelivered l three_delivered) (sym handed) three-IsDelivered) refl

abbrev brokers : KafkaConfig
brokers = record {
  brokers = "kafka:9092" ∷ [];
  topic = "profile-updates";
  group_id = "invalidation-worker";
  dlq_topic = "profile-updates-dlq";
}

-- A partition for each length of a key.
abbrev place : Balancer → Message → ℕ
place hash m = len m.key
place least_bytes m = len m.value

abbrev by_length : Partitioner
by_length = record { partition_of = place; hash_key = λ m m' e. ap len e }

run-appended_example :
    map value_of (
      filter
        (has_key "7")
        (appended by_length brokers 1 (attempts (Outbox.run relay tick 2 outbox).1.log)))
    ≡ "{ }" ∷ "{ }" ∷ "{ }" ∷ []
run-appended_example =
    run-appended by_length brokers relay tick unpublished relay-IsHealthy 2 2 outbox 1 "7" refl
      (refl, (refl, (refl, tt))) (omega arith) refl
