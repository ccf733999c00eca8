-- ===== src/Metrics/Samples.antt =====
-- The samples that the collectors' methods record, against what their constructors register.

use investor_cache.Base.{String, true, ℕ, ℤ, List, [], ◌∷◌, ◌++◌, ◌≡◌, refl}
use investor_cache.Go.{World}
use investor_cache.Journal.{
  Proc, Entry, inc, observe, gauge, cache_requests, cache_latency, middleware_request,
  invalidation_events, invalidation_lag, circuit_breaker_state, db_fallback, singleflight_dedup,
  dlq_write_failures, published_total, publish_errors_total, lag_seconds, unpublished_count,
  requests, request_duration, outbox_events,
}
use investor_cache.Go.Strconv.{format_int}
use investor_cache.Metrics.{
  record_cache_hit, record_cache_miss, record_cache_bypass, record_cache_error,
  record_cache_latency, record_middleware_request, record_invalidation_success,
  record_invalidation_failure, record_invalidation_dlq, record_invalidation_retry_success,
  record_kafka_error, set_circuit_breaker_state, record_db_fallback, record_singleflight_dedup,
  record_dlq_write_failure, record_reconciliation, record_published, record_publish_error,
  set_unpublished_count, record_http_request, record_outbox_event,
}
use investor_cache.Metrics.Registry.{
  Desc, new_collector, new_outbox_relay_collector, new_profile_service_collector,
}
use investor_cache.Metrics.Descriptions.{is_registrable, all_described}

-- The methods of the collectors, with their arguments.
pub data Method : Type 0 where
  cache_hit : Method
  cache_miss : Method
  cache_bypass : Method
  cache_error : Method
  latency : Method
  middleware : String → String → String → Method
  invalidated : Method
  not_invalidated : Method
  dlq : Method
  retried : ℕ → Method
  kafka_error : Method
  breaker_state : ℤ → Method
  fallback : Method
  dedup : Method
  dlq_failure : Method
  reconciliation : ℕ → ℕ → Method
  published : Method
  publish_error : Method
  unpublished : ℤ → Method
  http_request : String → String → ℤ → Method
  outbox_event : String → Method

abbrev pub collector_of : Method → List Desc
collector_of cache_hit = new_collector
collector_of cache_miss = new_collector
collector_of cache_bypass = new_collector
collector_of cache_error = new_collector
collector_of latency = new_collector
collector_of (middleware _ _ _) = new_collector
collector_of invalidated = new_collector
collector_of not_invalidated = new_collector
collector_of dlq = new_collector
collector_of (retried _) = new_collector
collector_of kafka_error = new_collector
collector_of (breaker_state _) = new_collector
collector_of fallback = new_collector
collector_of dedup = new_collector
collector_of dlq_failure = new_collector
collector_of (reconciliation _ _) = new_collector
collector_of published = new_outbox_relay_collector
collector_of publish_error = new_outbox_relay_collector
collector_of (unpublished _) = new_outbox_relay_collector
collector_of (http_request _ _ _) = new_profile_service_collector
collector_of (outbox_event _) = new_profile_service_collector

abbrev pub perform : {W : Type 0} → Method → Proc W (Unit {0})
perform cache_hit = record_cache_hit
perform cache_miss = record_cache_miss
perform cache_bypass = record_cache_bypass
perform cache_error = record_cache_error
perform latency = record_cache_latency
perform (middleware a0 a1 a2) = record_middleware_request a0 a1 a2
perform invalidated = record_invalidation_success
perform not_invalidated = record_invalidation_failure
perform dlq = record_invalidation_dlq
perform (retried a0) = record_invalidation_retry_success a0
perform kafka_error = record_kafka_error
perform (breaker_state a0) = set_circuit_breaker_state a0
perform fallback = record_db_fallback
perform dedup = record_singleflight_dedup
perform dlq_failure = record_dlq_write_failure
perform (reconciliation a0 a1) = record_reconciliation a0 a1
perform published = record_published
perform publish_error = record_publish_error
perform (unpublished a0) = set_unpublished_count a0
perform (http_request a0 a1 a2) = record_http_request a0 a1 a2
perform (outbox_event a0) = record_outbox_event a0

-- The samples in front of a log.
pub record IsSampled {W : Type 0} (ds : List Desc) (w v : World Entry W) : Type 0 where
  pub samples : List Entry
  pub logged : v.log ≡ samples ++ w.log
  pub described : all_described ds samples ≡ true
  pub untouched : v.outside ≡ w.outside

-- A call that puts samples in front of the log, and does no more.
sampled :
    {W : Type 0} (ds : List Desc) (es : List Entry) (w : World Entry W)
    → is_registrable ds ≡ true
    → all_described ds es ≡ true
    → (is_registrable ds ≡ true) × IsSampled ds w (record w { log = es ++ w.log })
sampled ds es w once each =
    (once, record { samples = es; logged = refl; described = each; untouched = refl })

-- Each collector can be registered: no two of its metrics have a name, and the bounds of its buckets
-- increase. Each sample that a method of a collector records, whatever its arguments are, is of one
-- metric of that collector and of that metric's kind, with as many values as the metric has labels.
pub perform-IsSampled :
    {W : Type 0} (m : Method) (w : World Entry W)
    → (is_registrable (collector_of m) ≡ true) × IsSampled (collector_of m) w (perform m w).1
perform-IsSampled cache_hit w = sampled _ (inc cache_requests ("hit" ∷ []) ∷ []) w refl refl
perform-IsSampled cache_miss w = sampled _ (inc cache_requests ("miss" ∷ []) ∷ []) w refl refl
perform-IsSampled cache_bypass w = sampled _ (inc cache_requests ("bypass" ∷ []) ∷ []) w refl refl
perform-IsSampled cache_error w = sampled _ (inc cache_requests ("error" ∷ []) ∷ []) w refl refl
perform-IsSampled latency w = sampled _ (observe cache_latency [] ∷ []) w refl refl
perform-IsSampled (middleware a0 a1 a2) w =
    sampled _ (observe middleware_request (a0 ∷ a1 ∷ a2 ∷ []) ∷ []) w refl refl
perform-IsSampled invalidated w =
    sampled _ (observe invalidation_lag [] ∷ inc invalidation_events ("success" ∷ []) ∷ []) w refl
      refl
perform-IsSampled not_invalidated w =
    sampled _ (inc invalidation_events ("failure" ∷ []) ∷ []) w refl refl
perform-IsSampled dlq w = sampled _ (inc invalidation_events ("dlq" ∷ []) ∷ []) w refl refl
perform-IsSampled (retried a0) w =
    sampled _ (inc invalidation_events ("success" ∷ []) ∷ []) w refl refl
perform-IsSampled kafka_error w =
    sampled _ (inc invalidation_events ("kafka_error" ∷ []) ∷ []) w refl refl
perform-IsSampled (breaker_state a0) w = sampled _ (gauge circuit_breaker_state a0 ∷ []) w refl refl
perform-IsSampled fallback w = sampled _ (inc db_fallback [] ∷ []) w refl refl
perform-IsSampled dedup w = sampled _ (inc singleflight_dedup [] ∷ []) w refl refl
perform-IsSampled dlq_failure w = sampled _ (inc dlq_write_failures [] ∷ []) w refl refl
perform-IsSampled (reconciliation a0 a1) w = sampled _ [] w refl refl
perform-IsSampled published w =
    sampled _ (observe lag_seconds [] ∷ inc published_total [] ∷ []) w refl refl
perform-IsSampled publish_error w = sampled _ (inc publish_errors_total [] ∷ []) w refl refl
perform-IsSampled (unpublished a0) w = sampled _ (gauge unpublished_count a0 ∷ []) w refl refl
perform-IsSampled (http_request a0 a1 a2) w =
    sampled _
      (observe request_duration (a0 ∷ a1 ∷ []) ∷ inc requests (a0 ∷ a1 ∷ format_int a2 ∷ []) ∷ []) w
      refl refl
perform-IsSampled (outbox_event a0) w = sampled _ (inc outbox_events (a0 ∷ []) ∷ []) w refl refl
