-- ===== src/Metrics.antt =====
-- internal/metrics: the methods of the three collectors, as log entries. The seconds that a
-- histogram observes are left out.
pub mod Count
pub mod Registry
pub mod Descriptions
pub mod Samples
mod Tests
use investor_cache.Base.{String, ℕ, ℤ, pos, [], ◌∷◌}
use investor_cache.Go.{note, ◌>>◌}
use investor_cache.Go.Strconv.{format_int}
use investor_cache.Journal.{
  Proc, inc, observe, gauge, cache_requests, cache_latency, middleware_request, invalidation_events,
  invalidation_lag, circuit_breaker_state, db_fallback, singleflight_dedup, dlq_write_failures,
  published_total, publish_errors_total, lag_seconds, unpublished_count, requests, request_duration,
  outbox_events,
}

module _ {W : Type 0} where
  abbrev pub record_cache_hit : Proc W (Unit {0})
  record_cache_hit = note (inc cache_requests ("hit" ∷ []))

  abbrev pub record_cache_miss : Proc W (Unit {0})
  record_cache_miss = note (inc cache_requests ("miss" ∷ []))

  abbrev pub record_cache_bypass : Proc W (Unit {0})
  record_cache_bypass = note (inc cache_requests ("bypass" ∷ []))

  abbrev pub record_cache_error : Proc W (Unit {0})
  record_cache_error = note (inc cache_requests ("error" ∷ []))

  abbrev pub record_cache_latency : Proc W (Unit {0})
  record_cache_latency = note (observe cache_latency [])

  abbrev pub record_middleware_request : String → String → String → Proc W (Unit {0})
  record_middleware_request route cache_result status =
      note (observe middleware_request (route ∷ cache_result ∷ status ∷ []))

  abbrev pub record_invalidation_success : Proc W (Unit {0})
  record_invalidation_success =
      note (inc invalidation_events ("success" ∷ [])) >> note (observe invalidation_lag [])

  abbrev pub record_invalidation_failure : Proc W (Unit {0})
  record_invalidation_failure = note (inc invalidation_events ("failure" ∷ []))

  abbrev pub record_invalidation_dlq : Proc W (Unit {0})
  record_invalidation_dlq = note (inc invalidation_events ("dlq" ∷ []))

  abbrev pub record_invalidation_retry_success : ℕ → Proc W (Unit {0})
  record_invalidation_retry_success attempt = note (inc invalidation_events ("success" ∷ []))

  abbrev pub record_kafka_error : Proc W (Unit {0})
  record_kafka_error = note (inc invalidation_events ("kafka_error" ∷ []))

  abbrev pub set_circuit_breaker_state : ℤ → Proc W (Unit {0})
  set_circuit_breaker_state state = note (gauge circuit_breaker_state state)

  abbrev pub record_db_fallback : Proc W (Unit {0})
  record_db_fallback = note (inc db_fallback [])

  abbrev pub record_singleflight_dedup : Proc W (Unit {0})
  record_singleflight_dedup = note (inc singleflight_dedup [])

  abbrev pub record_dlq_write_failure : Proc W (Unit {0})
  record_dlq_write_failure = note (inc dlq_write_failures [])

  -- The method's body is empty.
  abbrev pub record_reconciliation : ℕ → ℕ → Proc W (Unit {0})
  record_reconciliation total stale w = (tt, w)

  -- `OutboxRelayCollector`
  abbrev pub record_published : Proc W (Unit {0})
  record_published = note (inc published_total []) >> note (observe lag_seconds [])

  abbrev pub record_publish_error : Proc W (Unit {0})
  record_publish_error = note (inc publish_errors_total [])

  abbrev pub set_unpublished_count : ℤ → Proc W (Unit {0})
  set_unpublished_count n = note (gauge unpublished_count n)

  -- `ProfileServiceCollector`
  abbrev pub record_http_request : String → String → ℤ → Proc W (Unit {0})
  record_http_request method endpoint status =
      note (inc requests (method ∷ endpoint ∷ format_int status ∷ []))
      >> note (observe request_duration (method ∷ endpoint ∷ []))

  abbrev pub record_outbox_event : String → Proc W (Unit {0})
  record_outbox_event event_type = note (inc outbox_events (event_type ∷ []))
