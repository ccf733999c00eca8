-- ===== src/Metrics/Registry.antt =====
-- internal/metrics: the constructors of the three collectors, with the names, labels and buckets that
-- they register with Prometheus.
use investor_cache.Base.{String, ℕ, List, [], ◌∷◌}
use investor_cache.Journal.{
  Metric, cache_requests, cache_latency, middleware_request, invalidation_events, invalidation_lag,
  circuit_breaker_state, db_fallback, singleflight_dedup, dlq_write_failures, published_total,
  publish_errors_total, lag_seconds, unpublished_count, requests, request_duration, outbox_events,
}

-- `prometheus.NewCounterVec`, `NewGaugeVec` and `NewHistogramVec`; without labels, the plain ones.
pub data Kind : Type 0 where
  counter : Kind
  gauge_of : Kind
  histogram : Kind

-- A field of a collector. A bucket's bound is a number of ten microseconds.
pub record Desc : Type 0 where
  pub metric : Metric
  pub kind : Kind
  pub name : String
  pub help : String
  pub labels : List String
  pub buckets : List ℕ

abbrev pub cache_requests_desc : Desc
cache_requests_desc = record {
  metric = cache_requests;
  kind = counter;
  name = "cache_requests_total";
  help = "Total number of cache requests by status";
  labels = "status" ∷ [];
  buckets = [];
}

abbrev pub cache_latency_desc : Desc
cache_latency_desc = record {
  metric = cache_latency;
  kind = histogram;
  name = "cache_latency_seconds";
  help = "Latency of cache operations in seconds";
  labels = [];
  buckets =
      25 ∷ 50 ∷ 75 ∷ 100 ∷ 125 ∷ 150 ∷ 200 ∷ 300 ∷ 500 ∷ 750 ∷ 1000 ∷ 2500 ∷ 5000 ∷ 10000 ∷ [];
}

abbrev pub middleware_request_desc : Desc
middleware_request_desc = record {
  metric = middleware_request;
  kind = histogram;
  name = "middleware_request_duration_seconds";
  help = "Latency of middleware HTTP handler from request entry to response completion in seconds";
  labels = "route" ∷ "cache_result" ∷ "status" ∷ [];
  buckets =
      25 ∷ 50 ∷ 75 ∷ 100 ∷ 125 ∷ 150 ∷ 200 ∷ 300 ∷ 500 ∷ 750 ∷ 1000 ∷ 2500 ∷ 5000 ∷ 10000 ∷ [];
}

abbrev pub invalidation_events_desc : Desc
invalidation_events_desc = record {
  metric = invalidation_events;
  kind = counter;
  name = "invalidation_events_total";
  help = "Total invalidation events processed by result";
  labels = "result" ∷ [];
  buckets = [];
}

abbrev pub invalidation_lag_desc : Desc
invalidation_lag_desc = record {
  metric = invalidation_lag;
  kind = histogram;
  name = "invalidation_lag_seconds";
  help = "Lag between event timestamp and cache invalidation";
  labels = [];
  buckets = 1000 ∷ 5000 ∷ 10000 ∷ 25000 ∷ 50000 ∷ 100000 ∷ 250000 ∷ 500000 ∷ [];
}

abbrev pub circuit_breaker_state_desc : Desc
circuit_breaker_state_desc = record {
  metric = circuit_breaker_state;
  kind = gauge_of;
  name = "circuit_breaker_state";
  help = "Current circuit breaker state (0=closed, 1=open, 2=half-open)";
  labels = [];
  buckets = [];
}

abbrev pub db_fallback_desc : Desc
db_fallback_desc = record {
  metric = db_fallback;
  kind = counter;
  name = "db_fallback_total";
  help = "Total direct DB requests when cache is bypassed";
  labels = [];
  buckets = [];
}

abbrev pub singleflight_dedup_desc : Desc
singleflight_dedup_desc = record {
  metric = singleflight_dedup;
  kind = counter;
  name = "singleflight_dedup_total";
  help = "Total deduplicated concurrent requests via singleflight";
  labels = [];
  buckets = [];
}

abbrev pub dlq_write_failures_desc : Desc
dlq_write_failures_desc = record {
  metric = dlq_write_failures;
  kind = counter;
  name = "dlq_write_failures_total";
  help = "Total failed writes to dead letter queue";
  labels = [];
  buckets = [];
}

abbrev pub published_total_desc : Desc
published_total_desc = record {
  metric = published_total;
  kind = counter;
  name = "outbox_relay_published_total";
  help = "Total outbox events successfully published to Kafka";
  labels = [];
  buckets = [];
}

abbrev pub publish_errors_total_desc : Desc
publish_errors_total_desc = record {
  metric = publish_errors_total;
  kind = counter;
  name = "outbox_relay_publish_errors_total";
  help = "Total Kafka publish errors encountered by the relay";
  labels = [];
  buckets = [];
}

abbrev pub lag_seconds_desc : Desc
lag_seconds_desc = record {
  metric = lag_seconds;
  kind = histogram;
  name = "outbox_relay_lag_seconds";
  help = "Time between outbox.created_at and successful Kafka publish";
  labels = [];
  buckets = 1000 ∷ 2500 ∷ 5000 ∷ 10000 ∷ 25000 ∷ 50000 ∷ 100000 ∷ 250000 ∷ 500000 ∷ 1000000 ∷ [];
}

abbrev pub unpublished_count_desc : Desc
unpublished_count_desc = record {
  metric = unpublished_count;
  kind = gauge_of;
  name = "outbox_relay_unpublished_count";
  help = "Current number of rows in the outbox table with published = false";
  labels = [];
  buckets = [];
}

abbrev pub requests_desc : Desc
requests_desc = record {
  metric = requests;
  kind = counter;
  name = "profile_service_requests_total";
  help = "Total HTTP requests handled by profile-service";
  labels = "method" ∷ "endpoint" ∷ "status" ∷ [];
  buckets = [];
}

abbrev pub request_duration_desc : Desc
request_duration_desc = record {
  metric = request_duration;
  kind = histogram;
  name = "profile_service_request_duration_seconds";
  help = "HTTP request duration in seconds";
  labels = "method" ∷ "endpoint" ∷ [];
  buckets = 100 ∷ 500 ∷ 1000 ∷ 2500 ∷ 5000 ∷ 10000 ∷ 25000 ∷ 50000 ∷ 100000 ∷ 250000 ∷ 500000 ∷ [];
}

abbrev pub outbox_events_desc : Desc
outbox_events_desc = record {
  metric = outbox_events;
  kind = counter;
  name = "profile_service_outbox_events_total";
  help = "Total outbox events committed by profile-service";
  labels = "event_type" ∷ [];
  buckets = [];
}

-- `NewCollector`
abbrev pub new_collector : List Desc
new_collector =
    cache_requests_desc ∷ cache_latency_desc ∷ middleware_request_desc ∷ invalidation_events_desc
    ∷ invalidation_lag_desc ∷ circuit_breaker_state_desc ∷ db_fallback_desc
    ∷ singleflight_dedup_desc ∷ dlq_write_failures_desc ∷ []

-- `NewOutboxRelayCollector`
abbrev pub new_outbox_relay_collector : List Desc
new_outbox_relay_collector =
    published_total_desc ∷ publish_errors_total_desc ∷ lag_seconds_desc ∷ unpublished_count_desc
    ∷ []

-- `NewProfileServiceCollector`
abbrev pub new_profile_service_collector : List Desc
new_profile_service_collector = requests_desc ∷ request_duration_desc ∷ outbox_events_desc ∷ []
