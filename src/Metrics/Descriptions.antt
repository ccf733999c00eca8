-- ===== src/Metrics/Descriptions.antt =====
-- Samples and registrations as the Prometheus library documents them.
use text.Mathlib.Text.{◌==◌ as str_eq}
use investor_cache.Base.{
  String, Bool, true, false, not, ◌&&◌, ◌||◌, ◌==◌, ltb, ℕ, List, [], ◌∷◌, length, if◌then◌else◌,
}
use investor_cache.Journal.{
  Entry, Metric, inc, observe, gauge, cache_requests, cache_latency, middleware_request,
  invalidation_events, invalidation_lag, circuit_breaker_state, db_fallback, singleflight_dedup,
  dlq_write_failures, published_total, publish_errors_total, lag_seconds, unpublished_count,
  requests, request_duration, outbox_events,
}
use investor_cache.Metrics.Registry.{Kind, counter, gauge_of, histogram, Desc}

abbrev tag : Metric → ℕ
tag cache_requests = 0
tag cache_latency = 1
tag middleware_request = 2
tag invalidation_events = 3
tag invalidation_lag = 4
tag circuit_breaker_state = 5
tag db_fallback = 6
tag singleflight_dedup = 7
tag dlq_write_failures = 8
tag published_total = 9
tag publish_errors_total = 10
tag lag_seconds = 11
tag unpublished_count = 12
tag requests = 13
tag request_duration = 14
tag outbox_events = 15

abbrev kind_tag : Kind → ℕ
kind_tag counter = 0
kind_tag gauge_of = 1
kind_tag histogram = 2

-- The descriptions of a metric.
abbrev matching : Metric → List Desc → List Desc
matching m [] = []
matching m (d ∷ ds) = let rest = matching m ds in if tag m == tag d.metric then d ∷ rest else rest

-- One description, of the kind, with a label for each value: `WithLabelValues` panics at another
-- number of values.
abbrev fits : Kind → List String → List Desc → Bool
fits k values (d ∷ []) = kind_tag d.kind == kind_tag k && length d.labels == length values
fits k values _ = false

abbrev pub is_described : List Desc → Entry → Bool
is_described ds (inc m values) = fits counter values (matching m ds)
is_described ds (observe m values) = fits histogram values (matching m ds)
is_described ds (gauge m v) = fits gauge_of [] (matching m ds)
is_described ds _ = false

abbrev pub all_described : List Desc → List Entry → Bool
all_described ds [] = true
all_described ds (e ∷ es) = is_described ds e && all_described ds es

abbrev is_named : String → List Desc → Bool
is_named name [] = false
is_named name (d ∷ ds) = str_eq name d.name || is_named name ds

-- Every number is above the one before it.
abbrev ascends_from : ℕ → List ℕ → Bool
ascends_from n [] = true
ascends_from n (b ∷ bs) = ltb n b && ascends_from b bs

-- What registration panics at: two metrics of a name, and bounds of buckets that do not increase.
abbrev pub is_registrable : List Desc → Bool
is_registrable [] = true
is_registrable (d ∷ ds) = not (is_named d.name ds) && ascends_from 0 d.buckets && is_registrable ds
