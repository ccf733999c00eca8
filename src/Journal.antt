-- ===== src/Journal.antt =====
-- The log entries: every call that the code makes out of the program, with its arguments, and every
-- metric sample. `Message` is the part of a `kafka.Message` that the code reads or writes.
use investor_cache.Base.{String, ℕ, ℤ, List}
use investor_cache.Go.{Io}
use investor_cache.Config.{RedisConfig}

pub record Message : Type 0 where
  pub partition : ℕ
  pub offset : ℕ
  pub key : String
  pub value : String
  pub headers : List (String × String)
  pub time : ℤ

-- The metrics of the three collectors, a constructor for each of their fields.
pub data Metric : Type 0 where
  cache_requests : Metric
  cache_latency : Metric
  middleware_request : Metric
  invalidation_events : Metric
  invalidation_lag : Metric
  circuit_breaker_state : Metric
  db_fallback : Metric
  singleflight_dedup : Metric
  dlq_write_failures : Metric
  published_total : Metric
  publish_errors_total : Metric
  lag_seconds : Metric
  unpublished_count : Metric
  requests : Metric
  request_duration : Metric
  outbox_events : Metric

pub data Entry : Type 0 where
  inc : Metric → List String → Entry
  observe : Metric → List String → Entry
  gauge : Metric → ℤ → Entry
  cache_get : String → Entry
  cache_set : String → ℤ → Entry
  cache_delete : String → Entry
  cache_delete_batch : List String → Entry
  repo_get : String → Entry
  fetch_message : Entry
  commit_message : Message → Entry
  dlq_write : Message → Entry
  sleep : ℕ → Entry
  close_reader : Entry
  close_dlq : Entry
  scan_keys : Entry
  begin_tx : Entry
  commit_tx : Entry
  rollback_tx : Entry
  sql_update_profile : String → Entry
  sql_insert_event : String → String → Entry
  sql_fetch_unpublished : ℤ → Entry
  sql_mark_published : List ℤ → Entry
  sql_record_error : ℤ → Entry
  sql_count_unpublished : Entry
  publish : Message → Entry
  open_pool : String → Entry
  limit_pool : ℤ → ℤ → ℤ → Entry
  ping_pool : Entry
  close_pool : Entry
  open_redis : RedisConfig → Entry
  ping_redis : Entry
  close_redis : Entry
  open_reader : String → Entry
  open_writer : String → Entry
  close_writer : Entry
  listen : String → Entry
  start_worker : Entry
  shut_down : String → Entry
  await_signal : Entry
  cancel_context : Entry
  await_worker : Entry

abbrev pub Proc : Type 0 → Type 0 → Type 0
Proc W A = Io Entry W A
