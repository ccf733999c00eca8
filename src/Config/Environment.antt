-- ===== src/Config/Environment.antt =====
-- A configuration written into the environment, and read back.
use text.Mathlib.Text.{◌==◌ as str_eq}
use text.Mathlib.TextEquality.{eq_iff}
use investor_cache.Base.{
  String, false, List, [], ◌∷◌, ◌≡◌, ◌≢◌, refl, ap, arith, ℤ, IsInt64, All, if◌then◌else◌,
}
use investor_cache.Go.{Result, ok}
use investor_cache.Go.Strconv.{parse_int, format_int}
use investor_cache.Go.Strconv.RoundTrip.{parse_int-format_int}
use investor_cache.Go.Strings.{join, split, contains, split-join}
use investor_cache.Config.{
  ServerConfig, RedisConfig, DbConfig, KafkaConfig, CacheConfig, ProfileServiceConfig, Config,
  env_or_default, env_int_or_default, env_duration_or_default,
}

-- `time.ParseDuration` and `Duration.String`: the print of a duration is a text that is not empty,
-- and reads as that duration.
pub record Durations : Type 0 where
  pub parse : String → Result ℤ
  pub print : ℤ → String
  pub parse-print : (d : ℤ) → IsInt64 d → parse (print d) ≡ ok d
  pub print-ne : (d : ℤ) → IsInt64 d → print d ≢ ""

-- The variables that say `c`.
unfoldable pub environment : Durations → Config → String → String
environment d c key =
    if str_eq key "SERVER_PORT"
    then c.server.port
    else if str_eq key "METRICS_PORT"
    then c.server.metrics_port
    else if str_eq key "SERVER_READ_TIMEOUT"
    then d.print c.server.read_timeout
    else if str_eq key "SERVER_WRITE_TIMEOUT"
    then d.print c.server.write_timeout
    else if str_eq key "SERVER_IDLE_TIMEOUT"
    then d.print c.server.idle_timeout
    else if str_eq key "REDIS_ADDRS"
    then join "," c.redis.addrs
    else if str_eq key "REDIS_MAX_RETRIES"
    then format_int c.redis.max_retries
    else if str_eq key "REDIS_DIAL_TIMEOUT"
    then d.print c.redis.dial_timeout
    else if str_eq key "REDIS_READ_TIMEOUT"
    then d.print c.redis.read_timeout
    else if str_eq key "REDIS_WRITE_TIMEOUT"
    then d.print c.redis.write_timeout
    else if str_eq key "REDIS_POOL_SIZE"
    then format_int c.redis.pool_size
    else if str_eq key "REDIS_MIN_IDLE_CONNS"
    then format_int c.redis.min_idle_conns
    else if str_eq key "DATABASE_DSN"
    then c.db.dsn
    else if str_eq key "DB_MAX_OPEN_CONNS"
    then format_int c.db.max_open_conns
    else if str_eq key "DB_MAX_IDLE_CONNS"
    then format_int c.db.max_idle_conns
    else if str_eq key "DB_CONN_MAX_LIFETIME"
    then d.print c.db.conn_max_lifetime
    else if str_eq key "KAFKA_BROKERS"
    then join "," c.kafka.brokers
    else if str_eq key "KAFKA_TOPIC"
    then c.kafka.topic
    else if str_eq key "KAFKA_GROUP_ID"
    then c.kafka.group_id
    else if str_eq key "KAFKA_DLQ_TOPIC"
    then c.kafka.dlq_topic
    else if str_eq key "CACHE_TTL"
    then d.print c.cache.ttl
    else if str_eq key "RECONCILE_INTERVAL"
    then d.print c.cache.reconcile_interval
    else if str_eq key "RECONCILE_SAMPLE_SIZE"
    then format_int c.cache.reconcile_sample_size
    else if str_eq key "OUTBOX_POLL_INTERVAL"
    then d.print c.outbox_relay.poll_interval
    else if str_eq key "OUTBOX_BATCH_SIZE"
    then format_int c.outbox_relay.batch_size
    else ""

-- A list that its text can say: not the text alone that is empty, and no comma in a part.
pub record IsParts (ss : List String) : Type 0 where
  pub said : join "," ss ≢ ""
  pub no_comma : All (λ s. contains "," s ≡ false) ss

pub record IsServer (c : ServerConfig) : Type 0 where
  pub port : c.port ≢ ""
  pub metrics_port : c.metrics_port ≢ ""
  pub read_timeout : IsInt64 c.read_timeout
  pub write_timeout : IsInt64 c.write_timeout
  pub idle_timeout : IsInt64 c.idle_timeout

pub record IsRedis (c : RedisConfig) : Type 0 where
  pub addrs : IsParts c.addrs
  pub max_retries : IsInt64 c.max_retries
  pub dial_timeout : IsInt64 c.dial_timeout
  pub read_timeout : IsInt64 c.read_timeout
  pub write_timeout : IsInt64 c.write_timeout
  pub pool_size : IsInt64 c.pool_size
  pub min_idle_conns : IsInt64 c.min_idle_conns

pub record IsDb (c : DbConfig) : Type 0 where
  pub dsn : c.dsn ≢ ""
  pub max_open_conns : IsInt64 c.max_open_conns
  pub max_idle_conns : IsInt64 c.max_idle_conns
  pub conn_max_lifetime : IsInt64 c.conn_max_lifetime

pub record IsKafka (c : KafkaConfig) : Type 0 where
  pub brokers : IsParts c.brokers
  pub topic : c.topic ≢ ""
  pub group_id : c.group_id ≢ ""
  pub dlq_topic : c.dlq_topic ≢ ""

pub record IsCache (c : CacheConfig) : Type 0 where
  pub ttl : IsInt64 c.ttl
  pub reconcile_interval : IsInt64 c.reconcile_interval
  pub reconcile_sample_size : IsInt64 c.reconcile_sample_size

-- The profile service reads the variables of the middleware's server, and every program the same
-- METRICS_PORT.
abbrev pub shared : ServerConfig → ProfileServiceConfig
shared c = record {
  port = c.port;
  metrics_port = c.metrics_port;
  read_timeout = c.read_timeout;
  write_timeout = c.write_timeout;
  idle_timeout = c.idle_timeout;
}

pub record IsWritable (c : Config) : Type 0 where
  pub server : IsServer c.server
  pub redis : IsRedis c.redis
  pub db : IsDb c.db
  pub kafka : IsKafka c.kafka
  pub cache : IsCache c.cache
  pub profile_service : c.profile_service ≡ shared c.server
  pub poll_interval : IsInt64 c.outbox_relay.poll_interval
  pub batch_size : IsInt64 c.outbox_relay.batch_size
  pub metrics_port : c.outbox_relay.metrics_port ≡ c.server.metrics_port

str_eq_ne : (s t : String) → s ≢ t → str_eq s t ≡ false
str_eq_ne s t h = ground (arith, eq_iff s t)

pub format_int-ne : (i : ℤ) → IsInt64 i → format_int i ≢ ""
unfolding parse_int
format_int-ne i h e = let p = parse_int-format_int i h in ground (arith, ap parse_int e)

module _ (g : String → String) (parse : String → Result ℤ) (key : String) where
  pub env_or_default-set :
      (v default : String) → g key ≡ v → v ≢ "" → env_or_default g parse key default ≡ v
  unfolding env_or_default
  env_or_default-set v default e h = rw (e, str_eq_ne v "" h) refl

  pub env_int_or_default-set :
      (i default : ℤ)
      → g key ≡ format_int i
      → IsInt64 i
      → env_int_or_default g parse key default ≡ i
  unfolding env_int_or_default
  env_int_or_default-set i default e h =
      rw (e, str_eq_ne (format_int i) "" (format_int-ne i h), parse_int-format_int i h) refl

module _ (g : String → String) (d : Durations) (key : String) where
  pub env_duration_or_default-set :
      (i default : ℤ)
      → g key ≡ d.print i
      → IsInt64 i
      → env_duration_or_default g d.parse key default ≡ i
  unfolding env_duration_or_default
  env_duration_or_default-set i default e h =
      rw (e, str_eq_ne (d.print i) "" (d.print-ne i h), d.parse-print i h) refl

pub split-parts : (ss : List String) → IsParts ss → split "," (join "," ss) ≡ ss
split-parts [] h = absurd (h.said refl)
split-parts (s ∷ ss) h = split-join "," s ss h.no_comma
