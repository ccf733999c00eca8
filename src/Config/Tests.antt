-- ===== src/Config/Tests.antt =====
-- Settings read from small environments.
use investor_cache.Base.{◌∷◌, String, [], ◌≡◌, ◌≢◌, refl, arith, false, pos, negsuc}
use text.Mathlib.Text.{◌==◌ as str_eq}
use text.Mathlib.TextEquality.{eq_iff}
use investor_cache.Go.Strconv.{parse_int, format_int}
use investor_cache.Go.Strconv.RoundTrip.{parse_int-format_int}
use investor_cache.Go.Strings.{split}
use investor_cache.Config.{
  Config, load, load_server, load_redis, load_db, load_kafka, load_cache, load_profile_service,
  load_outbox_relay, env_or_default, env_int_or_default, env_duration_or_default, seconds, minutes,
  milliseconds,
}
use investor_cache.Config.Environment.{Durations, environment, IsWritable, format_int-ne}
use investor_cache.Config.RoundTrip.{load-environment}

-- Durations as numbers of nanoseconds.
abbrev nanoseconds : Durations
nanoseconds = record {
  parse = parse_int;
  print = format_int;
  parse-print = parse_int-format_int;
  print-ne = format_int-ne;
}

text_ne : {s t : String} → str_eq s t ≡ false → s ≢ t
text_ne {s} {t} h = ground (arith, eq_iff s t)

abbrev unset : String → String
unset key = ""

abbrev defaults : Config
defaults = load unset parse_int

-- The defaults, and a variable that does not parse.
defaults_tests :
    (defaults.redis.pool_size ≡ pos 100)
    × (defaults.cache.ttl ≡ seconds 3600)
    × (defaults.kafka.brokers ≡ "kafka-1:9092" ∷ "kafka-2:9092" ∷ "kafka-3:9092" ∷ [])
    × ((load (λ key. "1h") parse_int).outbox_relay.batch_size ≡ pos 100)
    × ((load (λ key. "-3") parse_int).cache.reconcile_sample_size ≡ negsuc 2)
unfolding load load_server load_redis load_db load_kafka load_cache load_profile_service
    load_outbox_relay env_or_default env_int_or_default env_duration_or_default parse_int split
defaults_tests = (refl, refl, refl, refl, refl)

abbrev config : Config
config = record {
  server = record {
    port = "8080";
    metrics_port = "9091";
    read_timeout = seconds 5;
    write_timeout = seconds 5;
    idle_timeout = seconds 120;
  };
  redis = record {
    addrs = "redis:7001" ∷ "redis:7002" ∷ [];
    max_retries = negsuc 0;
    dial_timeout = seconds 5;
    read_timeout = seconds 1;
    write_timeout = seconds 1;
    pool_size = pos 100;
    min_idle_conns = pos 20;
  };
  db = record {
    dsn = "postgres://db";
    max_open_conns = pos 25;
    max_idle_conns = pos 10;
    conn_max_lifetime = minutes 5;
  };
  kafka = record {
    brokers = "kafka:9092" ∷ [];
    topic = "profile-updates";
    group_id = "group";
    dlq_topic = "dlq";
  };
  cache = record {
    ttl = seconds 3600;
    reconcile_interval = minutes 5;
    reconcile_sample_size = pos 100;
  };
  profile_service = record {
    port = "8080";
    metrics_port = "9091";
    read_timeout = seconds 5;
    write_timeout = seconds 5;
    idle_timeout = seconds 120;
  };
  outbox_relay = record {
    poll_interval = milliseconds 100;
    batch_size = pos 100;
    metrics_port = "9091";
  };
}

config-IsWritable : IsWritable config
config-IsWritable = record {
  server = record {
    port = text_ne refl;
    metrics_port = text_ne refl;
    read_timeout = omega arith;
    write_timeout = omega arith;
    idle_timeout = omega arith;
  };
  redis = record {
    addrs = record { said = text_ne refl; no_comma = (refl, (refl, tt)) };
    max_retries = omega arith;
    dial_timeout = omega arith;
    read_timeout = omega arith;
    write_timeout = omega arith;
    pool_size = omega arith;
    min_idle_conns = omega arith;
  };
  db = record {
    dsn = text_ne refl;
    max_open_conns = omega arith;
    max_idle_conns = omega arith;
    conn_max_lifetime = omega arith;
  };
  kafka = record {
    brokers = record { said = text_ne refl; no_comma = (refl, tt) };
    topic = text_ne refl;
    group_id = text_ne refl;
    dlq_topic = text_ne refl;
  };
  cache = record {
    ttl = omega arith;
    reconcile_interval = omega arith;
    reconcile_sample_size = omega arith;
  };
  profile_service = refl;
  poll_interval = omega arith;
  batch_size = omega arith;
  metrics_port = refl;
}

load-environment_example : load (environment nanoseconds config) parse_int ≡ config
load-environment_example = load-environment nanoseconds config config-IsWritable
