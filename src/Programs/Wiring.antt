-- ===== src/Programs/Wiring.antt =====
-- What the programs of cmd make with their settings: the HTTP servers, and the relay's writer.
use investor_cache.Base.{String, false, ℤ, pos}
use investor_cache.Go.Strings.{concat}
use investor_cache.Config.{ServerConfig, ProfileServiceConfig, KafkaConfig, milliseconds}
use investor_cache.Kafka.Settings.{WriterConfig, hash, require_all}

-- `http.Server`, less its handler; a timeout that is not given is zero.
pub record HttpServer : Type 0 where
  pub addr : String
  pub read_timeout : ℤ
  pub write_timeout : ℤ
  pub idle_timeout : ℤ

abbrev pub address : String → String
address port = concat ":" port

abbrev pub metrics_server : String → HttpServer
metrics_server port = record {
  addr = address port;
  read_timeout = pos 0;
  write_timeout = pos 0;
  idle_timeout = pos 0;
}

abbrev pub app_server : ServerConfig → HttpServer
app_server cfg = record {
  addr = address cfg.port;
  read_timeout = cfg.read_timeout;
  write_timeout = cfg.write_timeout;
  idle_timeout = cfg.idle_timeout;
}

abbrev pub service_server : ProfileServiceConfig → HttpServer
service_server cfg = record {
  addr = address cfg.port;
  read_timeout = cfg.read_timeout;
  write_timeout = cfg.write_timeout;
  idle_timeout = cfg.idle_timeout;
}

-- The writer of the outbox relay.
abbrev pub relay_writer : KafkaConfig → WriterConfig
relay_writer cfg = record {
  brokers = cfg.brokers;
  topic = cfg.topic;
  balancer = hash;
  required_acks = require_all;
  asynchronous = false;
  allow_auto_topic_creation = false;
  batch_size = pos 1;
  batch_timeout = milliseconds 10;
}
