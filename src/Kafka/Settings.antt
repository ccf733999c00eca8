-- ===== src/Kafka/Settings.antt =====
-- internal/kafka/consumer.go: what the consumer's reader and its dead letter writer are made with. A
-- duration is a number of nanoseconds.
use investor_cache.Base.{String, Bool, false, ℕ, ◌*◌, ◌^◌, ℤ, pos, List}
use investor_cache.Go.{Result, Error}
use investor_cache.Journal.{Message}
use investor_cache.Domain.{CacheStore}
use investor_cache.Config.{KafkaConfig, milliseconds}
use investor_cache.Kafka.Event.{InvalidationEvent}
use investor_cache.Kafka.{InvalidationConsumer}

-- The values of kafka-go's settings, as far as the repository names them.
pub data Balancer : Type 0 where
  hash : Balancer
  least_bytes : Balancer

pub data RequiredAcks : Type 0 where
  require_none : RequiredAcks
  require_one : RequiredAcks
  require_all : RequiredAcks

pub data StartOffset : Type 0 where
  first_offset : StartOffset
  last_offset : StartOffset

-- `kafka.ReaderConfig` and `kafka.Writer`, where a setting that is not given is Go's zero.
pub record ReaderConfig : Type 0 where
  pub brokers : List String
  pub topic : String
  pub group_id : String
  pub min_bytes : ℕ
  pub max_bytes : ℕ
  pub commit_interval : ℤ
  pub start_offset : StartOffset
  pub max_wait : ℤ

pub record WriterConfig : Type 0 where
  pub brokers : List String
  pub topic : String
  pub balancer : Balancer
  pub required_acks : RequiredAcks
  pub asynchronous : Bool
  pub allow_auto_topic_creation : Bool
  pub batch_size : ℤ
  pub batch_timeout : ℤ

-- The methods of a `kafka.Reader` and of a `kafka.Writer` that the consumer calls.
pub record Reader (W : Type 0) : Type 0 where
  pub fetch_message : W → Result Message × W
  pub commit_messages : Message → W → Result (Unit {0}) × W
  pub close : W → Result (Unit {0}) × W

pub record Writer (W : Type 0) : Type 0 where
  pub write_messages : Message → W → Result (Unit {0}) × W
  pub close : W → Result (Unit {0}) × W

abbrev pub reader_config : KafkaConfig → ReaderConfig
reader_config cfg = record {
  brokers = cfg.brokers;
  topic = cfg.topic;
  group_id = cfg.group_id;
  min_bytes = 1;
  max_bytes = 10 * 10 ^ 6;
  commit_interval = pos 0;
  start_offset = first_offset;
  max_wait = milliseconds 500;
}

abbrev pub dlq_writer_config : KafkaConfig → WriterConfig
dlq_writer_config cfg = record {
  brokers = cfg.brokers;
  topic = cfg.dlq_topic;
  balancer = least_bytes;
  required_acks = require_all;
  asynchronous = false;
  allow_auto_topic_creation = false;
  batch_size = pos 0;
  batch_timeout = pos 0;
}

-- `new_reader` and the writer's construction are kafka-go's; decoding JSON, the text of an error and
-- the context are parameters of the consumer.
abbrev pub new_invalidation_consumer :
    {W : Type 0}
    → (ReaderConfig → Reader W)
    → (WriterConfig → Writer W)
    → (String → Result InvalidationEvent)
    → (Error → String)
    → (W → Bool × W)
    → KafkaConfig
    → CacheStore W
    → InvalidationConsumer W
new_invalidation_consumer new_reader new_writer unmarshal error_text is_done cfg cache =
    let reader = new_reader (reader_config cfg) in
    let dlq_writer = new_writer (dlq_writer_config cfg) in
    record {
      fetch = reader.fetch_message;
      commit = reader.commit_messages;
      reader_close = reader.close;
      cache = cache;
      dlq_send = dlq_writer.write_messages;
      dlq_close = dlq_writer.close;
      unmarshal = unmarshal;
      error_text = error_text;
      is_done = is_done;
    }
