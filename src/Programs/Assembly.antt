-- ===== src/Programs/Assembly.antt =====
-- How the programs of cmd put their components together, from the settings.
use investor_cache.Base.{String, Bool, true, ℕ, ℤ, List, Option}
use investor_cache.Go.{Result, Error}
use investor_cache.Journal.{Proc, Message}
use investor_cache.Domain.{InvestorProfile}
use investor_cache.Config.{Config}
use investor_cache.Cache.Redis.{Server, Client}
use investor_cache.Cache.Store.{redis_store}
use investor_cache.Cache.Manager.{new_cache_manager}
use investor_cache.Repository.{Database, postgres_repository}
use investor_cache.Mux.{Route}
use investor_cache.Handler.{new_profile_handler}
use investor_cache.Handler.Router as Reads
use investor_cache.Reconciler.{Reconciler, new_reconciler}
use investor_cache.Kafka.Event.{InvalidationEvent}
use investor_cache.Kafka.{InvalidationConsumer}
use investor_cache.Kafka.Settings.{
  ReaderConfig, WriterConfig, Reader, Writer, new_invalidation_consumer,
}
use investor_cache.Outbox.Events.{Encoder}
use investor_cache.Outbox.Repository.{Statements}
use investor_cache.Outbox.{Relay, new_relay}
use investor_cache.Profile.Patch.{UpdateProfilePatch, Parsers}
use investor_cache.Profile.Repository.{UpdateQuery}
use investor_cache.Profile.Service.{Transactions, new_service}
use investor_cache.Profile.Handler.{new_handler}
use investor_cache.Profile.Handler.Router as Writes
use investor_cache.Programs.Wiring.{relay_writer}

-- cmd/middleware: the read path and the reconciler share the store and the repository.
module _ {W S N : Type 0} (s : Server S N) (c : Client W S) (db : Database W) where
  abbrev pub middleware_router :
      (String → String)
      → (String → Proc W (Result InvestorProfile) → Proc W (Result InvestorProfile × Bool))
      → (Proc W (Result (Option InvestorProfile)) → Proc W (Result (Option InvestorProfile)))
      → (Error → String)
      → Config
      → List (Route (Reads.Endpoint W))
  middleware_router getenv sf_do execute text_of cfg =
      let repo = postgres_repository db in
      Reads.new_router (
        new_profile_handler
          (new_cache_manager getenv (redis_store s c) repo sf_do execute cfg.cache.ttl) repo
          text_of)

  abbrev pub middleware_reconciler :
      List ℕ → (ℕ → ℕ → ℤ → W → Result (List String × ℕ) × W) → Config → Reconciler W
  middleware_reconciler masters scan cfg =
      new_reconciler masters scan (redis_store s c) (postgres_repository db)
        cfg.cache.reconcile_interval cfg.cache.reconcile_sample_size

  -- cmd/invalidation-worker
  abbrev pub worker_consumer :
      (ReaderConfig → Reader W)
      → (WriterConfig → Writer W)
      → (String → Result InvalidationEvent)
      → (Error → String)
      → (W → Bool × W)
      → Config
      → InvalidationConsumer W
  worker_consumer new_reader new_writer unmarshal error_text is_done cfg =
      new_invalidation_consumer new_reader new_writer unmarshal error_text is_done cfg.kafka
        (redis_store s c)

-- cmd/outbox-relay and cmd/profile-service: both have a collector.
module _ {W : Type 0} (db : Transactions W) (st : Statements W) where
  abbrev pub relay_of :
      (WriterConfig → Message → W → Result (Unit {0}) × W) → (Error → String) → Config → Relay W
  relay_of write error_text cfg = new_relay (record {
    begin = db.begin;
    tx_commit = db.tx_commit;
    tx_rollback = db.tx_rollback;
    statements = st;
    send = write (relay_writer cfg.kafka);
    error_text = error_text;
    has_metrics = true;
    poll_interval = cfg.outbox_relay.poll_interval;
    batch_size = cfg.outbox_relay.batch_size;
  })

  abbrev pub service_router :
      {F : Type 0}
      → UpdateQuery W
      → Encoder W
      → Parsers F
      → (String → Result UpdateProfilePatch)
      → (Error → String)
      → List (Route (Writes.Endpoint W))
  service_router q encoder parsers decode library_text =
      Writes.new_router
        (new_handler (new_service db q st encoder parsers true) true decode library_text)
