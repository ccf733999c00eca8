-- ===== src/Lib.antt =====
-- The read path of investor profiles and the invalidation of its cache: a middleware answers reads
-- from a Redis cache in front of PostgreSQL, and a worker deletes the entries that events on a Kafka
-- topic name. A reconciler compares cached versions with the database in the background, and a
-- relay publishes the events that the profile service leaves in an outbox table.
--
-- The parts, and how their functions correspond to the code:
-- - Domain: internal/domain/model.go. InvestorProfile, and the interfaces ProfileRepository and
--   CacheStore as records of operations over a world W, which is what lies outside the program.
-- - Cache/Outcome, Cache/Store, Cache/Manager: internal/cache. `RedisStore.Get` is `get`,
--   `SetVersioned` is `set_versioned`, the Lua script is `lua_versioned_set`, `mapToProfile` is
--   `map_to_profile`; `CacheManager.GetProfile` is `get_profile`, in the steps `guarded_read`,
--   `respond`, `fall_back` and `load_miss`, and `loadAndCache` is `load_and_cache`. The cache-aside
--   that it is to be stands in Cache/Manager/ReadThrough.
-- - Breaker: internal/circuitbreaker/breaker.go. The settings that gobreaker is given.
-- - Repository: internal/repository/postgres.go. `GetByID` is `get_by_id`.
-- - Handler: internal/handler/profile.go. `GetProfile` is `handle_get`; Handler/Router has the routes
--   of `NewRouter` and what a request comes to.
-- - Mux: what the two routers take from gorilla/mux, as a parameter: it cleans the path and answers
--   301 where that changes it, and else matches the routes.
-- - Kafka: internal/kafka/consumer.go. A round of `Run` is `run_round`; `processEvent`,
--   `processBulkInvalidation`, `handleFailure` and `close` keep their names. Kafka/Settings is
--   `NewInvalidationConsumer`; Kafka/Feed is about any number of rounds of `Run`.
-- - Reconciler: internal/reconciler/reconciler.go. `Run` is `run`, with `reconcile` and `sample_keys`;
--   Reconciler/Repair has the specification of a pass.
-- - Metrics: internal/metrics. Every method that records a sample; Metrics/Registry has what the
--   constructors register.
-- - Profile/Patch: internal/profile/patch.go. `ValidatePatch` is `validate_patch`, with a function for
--   the block of each field; `emailRegex` is `match_email`.
-- - Profile/Repository, Profile/Service, Profile/Handler: the rest of internal/profile.
--   `WriteRepository.Update` is `update`, and the text of its statement `query_of (build patch)`;
--   `Service.UpdateProfile` is `update_profile`, and the handler's `UpdateProfile` `handle_update`,
--   each with a function for what stands behind each of its calls. Profile/Handler/Router has the
--   routes of `NewRouter`.
-- - Outbox/Events, Outbox/Repository: internal/outbox/event.go and repository.go.
--   `NewProfileUpdatedEvent` is `new_profile_updated_event`; the statements keep their names.
-- - Outbox: internal/outbox/relay.go. `NewRelay` is `new_relay`, `Run` is `run`, `runCycle` is
--   `run_cycle`, with a function for what stands behind each of its calls.
-- - Coherence: a specification of one investor's row, hash, loads in flight and pending invalidations
--   as a step relation: a commit, the read and the write of a load, and the deletions, interleaved in
--   any order. Its writes run the code's `lua_versioned_set` on the code's arguments; the other steps
--   say what the programs do to the investor's row and hash, and translate no function. Coherence/Ahead
--   is about runs without a deletion.
-- - Pipeline: an update from internal/outbox/event.go to internal/kafka/consumer.go; Delivery and
--   Ordering put the `Run` of the relay in front, Freshness the next `GetProfile` behind, and Visible
--   both. The payload goes through the outbox's JSONB column: what the relay reads is another text of
--   the same object.
-- - Config: pkg/config/config.go. `Load` is `load`, with a function for each of its sections.
-- - Programs: cmd/*/main.go with openDB, and the constructors that open a pool or a client. A `main`
--   keeps its program's name, as in `outbox_relay_main`. Programs/Wiring has the settings of the
--   HTTP servers and of the relay's writer, Programs/Assembly the components put together.
-- - Go: the standard library's errors, `strconv`, `strings` and formatting, as far as the code uses
--   them, and Go/Json the members of an object. Base: Booleans, lists and integers over the native
--   numbers. Journal: the log's entries.
--
-- Code with effects takes a world and the log of the calls and samples so far, newest first, and
-- gives a result, a world and a longer log (`Proc`). A Go error is a value of `Error`, a function
-- that may fail returns a `Result`. The manager calls the store and the repository through the
-- interfaces, the handler calls the manager, the consumer and the reconciler call the interfaces.
--
-- Redis, PostgreSQL, kafka-go, gorilla/mux, gobreaker, singleflight and encoding/json are
-- parameters, the last with the members of the objects that it writes and reads in Pipeline, and so
-- are strconv.ParseFloat, os.Getenv, time.ParseDuration and the clock. What the
-- profile service relies on of a transaction stands in Profile/Service/Atomic, and what a healthy
-- relay relies on in Outbox/Drain. What is assumed of Redis and its client stands in
-- Cache/Redis/Laws, and an instance in memory in Cache/Redis/Memory; what is assumed of gobreaker
-- and singleflight stands in Cache/Manager/Libraries.
--
-- Bounds and fuel. The loop over batches has as many rounds of fuel as there are identifiers, and a
-- round moves a positive step. The loop of `handleFailure` has the source's five rounds. The loop
-- over the pages of SCAN is on fuel, enough above the rank of a cursor. The consumer's, the relay's
-- and the reconciler's `Run` have no bound: the models run any number of first rounds. Versions and
-- times to live are integers; where Lua compares them as doubles the theorems ask for exact values.
--
-- Not modelled: the seconds that a histogram observes;
-- contexts and deadlines, except the end of each `Run`; the concurrency of SCAN on several masters,
-- which the model runs in turn; the log's text.
pub mod Base
pub mod Go
pub mod Domain
pub mod Journal
pub mod Metrics
pub mod Cache
pub mod Breaker
pub mod Repository
pub mod Handler
pub mod Reconciler
pub mod Kafka
pub mod Coherence
pub mod Profile
pub mod Outbox
pub mod Config
pub mod Pipeline
pub mod Programs
pub mod Mux
