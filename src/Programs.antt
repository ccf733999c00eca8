-- ===== src/Programs.antt =====
-- The four programs, cmd/*/main.go, from their start to their end: what they open and serve, and what
-- they close behind the signal. The end of the process by `log.Fatalf` skips the deferred calls.
pub mod Balance
pub mod Wiring
pub mod Assembly
mod Tests
use investor_cache.Base.{String, ℤ, List}
use investor_cache.Go.{Result, ok, err, wrap, pure, call, note, ◌>>=◌, ◌>>◌}
use investor_cache.Go.Strings.{concat}
use investor_cache.Journal.{
  Proc, open_pool, limit_pool, ping_pool, close_pool, open_redis, ping_redis, close_redis,
  open_reader, open_writer, close_writer, listen, start_worker, shut_down, await_signal,
  cancel_context, await_worker,
}
use investor_cache.Programs.Wiring.{
  address, metrics_server, app_server, service_server, relay_writer,
}
use investor_cache.Kafka.Settings.{reader_config, dlq_writer_config}
use investor_cache.Config.{DbConfig, RedisConfig, Config}

-- `sql.Open`, `db.Ping` and `db.Close`; the cluster client's `ForEachShard` of pings and `Close`; the
-- writer's `Close`; the servers, the wait for a signal, and the channel that the worker's goroutine
-- closes. The wait ends with an error where a goroutine ends the process first: a server's by
-- `log.Fatalf`, or any of them by a panic.
pub record Process (W : Type 0) : Type 0 where
  pub sql_open : String → W → Result (Unit {0}) × W
  pub sql_ping : W → Result (Unit {0}) × W
  pub sql_close : W → Result (Unit {0}) × W
  pub redis_ping : W → Result (Unit {0}) × W
  pub redis_close : W → Result (Unit {0}) × W
  pub writer_close : W → Result (Unit {0}) × W
  pub shutdown : String → W → Result (Unit {0}) × W
  pub signalled : W → Result (Unit {0}) × W
  pub worker_done : W → Unit {0} × W

-- `ended` is the return of `main`, `exited` the end of the process without it.
pub data End : Type 0 where
  exited : End
  ended : End

-- The directories of cmd.
pub data Program : Type 0 where
  outbox_relay : Program
  profile_service : Program
  middleware : Program
  invalidation_worker : Program

module _ {W : Type 0} (p : Process W) where
  unfoldable pub limit_conns : DbConfig → Proc W (Unit {0})
  limit_conns cfg = note (limit_pool cfg.max_open_conns cfg.max_idle_conns cfg.conn_max_lifetime)

  -- `openDB` of the relay and of the profile service.
  unfoldable pub after_ping : Result (Unit {0}) → Proc W (Result (Unit {0}))
  after_ping (err e) = do call close_pool p.sql_close; pure (err e)
  after_ping (ok _) = pure (ok tt)

  unfoldable pub after_open : DbConfig → Result (Unit {0}) → Proc W (Result (Unit {0}))
  after_open cfg (err e) = pure (err e)
  after_open cfg (ok _) = limit_conns cfg >> call ping_pool p.sql_ping >>= after_ping

  unfoldable pub open_db : DbConfig → Proc W (Result (Unit {0}))
  open_db cfg = call (open_pool cfg.dsn) (p.sql_open cfg.dsn) >>= after_open cfg

  -- `NewPostgresRepository` of the middleware.
  unfoldable pub after_repository_ping : Result (Unit {0}) → Proc W (Result (Unit {0}))
  after_repository_ping (err e) = pure (err (wrap "failed to ping database" e))
  after_repository_ping (ok _) = pure (ok tt)

  unfoldable pub after_repository_open : DbConfig → Result (Unit {0}) → Proc W (Result (Unit {0}))
  after_repository_open cfg (err e) = pure (err (wrap "failed to open database" e))
  after_repository_open cfg (ok _) =
      limit_conns cfg >> call ping_pool p.sql_ping >>= after_repository_ping

  unfoldable pub new_postgres_repository : DbConfig → Proc W (Result (Unit {0}))
  new_postgres_repository cfg =
      call (open_pool cfg.dsn) (p.sql_open cfg.dsn) >>= after_repository_open cfg

  -- `NewRedisStore`
  unfoldable pub after_shards : Result (Unit {0}) → Proc W (Result (Unit {0}))
  after_shards (err e) = pure (err (wrap "redis cluster health check failed" e))
  after_shards (ok _) = pure (ok tt)

  unfoldable pub new_redis_store : RedisConfig → Proc W (Result (Unit {0}))
  new_redis_store cfg = note (open_redis cfg) >> call ping_redis p.redis_ping >>= after_shards

  abbrev pub shut : String → Proc W (Unit {0})
  shut port w = (tt, (call (shut_down (address port)) (p.shutdown (address port)) w).1)

  -- Behind the wait for a signal.
  unfoldable pub after_wait : Proc W End → Result (Unit {0}) → Proc W End
  after_wait rest (err e) = pure exited
  after_wait rest (ok _) = rest

  -- Behind the signal, and behind what can refuse to open, two functions for each program. The worker
  -- is the goroutine of the relay's, the consumer's or the reconciler's `Run`.
  unfoldable pub relay_stopped : Config → Proc W End
  relay_stopped cfg = do
    note cancel_context
    call await_worker p.worker_done
    shut cfg.outbox_relay.metrics_port
    call close_writer p.writer_close
    call close_pool p.sql_close
    pure ended

  unfoldable pub relay_opened : Config → Result (Unit {0}) → Proc W End
  relay_opened cfg (err e) = pure exited
  relay_opened cfg (ok _) = do
    note (open_writer (relay_writer cfg.kafka).topic)
    note (listen (metrics_server cfg.outbox_relay.metrics_port).addr)
    note start_worker
    r ← call await_signal p.signalled
    after_wait (relay_stopped cfg) r

  unfoldable pub outbox_relay_main : Config → Proc W End
  outbox_relay_main cfg = open_db cfg.db >>= relay_opened cfg

  unfoldable pub service_stopped : Config → Proc W End
  service_stopped cfg = do
    shut cfg.profile_service.port
    shut cfg.profile_service.metrics_port
    call close_pool p.sql_close
    pure ended

  unfoldable pub service_opened : Config → Result (Unit {0}) → Proc W End
  service_opened cfg (err e) = pure exited
  service_opened cfg (ok _) = do
    note (listen (metrics_server cfg.profile_service.metrics_port).addr)
    note (listen (service_server cfg.profile_service).addr)
    r ← call await_signal p.signalled
    after_wait (service_stopped cfg) r

  unfoldable pub profile_service_main : Config → Proc W End
  profile_service_main cfg = open_db cfg.db >>= service_opened cfg

  unfoldable pub middleware_stopped : Config → Proc W End
  middleware_stopped cfg = do
    note cancel_context
    shut cfg.server.port
    shut cfg.server.metrics_port
    call close_redis p.redis_close
    call close_pool p.sql_close
    pure ended

  unfoldable pub middleware_opened : Config → Result (Unit {0}) → Proc W End
  middleware_opened cfg (err e) = pure exited
  middleware_opened cfg (ok _) = do
    note start_worker
    note (listen (metrics_server cfg.server.metrics_port).addr)
    note (listen (app_server cfg.server).addr)
    r ← call await_signal p.signalled
    after_wait (middleware_stopped cfg) r

  unfoldable pub middleware_repository : Config → Result (Unit {0}) → Proc W End
  middleware_repository cfg (err e) = pure exited
  middleware_repository cfg (ok _) = new_redis_store cfg.redis >>= middleware_opened cfg

  unfoldable pub middleware_main : Config → Proc W End
  middleware_main cfg = new_postgres_repository cfg.db >>= middleware_repository cfg

  -- `main` does not close the consumer's reader and writer: its `Run` does, or leaves them open.
  unfoldable pub worker_stopped : Config → Proc W End
  worker_stopped cfg = do
    note cancel_context
    call await_worker p.worker_done
    shut cfg.server.metrics_port
    call close_redis p.redis_close
    pure ended

  unfoldable pub worker_opened : Config → Result (Unit {0}) → Proc W End
  worker_opened cfg (err e) = pure exited
  worker_opened cfg (ok _) = do
    note (open_reader (reader_config cfg.kafka).topic)
    note (open_writer (dlq_writer_config cfg.kafka).topic)
    note (listen (metrics_server cfg.server.metrics_port).addr)
    note start_worker
    r ← call await_signal p.signalled
    after_wait (worker_stopped cfg) r

  unfoldable pub invalidation_worker_main : Config → Proc W End
  invalidation_worker_main cfg = new_redis_store cfg.redis >>= worker_opened cfg

  abbrev pub main_of : Program → Config → Proc W End
  main_of outbox_relay = outbox_relay_main
  main_of profile_service = profile_service_main
  main_of middleware = middleware_main
  main_of invalidation_worker = invalidation_worker_main
