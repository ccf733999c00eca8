-- ===== src/Programs/Tests.antt =====
-- The middleware over a database that answers and a Redis that does not, and the relay's whole run.
use investor_cache.Base.{[]}
use investor_cache.Go.{Result, ok, err, message, World}
use investor_cache.Go.Strconv.{parse_int}
use investor_cache.Journal.{Entry}
use investor_cache.Config.{Config, load}
use investor_cache.Programs.{Process}

abbrev answers : Unit {0} → Result (Unit {0}) × Unit {0}
answers w = (ok tt, w)

abbrev process : Process (Unit {0})
process = record {
  sql_open = λ dsn. answers;
  sql_ping = answers;
  sql_close = answers;
  redis_ping = λ w. (err (message "connection refused"), w);
  redis_close = answers;
  writer_close = answers;
  shutdown = λ a. answers;
  signalled = answers;
  worker_done = λ w. (tt, w);
}

abbrev defaults : Config
defaults = load (λ key. "") parse_int

abbrev start : World Entry (Unit {0})
start = record { outside = tt; log = [] }
