-- ===== src/Outbox/Drain/Memory.antt =====
-- A table in memory with a transaction, a writer that accepts and a `select` that ticks: the
-- hypotheses of `Drain` can be met.
use investor_cache.Base.{
  Bool, true, false, ℤ, pos, negsuc, List, [], ◌∷◌, ◌++◌, map, take, length, refl,
}
use investor_cache.Go.{ok}
use investor_cache.Outbox.Events.{Event}
use investor_cache.Outbox.{Relay}
use investor_cache.Outbox.Drain.{without, IsHealthy}

-- What is committed, and what the transaction sees.
pub record Table : Type 0 where
  pub committed : List Event
  pub staged : List Event

abbrev pub table : List Event → Table
table es = record { committed = es; staged = es }

-- `LIMIT`, which refuses a negative number.
abbrev limited : ℤ → List Event → List Event
limited (pos n) es = take n es
limited (negsuc n) es = []

abbrev pub relay : Relay Table
relay = record {
  begin = λ t. (ok tt, table t.committed);
  tx_commit = λ t. (ok tt, table t.staged);
  tx_rollback = λ t. (ok tt, table t.committed);
  statements = record {
    insert_event = λ e t. (ok tt, record t { staged = t.staged ++ e ∷ [] });
    select_unpublished =
        λ n t. (ok (record { scans = map ok (limited n t.staged); last_error = ok tt }), t);
    update_published = λ ids t. (ok tt, record t { staged = without ids t.staged });
    update_error = λ id text es. (ok tt, es);
    count = λ t. (ok (pos (length t.committed)), t);
  };
  send = λ msg es. (ok tt, es);
  error_text = λ e. "an error";
  has_metrics = true;
  poll_interval = pos 100_000_000;
  batch_size = pos 2;
}

abbrev pub tick : Table → Bool × Table
tick t = (false, t)

abbrev pub unpublished : Table → List Event
unpublished t = t.committed

pub relay-IsHealthy : IsHealthy relay tick unpublished
relay-IsHealthy = record {
  staged = λ t. t.staged;
  ticks = λ w. (refl, refl);
  begins = λ w. (refl, refl);
  selects = λ n w. (refl, refl);
  accepts = λ m w. (refl, refl);
  updates = λ ids w. (refl, refl);
  commits = λ w. (refl, refl);
  counts = λ w. refl;
}
