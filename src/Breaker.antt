-- ===== src/Breaker.antt =====
-- internal/circuitbreaker/breaker.go: the settings that the breaker of the read path is built with.
-- `sony/gobreaker` itself is a parameter of the cache manager.
pub mod Trip
mod Tests
use investor_cache.Base.{
  String, Bool, true, false, Option, none, some, ℕ, ◌*◌, ℤ, pos, ltb, leb, if◌then◌else◌,
}
use investor_cache.Go.{Error, errors_is, redis_nil, Result, ok, err}
use investor_cache.Journal.{Proc}
use investor_cache.Metrics.{set_circuit_breaker_state}

-- `gobreaker.State`, and the part of `gobreaker.Counts` that is read.
pub data State : Type 0 where
  closed half_open is_open : State

pub record Counts : Type 0 where
  pub requests : ℕ
  pub total_failures : ℕ

pub record Settings (W : Type 0) : Type 0 where
  pub name : String
  pub max_requests : ℕ
  pub interval : ℤ
  pub timeout : ℤ
  pub is_successful : Option Error → Bool
  pub ready_to_trip : Counts → Bool
  pub on_state_change : State → State → Proc W (Unit {0})

-- `err == nil || errors.Is(err, redis.Nil)`
unfoldable pub is_successful : Option Error → Bool
is_successful none = true
is_successful (some e) = errors_is e redis_nil

-- The ratio of two `uint32` counts as doubles is at least 0.5 exactly where twice the first is at
-- least the second: the quotient is rounded by less than it is away from one half.
unfoldable pub ready_to_trip : Counts → Bool
ready_to_trip counts =
    if ltb counts.requests 10 then false else leb counts.requests (2 * counts.total_failures)

abbrev pub gauge_value : State → ℤ
gauge_value closed = pos 0
gauge_value is_open = pos 1
gauge_value half_open = pos 2

unfoldable pub on_state_change : {W : Type 0} → State → State → Proc W (Unit {0})
on_state_change from to = set_circuit_breaker_state (gauge_value to)

pub new_circuit_breaker : {W : Type 0} → Settings W
new_circuit_breaker = record {
  name = "redis-circuit-breaker";
  max_requests = 3;
  interval = pos 10_000_000_000;
  timeout = pos 30_000_000_000;
  is_successful = is_successful;
  ready_to_trip = ready_to_trip;
  on_state_change = on_state_change;
}
