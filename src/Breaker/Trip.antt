-- ===== src/Breaker/Trip.antt =====
-- When the breaker trips, in terms of the outcomes of the reads of the cache.
use investor_cache.Base.{
  true, List, [], ◌∷◌, Option, none, some, ℕ, suc, ◌*◌, ◌≤◌, ◌≡◌, ◌↔◌, refl, arith, length,
  if◌then◌else◌,
}
use investor_cache.Go.{Error, errors_is, redis_nil}
use investor_cache.Breaker.{Counts, is_successful, ready_to_trip}

-- How many outcomes are real failures: an error that is not, and does not wrap, `redis.Nil`.
abbrev pub real_failures : List (Option Error) → ℕ
real_failures [] = 0
real_failures (none ∷ os) = real_failures os
real_failures (some e ∷ os) =
    if errors_is e redis_nil then real_failures os else suc (real_failures os)

-- `gobreaker` counts each outcome as a request, and as a failure where `IsSuccessful` refuses it.
abbrev pub counted : List (Option Error) → Counts
counted [] = record { requests = 0; total_failures = 0 }
counted (o ∷ os) = record {
  requests = suc (counted os).requests;
  total_failures =
      if is_successful o then (counted os).total_failures else suc (counted os).total_failures;
}

counted_lem :
    (os : List (Option Error))
    → ((counted os).requests ≡ length os) × ((counted os).total_failures ≡ real_failures os)
unfolding is_successful
counted_lem [] = (refl, refl)
counted_lem (none ∷ os) = ground (arith, counted_lem os)
counted_lem (some e ∷ os) = ground (arith, counted_lem os)

-- The breaker is ready to trip exactly where an interval has seen at least ten reads of the cache
-- and at least half of them failed, a miss (`redis.Nil`, wrapped or not) being no failure.
pub ready_to_trip_iff :
    (os : List (Option Error))
    → (ready_to_trip (counted os) ≡ true) ↔ ((10 ≤ length os) × (length os ≤ 2 * real_failures os))
unfolding ready_to_trip
ready_to_trip_iff os = ground (arith, counted_lem os)
