-- ===== src/Breaker/Tests.antt =====
-- The breaker's settings on concrete counts.
use investor_cache.Base.{
  true, false, List, [], ◌∷◌, Option, none, some, ◌*◌, ◌≤◌, ◌≡◌, ◌↔◌, refl, length,
}
use investor_cache.Go.{Error, redis_nil, sentinel, message, wrap, errors_is}
use investor_cache.Breaker.{ready_to_trip, is_successful}
use investor_cache.Breaker.Trip.{counted, real_failures, ready_to_trip_iff}

-- Eleven reads: five timeouts, a wrapped miss and five hits.
abbrev outcomes : List (Option Error)
outcomes =
    some (message "timeout")
    ∷ some (message "timeout")
    ∷ some (message "timeout")
    ∷ some (message "timeout")
    ∷ some (message "timeout")
    ∷ some (wrap "cache" (sentinel redis_nil))
    ∷ none
    ∷ none
    ∷ none
    ∷ none
    ∷ none
    ∷ []

stays_closed : ready_to_trip (counted outcomes) ≡ false
unfolding ready_to_trip is_successful errors_is
stays_closed = refl

ready_to_trip_iff_example :
    (ready_to_trip (counted outcomes) ≡ true)
    ↔ ((10 ≤ length outcomes) × (length outcomes ≤ 2 * real_failures outcomes))
ready_to_trip_iff_example = ready_to_trip_iff outcomes
