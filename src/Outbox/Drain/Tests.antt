-- ===== src/Outbox/Drain/Tests.antt =====
-- A table in memory with three events, and batches of two.
use investor_cache.Base.{String, ℤ, pos, none, List, [], ◌∷◌, ◌++◌, map, ◌≡◌, refl, arith}
use investor_cache.Go.{World}
use investor_cache.Journal.{Entry}
use investor_cache.Outbox.Events.{Event}
use investor_cache.Outbox.{message_of, run}
use investor_cache.Outbox.Publishing.{attempts}
use investor_cache.Outbox.Drain.Memory.{Table, table, unpublished, relay, tick, relay-IsHealthy}
use investor_cache.Outbox.Drain.Emptied.{run-drains}

abbrev event : ℤ → String → Event
event id investor = record {
  id = id;
  aggregate_id = investor;
  aggregate_type = "investor";
  event_type = "profile_updated";
  payload = "{}";
  created_at = pos 0;
  retry_count = pos 0;
}

abbrev three : List Event
three = event (pos 1) "7" ∷ event (pos 2) "8" ∷ event (pos 3) "7" ∷ []

abbrev start : World Entry Table
start = record { outside = table three; log = [] }

run-drains_example :
    ((run relay tick 2 start).0 ≡ none)
    × (unpublished (run relay tick 2 start).1.outside ≡ [])
    × (attempts (run relay tick 2 start).1.log ≡ [] ++ map message_of three)
run-drains_example =
    run-drains relay tick unpublished relay-IsHealthy 2 refl 2 start (refl, (refl, (refl, tt)))
      (omega arith)
