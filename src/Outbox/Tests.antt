-- ===== src/Outbox/Tests.antt =====
-- A cycle over two events, of which the writer accepts the first.
use investor_cache.Base.{◌<ℤ◌, ◌≤ℤ◌, ◌⊎◌, String, true, ℤ, pos, [], ◌∷◌, ◌≡◌, refl, if◌then◌else◌}
use text.Mathlib.Text.{◌==◌ as str_eq}
use investor_cache.Go.{ok, err, World, message, errors_is}
use investor_cache.Journal.{Entry}
use investor_cache.Outbox.Events.{Event}
use investor_cache.Outbox.Repository.{
  fetch_unpublished, mark_published, record_error, count_unpublished, collect,
}
use investor_cache.Outbox.{
  Relay, new_relay, run_cycle, after_begin, after_fetch, publish_from, after_write,
  after_publishing, after_mark, commit, after_commit, refresh_queue_depth, roll_back,
}
use investor_cache.Outbox.Settings.{new_relay-IsRunnable}
use investor_cache.Outbox.Publishing.{marked}
use investor_cache.Outbox.Cycle.{IsCycle, run_cycle-IsCycle}

abbrev event : ℤ → String → Event
event id investor = record {
  id = id;
  aggregate_id = investor;
  aggregate_type = "investor";
  event_type = "profile_updated";
  payload = "{}";
  created_at = pos 0;
  retry_count = pos 0;
}

abbrev relay : Relay (Unit {0})
relay = record {
  begin = λ w. (ok tt, w);
  tx_commit = λ w. (ok tt, w);
  tx_rollback = λ w. (ok tt, w);
  statements = record {
    insert_event = λ e w. (ok tt, w);
    select_unpublished = λ n w. (
      ok (record {
        scans = ok (event (pos 1) "7") ∷ ok (event (pos 2) "8") ∷ [];
        last_error = ok tt;
      }),
      w,
    );
    update_published = λ ids w. (ok tt, w);
    update_error = λ id text w. (ok tt, w);
    count = λ w. (ok (pos 1), w);
  };
  send = λ msg w. (if str_eq msg.key "7" then ok tt else err (message "no leader"), w);
  error_text = λ e. "an error";
  has_metrics = true;
  poll_interval = pos 0;
  batch_size = pos 0;
}

abbrev empty : World Entry (Unit {0})
empty = record { outside = tt; log = [] }

marks_the_first :
    ((run_cycle relay empty).0 ≡ ok tt) × (marked (run_cycle relay empty).1.log ≡ pos 1 ∷ [])
unfolding run_cycle after_begin after_fetch publish_from after_write after_publishing mark_published
    after_mark commit after_commit refresh_queue_depth roll_back errors_is fetch_unpublished
    record_error count_unpublished collect
marks_the_first = (refl, refl)

sizes :
    ((new_relay relay).batch_size ≡ pos 100) × ((new_relay relay).poll_interval ≡ pos 100_000_000)
unfolding new_relay
sizes = (refl, refl)

run_cycle-IsCycle_example : IsCycle relay empty (run_cycle relay empty)
run_cycle-IsCycle_example = run_cycle-IsCycle relay empty

new_relay-IsRunnable_example :
    (pos 0 <ℤ (new_relay relay).poll_interval)
    × (pos 0 <ℤ (new_relay relay).batch_size)
    × ((relay.poll_interval ≤ℤ pos 0) ⊎ ((relay.batch_size ≤ℤ pos 0) ⊎ (new_relay relay ≡ relay)))
    × (new_relay (new_relay relay) ≡ new_relay relay)
new_relay-IsRunnable_example = new_relay-IsRunnable relay
