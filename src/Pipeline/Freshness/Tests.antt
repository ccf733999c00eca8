-- ===== src/Pipeline/Freshness/Tests.antt =====
-- A message about investor 7, whose cached version is older than the row.
use investor_cache.Base.{String, true, [], ◌∷◌, ℤ, pos, refl, arith, Option}
use investor_cache.Go.{ok, World}
use investor_cache.Journal.{Entry, Message}
use investor_cache.Domain.{InvestorProfile}
use investor_cache.Cache.Redis.Memory.{memory, memory_laws, put}
use investor_cache.Cache.Store.{profile_args}
use investor_cache.Cache.Store.Filled.{filled, put-Represents}
use investor_cache.Cache.Manager.{get_profile}
use investor_cache.Cache.Manager.ReadThrough.{IsReadThrough, manager}
use investor_cache.Kafka.Event.{InvalidationEvent}
use investor_cache.Kafka.{run}
use investor_cache.Kafka.Feed.{AllUpdates, no_update, update_of}
use investor_cache.Pipeline.Shared.{
  Shared, client, client_laws, repo, flight, breaker, quiet, readable, worker, worker-IsFed,
  worker-IsErasing,
}
use investor_cache.Pipeline.Freshness.{left_of, get_profile-IsFresh}

abbrev profile_at : ℤ → InvestorProfile
profile_at version = record {
  investor_id = "7";
  full_name = "Ann";
  email = "ann@example.org";
  risk_profile = "moderate";
  kyc_status = "verified";
  portfolio_value = "10.00";
  preferences = "{}";
  qualified_investor = true;
  investment_horizon = "medium";
  updated_at = "2026-01-01";
  cache_version = version;
}

abbrev event : InvalidationEvent
event = record {
  investor_id = "7";
  event_type = "update";
  timestamp_ms = pos 3;
  version = pos 5;
  investor_ids = [];
}

abbrev msg : Message
msg = record { partition = 2; offset = 40; key = "7"; value = "{}"; headers = []; time = pos 0 }

abbrev cached : String → Option InvestorProfile
cached = filled "investor:7" (profile_at (pos 4))

abbrev row : String → InvestorProfile
row id = profile_at (pos 5)

abbrev start : World Entry Shared
start = record {
  outside = record {
    queue = msg ∷ [];
    store = put "investor:7" (profile_args (profile_at (pos 4))) [];
  };
  log = [];
}

abbrev hour : ℤ
hour = pos 3_600_000_000_000

updates : AllUpdates (worker (λ s. ok event)) (msg ∷ []) ("7" ∷ [])
updates =
    update_of (record { event = event; read = refl; update = refl; investor = refl }) no_update

get_profile-IsFresh_example :
    IsReadThrough memory client memory_laws client_laws
      (repo row)
      row
      (readable row)
      flight
      breaker
      quiet
      (λ name. "")
      hour
      "7"
      (omega arith)
      3600
      (omega arith)
      refl
      (omega arith)
      (left_of ("7" ∷ []) cached "7")
      (get_profile
        (manager memory client memory_laws client_laws
          (repo row)
          row
          (readable row)
          flight
          breaker
          quiet
          (λ name. "")
          hour)
        "7"
        (run (worker (λ s. ok event)) 1 start).1)
get_profile-IsFresh_example =
    get_profile-IsFresh memory client client_laws (worker (λ s. ok event)) (λ w. w.queue)
      (worker-IsFed (λ s. ok event)) (worker-IsErasing (λ s. ok event)) memory_laws (repo row) row
      (readable row) flight breaker quiet (λ name. "") hour "7" (omega arith) 3600 (omega arith)
      refl (omega arith) cached start updates refl
      (put-Represents "investor:7" (profile_at (pos 4))) (omega arith)
