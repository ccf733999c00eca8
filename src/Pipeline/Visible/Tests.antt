-- ===== src/Pipeline/Visible/Tests.antt =====
-- Three updates of investor 7, whose cached version is older than the row.
use investor_cache.Base.{String, [], ◌∷◌, ℤ, pos, ◌≡◌, refl, arith, subst, sym}
use investor_cache.Go.{World}
use investor_cache.Journal.{Entry}
use investor_cache.Domain.{InvestorProfile}
use investor_cache.Cache.Redis.Memory.{memory, memory_laws, put}
use investor_cache.Cache.Store.{profile_args}
use investor_cache.Cache.Store.Filled.{filled, put-Represents}
use investor_cache.Cache.Manager.{get_profile}
use investor_cache.Cache.Manager.ReadThrough.{IsReadThrough, manager}
use investor_cache.Outbox
use investor_cache.Outbox.Drain.Memory.{unpublished, relay, tick, relay-IsHealthy}
use investor_cache.Kafka
use investor_cache.Pipeline.Delivery.{IsDelivered}
use investor_cache.Pipeline.Freshness.{left_of}
use investor_cache.Pipeline.Sample.{
  profile, unmarshal, encoder, stored, json, outbox, rows-AllRows, three_delivered,
  three-IsDelivered, handed,
}
use investor_cache.Pipeline.Shared.{
  Shared, client, client_laws, repo, flight, breaker, quiet, readable, worker, worker-IsFed,
  worker-IsErasing,
}
use investor_cache.Pipeline.Visible.{get_profile-run}

abbrev older : InvestorProfile
older = record profile { cache_version = pos 4 }

abbrev row_of_7 : String → InvestorProfile
row_of_7 id = profile

abbrev start : World Entry Shared
start = record {
  outside = record { queue = three_delivered; store = put "investor:7" (profile_args older) [] };
  log = [];
}

abbrev hour : ℤ
hour = pos 3_600_000_000_000

get_profile-run_example :
    (unpublished (Outbox.run relay tick 2 outbox).1.outside ≡ [])
    × IsReadThrough memory client memory_laws client_laws
        (repo row_of_7)
        row_of_7
        (readable row_of_7)
        flight
        breaker
        quiet
        (λ name. "")
        hour
        "7"
        (omega arith)
        3600
        (omega arith)
        refl
        (omega arith)
        (left_of ("7" ∷ "7" ∷ "7" ∷ []) (filled "investor:7" older) "7")
        (get_profile
          (manager memory client memory_laws client_laws
            (repo row_of_7)
            row_of_7
            (readable row_of_7)
            flight
            breaker
            quiet
            (λ name. "")
            hour)
          "7"
          (Kafka.run (worker unmarshal) 3 start).1)
get_profile-run_example =
    get_profile-run encoder (worker unmarshal) stored (json (worker unmarshal) (λ raw. refl)) relay
      tick unpublished relay-IsHealthy memory memory_laws client client_laws (λ w. w.queue)
      (worker-IsFed unmarshal) (worker-IsErasing unmarshal) (repo row_of_7) row_of_7
      (readable row_of_7) flight breaker quiet (λ name. "") hour "7" (omega arith) 3600
      (omega arith) refl (omega arith) 2 2 (profile ∷ profile ∷ profile ∷ []) outbox three_delivered
      start (filled "investor:7" older) refl (refl, (refl, (refl, tt))) (omega arith) refl
      rows-AllRows (subst (λ l. IsDelivered l three_delivered) (sym handed) three-IsDelivered) refl
      (put-Represents "investor:7" older) (omega arith)
