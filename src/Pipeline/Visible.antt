-- ===== src/Pipeline/Visible.antt =====
-- The whole way of an update: the outbox rows of internal/profile/service.go, the `Run` of
-- internal/outbox/relay.go, the `Run` of internal/kafka/consumer.go and the next `GetProfile` of
-- internal/cache/manager.go.
mod Tests
use investor_cache.Base.{String, Bool, ℕ, ◌*◌, ◌≤◌, ◌<◌, ℤ, pos, List, [], Option, map, length, ◌≡◌}
use investor_cache.Go.{Result, ok, World}
use investor_cache.Journal.{Proc, Entry, Message}
use investor_cache.Domain.{InvestorProfile, ProfileRepository}
use investor_cache.Cache.Outcome.{cache_key}
use investor_cache.Cache.Redis.{Server, Client}
use investor_cache.Cache.Redis.Laws.{ServerLaws, ClientLaws, IsExact}
use investor_cache.Cache.Store.{ttl_seconds}
use investor_cache.Cache.Store.RoundTrip.{IsInt64Profile}
use investor_cache.Cache.Manager.{get_profile}
use investor_cache.Cache.Manager.ReadThrough.{IsReadable, IsQuiet, IsReadThrough, manager}
use investor_cache.Outbox.Events.{Event, KafkaPayload, Encoder}
use investor_cache.Outbox.{Relay}
use investor_cache.Outbox
use investor_cache.Outbox.Publishing.{attempts}
use investor_cache.Outbox.Drain.{IsDistinct, IsHealthy}
use investor_cache.Kafka.{InvalidationConsumer}
use investor_cache.Kafka
use investor_cache.Kafka.Feed.{IsFed}
use investor_cache.Pipeline.{JsonLaws}
use investor_cache.Pipeline.Delivery.{AllRows, IsDelivered, id_of, run-AllUpdates}
use investor_cache.Pipeline.Freshness.{IsErasing, AllRepresent, left_of, get_profile-IsFresh}

module _ {V W S N R : Type 0} (c : Encoder V) (k : InvalidationConsumer W)
    (stored : String → String) (json : JsonLaws c k stored) (relay : Relay R)
    (select : R → Bool × R) (view : R → List Event) (healthy : IsHealthy relay select view)
    (s : Server S N) (laws : ServerLaws s) (redis : Client W S) (client : ClientLaws s redis)
    (queue : W → List Message) (fed : IsFed k queue) (erasing : IsErasing s redis k client.view)
    (repo : ProfileRepository W) (rows : String → InvestorProfile)
    (h : IsReadable s redis repo client.view rows)
    (sf_do : String → Proc W (Result InvestorProfile) → Proc W (Result InvestorProfile × Bool))
    (execute : Proc W (Result (Option InvestorProfile)) → Proc W (Result (Option InvestorProfile)))
    (quiet : IsQuiet sf_do execute) (getenv : String → String) (ttl : ℤ) (id : String)
    (exact : IsExact (rows id).cache_version) (seconds : ℕ) (positive : 0 < seconds)
    (whole : ttl_seconds ttl ≡ pos seconds) (fits : IsExact (pos seconds)) where
  -- For an outbox whose rows carry events that the profile service made of the profiles `ps`, a relay
  -- in a healthy world that has handed over nothing yet and rounds enough for the rows, a worker that
  -- is fed, in their order, the values that the relay hands over, over a Redis that answers and
  -- deletes, and a middleware that reads through the same Redis with a time to live of at least a
  -- second and an exact version in the row, nobody else writing, where encoding/json goes by the
  -- fields' tags and JSONB keeps an object's members: nothing is left unpublished, and behind as many
  -- rounds of the worker as messages `GetProfile` of an investor among `ps` answers the database's
  -- row as a miss and caches it, whatever was cached; for any other investor it goes by the entry
  -- that was cached before.
  pub get_profile-run :
      (n rounds : ℕ) (ps : List InvestorProfile) (w : World Entry R) (ms : List Message)
      (u : World Entry W) (cached : String → Option InvestorProfile)
      → relay.batch_size ≡ pos n
      → IsDistinct (view w.outside)
      → length (view w.outside) ≤ rounds * n
      → attempts w.log ≡ []
      → AllRows c stored ps (view w.outside)
      → IsDelivered (attempts (Outbox.run relay select rounds w).1.log) ms
      → queue u.outside ≡ ms
      → AllRepresent s redis client k queue fed erasing cached u.outside
      → IsInt64Profile (cached (cache_key id))
      → (view (Outbox.run relay select rounds w).1.outside ≡ [])
        × IsReadThrough s redis laws client repo rows h sf_do execute quiet getenv ttl id exact
            seconds positive whole fits
            (left_of (map id_of ps) cached id)
            (get_profile
              (manager s redis laws client repo rows h sf_do execute quiet getenv ttl)
              id
              (Kafka.run k (length ms) u).1)
  get_profile-run n rounds ps w ms u cached size distinct enough nothing outbox delivered next rep
        range =
      let (empty, updates) =
        run-AllUpdates c k stored json relay select view healthy n rounds ps w ms size distinct
          enough nothing outbox delivered in
      (
        empty,
        get_profile-IsFresh s redis client k queue fed erasing laws repo rows h sf_do execute quiet
            getenv ttl id exact seconds positive whole fits cached u updates next rep range,
      )
