-- ===== src/Pipeline/Freshness.antt =====
-- The messages of internal/kafka/consumer.go and the reads of internal/cache/manager.go over one
-- Redis.
mod Tests
use text.Mathlib.Text.{◌==◌ as str_eq}
use text.Mathlib.TextEquality.{eq_iff}
use investor_cache.Base.{
  String, Bool, true, false, List, [], ◌∷◌, Option, none, some, map, length, ℕ, ◌<◌, ℤ, pos, ◌≡◌,
  ◌≢◌, refl, sym, ap, ◌∙◌, subst, arith, inl, inr, Bool-cases, if◌then◌else◌, ◌||◌,
}
use investor_cache.Go.{Result, ok, World}
use investor_cache.Go.Strings.{concat, trim_prefix, trim_prefix-concat}
use investor_cache.Journal.{Proc, Entry, Message}
use investor_cache.Domain.{InvestorProfile, ProfileRepository, CacheStore}
use investor_cache.Cache.Outcome.{cache_key}
use investor_cache.Cache.Redis.{Server, Client}
use investor_cache.Cache.Redis.Laws.{ServerLaws, ClientLaws, IsExact}
use investor_cache.Cache.Store.{redis_store, ttl_seconds}
use investor_cache.Cache.Store.Script.{Represents, content}
use investor_cache.Cache.Store.RoundTrip.{IsInt64Profile}
use investor_cache.Cache.Manager.{get_profile}
use investor_cache.Cache.Manager.ReadThrough.{
  IsReadable, IsQuiet, IsReadThrough, manager, get_profile-IsReadThrough,
}
use investor_cache.Reconciler.Repair.{is_listed, same_key}
use investor_cache.Kafka.{InvalidationConsumer, run_round, after_round, run}
use investor_cache.Kafka.Feed.{
  IsFed, IsUpdate, AllUpdates, no_update, update_of, IsDone, fetched, run_round-IsDone,
}

-- The entries behind the deletion of a key.
abbrev pub cleared : String → (String → Option InvestorProfile) → String → Option InvestorProfile
cleared key cached j = if str_eq key j then none else cached j

abbrev pub cleared_all :
    List String → (String → Option InvestorProfile) → String → Option InvestorProfile
cleared_all [] cached j = cached j
cleared_all (id ∷ ids) cached j = cleared_all ids (cleared (cache_key id) cached) j

-- The entry of an investor behind the deletion of those of others, himself perhaps among them.
abbrev pub left_of :
    List String → (String → Option InvestorProfile) → String → Option InvestorProfile
left_of ids cached id = if is_listed id ids then none else cached (cache_key id)

cache_key_injective : (a b : String) → cache_key a ≡ cache_key b → a ≡ b
cache_key_injective a b e =
    sym (trim_prefix-concat "investor:" a)
    ∙ ap (λ k. trim_prefix k "investor:") e
    ∙ trim_prefix-concat "investor:" b

cache_key-eq : (a b : String) → str_eq (cache_key a) (cache_key b) ≡ str_eq a b
cache_key-eq a b = elim (Bool-cases (str_eq a b)) [
  | inl same ↦ rw same ((eq_iff (cache_key a) (cache_key b)).1 (ap cache_key ((eq_iff a b).0 same)))
  | inr other ↦
      rw other
        (ground (arith, eq_iff (cache_key a) (cache_key b), eq_iff a b, cache_key_injective a b))
]

cleared_all_lem :
    (ids : List String) (cached : String → Option InvestorProfile) (id : String)
    → cleared_all ids cached (cache_key id) ≡ left_of ids cached id
cleared_all_lem [] cached id = refl
cleared_all_lem (i ∷ ids) cached id =
    let same = cache_key-eq i id in
    cleared_all_lem ids (cleared (cache_key i) cached) id ∙ ground (arith, same)

left_of-range :
    (ids : List String) (cached : String → Option InvestorProfile) (id : String)
    → IsInt64Profile (cached (cache_key id))
    → IsInt64Profile (left_of ids cached id)
left_of-range ids cached id range = elim (Bool-cases (is_listed id ids)) [
  | inl named ↦ rw named tt
  | inr other ↦ rw other range
]

-- DEL removes every field of its key and of no other key, and Kafka's calls leave Redis alone.
pub record IsErasing {W S N : Type 0} (s : Server S N) (c : Client W S) (k : InvalidationConsumer W)
    (view : W → S) : Type 0 where
  pub over : k.cache ≡ redis_store s c
  pub deletes : (key f : String) (w : W) → s.hget key f (view (c.del key w).1) ≡ none
  pub deletes_ne :
      (key j f : String) (w : W) → key ≢ j → s.hget j f (view (c.del key w).1) ≡ s.hget j f (view w)
  pub asks : (j f : String) (w : W) → s.hget j f (view (k.is_done w).1) ≡ s.hget j f (view w)
  pub fetches : (j f : String) (w : W) → s.hget j f (view (k.fetch w).1) ≡ s.hget j f (view w)
  pub commits :
      (m : Message) (j f : String) (w : W)
      → s.hget j f (view (k.commit m w).1) ≡ s.hget j f (view w)

module _ {W S N : Type 0} (s : Server S N) (c : Client W S) (client : ClientLaws s c)
    (k : InvalidationConsumer W) (queue : W → List Message) (fed : IsFed k queue)
    (erasing : IsErasing s c k client.view) where
  abbrev pub AllRepresent : (String → Option InvestorProfile) → W → Type 0
  AllRepresent cached w = (j : String) → Represents s j (cached j) (client.view w)

  fetched-AllRepresent :
      (cached : String → Option InvestorProfile) (w : World Entry W)
      → AllRepresent cached w.outside
      → AllRepresent cached (fetched k queue fed w).outside
  fetched-AllRepresent cached w rep j f =
      erasing.fetches j f (k.is_done w.outside).1 ∙ erasing.asks j f w.outside ∙ rep j f

  del-AllRepresent :
      (cached : String → Option InvestorProfile) (key : String) (w : W)
      → AllRepresent cached w
      → AllRepresent (cleared key cached) (c.del key w).1
  del-AllRepresent cached key w rep j f = elim (Bool-cases (str_eq key j)) [
    | inl same ↦ rw same (
        subst (λ i. s.hget i f (client.view (c.del key w).1) ≡ none) (same_key key j same)
          (erasing.deletes key f w))
    | inr other ↦ rw other (erasing.deletes_ne key j f w (ground (arith, eq_iff key j)) ∙ rep j f)
  ]

  handled-AllRepresent :
      (cached : String → Option InvestorProfile) (m : Message) (id : String) (w v : World Entry W)
      → AllRepresent cached w.outside
      → IsDone k queue fed m id w v
      → AllRepresent (cleared (cache_key id) cached) v.outside
  handled-AllRepresent cached m id w v rep done j f =
      ap (λ x. s.hget j f (client.view x)) done.place
      ∙ erasing.commits m j f (k.cache.delete (cache_key id) w.outside).1
      ∙ ap
          (λ (store : CacheStore W).
            s.hget j f (client.view (store.delete (cache_key id) w.outside).1))
          erasing.over
      ∙ del-AllRepresent cached (cache_key id) w.outside rep j f

  run-AllRepresent :
      {ms : List Message} {ids : List String} (cached : String → Option InvestorProfile)
      (w : World Entry W)
      → AllUpdates k ms ids
      → queue w.outside ≡ ms
      → AllRepresent cached w.outside
      → AllRepresent (cleared_all ids cached) (run k (length ms) w).1.outside
  unfolding run after_round
  run-AllRepresent cached w no_update next rep = rep
  run-AllRepresent cached w (update_of {m} {id} {ms} {ids} u us) next rep =
      let (going, done, rest) = run_round-IsDone k queue fed m ms id w next u in
      rw going (
        run-AllRepresent (cleared (cache_key id) cached) (run_round k w).1 us (done.still ∙ rest) (
          handled-AllRepresent cached m id (fetched k queue fed w) (run_round k w).1
            (fetched-AllRepresent cached w rep) done))

  module _ (laws : ServerLaws s) (repo : ProfileRepository W) (rows : String → InvestorProfile)
      (h : IsReadable s c repo client.view rows)
      (sf_do : String → Proc W (Result InvestorProfile) → Proc W (Result InvestorProfile × Bool))
      (execute : Proc W (Result (Option InvestorProfile))
        → Proc W (Result (Option InvestorProfile)))
      (quiet : IsQuiet sf_do execute) (getenv : String → String) (ttl : ℤ) (id : String)
      (exact : IsExact (rows id).cache_version) (n : ℕ) (positive : 0 < n)
      (whole : ttl_seconds ttl ≡ pos n) (fits : IsExact (pos n)) where
    -- For a worker that is fed updates of the investors `ids`, over a Redis that answers and deletes,
    -- and a middleware that reads through the same Redis with a time to live of at least a second and
    -- an exact version in the row, nobody else writing: behind as many rounds of the worker as
    -- messages, `GetProfile` answers the database's row as a miss, and caches it, for each of those
    -- investors, and for any other investor it goes by the entry that was cached before.
    pub get_profile-IsFresh :
        {ms : List Message} {ids : List String} (cached : String → Option InvestorProfile)
        (w : World Entry W)
        → AllUpdates k ms ids
        → queue w.outside ≡ ms
        → AllRepresent cached w.outside
        → IsInt64Profile (cached (cache_key id))
        → IsReadThrough s c laws client repo rows h sf_do execute quiet getenv ttl id exact n
            positive whole fits
            (left_of ids cached id)
            (get_profile
              (manager s c laws client repo rows h sf_do execute quiet getenv ttl)
              id
              (run k (length ms) w).1)
    get_profile-IsFresh {ms} {ids} cached w us next rep range =
        let same = cleared_all_lem ids cached id in
        get_profile-IsReadThrough s c laws client repo rows h sf_do execute quiet getenv ttl id
          exact n positive whole fits (left_of ids cached id) (run k (length ms) w).1
          (subst (λ o. Represents s (cache_key id) o (client.view (run k (length ms) w).1.outside))
            same (run-AllRepresent cached w us next rep (cache_key id)))
          (left_of-range ids cached id range)
