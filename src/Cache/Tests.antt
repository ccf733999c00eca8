-- ===== src/Cache/Tests.antt =====
-- Runs of the cache's parts on small inputs, and the theorems at concrete inputs.
use mathlib.Core.List.{Permᴰ}
use investor_cache.Base.{
  ◌+◌, String, Bool, true, false, List, [], ◌∷◌, Option, none, some, ◌≡◌, ◌≢◌, refl, arith, ℤ, pos,
  All,
}
use investor_cache.Go.{Result, ok, err, World, sentinel, redis_nil, errors_is}
use investor_cache.Journal.{Proc, Entry}
use investor_cache.Domain.{InvestorProfile}
use investor_cache.Cache.Outcome.{hit, miss, cache_key}
use investor_cache.Cache.Redis.Memory.{
  Store, entries, memory, memory_laws, memory_client, memory_client_laws,
}
use investor_cache.Cache.Store.{
  get, set_versioned, redis_store, lua_versioned_set, is_current, write_hash, script_args,
  profile_args, map_to_profile,
}
use investor_cache.Go.Strconv.{parse_int, format_int, parse_bool, format_bool}
use investor_cache.Cache.Store.Script.{Represents, replaces}
use investor_cache.Cache.Store.Order.{write_all, IsAtLeast, write_all-newest, write_all_any_order}
use investor_cache.Cache.Store.RoundTrip.{answer, get-ne-nil, get-set_versioned}
use investor_cache.Cache.Manager.{
  CacheManager, new_cache_manager, get_profile, guarded_read, respond, load_miss, finish,
  load_and_cache, store_loaded, cache_read,
}
use investor_cache.Cache.Manager.ReadThrough.{
  IsReadable, IsQuiet, IsReadThrough, get_profile-IsReadThrough,
}
use investor_cache.Cache.Manager.Libraries.{Executed, ran, Flown, led}
use investor_cache.Cache.Manager.Provenance.{IsSourced, get_profile-IsSourced}
use investor_cache.Cache.Manager.Accounting.{misses, moved_by, value_of, get_profile-IsAccounted}

abbrev profile_at : ℤ → InvestorProfile
profile_at version = record {
  investor_id = "7";
  full_name = "Ann";
  email = "ann@example.org";
  risk_profile = "moderate";
  kyc_status = "verified";
  portfolio_value = "10.00";
  preferences = "{}";
  qualified_investor = true;
  investment_horizon = "medium";
  updated_at = "2026-01-01";
  cache_version = version;
}

abbrev key : String
key = cache_key "7"

abbrev hour : ℤ
hour = pos 3_600_000_000_000

abbrev two : List InvestorProfile
two = profile_at (pos 5) ∷ profile_at (pos 4) ∷ []

abbrev swapped : List InvestorProfile
swapped = profile_at (pos 4) ∷ profile_at (pos 5) ∷ []

write_all-newest_example :
    Represents memory key (some (profile_at (pos 5))) (write_all memory key hour two [])
    × All (λ p. IsAtLeast (some (profile_at (pos 5))) p.cache_version) two
write_all-newest_example =
    write_all-newest memory memory_laws key hour 3600 (omega arith) refl (omega arith) none two []
      (omega arith) (λ f. refl) tt

write_all_any_order_example :
    memory.hget key "cache_version" (write_all memory key hour two [])
    ≡ memory.hget key "cache_version" (write_all memory key hour swapped [])
write_all_any_order_example =
    write_all_any_order memory memory_laws key hour 3600 (omega arith) refl (omega arith) profile_at
      none [] (Permᴰ.swap refl refl) (refl, (refl, tt)) (omega arith) (omega arith) (λ f. refl) tt
      "cache_version"

get-ne-nil_example : (get memory memory_client key []).0 ≢ ok none
get-ne-nil_example = get-ne-nil memory memory_client key []

-- The functions that a test of the store runs.
store : Unit {0}
unfolding get set_versioned lua_versioned_set is_current write_hash script_args profile_args
    map_to_profile parse_int format_int parse_bool format_bool
store = tt

-- Version 5 is written, and version 4 is refused behind it.
abbrev written : Result Bool × Store
written = set_versioned memory memory_client key (profile_at (pos 5)) hour []

refuses_older :
    (written.0 ≡ ok true)
    × ((set_versioned memory memory_client key (profile_at (pos 4)) hour written.1).0 ≡ ok false)
    × ((get memory memory_client key written.1).0 ≡ ok (some (profile_at (pos 5))))
    × ((get memory memory_client "investor:8" written.1).0 ≡ err (sentinel redis_nil))
unfolding store
refuses_older = (refl, refl, refl, refl)

get-set_versioned_example :
    (true ≡ replaces (profile_at (pos 4)) none)
    × ((get memory memory_client key
          (set_versioned memory memory_client key (profile_at (pos 4)) hour []).1).0
        ≡ answer (some (profile_at (pos 4))))
unfolding store
get-set_versioned_example =
    get-set_versioned memory memory_client memory_laws memory_client_laws key (profile_at (pos 4))
      (omega arith) hour 3600 (omega arith) refl (omega arith) none [] (λ f. refl) tt refl refl

-- A manager over the store in memory, whose database holds version 5 for everybody.
abbrev manager : CacheManager Store
manager = record {
  cache = redis_store memory memory_client;
  repo = record { get_by_id = λ id st. (ok (profile_at (pos 5)), st) };
  sf_do = λ k f w. (((f w).0, false), (f w).1);
  execute = λ f w. f w;
  ttl = hour;
  cb_disabled = false;
}

abbrev flights :
    (k : String) (f : Proc Store (Result InvestorProfile)) (w : World Entry Store)
    → Flown f w (manager.sf_do k f w)
flights k f w = led refl refl

abbrev breaker :
    (f : Proc Store (Result (Option InvestorProfile))) (w : World Entry Store)
    → Executed f w (manager.execute f w)
breaker f w = ran w refl refl refl

abbrev empty : World Entry Store
empty = record { outside = []; log = [] }

get_profile-IsSourced_example : IsSourced manager "7" (get_profile manager "7" empty).0
get_profile-IsSourced_example = get_profile-IsSourced manager flights breaker "7" empty

get_profile-IsAccounted_example :
    value_of misses (get_profile manager "7" empty).1.log
    ≡ value_of misses empty.log + moved_by (get_profile manager "7" empty).0.1 misses
get_profile-IsAccounted_example = get_profile-IsAccounted manager flights breaker "7" empty misses

-- A miss loads and caches the profile, and the next read is a hit.
miss_then_hit :
    ((get_profile manager "7" empty).0 ≡ (ok (profile_at (pos 5)), miss))
    × ((get_profile manager "7" (get_profile manager "7" empty).1).0
        ≡ (ok (profile_at (pos 5)), hit))
unfolding store get_profile guarded_read respond load_miss finish load_and_cache store_loaded
    cache_read errors_is
miss_then_hit = (refl, refl)

readable : IsReadable memory memory_client manager.repo (λ st. st) (λ id. profile_at (pos 5))
readable = record {
  replies = λ k w. (entries k w, refl);
  reads = λ k j f w. refl;
  runs = λ script k args w. refl;
  answers = λ id w. refl;
  selects = λ id j f w. refl;
}

quiet : IsQuiet manager.sf_do manager.execute
quiet = record { closed = λ f w. refl; alone = λ k f w. refl }

-- The first read of investor 7, with the breaker.
abbrev no_variable : String → String
no_variable name = ""

get_profile-IsReadThrough_example :
    IsReadThrough memory memory_client memory_laws memory_client_laws manager.repo
      (λ id. profile_at (pos 5))
      readable
      manager.sf_do
      manager.execute
      quiet
      no_variable
      hour
      "7"
      (omega arith)
      3600
      (omega arith)
      refl
      (omega arith)
      none
      (get_profile
        (new_cache_manager no_variable
          (redis_store memory memory_client)
          manager.repo
          manager.sf_do
          manager.execute
          hour)
        "7"
        empty)
get_profile-IsReadThrough_example =
    get_profile-IsReadThrough memory memory_client memory_laws memory_client_laws manager.repo
      (λ id. profile_at (pos 5)) readable manager.sf_do manager.execute quiet no_variable hour "7"
      (omega arith) 3600 (omega arith) refl (omega arith) none empty (λ f. refl) tt
