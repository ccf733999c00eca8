-- ===== src/Cache/Manager.antt =====
-- internal/cache/manager.go: `CacheManager`, the read path: cache, circuit breaker, singleflight and
-- the fall back to the database.
pub mod Libraries
pub mod Provenance
pub mod Accounting
pub mod ReadThrough
use text.Mathlib.Text.{◌==◌ as str_eq}
use investor_cache.Base.{String, Bool, true, false, Option, none, some, ℤ, ◌||◌, if◌then◌else◌}
use investor_cache.Go.{
  Result, ok, err, Error, errors_is, redis_nil, open_state, too_many_requests, pure, call, ◌>>=◌,
  ◌>>◌,
}
use investor_cache.Journal.{Proc, cache_get, cache_set, repo_get}
use investor_cache.Metrics.{
  record_cache_hit, record_cache_miss, record_cache_error, record_cache_latency, record_db_fallback,
  record_singleflight_dedup,
}
use investor_cache.Domain.{InvestorProfile, CacheStore, ProfileRepository}
use investor_cache.Cache.Outcome.{CacheResult, hit, miss, error, cb_open, cache_key}

pub record CacheManager (W : Type 0) : Type 0 where
  pub cache : CacheStore W
  pub repo : ProfileRepository W
  -- `singleflight.Group.Do(key, fn)`: the result, and whether it was shared.
  pub sf_do : String → Proc W (Result InvestorProfile) → Proc W (Result InvestorProfile × Bool)
  -- `gobreaker.CircuitBreaker.Execute(req)`
  pub execute : Proc W (Result (Option InvestorProfile)) → Proc W (Result (Option InvestorProfile))
  pub ttl : ℤ
  pub cb_disabled : Bool

-- `NewCacheManager`, with `os.Getenv`, the group's `Do` and the breaker's `Execute`.
abbrev pub new_cache_manager :
    {W : Type 0}
    → (String → String)
    → CacheStore W
    → ProfileRepository W
    → (String → Proc W (Result InvestorProfile) → Proc W (Result InvestorProfile × Bool))
    → (Proc W (Result (Option InvestorProfile)) → Proc W (Result (Option InvestorProfile)))
    → ℤ
    → CacheManager W
new_cache_manager getenv cache repo sf_do execute ttl = record {
  cache = cache;
  repo = repo;
  sf_do = sf_do;
  execute = execute;
  ttl = ttl;
  cb_disabled = str_eq (getenv "CACHE_DISABLE_CB") "true";
}

module _ {W : Type 0} (m : CacheManager W) where
  -- The read of the cache, timed.
  unfoldable pub cache_read : String → Proc W (Result (Option InvestorProfile))
  cache_read key = do r ← call (cache_get key) (m.cache.get key); record_cache_latency; pure r

  -- Writes what was loaded to the cache; the write's failure is only logged.
  unfoldable pub store_loaded : String → Result InvestorProfile → Proc W (Result InvestorProfile)
  store_loaded key (err e) = pure (err e)
  store_loaded key (ok p) = do
    call (cache_set key p.cache_version) (m.cache.set_versioned key p m.ttl)
    pure (ok p)

  unfoldable pub load_and_cache : String → String → Proc W (Result InvestorProfile)
  load_and_cache id key = do r ← call (repo_get id) (m.repo.get_by_id id); store_loaded key r

  -- The branch of a cache error.
  unfoldable pub fall_back : String → Error → Proc W (Result InvestorProfile × CacheResult)
  fall_back id e =
      if errors_is e open_state || errors_is e too_many_requests
      then (do record_db_fallback; r ← call (repo_get id) (m.repo.get_by_id id); pure (r, cb_open))
      else (do
        record_cache_error
        record_db_fallback
        r ← call (repo_get id) (m.repo.get_by_id id)
        pure (r, error))

  unfoldable pub finish :
      Result InvestorProfile × Bool → Proc W (Result InvestorProfile × CacheResult)
  finish (err e, shared) = pure (err e, miss)
  finish (ok p, true) = do record_singleflight_dedup; pure (ok p, miss)
  finish (ok p, false) = pure (ok p, miss)

  -- The branch of a cache miss.
  unfoldable pub load_miss : String → String → Proc W (Result InvestorProfile × CacheResult)
  load_miss id key = do
    record_cache_miss
    flight ← m.sf_do key (load_and_cache id key)
    finish flight

  unfoldable pub respond :
      String
      → String
      → Result (Option InvestorProfile)
      → Proc W (Result InvestorProfile × CacheResult)
  respond id key (ok (some p)) = do record_cache_hit; pure (ok p, hit)
  respond id key (ok none) = load_miss id key
  respond id key (err e) = if errors_is e redis_nil then load_miss id key else fall_back id e

  -- The read with or without the breaker.
  unfoldable pub guarded_read : String → Proc W (Result (Option InvestorProfile))
  guarded_read key = if m.cb_disabled then cache_read key else m.execute (cache_read key)

  unfoldable pub get_profile : String → Proc W (Result InvestorProfile × CacheResult)
  get_profile id = do let key = cache_key id; r ← guarded_read key; respond id key r
