-- ===== src/Reconciler.antt =====
-- internal/reconciler/reconciler.go: the background comparison of cached versions with the database.
pub mod Eviction
pub mod Sampling
pub mod Rounds
pub mod Repair
mod Tests
use investor_cache.Base.{
  leb, String, Bool, true, false, ℕ, suc, zero, ◌+◌, ℤ, pos, negsuc, List, [], ◌∷◌, ◌++◌, Option,
  none, some, length, take, ltb_ℤ, leb_ℤ, ◌==◌, if◌then◌else◌,
}
use investor_cache.Go.{Result, ok, err, Error, pure, call, lift, ◌>>=◌, ◌>>◌}
use investor_cache.Go.Strings.{trim_prefix}
use investor_cache.Journal.{Proc, cache_get, cache_delete, repo_get, scan_keys}
use investor_cache.Metrics.{record_reconciliation}
use investor_cache.Domain.{InvestorProfile, CacheStore, ProfileRepository}

-- The cluster's masters, and `Scan(ctx, cursor, "investor:*", count)` on one of them: a page of keys
-- and the next cursor. `ForEachMaster` runs its function on every master and returns the first
-- error; the library does so concurrently, and the model one master after the other.
pub record Reconciler (W : Type 0) : Type 0 where
  pub masters : List ℕ
  pub scan : ℕ → ℕ → ℤ → W → Result (List String × ℕ) × W
  pub cache : CacheStore W
  pub repo : ProfileRepository W
  pub interval : ℤ
  pub sample_size : ℤ

abbrev pub new_reconciler :
    {W : Type 0}
    → List ℕ
    → (ℕ → ℕ → ℤ → W → Result (List String × ℕ) × W)
    → CacheStore W
    → ProfileRepository W
    → ℤ
    → ℤ
    → Reconciler W
new_reconciler masters scan cache repo interval sample_size = record {
  masters = masters;
  scan = scan;
  cache = cache;
  repo = repo;
  interval = interval;
  sample_size = sample_size;
}

-- The end of a loop over pages, with the keys so far. `unfinished` is fuel that ran out.
pub data Scan : Type 0 where
  done : List String → Scan
  failed : Error → List String → Scan
  unfinished : List String → Scan

abbrev pub evicted_count : Option ℕ → ℕ
evicted_count none = 0
evicted_count (some n) = n

abbrev pub keys_in : Scan → List String
keys_in (done keys) = keys
keys_in (failed e keys) = keys
keys_in (unfinished keys) = keys

-- What `sampleKeys` returns; `panicked` is a slice out of range.
pub data Sample : Type 0 where
  sampled : List String → Sample
  sample_error : Error → Sample
  panicked : Sample
  sample_unfinished : Sample

-- `allKeys[:count]`. Behind the length Go goes by the capacity that `append` has left, and panics
-- behind that; the model has no capacity, and panics behind the length.
abbrev pub slice_to : ℤ → List String → Sample
slice_to (pos n) keys = if leb n (length keys) then sampled (take n keys) else panicked
slice_to (negsuc n) keys = panicked

-- `if len(allKeys) > count { allKeys = allKeys[:count] }`
unfoldable pub truncate : ℤ → List String → Sample
truncate count keys = if ltb_ℤ count (pos (length keys)) then slice_to count keys else sampled keys

-- `Run` behind its first rounds.
pub data Running : Type 0 where
  going : Running
  returned : Running
  crashed : Running

module _ {W : Type 0} (r : Reconciler W) where
  -- Behind a page: its keys are appended, and cursor 0 ends the loop.
  unfoldable pub after_page :
      (ℕ → List String → Proc W Scan) → List String → Result (List String × ℕ) → Proc W Scan
  after_page rest keys (err e) = pure (failed e keys)
  after_page rest keys (ok (page, cursor)) =
      if cursor == 0 then pure (done (keys ++ page)) else rest cursor (keys ++ page)

  -- The loop on one master, from a cursor on.
  unfoldable pub scan_from : ℕ → ℤ → ℕ → ℕ → List String → Proc W Scan
  scan_from zero count master cursor keys = pure (unfinished keys)
  scan_from (suc fuel) count master cursor keys =
      if ltb_ℤ (pos (length keys)) count
      then (call scan_keys (r.scan master cursor count)
          >>= after_page (scan_from fuel count master) keys)
      else pure (done keys)

  -- Every master is scanned, also behind an error, which is kept.
  unfoldable pub scan_masters : ℕ → ℤ → List ℕ → Scan → Proc W Scan
  scan_masters fuel count [] s = pure s
  scan_masters fuel count (m ∷ ms) (done keys) =
      scan_from fuel count m 0 keys >>= scan_masters fuel count ms
  scan_masters fuel count (m ∷ ms) (failed e keys) = do
    s ← scan_from fuel count m 0 keys
    scan_masters fuel count ms (failed e (keys_in s))
  scan_masters fuel count (m ∷ ms) (unfinished keys) = do
    s ← scan_from fuel count m 0 keys
    scan_masters fuel count ms (unfinished (keys_in s))

  abbrev pub sample_of : ℤ → Scan → Sample
  sample_of count (done keys) = truncate count keys
  sample_of count (failed e keys) = sample_error e
  sample_of count (unfinished keys) = sample_unfinished

  unfoldable pub sample_keys : ℕ → ℤ → Proc W Sample
  sample_keys fuel count = do
    s ← scan_masters fuel count r.masters (done [])
    pure (sample_of count s)

  -- Behind the two reads of a key. `none` is the dereference of a nil profile.
  unfoldable pub compare_versions :
      String → Option InvestorProfile → InvestorProfile → Proc W (Option ℕ)
  compare_versions key none current = pure none
  compare_versions key (some cached) current =
      if ltb_ℤ cached.cache_version current.cache_version
      then (call (cache_delete key) (r.cache.delete key) >> pure (some 1))
      else pure (some 0)

  unfoldable pub check_current :
      String → Option InvestorProfile → Result InvestorProfile → Proc W (Option ℕ)
  check_current key cached (err e) = pure (some 0)
  check_current key cached (ok current) = compare_versions key cached current

  unfoldable pub check_cached : String → Result (Option InvestorProfile) → Proc W (Option ℕ)
  check_cached key (err e) = pure (some 0)
  check_cached key (ok cached) = do
    let id = trim_prefix key "investor:"
    q ← call (repo_get id) (r.repo.get_by_id id)
    check_current key cached q

  -- One round of the loop over the keys: how many entries it evicted.
  unfoldable pub reconcile_key : String → Proc W (Option ℕ)
  reconcile_key key = call (cache_get key) (r.cache.get key) >>= check_cached key

  unfoldable pub after_key : (ℕ → Proc W (Option ℕ)) → ℕ → Option ℕ → Proc W (Option ℕ)
  after_key rest stale none = pure none
  after_key rest stale (some n) = rest (stale + n)

  unfoldable pub reconcile_keys : List String → ℕ → Proc W (Option ℕ)
  reconcile_keys [] stale = pure (some stale)
  reconcile_keys (key ∷ keys) stale = reconcile_key key >>= after_key (reconcile_keys keys) stale

  -- The number of evicted entries, `some`; `none` is a panic. (A failed sample evicts nothing.)
  unfoldable pub reconcile_sample : Sample → Proc W (Option ℕ)
  reconcile_sample (sampled keys) = do
    stale ← reconcile_keys keys 0
    record_reconciliation (length keys) (evicted_count stale)
    pure stale
  reconcile_sample (sample_error e) = pure (some 0)
  reconcile_sample panicked = pure none
  reconcile_sample sample_unfinished = pure (some 0)

  -- One tick of `Run`.
  unfoldable pub reconcile : ℕ → Proc W (Option ℕ)
  reconcile fuel = sample_keys fuel r.sample_size >>= reconcile_sample

  unfoldable pub after_pass : Proc W Running → Option ℕ → Proc W Running
  after_pass rest none = pure crashed
  after_pass rest (some stale) = rest

  -- The first rounds of the loop of `Run`: `select` waits for the end of the context, `true`, or for a
  -- tick. `fuel` is that of `sample_keys`.
  unfoldable pub rounds_of : (W → Bool × W) → ℕ → ℕ → Proc W Running
  rounds_of select fuel zero = pure going
  rounds_of select fuel (suc rounds) =
      let rest = rounds_of select fuel rounds in
      do stop ← lift select; if stop then pure returned else (reconcile fuel >>= after_pass rest)

  -- `time.NewTicker` panics for an interval that is not positive.
  unfoldable pub run : (W → Bool × W) → ℕ → ℕ → Proc W Running
  run select fuel rounds =
      let loop = rounds_of select fuel rounds in
      if leb_ℤ r.interval (pos 0) then pure crashed else loop
