-- ===== src/Reconciler/Eviction.antt =====
-- What one pass of the reconciler evicts.
use mathlib.Core.List.{append_assoc, append-nil}
use investor_cache.Base.{
  String, ℕ, ◌+◌, List, [], ◌∷◌, ◌++◌, Option, none, some, length, ltb_ℤ, ◌<ℤ◌, ◌≤ℤ◌, ◌≡◌, ◌≢◌,
  refl, ap, ◌∙◌, sym, arith, inl, inr, Bool-cases,
}
use investor_cache.Go.{Result, ok, err, Error, World}
use investor_cache.Go.Strings.{trim_prefix}
use investor_cache.Journal.{Entry}
use investor_cache.Domain.{InvestorProfile}
use investor_cache.Kafka.Trace.{deleted_keys}
use investor_cache.Reconciler.{
  Reconciler, compare_versions, check_current, check_cached, reconcile_key, after_key,
  reconcile_keys,
}

module _ {W : Type 0} (r : Reconciler W) where
  -- The read of the database behind the read of the cache, in the world `w`.
  abbrev pub row_read : String → W → Result InvestorProfile × W
  row_read key w = r.repo.get_by_id (trim_prefix key "investor:") (r.cache.get key w).1

  -- In the world `w` the entry of a key is older than the database's row. `v` is the world behind
  -- the two reads and the deletion.
  pub data IsStale (key : String) (w : W) : W → Type 0 where
    older :
        (cached row : InvestorProfile)
        → (r.cache.get key w).0 ≡ ok (some cached)
        → (row_read key w).0 ≡ ok row
        → cached.cache_version <ℤ row.cache_version
        → IsStale key w (r.cache.delete key (row_read key w).1).1

  -- In the world `w` one of the reads fails, or the entry is as new as the row.
  pub data IsKept (key : String) (w : W) : W → Type 0 where
    unread : (e : Error) → (r.cache.get key w).0 ≡ err e → IsKept key w (r.cache.get key w).1
    no_row :
        (cached : InvestorProfile) (e : Error)
        → (r.cache.get key w).0 ≡ ok (some cached)
        → (row_read key w).0 ≡ err e
        → IsKept key w (row_read key w).1
    current :
        (cached row : InvestorProfile)
        → (r.cache.get key w).0 ≡ ok (some cached)
        → (row_read key w).0 ≡ ok row
        → row.cache_version ≤ℤ cached.cache_version
        → IsKept key w (row_read key w).1

  -- A pass over the keys from the world `w`, each key read in the world that the one before it
  -- left: the stale ones are evicted, in order, and the others are kept.
  pub data Evicts : W → List String → List String → Type 0 where
    stop : {w : W} → Evicts w [] []
    evict :
        {w v : W} {key : String} {keys gone : List String}
        → IsStale key w v
        → Evicts v keys gone
        → Evicts w (key ∷ keys) (key ∷ gone)
    keep :
        {w v : W} {key : String} {keys gone : List String}
        → IsKept key w v
        → Evicts v keys gone
        → Evicts w (key ∷ keys) gone

  -- One key: it is stale and deleted, or kept and nothing is deleted.
  pub data IsChecked (key : String) (w : World Entry W) (out : Option ℕ × World Entry W)
      : Type 0 where
    evicted :
        IsStale key w.outside out.1.outside
        → out.0 ≡ some 1
        → deleted_keys out.1.log ≡ deleted_keys w.log ++ key ∷ []
        → IsChecked key w out
    kept :
        IsKept key w.outside out.1.outside
        → out.0 ≡ some 0
        → deleted_keys out.1.log ≡ deleted_keys w.log
        → IsChecked key w out

  compare-IsChecked :
      (key : String) (cached row : InvestorProfile) (w v : World Entry W)
      → (r.cache.get key w.outside).0 ≡ ok (some cached)
      → (row_read key w.outside).0 ≡ ok row
      → v.outside ≡ (row_read key w.outside).1
      → deleted_keys v.log ≡ deleted_keys w.log
      → IsChecked key w (compare_versions r key (some cached) row v)
  unfolding compare_versions
  compare-IsChecked key cached row w v got read there same =
      elim (Bool-cases (ltb_ℤ cached.cache_version row.cache_version)) [
        | inl t ↦
            rw (t, there)
              (evicted (older cached row got read (ground arith)) refl
                (ap (λ l. l ++ key ∷ []) same))
        | inr t ↦ rw (t, there) (kept (current cached row got read (ground arith)) refl same)
      ]

  check_current-IsChecked :
      (key : String) (cached : InvestorProfile) (q : Result InvestorProfile) (w v : World Entry W)
      → (r.cache.get key w.outside).0 ≡ ok (some cached)
      → (row_read key w.outside).0 ≡ q
      → v.outside ≡ (row_read key w.outside).1
      → deleted_keys v.log ≡ deleted_keys w.log
      → IsChecked key w (check_current r key (some cached) q v)
  unfolding check_current
  check_current-IsChecked key cached (ok row) w v got read there same =
      compare-IsChecked key cached row w v got read there same
  check_current-IsChecked key cached (err e) w v got read there same =
      rw there (kept (no_row cached e got read) refl same)

  -- The pass, its count and its requests.
  pub record IsPass (keys : List String) (stale : ℕ) (w : World Entry W)
      (out : Option ℕ × World Entry W) : Type 0 where
    pub gone : List String
    pub evicts : Evicts w.outside keys gone
    pub counted : out.0 ≡ some (stale + length gone)
    pub requested : deleted_keys out.1.log ≡ deleted_keys w.log ++ gone

  -- The pass behind a key that was evicted, and behind one that was kept.
  evicted-IsPass :
      (key : String) (keys : List String) (stale : ℕ) (w v : World Entry W)
      (out : Option ℕ × World Entry W)
      → IsStale key w.outside v.outside
      → deleted_keys v.log ≡ deleted_keys w.log ++ key ∷ []
      → IsPass keys (stale + 1) v out
      → IsPass (key ∷ keys) stale w out
  evicted-IsPass key keys stale w v out s deleted later = record {
    gone = key ∷ later.gone;
    evicts = evict s later.evicts;
    counted = later.counted ∙ ap some (grind arith);
    requested =
        later.requested
        ∙ ap (λ l. l ++ later.gone) deleted
        ∙ append_assoc (deleted_keys w.log) (key ∷ []) later.gone;
  }

  kept-IsPass :
      (key : String) (keys : List String) (stale : ℕ) (w v : World Entry W)
      (out : Option ℕ × World Entry W)
      → IsKept key w.outside v.outside
      → deleted_keys v.log ≡ deleted_keys w.log
      → IsPass keys (stale + 0) v out
      → IsPass (key ∷ keys) stale w out
  kept-IsPass key keys stale w v out k deleted later = record {
    gone = later.gone;
    evicts = keep k later.evicts;
    counted = later.counted ∙ ap some (grind arith);
    requested = later.requested ∙ ap (λ l. l ++ later.gone) deleted;
  }

  module _ (never_nil : (key : String) (w : W) → (r.cache.get key w).0 ≢ ok none) where
    check_cached-IsChecked :
        (key : String) (q : Result (Option InvestorProfile)) (w v : World Entry W)
        → (r.cache.get key w.outside).0 ≡ q
        → v.outside ≡ (r.cache.get key w.outside).1
        → deleted_keys v.log ≡ deleted_keys w.log
        → IsChecked key w (check_cached r key q v)
    unfolding check_cached
    check_cached-IsChecked key (ok (some cached)) w v got there same =
        check_current-IsChecked key cached _ w _ got
          (ap (λ x. (r.repo.get_by_id (trim_prefix key "investor:") x).0) (sym there))
          (ap (λ x. (r.repo.get_by_id (trim_prefix key "investor:") x).1) there) same
    check_cached-IsChecked key (ok none) w v got there same = absurd (never_nil key w.outside got)
    check_cached-IsChecked key (err e) w v got there same = rw there (kept (unread e got) refl same)

    reconcile_key-IsChecked :
        (key : String) (w : World Entry W) → IsChecked key w (reconcile_key r key w)
    unfolding reconcile_key
    reconcile_key-IsChecked key w = check_cached-IsChecked key _ w _ refl refl refl

    after_key-IsPass :
        (key : String) (keys : List String) (stale : ℕ) (w v : World Entry W) (o : Option ℕ)
        → IsChecked key w (o, v)
        → ((stale' : ℕ) → IsPass keys stale' v (reconcile_keys r keys stale' v))
        → IsPass (key ∷ keys) stale w (after_key r (reconcile_keys r keys) stale o v)
    unfolding after_key
    after_key-IsPass key keys stale w v o (evicted s one deleted) later =
        rw one (evicted-IsPass key keys stale w v _ s deleted (later (stale + 1)))
    after_key-IsPass key keys stale w v o (kept k no_eviction deleted) later =
        rw no_eviction (kept-IsPass key keys stale w v _ k deleted (later (stale + 0)))

    -- If the cache never returns nil without an error: a pass over the sampled keys does not panic.
    -- It requests the deletion of exactly those keys whose cached version is below the version of
    -- the database's row, in their order, and returns their number; a key that cannot be read, or
    -- whose row cannot, is kept.
    pub reconcile_keys-IsPass :
        (keys : List String) (stale : ℕ) (w : World Entry W)
        → IsPass keys stale w (reconcile_keys r keys stale w)
    unfolding reconcile_keys
    reconcile_keys-IsPass [] stale w = record {
      gone = [];
      evicts = stop;
      counted = ap some (omega arith);
      requested = sym (append-nil (deleted_keys w.log));
    }
    reconcile_keys-IsPass (key ∷ keys) stale w =
        after_key-IsPass key keys stale w (reconcile_key r key w).1 (reconcile_key r key w).0
          (reconcile_key-IsChecked key w)
          (λ n. reconcile_keys-IsPass keys n (reconcile_key r key w).1)
