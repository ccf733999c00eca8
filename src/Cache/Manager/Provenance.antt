-- ===== src/Cache/Manager/Provenance.antt =====
-- Where the answer of `GetProfile` comes from.
use investor_cache.Base.{
  String, Bool, true, false, Option, none, some, ◌||◌, ◌≡◌, ◌≢◌, refl, ◌⊎◌, inl, inr, arith,
  Bool-cases, if◌then◌else◌, ◌∙◌, sym,
}
use investor_cache.Go.{
  Result, ok, err, Error, errors_is, open_state, too_many_requests, redis_nil, World,
}
use investor_cache.Journal.{Proc, Entry}
use investor_cache.Domain.{InvestorProfile}
use investor_cache.Cache.Outcome.{CacheResult, hit, miss, cache_key}
use investor_cache.Cache.Manager.{
  CacheManager, cache_read, load_and_cache, store_loaded, fall_back, finish, load_miss, respond,
  guarded_read, get_profile,
}
use investor_cache.Cache.Manager.Libraries.{Executed, ran, refused, Flown, led, joined}

module _ {W : Type 0} (m : CacheManager W) where
  -- An answer is a hit with a profile that the cache returned for the investor's key, or it is what
  -- the database returned for the investor, an error included, under another label than a hit.
  pub data IsSourced (id : String) (out : Result InvestorProfile × CacheResult) : Type 0 where
    from_cache :
        (p : InvestorProfile) (w : W)
        → (m.cache.get (cache_key id) w).0 ≡ ok (some p)
        → out.0 ≡ ok p
        → out.1 ≡ hit
        → IsSourced id out
    from_database : (w : W) → out.0 ≡ (m.repo.get_by_id id w).0 → out.1 ≢ hit → IsSourced id out

  miss_not_hit : miss ≢ hit
  miss_not_hit = cc

  -- What the read of the cache returned, through the breaker or not.
  abbrev IsReadOf : String → Result (Option InvestorProfile) → Type 0
  IsReadOf key r =
      ((w : W) × (r ≡ (m.cache.get key w).0))
      ⊎ ((e : Error) × (r ≡ err e)
          × ((errors_is e open_state || errors_is e too_many_requests) ≡ true))

  load_and_cache-result :
      (id key : String) (w : World Entry W)
      → (load_and_cache m id key w).0 ≡ (m.repo.get_by_id id w.outside).0
  unfolding load_and_cache store_loaded
  load_and_cache-result id key w = ground arith

  fall_back-IsSourced :
      (id : String) (e : Error) (w : World Entry W) → IsSourced id (fall_back m id e w).0
  unfolding fall_back
  fall_back-IsSourced id e w =
      elim (Bool-cases (errors_is e open_state || errors_is e too_many_requests)) [
        | inl t ↦ rw t (from_database w.outside refl (cc))
        | inr t ↦ rw t (from_database w.outside refl (cc))
      ]

  finish_result :
      (flight : Result InvestorProfile × Bool) (w : World Entry W)
      → ((finish m flight w).0.0 ≡ flight.0) × ((finish m flight w).0.1 ≡ miss)
  unfolding finish
  finish_result flight w = ground arith

  flown-result :
      {A : Type 0} {f : Proc W A} {w : World Entry W} {out : (A × Bool) × World Entry W}
      → Flown f w out
      → (before : World Entry W) × (out.0.0 ≡ (f before).0)
  flown-result {w} (led r _) = (w, r)
  flown-result (joined before r _ _) = (before, r)

  module _
      (flights : (key : String) (f : Proc W (Result InvestorProfile)) (w : World Entry W)
        → Flown f w (m.sf_do key f w))
      (breaker : (f : Proc W (Result (Option InvestorProfile))) (w : World Entry W)
        → Executed f w (m.execute f w)) where
    load_miss-IsSourced :
        (id key : String) (w : World Entry W) → IsSourced id (load_miss m id key w).0
    unfolding load_miss
    load_miss-IsSourced id key w =
        let (before, shared) = flown-result (flights key (load_and_cache m id key) _) in
        let (result, label) = finish_result _ _ in
        from_database before.outside (result ∙ shared ∙ load_and_cache-result id key before)
          (λ e. miss_not_hit (sym label ∙ e))

    respond-IsSourced :
        (id : String) (r : Result (Option InvestorProfile)) (w : World Entry W)
        → IsReadOf (cache_key id) r
        → IsSourced id (respond m id (cache_key id) r w).0
    unfolding respond
    respond-IsSourced id (ok (some p)) w (inl (w0, e)) = from_cache p w0 (sym e) refl refl
    respond-IsSourced id (ok (some p)) w (inr (e, same, _)) = cc
    respond-IsSourced id (ok none) w h = load_miss-IsSourced id (cache_key id) w
    respond-IsSourced id (err e) w h = elim (Bool-cases (errors_is e redis_nil)) [
      | inl t ↦ rw t (load_miss-IsSourced id (cache_key id) w)
      | inr t ↦ rw t (fall_back-IsSourced id e w)
    ]

    cache_read-IsReadOf : (key : String) (w : World Entry W) → IsReadOf key (cache_read m key w).0
    unfolding cache_read
    cache_read-IsReadOf key w = inl (w.outside, refl)

    execute-IsReadOf :
        (key : String) (w : World Entry W) → IsReadOf key (m.execute (cache_read m key) w).0
    unfolding cache_read
    execute-IsReadOf key w = by_cases (breaker (cache_read m key) w)
      where
        by_cases :
            {out : Result (Option InvestorProfile) × World Entry W}
            → Executed (cache_read m key) w out
            → IsReadOf key out.0
        by_cases (ran before _ r _) = inl (before.outside, r)
        by_cases (refused e r is_open _) = inr (e, r, is_open)

    guarded_read-IsReadOf :
        (key : String) (w : World Entry W) → IsReadOf key (guarded_read m key w).0
    unfolding guarded_read
    guarded_read-IsReadOf key w =
        elim m.cb_disabled
          as (λ b.
            IsReadOf key ((if b then cache_read m key else m.execute (cache_read m key)) w).0) [
              | true ↦ cache_read-IsReadOf key w
              | false ↦ execute-IsReadOf key w
            ]

    -- If the breaker runs a request once or refuses it with one of its two errors, and singleflight
    -- answers with the result of a run of the function: whatever the cache does, `GetProfile`
    -- returns a profile that the cache returned for the investor's key, labelled as a hit, or what
    -- the database returned for the investor, error or profile, under another label. (The read is
    -- one in some world, since a flight may have been led by another call.) So an error is always
    -- one that a read of the database returned.
    pub get_profile-IsSourced :
        (id : String) (w : World Entry W) → IsSourced id (get_profile m id w).0
    unfolding get_profile
    get_profile-IsSourced id w = respond-IsSourced id _ _ (guarded_read-IsReadOf (cache_key id) w)
