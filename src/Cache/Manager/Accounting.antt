-- ===== src/Cache/Manager/Accounting.antt =====
-- The counters that `GetProfile` leaves, against the label that it returns.
use investor_cache.Base.{
  String, Bool, true, false, Option, none, some, ◌≡◌, refl, arith, Bool-cases, ℕ, ◌+◌, inl, inr,
  if◌then◌else◌, ◌∙◌, ap, sym, List, [], ◌∷◌, ℤ,
}
use investor_cache.Go.{Result, ok, err, Error, errors_is, redis_nil, World}
use investor_cache.Journal.{Proc, Entry, Metric, gauge, inc, cache_requests}
use investor_cache.Metrics.{record_cache_miss}
use investor_cache.Metrics.Count.{count, is_request, is_fallback}
use investor_cache.Domain.{InvestorProfile}
use investor_cache.Cache.Outcome.{CacheResult, hit, miss, error, cb_open, cache_key}
use investor_cache.Cache.Manager.{
  CacheManager, cache_read, load_and_cache, store_loaded, fall_back, finish, load_miss, respond,
  guarded_read, get_profile,
}
use investor_cache.Cache.Manager.Libraries.{
  Executed, ran, refused, Flown, led, joined, without_gauges, count-without_gauges,
}

-- The counters of the read path: `cache_requests_total` by label, and `db_fallback_total`.
pub data Counter : Type 0 where
  hits misses errors fallbacks : Counter

abbrev pub counts_in : Counter → Entry → Bool
counts_in hits = is_request "hit"
counts_in misses = is_request "miss"
counts_in errors = is_request "error"
counts_in fallbacks = is_fallback

abbrev pub value_of : Counter → List Entry → ℕ
value_of k log = count (counts_in k) log

-- How far one request with this label moves each counter.
abbrev pub moved_by : CacheResult → Counter → ℕ
moved_by hit hits = 1
moved_by miss misses = 1
moved_by error errors = 1
moved_by error fallbacks = 1
moved_by cb_open fallbacks = 1
moved_by _ _ = 0

same_value :
    (k : Counter) (es es' : List Entry)
    → without_gauges es ≡ without_gauges es'
    → value_of k es ≡ value_of k es'
same_value k es es' h =
    sym (count-without_gauges (counts_in k) es (no_gauge k))
    ∙ ap (count (counts_in k)) h
    ∙ count-without_gauges (counts_in k) es' (no_gauge k)
  where
    no_gauge : (j : Counter) (m : Metric) (v : ℤ) → counts_in j (gauge m v) ≡ false
    no_gauge hits m v = refl
    no_gauge misses m v = refl
    no_gauge errors m v = refl
    no_gauge fallbacks m v = refl

-- The miss that is counted before the flight.
value_of-miss :
    (k : Counter) (log : List Entry)
    → value_of k (inc cache_requests ("miss" ∷ []) ∷ log) ≡ value_of k log + moved_by miss k
value_of-miss hits log = omega arith
value_of-miss misses log = omega arith
value_of-miss errors log = omega arith
value_of-miss fallbacks log = omega arith

module _ {W : Type 0} (m : CacheManager W) where
  -- The call moved each counter as its label says.
  abbrev pub IsAccounted :
      World Entry W → (Result InvestorProfile × CacheResult) × World Entry W → Type 0
  IsAccounted w out = (k : Counter) → value_of k out.1.log ≡ value_of k w.log + moved_by out.0.1 k

  load_and_cache-value :
      (k : Counter) (id key : String) (w : World Entry W)
      → value_of k (load_and_cache m id key w).1.log ≡ value_of k w.log
  unfolding load_and_cache store_loaded
  load_and_cache-value hits id key w = ground arith
  load_and_cache-value misses id key w = ground arith
  load_and_cache-value errors id key w = ground arith
  load_and_cache-value fallbacks id key w = ground arith

  fall_back-IsAccounted :
      (id : String) (e : Error) (w : World Entry W) → IsAccounted w (fall_back m id e w)
  unfolding fall_back
  fall_back-IsAccounted id e w hits = ground arith
  fall_back-IsAccounted id e w misses = ground arith
  fall_back-IsAccounted id e w errors = ground arith
  fall_back-IsAccounted id e w fallbacks = ground arith

  finish-value :
      (k : Counter) (flight : Result InvestorProfile × Bool) (w : World Entry W)
      → value_of k (finish m flight w).1.log ≡ value_of k w.log
  unfolding finish
  finish-value hits flight w = ground arith
  finish-value misses flight w = ground arith
  finish-value errors flight w = ground arith
  finish-value fallbacks flight w = ground arith

  finish-label :
      (flight : Result InvestorProfile × Bool) (w : World Entry W) → (finish m flight w).0.1 ≡ miss
  unfolding finish
  finish-label flight w = ground arith

  flown-value :
      (id key : String) (k : Counter) {w : World Entry W}
      {out : (Result InvestorProfile × Bool) × World Entry W}
      → Flown (load_and_cache m id key) w out
      → value_of k out.1.log ≡ value_of k w.log
  flown-value id key k {w} (led _ same) =
      ap (λ (v : World Entry W). value_of k v.log) same ∙ load_and_cache-value k id key w
  flown-value id key k (joined before _ _ same) = ap (value_of k) same

  module _
      (flights : (key : String) (f : Proc W (Result InvestorProfile)) (w : World Entry W)
        → Flown f w (m.sf_do key f w))
      (breaker : (f : Proc W (Result (Option InvestorProfile))) (w : World Entry W)
        → Executed f w (m.execute f w)) where
    load_miss-IsAccounted :
        (id key : String) (w : World Entry W) → IsAccounted w (load_miss m id key w)
    unfolding load_miss
    load_miss-IsAccounted id key w k =
        let start : World Entry W = (record_cache_miss w).1 in
        let flight = m.sf_do key (load_and_cache m id key) start in
        finish-value k flight.0 flight.1
        ∙ flown-value id key k (flights key (load_and_cache m id key) start)
        ∙ value_of-miss k w.log
        ∙ ap (λ (l : CacheResult). value_of k w.log + moved_by l k)
            (sym (finish-label flight.0 flight.1))

    respond-IsAccounted :
        (id key : String) (r : Result (Option InvestorProfile)) (w : World Entry W)
        → IsAccounted w (respond m id key r w)
    unfolding respond
    respond-IsAccounted id key (ok (some p)) w hits = ground arith
    respond-IsAccounted id key (ok (some p)) w misses = ground arith
    respond-IsAccounted id key (ok (some p)) w errors = ground arith
    respond-IsAccounted id key (ok (some p)) w fallbacks = ground arith
    respond-IsAccounted id key (ok none) w k = load_miss-IsAccounted id key w k
    respond-IsAccounted id key (err e) w k = elim (Bool-cases (errors_is e redis_nil)) [
      | inl t ↦ rw t (load_miss-IsAccounted id key w k)
      | inr t ↦ rw t (fall_back-IsAccounted id e w k)
    ]

    cache_read-value :
        (k : Counter) (key : String) (w : World Entry W)
        → value_of k (cache_read m key w).1.log ≡ value_of k w.log
    unfolding cache_read
    cache_read-value hits key w = refl
    cache_read-value misses key w = refl
    cache_read-value errors key w = refl
    cache_read-value fallbacks key w = refl

    executed-value :
        (k : Counter) (key : String) (w : World Entry W)
        {out : Result (Option InvestorProfile) × World Entry W}
        → Executed (cache_read m key) w out
        → value_of k out.1.log ≡ value_of k w.log
    executed-value k key w (ran before same _ after) =
        same_value k _ _ after ∙ cache_read-value k key before ∙ same_value k _ _ same
    executed-value k key w (refused e _ _ after) = same_value k _ _ after

    guarded_read-value :
        (k : Counter) (key : String) (w : World Entry W)
        → value_of k (guarded_read m key w).1.log ≡ value_of k w.log
    unfolding guarded_read
    guarded_read-value k key w =
        elim m.cb_disabled
          as (λ b.
            value_of k ((if b then cache_read m key else m.execute (cache_read m key)) w).1.log
            ≡ value_of k w.log) [
              | true ↦ cache_read-value k key w
              | false ↦ executed-value k key w (breaker (cache_read m key) w)
            ]

    -- If the breaker runs a request once or refuses it, adding at most gauges to the log, and a call
    -- of singleflight runs the function once or waits without an effect: each call of `GetProfile`
    -- moves the counters exactly as the label that it returns says. A hit moves the hits by one, a
    -- miss the misses, a failed cache the errors and the database fall backs, an open breaker the
    -- fall backs alone, and no other counter of the four moves.
    pub get_profile-IsAccounted :
        (id : String) (w : World Entry W) → IsAccounted w (get_profile m id w)
    unfolding get_profile
    get_profile-IsAccounted id w k = omega (
      arith,
      respond-IsAccounted id (cache_key id) (guarded_read m (cache_key id) w).0
          (guarded_read m (cache_key id) w).1 k,
      guarded_read-value k (cache_key id) w,
    )
