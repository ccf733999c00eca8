-- ===== src/Cache/Manager/Libraries.antt =====
-- What `CacheManager` relies on of `sony/gobreaker` and `x/sync/singleflight`.
use investor_cache.Base.{Bool, true, false, List, [], ◌∷◌, ◌||◌, ◌≡◌, refl, arith, ℤ}
use investor_cache.Go.{Result, err, Error, errors_is, open_state, too_many_requests}
use investor_cache.Journal.{Proc, Entry, gauge, Metric}
use investor_cache.Metrics.Count.{count}
use investor_cache.Go.{World}

-- The log without gauges: the breaker's callback sets one at a change of state.
abbrev pub without_gauges : List Entry → List Entry
without_gauges [] = []
without_gauges (gauge m v ∷ es) = without_gauges es
without_gauges (e ∷ es) = e ∷ without_gauges es

-- One call of `Execute`: it ran the request once, in some state of the world outside, and returned
-- its result, or it refused and did not run it.
pub data Executed {A W : Type 0} (f : Proc W (Result A)) (w : World Entry W)
    (out : Result A × World Entry W) : Type 0 where
  ran :
      (before : World Entry W)
      → without_gauges before.log ≡ without_gauges w.log
      → out.0 ≡ (f before).0
      → without_gauges out.1.log ≡ without_gauges (f before).1.log
      → Executed f w out
  refused :
      (e : Error)
      → out.0 ≡ err e
      → (errors_is e open_state || errors_is e too_many_requests) ≡ true
      → without_gauges out.1.log ≡ without_gauges w.log
      → Executed f w out

-- One call of `Do`: the caller ran the function itself, or it waited for the run of another caller
-- with the same key and shares its result.
pub data Flown {A W : Type 0} (f : Proc W A) (w : World Entry W) (out : (A × Bool) × World Entry W)
    : Type 0 where
  led : out.0.0 ≡ (f w).0 → out.1 ≡ (f w).1 → Flown f w out
  joined :
      (before : World Entry W)
      → out.0.0 ≡ (f before).0
      → out.0.1 ≡ true
      → out.1.log ≡ w.log
      → Flown f w out

-- A test that accepts no gauge counts the same without them.
pub count-without_gauges :
    (p : Entry → Bool) (es : List Entry)
    → ((m : Metric) (v : ℤ) → p (gauge m v) ≡ false)
    → count p (without_gauges es) ≡ count p es
count-without_gauges p [] h = refl
count-without_gauges p (gauge m v ∷ es) h = rw (h m v) (count-without_gauges p es h)
count-without_gauges p (e ∷ es) h = ground (arith, count-without_gauges p es h)
