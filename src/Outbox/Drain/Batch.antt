-- ===== src/Outbox/Drain/Batch.antt =====
-- The outbox without the events of a batch.
use investor_cache.Base.{
  true, false, ℕ, zero, suc, ℤ, List, [], ◌∷◌, take, drop, ◌≡◌, refl, ap, arith,
}
use investor_cache.Outbox.Events.{Event}
use investor_cache.Outbox.Publishing.{ids_of}
use investor_cache.Outbox.Drain.{eq_ℤ, has, without, IsDistinct}

eq_refl : (i : ℤ) → eq_ℤ i i ≡ true
eq_refl i = ground arith

pub without_none : (es : List Event) → without [] es ≡ es
without_none [] = refl
without_none (e ∷ es) = ap (λ l. e ∷ l) (without_none es)

-- An identifier that no event has makes no difference.
without_other :
    (i : ℤ) (ids : List ℤ) (es : List Event)
    → has i (ids_of es) ≡ false
    → without (i ∷ ids) es ≡ without ids es
without_other i ids [] h = refl
without_other i ids (e ∷ es) h = ground (arith, without_other i ids es)

pub without-take :
    (n : ℕ) (es : List Event) → IsDistinct es → without (ids_of (take n es)) es ≡ drop n es
without-take zero es h = without_none es
without-take (suc n) [] h = refl
without-take (suc n) (e ∷ es) h =
    rw (eq_refl e.id, without_other e.id (ids_of (take n es)) es h.0) (without-take n es h.1)

pub drop-IsDistinct : (n : ℕ) (es : List Event) → IsDistinct es → IsDistinct (drop n es)
drop-IsDistinct zero es h = h
drop-IsDistinct (suc n) [] h = tt
drop-IsDistinct (suc n) (e ∷ es) h = drop-IsDistinct n es h.1
