-- ===== src/Coherence/Ahead.antt =====
-- Runs in which nothing deletes the hash.
use investor_cache.Base.{
  String, ℕ, ◌<◌, ℤ, pos, ◌≤ℤ◌, List, [], ◌∷◌, ◌++◌, Option, none, some, All, ◌≡◌, sym, subst, inl,
  inr, arith, Bool-cases,
}
use investor_cache.Domain.{InvestorProfile}
use investor_cache.Cache.Redis.{Server}
use investor_cache.Cache.Redis.Laws.{ServerLaws, IsExact}
use investor_cache.Cache.Store.{ttl_seconds}
use investor_cache.Cache.Store.Script.{replaces, keep_newest}
use investor_cache.Coherence.{System, Step, commit, load, write, drop, invalidate, vanish, Reach}
use investor_cache.Coherence.Bound.{IsBounded, Step-IsBounded, Reach-IsBounded, cached_after}

-- The hash holds a profile, at least as new.
abbrev pub IsBelow : Option InvestorProfile → InvestorProfile → Type 0
IsBelow none p = ⊥
IsBelow (some q) p = p.cache_version ≤ℤ q.cache_version

abbrev pub held_in : Option InvestorProfile → List InvestorProfile
held_in none = []
held_in (some p) = p ∷ []

module _ {S N : Type 0} (s : Server S N) (key : String) (ttl : ℤ) where
  -- The step does not delete the hash.
  abbrev pub IsKeeping : {a b : System S} → Step s key ttl a b → Type 0
  IsKeeping (commit _ _ _ _) = Unit {0}
  IsKeeping (load _) = Unit {0}
  IsKeeping (write _ _ _ _ _) = Unit {0}
  IsKeeping (drop _ _ _ _ _) = Unit {0}
  IsKeeping (invalidate _ _ _ _ _) = ⊥
  IsKeeping (vanish _ _ _) = ⊥

  -- The row that a step writes to the hash, in front of the others.
  abbrev pub written_by :
      {a b : System S} → Step s key ttl a b → List InvestorProfile → List InvestorProfile
  written_by (write _ _ p _ _) ps = p ∷ ps
  written_by (commit _ _ _ _) ps = ps
  written_by (load _) ps = ps
  written_by (drop _ _ _ _ _) ps = ps
  written_by (invalidate _ _ _ _ _) ps = ps
  written_by (vanish _ _ _) ps = ps

  -- A run without a deletion, with the rows that were written in it.
  pub data Keeping (a : System S) : System S → List InvestorProfile → Type 0 where
    here : Keeping a a []
    further :
        {b c : System S} {ps : List InvestorProfile}
        → Keeping a b ps
        → (st : Step s key ttl b c) → IsKeeping st
        → Keeping a c (written_by st ps)

  pub record IsAhead (a b : System S) (ps : List InvestorProfile) : Type 0 where
    pub before : IsBounded s key ttl a
    pub after : IsBounded s key ttl b
    pub newest : All (IsBelow after.cached) (ps ++ held_in before.cached)

keep_newest-IsBelow :
    (o : Option InvestorProfile) (p q : InvestorProfile) → IsBelow o q → IsBelow (keep_newest o p) q
keep_newest-IsBelow none p q h = absurd h
keep_newest-IsBelow (some r) p q h = elim (Bool-cases (replaces p (some r))) [
  | inl t ↦ rw t (ground (arith, t, h))
  | inr f ↦ rw f h
]

keep_newest-self : (o : Option InvestorProfile) (p : InvestorProfile) → IsBelow (keep_newest o p) p
keep_newest-self none p = omega arith
keep_newest-self (some r) p = elim (Bool-cases (replaces p (some r))) [
  | inl t ↦ rw t (omega arith)
  | inr f ↦ rw f (ground (arith, f))
]

keep_newest-All :
    (o : Option InvestorProfile) (p : InvestorProfile) (qs : List InvestorProfile)
    → All (IsBelow o) qs
    → All (IsBelow (keep_newest o p)) qs
keep_newest-All o p [] h = tt
keep_newest-All o p (q ∷ qs) h = (keep_newest-IsBelow o p q h.0, keep_newest-All o p qs h.1)

held_in-self : (o : Option InvestorProfile) → All (IsBelow o) (held_in o)
held_in-self none = tt
held_in-self (some p) = (omega arith, tt)

module _ {S N : Type 0} (s : Server S N) (laws : ServerLaws s) (key : String) (ttl : ℤ) (n : ℕ)
    (positive : 0 < n) (seconds : ttl_seconds ttl ≡ pos n) (fits : IsExact (pos n)) where
  cached_after-newest :
      {b c : System S} (st : Step s key ttl b c) (o : Option InvestorProfile)
      (ps held : List InvestorProfile)
      → IsKeeping s key ttl st
      → All (IsBelow o) (ps ++ held)
      → All (IsBelow (cached_after s key ttl st o)) (written_by s key ttl st ps ++ held)
  cached_after-newest (commit _ _ _ _) o ps held keeps h = h
  cached_after-newest (load _) o ps held keeps h = h
  cached_after-newest (write _ _ p _ _) o ps held keeps h =
      (keep_newest-self o p, keep_newest-All o p (ps ++ held) h)
  cached_after-newest (drop _ _ _ _ _) o ps held keeps h = h
  cached_after-newest (invalidate _ _ _ _ _) o ps held keeps h = absurd keeps
  cached_after-newest (vanish _ _ _) o ps held keeps h = absurd keeps

  -- For a time to live of at least a second and versions that a double represents exactly: in every
  -- reachable state, whatever the order of the commits, loads, writes and deletions, the hash is
  -- empty or holds a row that the database has held, and its version is not above the current one.
  -- Over a run behind it without a deletion, the hash ends with a version that is not below the one
  -- that it began with, nor below that of any row that the loads wrote in it, in whatever order.
  pub Reach-IsAhead :
      {a b : System S} {ps : List InvestorProfile}
      → Reach s key ttl a
      → Keeping s key ttl a b ps
      → IsAhead s key ttl a b ps
  Reach-IsAhead r here =
      let h = Reach-IsBounded s laws key ttl n positive seconds fits r in
      record { before = h; after = h; newest = held_in-self h.cached }
  Reach-IsAhead r (further {ps} k st keeps) =
      let h = Reach-IsAhead r k in
      let (after, same) = Step-IsBounded s laws key ttl n positive seconds fits st h.after in
      record {
        before = h.before;
        after = after;
        newest =
            subst (λ o. All (IsBelow o) (written_by s key ttl st ps ++ held_in h.before.cached))
              (sym same)
              (cached_after-newest st h.after.cached ps (held_in h.before.cached) keeps h.newest);
      }
