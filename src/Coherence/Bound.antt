-- ===== src/Coherence/Bound.antt =====
-- What the hash and the loads in flight hold, against the rows of the database.
use investor_cache.Base.{
  String, ℕ, ◌<◌, ℤ, pos, ◌<ℤ◌, ◌≤ℤ◌, List, [], ◌∷◌, ◌++◌, Option, none, some, All, ◌≡◌, ◌⊎◌, inl,
  inr, refl, arith, Bool-cases,
}
use investor_cache.Domain.{InvestorProfile}
use investor_cache.Cache.Redis.{Server}
use investor_cache.Cache.Redis.Laws.{ServerLaws, IsExact}
use investor_cache.Cache.Store.{ttl_seconds}
use investor_cache.Cache.Store.Script.{
  Represents, IsExactProfile, replaces, keep_newest, lua_versioned_set_refines,
}
use investor_cache.Coherence.{
  System, Step, commit, load, write, drop, invalidate, vanish, IsStart, Reach, start, next,
}

-- A member of a list.
abbrev pub IsIn : InvestorProfile → List InvestorProfile → Type 0
IsIn p [] = ⊥
IsIn p (q ∷ qs) = (p ≡ q) ⊎ IsIn p qs

-- A row that the database has held, no newer than the current one.
pub record IsHeld (a : InvestorProfile) (earlier : List InvestorProfile) (p : InvestorProfile)
    : Type 0 where
  pub held : IsIn p (a ∷ earlier)
  pub bounded : p.cache_version ≤ℤ a.cache_version
  pub exact : IsExact p.cache_version

abbrev pub IsHeldOption : InvestorProfile → List InvestorProfile → Option InvestorProfile → Type 0
IsHeldOption a earlier none = Unit {0}
IsHeldOption a earlier (some p) = IsHeld a earlier p

module _ {S N : Type 0} (s : Server S N) (key : String) (ttl : ℤ) where
  pub record IsBounded (a : System S) : Type 0 where
    pub cached : Option InvestorProfile
    pub represents : Represents s key cached a.server
    pub cached_held : IsHeldOption a.row a.earlier cached
    pub loads_held : All (IsHeld a.row a.earlier) a.loads
    pub row_exact : IsExact a.row.cache_version

  -- What a step makes of the hash: a write goes by the script, and two steps delete.
  abbrev pub cached_after :
      {a b : System S} → Step s key ttl a b → Option InvestorProfile → Option InvestorProfile
  cached_after (commit _ _ _ _) o = o
  cached_after (load _) o = o
  cached_after (write _ _ p _ _) o = keep_newest o p
  cached_after (drop _ _ _ _ _) o = o
  cached_after (invalidate _ _ _ _ _) o = none
  cached_after (vanish _ _ _) o = none

commit-IsHeld :
    (a row : InvestorProfile) (earlier : List InvestorProfile) (p : InvestorProfile)
    → a.cache_version <ℤ row.cache_version
    → IsHeld a earlier p
    → IsHeld row (a ∷ earlier) p
commit-IsHeld a row earlier p newer h = record {
  held = inr h.held;
  bounded = omega (arith, h.bounded, newer);
  exact = h.exact;
}

commit-All-IsHeld :
    (a row : InvestorProfile) (earlier ps : List InvestorProfile)
    → a.cache_version <ℤ row.cache_version
    → All (IsHeld a earlier) ps
    → All (IsHeld row (a ∷ earlier)) ps
commit-All-IsHeld a row earlier [] newer h = tt
commit-All-IsHeld a row earlier (p ∷ ps) newer h =
    (commit-IsHeld a row earlier p newer h.0, commit-All-IsHeld a row earlier ps newer h.1)

commit-IsHeldOption :
    (a row : InvestorProfile) (earlier : List InvestorProfile) (o : Option InvestorProfile)
    → a.cache_version <ℤ row.cache_version
    → IsHeldOption a earlier o
    → IsHeldOption row (a ∷ earlier) o
commit-IsHeldOption a row earlier none newer h = tt
commit-IsHeldOption a row earlier (some p) newer h = commit-IsHeld a row earlier p newer h

-- Taking one element out.
pub All-without :
    (P : InvestorProfile → Type 0) (before after : List InvestorProfile) (p : InvestorProfile)
    → All P (before ++ p ∷ after)
    → P p × All P (before ++ after)
All-without P [] after p h = h
All-without P (q ∷ before) after p h =
    let (mine, rest) = All-without P before after p h.1 in (mine, (h.0, rest))

keep_newest-IsHeldOption :
    (a : InvestorProfile) (earlier : List InvestorProfile) (o : Option InvestorProfile)
    (p : InvestorProfile)
    → IsHeldOption a earlier o
    → IsHeld a earlier p
    → IsHeldOption a earlier (keep_newest o p)
keep_newest-IsHeldOption a earlier o p old new = elim (Bool-cases (replaces p o)) [
  | inl t ↦ rw t new
  | inr f ↦ rw f old
]

pub IsHeldOption-exact :
    (a : InvestorProfile) (earlier : List InvestorProfile) (o : Option InvestorProfile)
    → IsHeldOption a earlier o
    → IsExactProfile o
IsHeldOption-exact a earlier none h = tt
IsHeldOption-exact a earlier (some p) h = h.exact

module _ {S N : Type 0} (s : Server S N) (laws : ServerLaws s) (key : String) (ttl : ℤ) (n : ℕ)
    (positive : 0 < n) (seconds : ttl_seconds ttl ≡ pos n) (fits : IsExact (pos n)) where
  start-IsBounded : {a : System S} → IsStart s key ttl a → IsBounded s key ttl a
  start-IsBounded {a} h = record {
    cached = none;
    represents = h.vacant;
    cached_held = tt;
    loads_held = rw h.no_load tt;
    row_exact = h.exact;
  }

  -- A step, and what it makes of the hash.
  pub Step-IsBounded :
      {a b : System S} (st : Step s key ttl a b) (h : IsBounded s key ttl a)
      → (h' : IsBounded s key ttl b) × (h'.cached ≡ cached_after s key ttl st h.cached)
  Step-IsBounded {a} (commit row newer exact e) h = rw e (
    record {
      cached = h.cached;
      represents = h.represents;
      cached_held = commit-IsHeldOption a.row row a.earlier h.cached newer h.cached_held;
      loads_held = commit-All-IsHeld a.row row a.earlier a.loads newer h.loads_held;
      row_exact = exact;
    },
    refl,
  )
  Step-IsBounded {a} (load e) h = rw e (
    record {
      cached = h.cached;
      represents = h.represents;
      cached_held = h.cached_held;
      loads_held =
          (record { held = inl refl; bounded = omega arith; exact = h.row_exact }, h.loads_held);
      row_exact = h.row_exact;
    },
    refl,
  )
  Step-IsBounded {a} (write before after p split e) h =
      let (mine, rest) =
        All-without (IsHeld a.row a.earlier) before after p (rw (← split) h.loads_held) in
      rw e (
        record {
          cached = keep_newest h.cached p;
          represents =
              (lua_versioned_set_refines s laws key p mine.exact ttl n positive seconds fits
                h.cached a.server h.represents
                (IsHeldOption-exact a.row a.earlier h.cached h.cached_held)).1;
          cached_held = keep_newest-IsHeldOption a.row a.earlier h.cached p h.cached_held mine;
          loads_held = rest;
          row_exact = h.row_exact;
        },
        refl,
      )
  Step-IsBounded {a} (drop before after p split e) h = rw e (
    record {
      cached = h.cached;
      represents = h.represents;
      cached_held = h.cached_held;
      loads_held =
          (All-without (IsHeld a.row a.earlier) before after p (rw (← split) h.loads_held)).1;
      row_exact = h.row_exact;
    },
    refl,
  )
  Step-IsBounded (invalidate m server one gone e) h = rw e (
    record {
      cached = none;
      represents = gone;
      cached_held = tt;
      loads_held = h.loads_held;
      row_exact = h.row_exact;
    },
    refl,
  )
  Step-IsBounded (vanish server gone e) h = rw e (
    record {
      cached = none;
      represents = gone;
      cached_held = tt;
      loads_held = h.loads_held;
      row_exact = h.row_exact;
    },
    refl,
  )

  pub Reach-IsBounded : {a : System S} → Reach s key ttl a → IsBounded s key ttl a
  Reach-IsBounded (start h) = start-IsBounded h
  Reach-IsBounded (next r st) = (Step-IsBounded st (Reach-IsBounded r)).0
