-- ===== src/Cache/Store/Order.antt =====
-- Versioned writes in any order: late writes of older versions do not show.
use mathlib.Core.List.{Permᴰ}
use investor_cache.Base.{
  String, false, List, [], ◌∷◌, Option, none, some, ℕ, ◌<◌, ℤ, pos, ltb_ℤ, ◌≤ℤ◌, refl, All, ◌≡◌,
  arith, ◌∙◌, ap, sym, eq_of_parts,
}
use investor_cache.Domain.{InvestorProfile}
use investor_cache.Cache.Redis.{Server}
use investor_cache.Cache.Redis.Laws.{ServerLaws, IsExact}
use investor_cache.Cache.Store.{lua_versioned_set, script_args, ttl_seconds}
use investor_cache.Cache.Store.Script.{
  Represents, IsExactProfile, keep_newest, keep_newest-IsExactProfile, lua_versioned_set_refines,
}

-- A sequence of runs of the script on one key, whatever each answers.
pub write_all : {S N : Type 0} → Server S N → String → ℤ → List InvestorProfile → S → S
write_all s key ttl [] st = st
write_all s key ttl (p ∷ ps) st =
    write_all s key ttl ps (lua_versioned_set s key (script_args p ttl) st).1

-- The same sequence on the register.
abbrev pub newest : Option InvestorProfile → List InvestorProfile → Option InvestorProfile
newest o [] = o
newest o (p ∷ ps) = newest (keep_newest o p) ps

abbrev pub AllExact : List InvestorProfile → Type 0
AllExact = All (λ p. IsExact p.cache_version)

-- Every profile is the one that the database held at its version.
abbrev pub IsHistory : (ℤ → InvestorProfile) → List InvestorProfile → Type 0
IsHistory row = All (λ p. p ≡ row p.cache_version)

abbrev IsHistoryOption : (ℤ → InvestorProfile) → Option InvestorProfile → Type 0
IsHistoryOption row none = Unit
IsHistoryOption row (some p) = p ≡ row p.cache_version

same_version :
    (row : ℤ → InvestorProfile) (p q : InvestorProfile)
    → p ≡ row p.cache_version
    → q ≡ row q.cache_version
    → ltb_ℤ p.cache_version q.cache_version ≡ false
    → ltb_ℤ q.cache_version p.cache_version ≡ false
    → p ≡ q
same_version row p q hp hq a b =
    let e : p.cache_version ≡ q.cache_version =
      eq_of_parts p.cache_version q.cache_version (ground arith) in
    hp ∙ ap row e ∙ sym hq

keep_newest_comm :
    (row : ℤ → InvestorProfile) (o : Option InvestorProfile) (p q : InvestorProfile)
    → p ≡ row p.cache_version
    → q ≡ row q.cache_version
    → keep_newest (keep_newest o p) q ≡ keep_newest (keep_newest o q) p
keep_newest_comm row none p q hp hq = ground (arith, same_version row p q hp hq)
keep_newest_comm row (some r) p q hp hq = ground (arith, same_version row p q hp hq)

Permᴰ-IsHistory :
    (row : ℤ → InvestorProfile) {ps qs : List InvestorProfile}
    → Permᴰ ps qs
    → IsHistory row ps
    → IsHistory row qs
Permᴰ-IsHistory row Permᴰ.nil h = h
Permᴰ-IsHistory row (Permᴰ.cons e r) h = (rw (← e) h.0, Permᴰ-IsHistory row r h.1)
Permᴰ-IsHistory row (Permᴰ.swap e e') h = (rw (← e') h.1.0, (rw (← e) h.0, h.1.1))
Permᴰ-IsHistory row (Permᴰ.trans r r') h = Permᴰ-IsHistory row r' (Permᴰ-IsHistory row r h)

newest-perm :
    (row : ℤ → InvestorProfile) {ps qs : List InvestorProfile} (o : Option InvestorProfile)
    → Permᴰ ps qs
    → IsHistory row ps
    → newest o ps ≡ newest o qs
newest-perm row o Permᴰ.nil h = refl
newest-perm row o (Permᴰ.cons {b} e r) h = rw e (newest-perm row (keep_newest o b) r h.1)
newest-perm row o (Permᴰ.swap {a} {b} {l} e e') h =
    rw (← e, ← e', keep_newest_comm row o a b h.0 h.1.0)
newest-perm row o (Permᴰ.trans r r') h =
    newest-perm row o r h ∙ newest-perm row o r' (Permᴰ-IsHistory row r h)

-- The newest of a list is at least as new as each of its members and as what was there before.
abbrev pub IsAtLeast : Option InvestorProfile → ℤ → Type 0
IsAtLeast none v = ⊥
IsAtLeast (some p) v = v ≤ℤ p.cache_version

keep_newest-IsAtLeast :
    (o : Option InvestorProfile) (p : InvestorProfile) (v : ℤ)
    → IsAtLeast o v
    → IsAtLeast (keep_newest o p) v
keep_newest-IsAtLeast none p v h = absurd h
keep_newest-IsAtLeast (some q) p v h = ground arith

keep_newest-IsAtLeast_self :
    (o : Option InvestorProfile) (p : InvestorProfile) → IsAtLeast (keep_newest o p) p.cache_version
keep_newest-IsAtLeast_self none p = ground arith
keep_newest-IsAtLeast_self (some q) p = ground arith

newest-IsAtLeast_old :
    (o : Option InvestorProfile) (ps : List InvestorProfile) (v : ℤ)
    → IsAtLeast o v
    → IsAtLeast (newest o ps) v
newest-IsAtLeast_old o [] v h = h
newest-IsAtLeast_old o (p ∷ ps) v h =
    newest-IsAtLeast_old (keep_newest o p) ps v (keep_newest-IsAtLeast o p v h)

newest-IsAtLeast :
    (o : Option InvestorProfile) (ps : List InvestorProfile)
    → All (λ p. IsAtLeast (newest o ps) p.cache_version) ps
newest-IsAtLeast o [] = tt
newest-IsAtLeast o (p ∷ ps) = (
  newest-IsAtLeast_old (keep_newest o p) ps _ (keep_newest-IsAtLeast_self o p),
  newest-IsAtLeast (keep_newest o p) ps,
)

module _ {S N : Type 0} (s : Server S N) (laws : ServerLaws s) (key : String) (ttl : ℤ) (n : ℕ)
    (positive : 0 < n) (seconds : ttl_seconds ttl ≡ pos n) (fits : IsExact (pos n)) where
  write_all-Represents :
      (o : Option InvestorProfile) (ps : List InvestorProfile) (st : S)
      → AllExact ps
      → Represents s key o st
      → IsExactProfile o
      → Represents s key (newest o ps) (write_all s key ttl ps st)
  unfolding write_all
  write_all-Represents o [] st all rep e = rep
  write_all-Represents o (p ∷ ps) st all rep e =
      write_all-Represents (keep_newest o p) ps _ all.1
        (lua_versioned_set_refines s laws key p all.0 ttl n positive seconds fits o st rep e).1
        (keep_newest-IsExactProfile o p e all.0)

  -- For a time to live of at least a second and versions that a double represents exactly: after
  -- any sequence of versioned writes of profiles `ps` on a key whose hash is that of `o` (nothing,
  -- or a profile), the hash has the fields of one profile, the newest of `o` and `ps`: its version
  -- is at least that of every profile written.
  pub write_all-newest :
      (o : Option InvestorProfile) (ps : List InvestorProfile) (st : S)
      → AllExact ps
      → Represents s key o st
      → IsExactProfile o
      → Represents s key (newest o ps) (write_all s key ttl ps st)
        × All (λ p. IsAtLeast (newest o ps) p.cache_version) ps
  write_all-newest o ps st all rep e =
      (write_all-Represents o ps st all rep e, newest-IsAtLeast o ps)

  -- For a time to live of at least a second, versions that a double represents exactly, a hash that
  -- is that of `o`, and profiles of one version that are one profile (each is the row that the
  -- database held at its version): two sequences of writes that are permutations of one another
  -- leave the same hash, field by field.
  pub write_all_any_order :
      (row : ℤ → InvestorProfile) {ps qs : List InvestorProfile} (o : Option InvestorProfile)
      (st : S)
      → Permᴰ ps qs
      → IsHistory row ps
      → AllExact ps
      → AllExact qs
      → Represents s key o st
      → IsExactProfile o
      → (f : String)
      → s.hget key f (write_all s key ttl ps st) ≡ s.hget key f (write_all s key ttl qs st)
  write_all_any_order row {ps} {qs} o st perm history eps eqs rep e f =
      rw (write_all-Represents o ps st eps rep e f, write_all-Represents o qs st eqs rep e f)
        (rw (newest-perm row o perm history) refl)
