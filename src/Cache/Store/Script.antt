-- ===== src/Cache/Store/Script.antt =====
-- The Lua script `luaVersionedSet` as a register that keeps the newest profile.

use investor_cache.Base.{
  String, Bool, true, false, Option, none, some, ℕ, ◌<◌, ℤ, pos, ltb_ℤ, refl, if◌then◌else◌, ◌≡◌,
  ◌≢◌, inl, inr, Bool-cases, arith,
}
use investor_cache.Go.{ok}
use investor_cache.Go.Strconv.{format_int}
use investor_cache.Domain.{InvestorProfile}
use investor_cache.Cache.Redis.{Server}
use investor_cache.Cache.Redis.Laws.{ServerLaws, IsExact, flat_lookup, or_else}
use investor_cache.Cache.Store.{
  lua_versioned_set, script_args, profile_args, is_current, write_hash, ttl_seconds,
}

-- What the register holds: nothing, or a profile.
abbrev pub content : Option InvestorProfile → String → Option String
content none f = none
content (some p) f = flat_lookup f (profile_args p)

-- The specification of the script: a profile replaces nothing, or a strictly older one.
abbrev pub replaces : InvestorProfile → Option InvestorProfile → Bool
replaces p none = true
replaces p (some old) = ltb_ℤ old.cache_version p.cache_version

abbrev pub keep_newest : Option InvestorProfile → InvestorProfile → Option InvestorProfile
keep_newest o p = if replaces p o then some p else o

abbrev pub IsExactProfile : Option InvestorProfile → Type 0
IsExactProfile none = Unit
IsExactProfile (some p) = IsExact p.cache_version

pub keep_newest-IsExactProfile :
    (o : Option InvestorProfile) (p : InvestorProfile)
    → IsExactProfile o
    → IsExact p.cache_version
    → IsExactProfile (keep_newest o p)
keep_newest-IsExactProfile none p e h = h
keep_newest-IsExactProfile (some q) p e h = ground arith

flat_lookup-version :
    (p : InvestorProfile)
    → flat_lookup "cache_version" (profile_args p) ≡ some (format_int p.cache_version)
unfolding profile_args
flat_lookup-version p = refl

pub or_else-none : (o : Option String) → or_else o none ≡ o
or_else-none none = refl
or_else-none (some v) = refl

-- Two profiles have the same fields.
same_fields :
    (p q : InvestorProfile) (f : String)
    → or_else (flat_lookup f (profile_args p)) (flat_lookup f (profile_args q))
      ≡ flat_lookup f (profile_args p)
unfolding profile_args
same_fields p q f = ground arith

-- The hash under `key` is that of `o`.
abbrev pub Represents : {S N : Type 0} → Server S N → String → Option InvestorProfile → S → Type 0
Represents s key o st = (f : String) → s.hget key f st ≡ content o f

module _ {S N : Type 0} (s : Server S N) (laws : ServerLaws s) (key : String) where
  module _ (p : InvestorProfile) (exact : IsExact p.cache_version) where
    is_current_lem :
        (o : Option InvestorProfile) (st : S)
        → Represents s key o st
        → IsExactProfile o
        → is_current s (s.hget key "cache_version" st) (format_int p.cache_version)
          ≡ some (if replaces p o then false else true)
    unfolding is_current
    is_current_lem none st rep e = rw (rep "cache_version")
    is_current_lem (some q) st rep e =
        rw (rep "cache_version", flat_lookup-version q)
          (ground (
            arith,
            laws.tonumber_exact q.cache_version e,
            laws.tonumber_exact p.cache_version exact,
            laws.ge_exact q.cache_version p.cache_version e exact,
          ))

    module _ (ttl : ℤ) (n : ℕ) (positive : 0 < n) (seconds : ttl_seconds ttl ≡ pos n)
        (fits : IsExact (pos n)) where
      write_hash-Represents :
          (o : Option InvestorProfile) (st : S)
          → Represents s key o st
          → Represents s key
              (some p)
              (s.expire key (laws.number (pos n)) (s.hset key (profile_args p) st))
      write_hash-Represents none st rep f =
          rw (laws.expire_positive key key f n _ positive fits, laws.hset_self key f _ st, rep f)
            (or_else-none _)
      write_hash-Represents (some q) st rep f =
          rw (laws.expire_positive key key f n _ positive fits, laws.hset_self key f _ st, rep f)
            (same_fields p q f)

      -- One run: the answer says whether the profile was written, and the hash holds the newest.
      pub lua_versioned_set_refines :
          (o : Option InvestorProfile) (st : S)
          → Represents s key o st
          → IsExactProfile o
          → ((lua_versioned_set s key (script_args p ttl) st).0
              ≡ ok (if replaces p o then pos 1 else pos 0))
            × Represents s key (keep_newest o p) (lua_versioned_set s key (script_args p ttl) st).1
      unfolding lua_versioned_set script_args write_hash
      lua_versioned_set_refines o st rep e = elim (Bool-cases (replaces p o)) [
        | inl newer ↦
            rw (is_current_lem o st rep e, seconds, laws.tonumber_exact (pos n) fits, newer)
              (refl, write_hash-Represents o st rep)
        | inr older ↦
            rw (is_current_lem o st rep e, seconds, laws.tonumber_exact (pos n) fits, older)
              (refl, rep)
      ]

      -- The other keys of the database stay as they are.
      pub lua_versioned_set_other :
          (o : Option InvestorProfile) (st : S) (key' f : String)
          → Represents s key o st
          → IsExactProfile o
          → key ≢ key'
          → s.hget key' f (lua_versioned_set s key (script_args p ttl) st).1 ≡ s.hget key' f st
      unfolding lua_versioned_set script_args write_hash
      lua_versioned_set_other o st key' f rep e ne = elim (Bool-cases (replaces p o)) [
        | inl newer ↦
            rw
              (
                is_current_lem o st rep e,
                seconds,
                laws.tonumber_exact (pos n) fits,
                newer,
                laws.expire_positive key key' f n (s.hset key (profile_args p) st) positive fits,
              )
              (laws.hset_ne key key' f _ st ne)
        | inr older ↦
            rw (is_current_lem o st rep e, seconds, laws.tonumber_exact (pos n) fits, older)
      ]
