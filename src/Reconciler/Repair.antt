-- ===== src/Reconciler/Repair.antt =====
-- What a pass of the reconciler is to leave in Redis, where Redis and the database answer.
pub mod Pass
use text.Mathlib.Text.{◌==◌ as str_eq}
use text.Mathlib.TextEquality.{eq_iff}
use investor_cache.Base.{
  String, Bool, true, false, List, [], ◌∷◌, Option, none, some, ℕ, ◌+◌, ℤ, ltb_ℤ, ◌≡◌, ◌≢◌, refl,
  sym, ap, ◌∙◌, subst, arith, inl, inr, Bool-cases, if◌then◌else◌, ◌||◌,
}
use investor_cache.Go.{Result, ok, err, World, call, sentinel, redis_nil}
use investor_cache.Go.Strings.{trim_prefix}
use investor_cache.Journal.{Entry, cache_get, repo_get}
use investor_cache.Domain.{InvestorProfile, ProfileRepository}
use investor_cache.Cache.Redis.{Server, Client}
use investor_cache.Cache.Redis.Laws.{ServerLaws, ClientLaws}
use investor_cache.Cache.Store.{get, redis_store}
use investor_cache.Cache.Store.Script.{Represents, content}
use investor_cache.Cache.Store.RoundTrip.{answer, IsInt64Profile, get_lem}
use investor_cache.Reconciler.{
  Reconciler, new_reconciler, compare_versions, check_current, check_cached, reconcile_key,
  after_key, reconcile_keys,
}

-- The specification of a key's check: an entry that is older than the row goes.
abbrev pub keep_current : InvestorProfile → Option InvestorProfile → Option InvestorProfile
keep_current row none = none
keep_current row (some p) = if ltb_ℤ p.cache_version row.cache_version then none else some p

-- The entry of one key behind its check.
abbrev pub checked :
    (String → InvestorProfile)
    → String
    → (String → Option InvestorProfile)
    → String
    → Option InvestorProfile
checked rows k cached i = if str_eq k i then keep_current (rows k) (cached i) else cached i

-- Of a pass: it goes over the keys, and leaves the others.
abbrev pub swept :
    (String → InvestorProfile)
    → List String
    → (String → Option InvestorProfile)
    → String
    → Option InvestorProfile
swept rows [] cached j = cached j
swept rows (k ∷ ks) cached j = swept rows ks (checked rows k cached) j

-- Redis and the database answer, and nobody else writes; `rows` are the database's.
pub record IsAnswering {W S N : Type 0} (s : Server S N) (c : Client W S)
    (repo : ProfileRepository W) (view : W → S) (rows : String → InvestorProfile) : Type 0 where
  pub replies : (k : String) (w : W) → (m : List (String × String)) × ((c.hgetall k w).0 ≡ ok m)
  pub reads : (k j f : String) (w : W) → s.hget j f (view (c.hgetall k w).1) ≡ s.hget j f (view w)
  pub answers :
      (k : String) (w : W) → (repo.get_by_id (trim_prefix k "investor:") w).0 ≡ ok (rows k)
  pub selects :
      (id j f : String) (w : W) → s.hget j f (view (repo.get_by_id id w).1) ≡ s.hget j f (view w)
  -- DEL removes every field of its key and of no other key.
  pub deletes : (k f : String) (w : W) → s.hget k f (view (c.del k w).1) ≡ none
  pub deletes_ne :
      (k j f : String) (w : W) → k ≢ j → s.hget j f (view (c.del k w).1) ≡ s.hget j f (view w)

pub keep_current-range :
    (row : InvestorProfile) (o : Option InvestorProfile)
    → IsInt64Profile o
    → IsInt64Profile (keep_current row o)
keep_current-range row none range = tt
keep_current-range row (some p) range =
    elim (Bool-cases (ltb_ℤ p.cache_version row.cache_version)) [
      | inl stale ↦ rw stale tt
      | inr current ↦ rw current range
    ]

keep_current_twice :
    (row : InvestorProfile) (o : Option InvestorProfile)
    → keep_current row (keep_current row o) ≡ keep_current row o
keep_current_twice row none = refl
keep_current_twice row (some p) = elim (Bool-cases (ltb_ℤ p.cache_version row.cache_version)) [
  | inl stale ↦ rw stale refl
  | inr current ↦ rw (current, current) refl
]

abbrev pub is_listed : String → List String → Bool
is_listed j [] = false
is_listed j (k ∷ ks) = str_eq k j || is_listed j ks

-- The entries behind a pass: those of its keys are checked, whatever the order.
abbrev pub passed :
    (String → InvestorProfile)
    → List String
    → (String → Option InvestorProfile)
    → String
    → Option InvestorProfile
passed rows keys cached j = if is_listed j keys then keep_current (rows j) (cached j) else cached j

pub same_key : (k j : String) → str_eq k j ≡ true → k ≡ j
same_key k j same = ground (arith, eq_iff k j)

-- A pass in the closed form.
pub swept_lem :
    (rows : String → InvestorProfile) (keys : List String)
    (cached : String → Option InvestorProfile) (j : String)
    → swept rows keys cached j ≡ passed rows keys cached j
swept_lem rows [] cached j = refl
swept_lem rows (k ∷ ks) cached j =
    swept_lem rows ks (checked rows k cached) j ∙ elim (Bool-cases (str_eq k j)) [
      | inl same ↦ elim (Bool-cases (is_listed j ks)) [
        | inl again ↦
            let row = ap rows (same_key k j same) in
            rw (again, same, row) (keep_current_twice (rows j) (cached j))
        | inr once ↦ let row = ap rows (same_key k j same) in rw (once, same, row) refl
      ]
      | inr other ↦ rw other refl
    ]
