-- ===== src/Cache/Store/Filled.antt =====
-- A Redis in memory that holds one profile under one key.
use text.Mathlib.Text.{◌==◌ as str_eq}
use text.Mathlib.TextEquality.{eq_iff}
use investor_cache.Base.{
  String, [], Option, none, some, ◌≡◌, ◌∙◌, subst, arith, inl, inr, Bool-cases, if◌then◌else◌,
}
use investor_cache.Domain.{InvestorProfile}
use investor_cache.Cache.Redis.Laws.{flat_lookup}
use investor_cache.Cache.Redis.Memory.{memory, find, put, find-put, find-put_ne}
use investor_cache.Cache.Store.{profile_args}
use investor_cache.Cache.Store.Script.{Represents, content, or_else-none}

abbrev pub filled : String → InvestorProfile → String → Option InvestorProfile
filled key p j = if str_eq key j then some p else none

pub put-Represents :
    (key : String) (p : InvestorProfile) (j : String)
    → Represents memory j (filled key p j) (put key (profile_args p) [])
put-Represents key p j f = elim (Bool-cases (str_eq key j)) [
  | inl same ↦ rw same (
      subst (λ i. find i f (put key (profile_args p) []) ≡ content (some p) f)
        ((eq_iff key j).0 same)
        (find-put key f (profile_args p) [] ∙ or_else-none (flat_lookup f (profile_args p))))
  | inr other ↦ rw other (find-put_ne key j f (profile_args p) [] (ground (arith, eq_iff key j)))
]
