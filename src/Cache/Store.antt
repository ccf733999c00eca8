-- ===== src/Cache/Store.antt =====
-- internal/cache/redis_store.go: `RedisStore`, over a Redis server and its client.
pub mod Script
pub mod Order
pub mod RoundTrip
pub mod Filled
use investor_cache.Base.{
  String, Bool, true, false, List, [], ◌∷◌, Option, none, some, ℕ, ℤ, pos, quot_ℤ, ◌==◌,
  if◌then◌else◌, ◌≡◌,
}
use investor_cache.Go.{Result, ok, err, message, wrap, sentinel, redis_nil}
use investor_cache.Go.Strconv.{format_int, format_bool, parse_int, parse_bool}
use investor_cache.Domain.{InvestorProfile, CacheStore}
use investor_cache.Cache.Redis.{Server, Client}
use investor_cache.Cache.Redis.Laws.{entry_lookup}

-- The result of a call, with the error of a failed one wrapped.
abbrev pub map_result : {A B : Type 0} → String → (A → B) → Result A → Result B
map_result text f (ok a) = ok (f a)
map_result text f (err e) = err (wrap text e)

infixl 5 ◌>>=◌
abbrev ◌>>=◌ : {A B : Type 0} → Result A → (A → Result B) → Result B
ok a >>= f = f a
err e >>= f = err e

-- `m[field]`, which is "" for a field that is absent.
abbrev pub value : List (String × String) → String → String
value m field = elim (entry_lookup field m) [ none ↦ "" | some v ↦ v ]

unfoldable pub map_to_profile : List (String × String) → Result InvestorProfile
map_to_profile m = do
  version ← map_result "invalid cache_version" (λ v. v) (parse_int (value m "cache_version"))
  qualified ←
      map_result "invalid qualified_investor" (λ b. b) (parse_bool (value m "qualified_investor"))
  ok (record {
    investor_id = value m "investor_id";
    full_name = value m "full_name";
    email = value m "email";
    risk_profile = value m "risk_profile";
    kyc_status = value m "kyc_status";
    portfolio_value = value m "portfolio_value";
    preferences = value m "preferences";
    qualified_investor = qualified;
    investment_horizon = value m "investment_horizon";
    updated_at = value m "updated_at";
    cache_version = version;
  })

-- The arguments behind the first two of the script.
unfoldable pub profile_args : InvestorProfile → List String
profile_args p =
    "investor_id"
    ∷ p.investor_id
    ∷ "full_name"
    ∷ p.full_name
    ∷ "email"
    ∷ p.email
    ∷ "risk_profile"
    ∷ p.risk_profile
    ∷ "kyc_status"
    ∷ p.kyc_status
    ∷ "portfolio_value"
    ∷ p.portfolio_value
    ∷ "preferences"
    ∷ p.preferences
    ∷ "qualified_investor"
    ∷ format_bool p.qualified_investor
    ∷ "investment_horizon"
    ∷ p.investment_horizon
    ∷ "updated_at"
    ∷ p.updated_at
    ∷ "cache_version"
    ∷ format_int p.cache_version
    ∷ []

-- `int(ttl.Seconds())` of a duration in nanoseconds. (The source goes through a double, which is
-- exact for a duration below 2^23 seconds.)
abbrev pub ttl_seconds : ℤ → ℤ
ttl_seconds ttl = quot_ℤ ttl 1_000_000_000

unfoldable pub script_args : InvestorProfile → ℤ → List String
unfolding profile_args
script_args p ttl = format_int p.cache_version ∷ format_int (ttl_seconds ttl) ∷ profile_args p

-- What `Get` makes of the reply to HGETALL.
abbrev pub decode_reply : Result (List (String × String)) → Result (Option InvestorProfile)
decode_reply (err e) = err (wrap "redis HGETALL failed" e)
decode_reply (ok []) = err (sentinel redis_nil)
decode_reply (ok (e ∷ m)) = map_to_profile (e ∷ m) >>= λ p. ok (some p)

-- `result == 1`
abbrev pub is_one : ℤ → Bool
is_one (pos n) = n == 1
is_one _ = false

module _ {S N : Type 0} (s : Server S N) where
  -- `current and tonumber(current) >= tonumber(ARGV[1])`; `none` is the error that Lua raises where
  -- it compares with nil.
  unfoldable pub is_current : Option String → String → Option Bool
  is_current none arg = some false
  is_current (some current) arg = elim (s.tonumber current) [
    | none ↦ none
    | some a ↦ elim (s.tonumber arg) [ none ↦ none | some b ↦ some (s.num_ge a b) ]
  ]

  -- What the script does behind its test: HSET, EXPIRE and `return 1`. EXPIRE refuses what is no
  -- number, after the write.
  unfoldable pub write_hash : String → Option N → List String → S → Result ℤ × S
  write_hash key none fields st = (err (message "value is not an integer"), s.hset key fields st)
  write_hash key (some seconds) fields st =
      (ok (pos 1), s.expire key seconds (s.hset key fields st))

  abbrev choose_write : String → Option Bool → Option N → List String → S → Result ℤ × S
  choose_write key none seconds fields st = (err (message "attempt to compare nil"), st)
  choose_write key (some true) seconds fields st = (ok (pos 0), st)
  choose_write key (some false) seconds fields st = write_hash key seconds fields st

  -- `luaVersionedSet`
  unfoldable pub lua_versioned_set : String → List String → S → Result ℤ × S
  lua_versioned_set key (version ∷ ttl ∷ fields) st =
      choose_write key (is_current (s.hget key "cache_version" st) version) (s.tonumber ttl) fields
        st
  lua_versioned_set key _ st = (err (message "wrong number of arguments"), st)

  module _ {W : Type 0} (c : Client W S) where
    unfoldable pub get : String → W → Result (Option InvestorProfile) × W
    get key w = (decode_reply (c.hgetall key w).0, (c.hgetall key w).1)

    unfoldable pub set_versioned : String → InvestorProfile → ℤ → W → Result Bool × W
    set_versioned key p ttl w =
        let (r, w') = c.run_script lua_versioned_set key (script_args p ttl) w in
        (map_result "redis versioned set failed" is_one r, w')

    -- `RedisStore` as a `domain.CacheStore`.
    abbrev pub redis_store : CacheStore W
    redis_store = record {
      get = get;
      set_versioned = set_versioned;
      delete = c.del;
      delete_batch = c.pipeline_del;
    }
