-- ===== src/Cache/Store/RoundTrip.antt =====
-- `Get` after a write returns the profile that was written, and `Get` never returns nil without an
-- error.
use investor_cache.Base.{
  String, Bool, List, [], ◌∷◌, Option, none, some, ℕ, ◌<◌, ℤ, pos, refl, ◌∙◌, ap, ◌≡◌, ◌≢◌, IsInt64,
  arith,
}
use investor_cache.Go.{Result, ok, err, sentinel, redis_nil}
use text.Mathlib.TextPositions.{eq_refl}
use investor_cache.Go.Strconv.{parse_int, parse_bool, parse_bool-format_bool}
use investor_cache.Go.Strconv.RoundTrip.{parse_int-format_int}
use investor_cache.Domain.{InvestorProfile}
use investor_cache.Cache.Redis.{Server, Client}
use investor_cache.Cache.Redis.Laws.{ServerLaws, ClientLaws, IsExact, entry_lookup}
use investor_cache.Cache.Store.{
  get, set_versioned, decode_reply, map_to_profile, profile_args, ttl_seconds, lua_versioned_set,
  map_result, is_one, value,
}
use investor_cache.Cache.Store.Script.{
  Represents, IsExactProfile, keep_newest, keep_newest-IsExactProfile, replaces, content,
  lua_versioned_set_refines,
}

-- A reply with the fields of a profile reads as that profile.
map_to_profile_lem :
    (p : InvestorProfile) (m : List (String × String))
    → IsInt64 p.cache_version
    → ((f : String) → entry_lookup f m ≡ content (some p) f)
    → map_to_profile m ≡ ok p
unfolding map_to_profile profile_args
map_to_profile_lem p m range h =
    let version : parse_int (value m "cache_version") ≡ ok p.cache_version =
      rw (value, h "cache_version") (parse_int-format_int p.cache_version range) in
    let qualified : parse_bool (value m "qualified_investor") ≡ ok p.qualified_investor =
      rw (value, h "qualified_investor") (parse_bool-format_bool p.qualified_investor) in
    ground (
      arith,
      version,
      qualified,
      h "investor_id",
      h "full_name",
      h "email",
      h "risk_profile",
      h "kyc_status",
      h "portfolio_value",
      h "preferences",
      h "investment_horizon",
      h "updated_at",
    )

-- What `Get` answers where the hash is that of `o`.
abbrev pub answer : Option InvestorProfile → Result (Option InvestorProfile)
answer none = err (sentinel redis_nil)
answer (some p) = ok (some p)

abbrev pub IsInt64Profile : Option InvestorProfile → Type 0
IsInt64Profile none = Unit
IsInt64Profile (some p) = IsInt64 p.cache_version

decode_reply_lem :
    (o : Option InvestorProfile) (m : List (String × String))
    → IsInt64Profile o
    → ((f : String) → entry_lookup f m ≡ content o f)
    → decode_reply (ok m) ≡ answer o
unfolding profile_args
decode_reply_lem none [] range h = refl
decode_reply_lem none ((k, v) ∷ m) range h = ground (arith, h k, eq_refl k)
decode_reply_lem (some p) [] range h = ground (arith, h "investor_id")
decode_reply_lem (some p) (e ∷ m) range h = ground (arith, map_to_profile_lem p (e ∷ m) range h)

IsInt64Profile-IsExactProfile : (o : Option InvestorProfile) → IsExactProfile o → IsInt64Profile o
IsInt64Profile-IsExactProfile none e = tt
IsInt64Profile-IsExactProfile (some p) e = omega arith

map_result-eq-ok :
    {A B : Type 0} (text : String) (f : A → B) (r : Result A) {b : B}
    → map_result text f r ≡ ok b
    → (a : A) × (r ≡ ok a) × (f a ≡ b)
map_result-eq-ok text f (ok a) e = (a, refl, cc)
map_result-eq-ok text f (err x) e = cc

decode_reply-ne-nil : (r : Result (List (String × String))) → decode_reply r ≢ ok none
unfolding map_to_profile
decode_reply-ne-nil (err e) = cc
decode_reply-ne-nil (ok []) = cc
decode_reply-ne-nil (ok (e ∷ m)) = ground arith

module _ {W S N : Type 0} (s : Server S N) (c : Client W S) where
  -- `Get` never returns a nil profile without an error, whatever Redis answers.
  pub get-ne-nil : (key : String) (w : W) → (get s c key w).0 ≢ ok none
  unfolding get
  get-ne-nil key w = decode_reply-ne-nil (c.hgetall key w).0

  module _ (laws : ServerLaws s) (client : ClientLaws s c) (key : String) where
    -- Where the hash under the key is that of `o` and HGETALL answers, `Get` returns the profile
    -- of `o`, or `redis.Nil` where there is none.
    pub get_lem :
        (o : Option InvestorProfile) (w : W) {m : List (String × String)}
        → Represents s key o (client.view w)
        → IsInt64Profile o
        → (c.hgetall key w).0 ≡ ok m
        → (get s c key w).0 ≡ answer o
    unfolding get
    get_lem o w {m} rep range reply =
        rw reply (decode_reply_lem o m range (λ f. client.hgetall_lem key w reply f ∙ rep f))

    module _ (p : InvestorProfile) (exact : IsExact p.cache_version) (ttl : ℤ) (n : ℕ)
        (positive : 0 < n) (seconds : ttl_seconds ttl ≡ pos n) (fits : IsExact (pos n)) where
      -- For a time to live of at least a second, a version that a double represents exactly and a
      -- hash that is that of `o`: if `SetVersioned` returns without an error, it returns true
      -- exactly where the profile is newer than `o`, and a `Get` that follows, if HGETALL answers
      -- it, returns the newer of the two.
      pub get-set_versioned :
          (o : Option InvestorProfile) (w : W) {b : Bool} {m : List (String × String)}
          → Represents s key o (client.view w)
          → IsExactProfile o
          → (set_versioned s c key p ttl w).0 ≡ ok b
          → (c.hgetall key (set_versioned s c key p ttl w).1).0 ≡ ok m
          → (b ≡ replaces p o)
            × ((get s c key (set_versioned s c key p ttl w).1).0 ≡ answer (keep_newest o p))
      unfolding set_versioned
      get-set_versioned o w rep e done reply =
          let (r, ran, one) = map_result-eq-ok _ is_one _ done in
          let (same, moved) = client.run_script_lem (lua_versioned_set s) key _ w ran in
          let (returned, held) =
            lua_versioned_set_refines s laws key p exact ttl n positive seconds fits o
              (client.view w) rep e in
          (
            ground arith,
            get_lem (keep_newest o p) _ (λ f. ap (s.hget key f) moved ∙ held f)
                (IsInt64Profile-IsExactProfile (keep_newest o p)
                  (keep_newest-IsExactProfile o p e exact))
                reply,
          )
