-- ===== src/Cache/Manager/ReadThrough.antt =====
-- `GetProfile` over a store in Redis, where Redis and the database answer, the breaker is closed and
-- the caller is alone: against the cache-aside that it implements.
use investor_cache.Base.{
  String, Bool, false, List, Option, none, some, ℕ, ◌<◌, ℤ, pos, ◌≡◌, refl, ap, ◌∙◌, inl, inr,
  Bool-cases,
}
use investor_cache.Go.{Result, ok, errors_is, World}
use investor_cache.Journal.{Proc, Entry}
use investor_cache.Domain.{InvestorProfile, ProfileRepository}
use investor_cache.Cache.Outcome.{CacheResult, hit, miss, cache_key}
use investor_cache.Cache.Redis.{Server, Client, Script}
use investor_cache.Cache.Redis.Laws.{ServerLaws, ClientLaws, IsExact}
use investor_cache.Cache.Store.{
  get, set_versioned, redis_store, lua_versioned_set, script_args, ttl_seconds,
}
use investor_cache.Cache.Store.Script.{Represents, lua_versioned_set_refines}
use investor_cache.Cache.Store.RoundTrip.{answer, IsInt64Profile, get_lem}
use investor_cache.Cache.Manager.{
  CacheManager, new_cache_manager, cache_read, store_loaded, load_and_cache, finish, load_miss,
  respond, guarded_read, get_profile,
}

-- Cache-aside: what a read answers, with its label, and what it leaves in the cache.
abbrev pub aside_answer : Option InvestorProfile → InvestorProfile → InvestorProfile × CacheResult
aside_answer none row = (row, miss)
aside_answer (some p) row = (p, hit)

abbrev pub aside_cache : Option InvestorProfile → InvestorProfile → Option InvestorProfile
aside_cache none row = some row
aside_cache (some p) row = some p

-- Redis and the database answer, and nobody else writes; `rows` are the database's.
pub record IsReadable {W S N : Type 0} (s : Server S N) (c : Client W S)
    (repo : ProfileRepository W) (view : W → S) (rows : String → InvestorProfile) : Type 0 where
  pub replies : (k : String) (w : W) → (m : List (String × String)) × ((c.hgetall k w).0 ≡ ok m)
  pub reads : (k j f : String) (w : W) → s.hget j f (view (c.hgetall k w).1) ≡ s.hget j f (view w)
  pub runs :
      (script : Script S) (k : String) (args : List String) (w : W)
      → (c.run_script script k args w).0 ≡ (script k args (view w)).0
  pub answers : (id : String) (w : W) → (repo.get_by_id id w).0 ≡ ok (rows id)
  pub selects :
      (id j f : String) (w : W) → s.hget j f (view (repo.get_by_id id w).1) ≡ s.hget j f (view w)

-- A closed breaker runs the request, and a caller alone runs its own function.
pub record IsQuiet {W : Type 0}
    (sf_do : String → Proc W (Result InvestorProfile) → Proc W (Result InvestorProfile × Bool))
    (execute : Proc W (Result (Option InvestorProfile)) → Proc W (Result (Option InvestorProfile)))
    : Type 0 where
  pub closed :
      (f : Proc W (Result (Option InvestorProfile))) (w : World Entry W) → execute f w ≡ f w
  pub alone :
      (k : String) (f : Proc W (Result InvestorProfile)) (w : World Entry W)
      → sf_do k f w ≡ (((f w).0, false), (f w).1)

module _ {W S N : Type 0} (s : Server S N) (c : Client W S) (laws : ServerLaws s)
    (client : ClientLaws s c) (repo : ProfileRepository W) (rows : String → InvestorProfile)
    (h : IsReadable s c repo client.view rows)
    (sf_do : String → Proc W (Result InvestorProfile) → Proc W (Result InvestorProfile × Bool))
    (execute : Proc W (Result (Option InvestorProfile)) → Proc W (Result (Option InvestorProfile)))
    (quiet : IsQuiet sf_do execute) (getenv : String → String) (ttl : ℤ) where
  abbrev pub manager : CacheManager W
  manager = new_cache_manager getenv (redis_store s c) repo sf_do execute ttl

  guarded_read_lem :
      (key : String) (w : World Entry W) → guarded_read manager key w ≡ cache_read manager key w
  unfolding guarded_read cache_read
  guarded_read_lem key w = elim (Bool-cases manager.cb_disabled) [
    | inl disabled ↦ rw disabled refl
    | inr guarded ↦ rw guarded (quiet.closed (cache_read manager key) w)
  ]

  module _ (id : String) (exact : IsExact (rows id).cache_version) (n : ℕ) (positive : 0 < n)
      (whole : ttl_seconds ttl ≡ pos n) (fits : IsExact (pos n)) where
    -- An answer, and what the cache holds behind it.
    pub record IsReadThrough (o : Option InvestorProfile)
        (out : (Result InvestorProfile × CacheResult) × World Entry W) : Type 0 where
      pub result : out.0 ≡ (ok (aside_answer o (rows id)).0, (aside_answer o (rows id)).1)
      pub held : Represents s (cache_key id) (aside_cache o (rows id)) (client.view out.1.outside)

    -- The write of the row into an empty hash.
    set_versioned-Represents :
        (w : W)
        → Represents s (cache_key id) none (client.view w)
        → Represents s
            (cache_key id)
            (some (rows id))
            (client.view (set_versioned s c (cache_key id) (rows id) ttl w).1)
    unfolding set_versioned
    set_versioned-Represents w rep f =
        let (returned, held) =
          lua_versioned_set_refines s laws (cache_key id) (rows id) exact ttl n positive whole fits
            none (client.view w) rep tt in
        let (_, moved) =
          client.run_script_lem (lua_versioned_set s) (cache_key id) (script_args (rows id) ttl) w (
            h.runs (lua_versioned_set s) (cache_key id) (script_args (rows id) ttl) w ∙ returned) in
        ap (s.hget (cache_key id) f) moved ∙ held f

    load_miss-IsReadThrough :
        (w : World Entry W)
        → Represents s (cache_key id) none (client.view w.outside)
        → IsReadThrough none (load_miss manager id (cache_key id) w)
    unfolding load_miss load_and_cache store_loaded finish
    load_miss-IsReadThrough w rep =
        rw (quiet.alone, h.answers id w.outside)
          (record {
            result = refl;
            held =
                set_versioned-Represents (repo.get_by_id id w.outside).1
                  (λ f. h.selects id (cache_key id) f w.outside ∙ rep f);
          })

    respond-IsReadThrough :
        (o : Option InvestorProfile) (w : World Entry W)
        → Represents s (cache_key id) o (client.view w.outside)
        → IsReadThrough o (respond manager id (cache_key id) (answer o) w)
    unfolding respond errors_is
    respond-IsReadThrough none w rep = load_miss-IsReadThrough w rep
    respond-IsReadThrough (some p) w rep = record { result = refl; held = rep }

    -- For a time to live of at least a second and a row whose version a double represents exactly,
    -- where Redis and the database answer, nobody else writes, the breaker is closed or disabled and
    -- the caller is alone: `GetProfile` answers as cache-aside does, a cached profile as a hit and the
    -- database's row as a miss, and leaves in the cache what cache-aside leaves.
    pub get_profile-IsReadThrough :
        (o : Option InvestorProfile) (w : World Entry W)
        → Represents s (cache_key id) o (client.view w.outside)
        → IsInt64Profile o
        → IsReadThrough o (get_profile manager id w)
    unfolding get_profile cache_read get
    get_profile-IsReadThrough o w rep range =
        let (m, reply) = h.replies (cache_key id) w.outside in
        let got = get_lem s c laws client (cache_key id) o w.outside rep range reply in
        rw (guarded_read_lem (cache_key id) w, got)
          (respond-IsReadThrough o _
            (λ f. h.reads (cache_key id) (cache_key id) f w.outside ∙ rep f))
