-- ===== src/Coherence/Race.antt =====
-- A load that a commit and its invalidation overtake.
use investor_cache.Base.{String, ℕ, ◌<◌, ℤ, pos, ◌<ℤ◌, [], ◌∷◌, none, some, ◌≡◌, refl}
use investor_cache.Domain.{InvestorProfile}
use investor_cache.Cache.Redis.{Server}
use investor_cache.Cache.Redis.Laws.{ServerLaws, IsExact}
use investor_cache.Cache.Store.{lua_versioned_set, script_args, ttl_seconds}
use investor_cache.Cache.Store.Script.{Represents, lua_versioned_set_refines}
use investor_cache.Coherence.{System, commit, load, write, invalidate, Reach, start, next}

module _ {S N : Type 0} (s : Server S N) (laws : ServerLaws s) (key : String) (ttl : ℤ) (n : ℕ)
    (positive : 0 < n) (seconds : ttl_seconds ttl ≡ pos n) (fits : IsExact (pos n)) (server : S)
    (vacant : Represents s key none server) (p q : InvestorProfile) where
  -- The states of the run: `p` is read, `q` is committed and invalidated, `p` is written.
  abbrev pub at_start : System S
  at_start = record { row = p; earlier = []; server = server; loads = []; pending = 0 }

  abbrev pub at_load : System S
  at_load = record at_start { loads = p ∷ [] }

  abbrev pub at_commit : System S
  at_commit = record at_load { row = q; earlier = p ∷ []; pending = 1 }

  abbrev pub at_invalidate : System S
  at_invalidate = record at_commit { pending = 0 }

  abbrev pub at_write : System S
  at_write = record at_invalidate {
    server = (lua_versioned_set s key (script_args p ttl) server).1;
    loads = [];
  }

  at_write-Reach :
      p.cache_version <ℤ q.cache_version
      → IsExact p.cache_version
      → IsExact q.cache_version
      → Reach s key ttl at_write
  at_write-Reach newer exact exact' =
      let a0 = start (record {
        exact = exact;
        first = refl;
        vacant = vacant;
        no_load = refl;
        no_event = refl;
      }) in
      next
        (next (next (next a0 (load refl)) (commit q newer exact' refl))
          (invalidate 0 server refl vacant refl))
        (write [] [] p refl refl)

  -- For a time to live of at least a second and versions that a double represents exactly: for any
  -- two rows, the second of a higher version, a state is reachable in which the second is the current
  -- row, no load is in flight, no invalidation is pending, and the hash holds the first.
  pub stale_load-Reach :
      p.cache_version <ℤ q.cache_version
      → IsExact p.cache_version
      → IsExact q.cache_version
      → (a : System S) × Reach s key ttl a
        × (a.row ≡ q)
        × (a.loads ≡ [])
        × (a.pending ≡ 0)
        × Represents s key (some p) a.server
  stale_load-Reach newer exact exact' = (
    at_write,
    at_write-Reach newer exact exact',
    refl,
    refl,
    refl,
    (lua_versioned_set_refines s laws key p exact ttl n positive seconds fits none server vacant
        tt).1,
  )
