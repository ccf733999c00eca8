-- ===== src/Coherence.antt =====
-- One investor across the programs: the row in PostgreSQL, the hash in Redis, the loads in flight
-- (internal/cache/manager.go) and the invalidations under way (internal/outbox, internal/kafka).
pub mod Bound
pub mod Ahead
pub mod Race
mod Tests
use investor_cache.Base.{String, ℕ, suc, ℤ, ◌<ℤ◌, List, [], ◌∷◌, ◌++◌, none, ◌≡◌}
use investor_cache.Domain.{InvestorProfile}
use investor_cache.Cache.Redis.{Server}
use investor_cache.Cache.Redis.Laws.{IsExact}
use investor_cache.Cache.Store.{lua_versioned_set, script_args}
use investor_cache.Cache.Store.Script.{Represents}

-- `rows` are the rows that the database has held, the current one first. `loads` are the rows that
-- `loadAndCache` has read and not yet written, and `pending` counts the events that are committed and
-- whose invalidation is still to come.
pub record System (S : Type 0) : Type 0 where
  pub row : InvestorProfile
  pub earlier : List InvestorProfile
  pub server : S
  pub loads : List InvestorProfile
  pub pending : ℕ

module _ {S N : Type 0} (s : Server S N) (key : String) (ttl : ℤ) where
  pub data Step (a b : System S) : Type 0 where
    -- `UpdateProfile` commits a row with a higher version, which the table's trigger gives it, and
    -- with it an event.
    commit :
        (row : InvestorProfile)
        → a.row.cache_version <ℤ row.cache_version
        → IsExact row.cache_version
        → b ≡ record a { row = row; earlier = a.row ∷ a.earlier; pending = suc a.pending }
        → Step a b
    -- `loadAndCache` reads the row.
    load : b ≡ record a { loads = a.row ∷ a.loads } → Step a b
    -- `SetVersioned` writes a row that was read.
    write :
        (before after : List InvestorProfile) (p : InvestorProfile)
        → a.loads ≡ before ++ p ∷ after
        → b ≡ record a {
          server = (lua_versioned_set s key (script_args p ttl) a.server).1;
          loads = before ++ after;
        }
        → Step a b
    -- `SetVersioned` fails and writes nothing.
    drop :
        (before after : List InvestorProfile) (p : InvestorProfile)
        → a.loads ≡ before ++ p ∷ after
        → b ≡ record a { loads = before ++ after }
        → Step a b
    -- An event's invalidation deletes the hash.
    invalidate :
        (n : ℕ) (server : S)
        → a.pending ≡ suc n
        → Represents s key none server
        → b ≡ record a { server = server; pending = n }
        → Step a b
    -- The hash is deleted otherwise: by the reconciler, by an event that is delivered again, or as it
    -- expires.
    vanish :
        (server : S) → Represents s key none server → b ≡ record a { server = server } → Step a b

  -- An empty cache, nothing under way.
  pub record IsStart (a : System S) : Type 0 where
    pub exact : IsExact a.row.cache_version
    pub first : a.earlier ≡ []
    pub vacant : Represents s key none a.server
    pub no_load : a.loads ≡ []
    pub no_event : a.pending ≡ 0

  pub data Reach : System S → Type 0 where
    start : {a : System S} → IsStart a → Reach a
    next : {a b : System S} → Reach a → Step a b → Reach b
