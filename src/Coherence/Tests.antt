-- ===== src/Coherence/Tests.antt =====
-- The theorems on coherence at a run of the server in memory.
use investor_cache.Base.{◌∷◌, String, true, ℕ, List, [], some, ◌≡◌, refl, arith, ℤ, pos}
use investor_cache.Domain.{InvestorProfile}
use investor_cache.Cache.Outcome.{cache_key}
use investor_cache.Cache.Redis.Memory.{Store, memory, memory_laws}
use investor_cache.Cache.Store.{lua_versioned_set, script_args}
use investor_cache.Cache.Store.Script.{Represents}
use investor_cache.Coherence.{System, load, write, commit, IsStart, Reach, start, next}
use investor_cache.Coherence.Ahead.{Keeping, here, further, IsAhead, Reach-IsAhead}
use investor_cache.Coherence.Race.{stale_load-Reach}

abbrev profile_at : ℤ → InvestorProfile
profile_at version = record {
  investor_id = "7";
  full_name = "Ann";
  email = "ann@example.org";
  risk_profile = "moderate";
  kyc_status = "verified";
  portfolio_value = "10.00";
  preferences = "{}";
  qualified_investor = true;
  investment_horizon = "medium";
  updated_at = "2026-01-01";
  cache_version = version;
}

abbrev key : String
key = cache_key "7"

abbrev hour : ℤ
hour = pos 3_600_000_000_000

abbrev old : InvestorProfile
old = profile_at (pos 4)

abbrev new : InvestorProfile
new = profile_at (pos 5)

-- The hash with version 4, written by the script.
abbrev written : Store
written = (lua_versioned_set memory key (script_args old hour) []).1

abbrev state :
    InvestorProfile → List InvestorProfile → Store → List InvestorProfile → ℕ → System Store
state row earlier server loads pending = record {
  row = row;
  earlier = earlier;
  server = server;
  loads = loads;
  pending = pending;
}

first-IsStart : IsStart memory key hour (state old [] [] [] 0)
first-IsStart = record {
  exact = omega arith;
  first = refl;
  vacant = λ f. refl;
  no_load = refl;
  no_event = refl;
}

-- Version 5 is committed behind a load of version 4, and is loaded too.
two_loads : Reach memory key hour (state new (old ∷ []) [] (new ∷ old ∷ []) 1)
two_loads =
    let s1 : Reach memory key hour (state old [] [] (old ∷ []) 0) =
      next (start first-IsStart) (load refl) in
    let s2 : Reach memory key hour (state new (old ∷ []) [] (old ∷ []) 1) =
      next s1 (commit new (omega arith) (omega arith) refl) in
    next s2 (load refl)

-- The hash with version 5, and behind the script's run with version 4.
abbrev newer : Store
newer = (lua_versioned_set memory key (script_args new hour) []).1

abbrev newest : Store
newest = (lua_versioned_set memory key (script_args old hour) newer).1

-- The loads write in the wrong order.
wrong_order :
    Keeping memory key hour
      (state new (old ∷ []) [] (new ∷ old ∷ []) 1)
      (state new (old ∷ []) newest [] 1)
      (old ∷ new ∷ [])
wrong_order =
    let k1 : Keeping memory key hour (state new (old ∷ []) [] (new ∷ old ∷ []) 1)
        (state new (old ∷ []) newer (old ∷ []) 1) (new ∷ []) =
      further here (write [] (old ∷ []) new refl refl) tt in
    further k1 (write [] [] old refl refl) tt

Reach-IsAhead_example :
    IsAhead memory key hour
      (state new (old ∷ []) [] (new ∷ old ∷ []) 1)
      (state new (old ∷ []) newest [] 1)
      (old ∷ new ∷ [])
Reach-IsAhead_example =
    Reach-IsAhead memory memory_laws key hour 3600 (omega arith) refl (omega arith) two_loads
      wrong_order

stale_load-Reach_example :
    (a : System Store) × Reach memory key hour a
    × (a.row ≡ new)
    × (a.loads ≡ [])
    × (a.pending ≡ 0)
    × Represents memory key (some old) a.server
stale_load-Reach_example =
    stale_load-Reach memory memory_laws key hour 3600 (omega arith) refl (omega arith) []
      (λ f. refl) old new (omega arith) (omega arith) (omega arith)
