-- ===== src/Reconciler/Tests.antt =====
-- A pass of the reconciler over a store in memory, and the theorems at concrete inputs.
use investor_cache.Base.{
  zero, suc, Option, some, Bool-cases, inl, inr, ℤ, ◌≤ℤ◌, ◌↔◌, ◌<◌, String, true, false, List, [],
  ◌∷◌, ℕ, pos, ◌≡◌, ◌≢◌, refl, arith,
}
use investor_cache.Go.{Result, ok, World}
use investor_cache.Journal.{Entry}
use investor_cache.Domain.{InvestorProfile, ProfileRepository}
use investor_cache.Cache.Redis.Memory.{
  Store, put, entries, memory, memory_laws, memory_client, memory_client_laws, find-remove,
  find-remove_ne,
}
use investor_cache.Cache.Store.Script.{Represents}
use investor_cache.Reconciler.Repair.{IsAnswering, passed}
use investor_cache.Cache.Store.Filled.{filled, put-Represents}
use investor_cache.Reconciler.Repair.Pass.{reconcile_keys-AllRepresent}
use text.Mathlib.Text.{◌==◌ as str_eq}
use investor_cache.Cache.Store.{redis_store, set_versioned, profile_args}
use investor_cache.Cache.Store.RoundTrip.{IsInt64Profile, get-ne-nil}
use investor_cache.Reconciler.{
  Reconciler, new_reconciler, reconcile_keys, sample_keys, run, crashed, scan_masters, scan_from,
  after_page, truncate, sampled,
}
use investor_cache.Reconciler.Rounds.{run-crashed_iff}
use investor_cache.Reconciler.Sampling.{IsSample, sample_keys-IsSample}
use investor_cache.Reconciler.Eviction.{IsPass, reconcile_keys-IsPass}

abbrev profile_at : ℕ → InvestorProfile
profile_at n = record {
  investor_id = "7";
  full_name = "Anna";
  email = "anna@example.com";
  risk_profile = "moderate";
  qualified_investor = true;
  kyc_status = "passed";
  portfolio_value = "10.5";
  preferences = "{}";
  investment_horizon = "long";
  updated_at = "2024-01-01T00:00:00Z";
  cache_version = pos n;
}

-- One master that holds the two keys; the database's row has version 5.
abbrev reconciler : Reconciler Store
reconciler =
    new_reconciler (0 ∷ []) (λ m cursor count st. (ok ("investor:7" ∷ "investor:8" ∷ [], 0), st))
      (redis_store memory memory_client) (record { get_by_id = λ id st. (ok (profile_at 5), st) })
      (pos 300_000_000_000) (pos 10)

-- `investor:7` is at version 4 and `investor:8` at version 5.
abbrev two_cached : World Entry Store
two_cached = record {
  outside =
      (set_versioned memory memory_client "investor:8" (profile_at 5) (pos 3_600_000_000_000)
        (set_versioned memory memory_client "investor:7" (profile_at 4) (pos 3_600_000_000_000)
          []).1).1;
  log = [];
}

reconcile_keys-IsPass_example :
    IsPass reconciler
      ("investor:7" ∷ "investor:8" ∷ [])
      0
      two_cached
      (reconcile_keys reconciler ("investor:7" ∷ "investor:8" ∷ []) 0 two_cached)
reconcile_keys-IsPass_example =
    reconcile_keys-IsPass reconciler (get-ne-nil memory memory_client)
      ("investor:7" ∷ "investor:8" ∷ []) 0 two_cached

last_page :
    {answer : Result (List String × ℕ)} {keys page : List String} {next : ℕ}
    → answer ≡ ok (keys, 0)
    → answer ≡ ok (page, next)
    → next ≡ 0
last_page e f = cc

-- The cursors of the master: 0 is the only one.
progress :
    (master cursor : ℕ) (count : ℤ) (w : Store) (page : List String) (next : ℕ)
    → (reconciler.scan master cursor count w).0 ≡ ok (page, next)
    → next ≢ 0
    → 0 < 0
progress master cursor count w page next read more = absurd (more (last_page refl read))

-- A master with two pages, three keys in all.
abbrev pages : ℕ → Result (List String × ℕ)
pages zero = ok ("investor:7" ∷ [], 5)
pages (suc cursor) = ok ("investor:8" ∷ "investor:9" ∷ [], 0)

abbrev paged : Reconciler Store
paged = record reconciler { scan = λ m cursor count st. (pages cursor, st) }

-- Cursor 0 is the farther of the two.
abbrev distance : ℕ → ℕ → ℕ
distance m zero = 1
distance m (suc cursor) = 0

paged-progress :
    (master cursor : ℕ) (count : ℤ) (w : Store) (page : List String) (next : ℕ)
    → (paged.scan master cursor count w).0 ≡ ok (page, next)
    → next ≢ 0
    → distance master next < distance master cursor
paged-progress master zero count w page zero read more = absurd (more refl)
paged-progress master zero count w page (suc next) read more = omega arith
paged-progress master (suc cursor) count w page next read more = absurd (more (last_page refl read))

-- Both pages are read, and the third key is cut off.
two_of_three :
    (sample_keys paged 2 (pos 2) two_cached).0 ≡ sampled ("investor:7" ∷ "investor:8" ∷ [])
unfolding sample_keys scan_masters scan_from after_page truncate
two_of_three = refl

sample_keys-IsSample_example : IsSample 2 (sample_keys paged 2 (pos 2) two_cached).0
sample_keys-IsSample_example =
    sample_keys-IsSample paged distance paged-progress 2 2 two_cached (omega arith, tt)

run-crashed_iff_example :
    ((run reconciler (λ st. (false, st)) 1 3 two_cached).0 ≡ crashed)
    ↔ (pos 300_000_000_000 ≤ℤ pos 0)
run-crashed_iff_example =
    run-crashed_iff reconciler (get-ne-nil memory memory_client) (λ m c. 0) progress 1 10
      (omega arith, tt) refl (λ st. (false, st)) 3 two_cached

-- Version 4 under `investor:7`, and nothing elsewhere.
abbrev one_cached : String → Option InvestorProfile
one_cached = filled "investor:7" (profile_at 4)

abbrev one_stored : World Entry Store
one_stored = record { outside = put "investor:7" (profile_args (profile_at 4)) []; log = [] }

one_represented : (j : String) → Represents memory j (one_cached j) one_stored.outside
one_represented = put-Represents "investor:7" (profile_at 4)

one_in_range : (j : String) → IsInt64Profile (one_cached j)
one_in_range j = elim (Bool-cases (str_eq "investor:7" j)) [
  | inl same ↦ rw same (omega arith)
  | inr other ↦ rw other tt
]

abbrev rows : String → InvestorProfile
rows k = profile_at 5

abbrev repo : ProfileRepository Store
repo = record { get_by_id = λ id st. (ok (profile_at 5), st) }

answering : IsAnswering memory memory_client repo (λ st. st) rows
answering = record {
  replies = λ k w. (entries k w, refl);
  reads = λ k j f w. refl;
  answers = λ k w. refl;
  selects = λ id j f w. refl;
  deletes = λ k f w. find-remove k f w;
  deletes_ne = λ k j f w ne. find-remove_ne k j f w ne;
}

abbrev pass : Option ℕ × World Entry Store
pass =
    reconcile_keys
      (new_reconciler [] (λ m cursor count st. (ok ([], 0), st)) (redis_store memory memory_client)
        repo (pos 1) (pos 1))
      ("investor:7" ∷ "investor:8" ∷ []) 0 one_stored

reconcile_keys-AllRepresent_example :
    ((n : ℕ) × (pass.0 ≡ some n))
    × ((j : String)
        → Represents memory j
            (passed rows ("investor:7" ∷ "investor:8" ∷ []) one_cached j)
            pass.1.outside)
reconcile_keys-AllRepresent_example =
    reconcile_keys-AllRepresent memory memory_client memory_laws memory_client_laws repo rows
      answering [] (λ m cursor count st. (ok ([], 0), st)) (pos 1) (pos 1)
      ("investor:7" ∷ "investor:8" ∷ []) 0 one_cached one_stored one_in_range one_represented
