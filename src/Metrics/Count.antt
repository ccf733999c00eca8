-- ===== src/Metrics/Count.antt =====
-- Counting entries of a log: the value of a counter, and how often a call was made.
use text.Mathlib.Text.{◌==◌ as str_eq}
use investor_cache.Base.{String, ℕ, suc, Bool, true, false, List, [], ◌∷◌, if◌then◌else◌}
use investor_cache.Journal.{Entry, inc, cache_requests, db_fallback, repo_get}

-- How many entries a test accepts.
abbrev pub count : (Entry → Bool) → List Entry → ℕ
count p [] = 0
count p (e ∷ es) = if p e then suc (count p es) else count p es

abbrev first_is : String → List String → Bool
first_is label [] = false
first_is label (l ∷ _) = str_eq l label

-- The counters of `cache_requests_total` by label, and `db_fallback_total`.
abbrev pub is_request : String → Entry → Bool
is_request label (inc cache_requests labels) = first_is label labels
is_request label _ = false

abbrev pub is_fallback : Entry → Bool
is_fallback (inc db_fallback _) = true
is_fallback _ = false

abbrev pub is_repo_get : Entry → Bool
is_repo_get (repo_get _) = true
is_repo_get _ = false
