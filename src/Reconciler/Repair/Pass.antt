-- ===== src/Reconciler/Repair/Pass.antt =====
-- A pass over a Redis and a database that answer.
use text.Mathlib.Text.{◌==◌ as str_eq}
use text.Mathlib.TextEquality.{eq_iff}
use investor_cache.Base.{
  String, List, [], ◌∷◌, Option, none, some, ℕ, ◌+◌, ℤ, ltb_ℤ, ◌≡◌, ◌≢◌, refl, sym, ap, ◌∙◌, subst,
  arith, inl, inr, Bool-cases,
}
use investor_cache.Go.{Result, World, call}
use investor_cache.Go.Strings.{trim_prefix}
use investor_cache.Journal.{Entry, cache_get, repo_get}
use investor_cache.Domain.{InvestorProfile, ProfileRepository}
use investor_cache.Cache.Redis.{Server, Client}
use investor_cache.Cache.Redis.Laws.{ServerLaws, ClientLaws}
use investor_cache.Cache.Store.{get, redis_store}
use investor_cache.Cache.Store.Script.{Represents, content}
use investor_cache.Cache.Store.RoundTrip.{answer, IsInt64Profile, get_lem}
use investor_cache.Reconciler.{
  Reconciler, new_reconciler, compare_versions, check_current, check_cached, reconcile_key,
  after_key, reconcile_keys,
}
use investor_cache.Reconciler.Repair.{
  keep_current, checked, swept, IsAnswering, keep_current-range, passed, same_key, swept_lem,
}

module _ {W S N : Type 0} (s : Server S N) (c : Client W S) (laws : ServerLaws s)
    (client : ClientLaws s c) (repo : ProfileRepository W) (rows : String → InvestorProfile)
    (h : IsAnswering s c repo client.view rows) (masters : List ℕ)
    (scan : ℕ → ℕ → ℤ → W → Result (List String × ℕ) × W) (interval sample_size : ℤ) where
  abbrev pub AllRepresent : (String → Option InvestorProfile) → W → Type 0
  AllRepresent cached w = (j : String) → Represents s j (cached j) (client.view w)

  abbrev pub reconciler : Reconciler W
  reconciler = new_reconciler masters scan (redis_store s c) repo interval sample_size

  -- The world behind the reads of a key.
  abbrev behind_get : String → W → W
  behind_get k w = (c.hgetall k w).1

  abbrev behind_row : String → W → W
  behind_row k w = (repo.get_by_id (trim_prefix k "investor:") (behind_get k w)).1

  get-AllRepresent :
      (cached : String → Option InvestorProfile) (k : String) (w : W)
      → AllRepresent cached w
      → AllRepresent cached (behind_get k w)
  get-AllRepresent cached k w rep j f = h.reads k j f w ∙ rep j f

  row-AllRepresent :
      (cached : String → Option InvestorProfile) (k : String) (w : W)
      → AllRepresent cached w
      → AllRepresent cached (behind_row k w)
  row-AllRepresent cached k w rep j f =
      h.selects (trim_prefix k "investor:") j f (behind_get k w) ∙ h.reads k j f w ∙ rep j f

  -- A check that leaves `o` under its key and the other keys as they are.
  checked-AllRepresent :
      (cached : String → Option InvestorProfile) (k : String) (v : W)
      → Represents s k (keep_current (rows k) (cached k)) (client.view v)
      → ((j : String) → k ≢ j → Represents s j (cached j) (client.view v))
      → AllRepresent (checked rows k cached) v
  checked-AllRepresent cached k v mine others j = elim (Bool-cases (str_eq k j)) [
    | inl same ↦ rw same (
        subst (λ i. Represents s i (keep_current (rows k) (cached i)) (client.view v))
          (same_key k j same) mine)
    | inr other ↦ rw other (others j (ground (arith, eq_iff k j)))
  ]

  -- A key whose entry stays.
  kept-AllRepresent :
      (cached : String → Option InvestorProfile) (k : String) (v : W)
      → keep_current (rows k) (cached k) ≡ cached k
      → AllRepresent cached v
      → AllRepresent (checked rows k cached) v
  kept-AllRepresent cached k v same rep =
      checked-AllRepresent cached k v
        (subst (λ o. Represents s k o (client.view v)) (sym same) (rep k)) (λ j _. rep j)

  -- A check that ends without a panic, and what it leaves.
  abbrev IsChecked : (String → Option InvestorProfile) → String → Option ℕ × World Entry W → Type 0
  IsChecked cached k out =
      ((n : ℕ) × (out.0 ≡ some n)) × AllRepresent (checked rows k cached) out.1.outside

  compare-IsChecked :
      (cached : String → Option InvestorProfile) (k : String) (p : InvestorProfile)
      (w : World Entry W)
      → cached k ≡ some p
      → AllRepresent cached w.outside
      → IsChecked cached k (compare_versions reconciler k (some p) (rows k) w)
  unfolding compare_versions
  compare-IsChecked cached k p w held rep =
      elim (Bool-cases (ltb_ℤ p.cache_version (rows k).cache_version)) [
        | inl stale ↦ rw stale (
          (1, refl),
          checked-AllRepresent cached k (c.del k w.outside).1
              (λ f. rw (held, stale) (h.deletes k f w.outside))
              (λ j ne f. h.deletes_ne k j f w.outside ne ∙ rep j f),
        )
        | inr current ↦
            rw current
              ((0, refl), kept-AllRepresent cached k w.outside (rw (held, current) refl) rep)
      ]

  -- Behind the answer of the cache.
  check_cached-IsChecked :
      (cached : String → Option InvestorProfile) (k : String) (o : Option InvestorProfile)
      (w : World Entry W)
      → cached k ≡ o
      → AllRepresent cached w.outside
      → IsChecked cached k (check_cached reconciler k (answer o) w)
  unfolding check_cached check_current
  check_cached-IsChecked cached k none w held rep =
      ((0, refl), kept-AllRepresent cached k w.outside (rw held refl) rep)
  check_cached-IsChecked cached k (some p) w held rep = rw (h.answers k w.outside) (
      compare-IsChecked cached k p
        (call (repo_get (trim_prefix k "investor:")) (repo.get_by_id (trim_prefix k "investor:"))
          w).1
        held (λ j f. h.selects (trim_prefix k "investor:") j f w.outside ∙ rep j f))

  reconcile_key-IsChecked :
      (cached : String → Option InvestorProfile) (k : String) (w : World Entry W)
      → IsInt64Profile (cached k)
      → AllRepresent cached w.outside
      → IsChecked cached k (reconcile_key reconciler k w)
  unfolding reconcile_key get
  reconcile_key-IsChecked cached k w range rep =
      let (m, reply) = h.replies k w.outside in
      let got = get_lem s c laws client k (cached k) w.outside (rep k) range reply in
      rw got (
        check_cached-IsChecked cached k (cached k)
          (record { outside = behind_get k w.outside; log = cache_get k ∷ w.log }) refl
          (get-AllRepresent cached k w.outside rep))

  checked-range :
      (cached : String → Option InvestorProfile) (k : String)
      → ((j : String) → IsInt64Profile (cached j))
      → (j : String) → IsInt64Profile (checked rows k cached j)
  checked-range cached k range j = elim (Bool-cases (str_eq k j)) [
    | inl same ↦ rw same (keep_current-range (rows k) (cached j) (range j))
    | inr other ↦ rw other (range j)
  ]

  reconcile_keys-swept :
      (keys : List String) (stale : ℕ) (cached : String → Option InvestorProfile)
      (w : World Entry W)
      → ((j : String) → IsInt64Profile (cached j))
      → AllRepresent cached w.outside
      → ((n : ℕ) × ((reconcile_keys reconciler keys stale w).0 ≡ some n))
        × AllRepresent (swept rows keys cached) (reconcile_keys reconciler keys stale w).1.outside
  unfolding reconcile_keys after_key
  reconcile_keys-swept [] stale cached w range rep = ((stale, refl), rep)
  reconcile_keys-swept (k ∷ ks) stale cached w range rep =
      let ((n, one), kept) = reconcile_key-IsChecked cached k w (range k) rep in
      rw one (
        reconcile_keys-swept ks (stale + n) (checked rows k cached) (reconcile_key reconciler k w).1
          (checked-range cached k range) kept)

  -- If Redis answers each HGETALL and DEL and the database each read of a row, versions are of 64
  -- bits and nobody else writes meanwhile: a pass over any keys does not panic, and leaves nothing
  -- under a key of the pass whose entry is older than its row, and every other entry as it was.
  pub reconcile_keys-AllRepresent :
      (keys : List String) (stale : ℕ) (cached : String → Option InvestorProfile)
      (w : World Entry W)
      → ((j : String) → IsInt64Profile (cached j))
      → AllRepresent cached w.outside
      → ((n : ℕ) × ((reconcile_keys reconciler keys stale w).0 ≡ some n))
        × AllRepresent (passed rows keys cached) (reconcile_keys reconciler keys stale w).1.outside
  reconcile_keys-AllRepresent keys stale cached w range rep =
      let (ends, left) = reconcile_keys-swept keys stale cached w range rep in
      (ends, λ j f. left j f ∙ ap (λ o. content o f) (swept_lem rows keys cached j))
