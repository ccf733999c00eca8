-- ===== src/Reconciler/Rounds.antt =====
-- The panics of the reconciler's `Run`.
use investor_cache.Base.{
  String, Bool, ℕ, zero, suc, ◌<◌, ℤ, pos, leb_ℤ, ◌≤ℤ◌, List, All, Option, none, some, ◌≡◌, ◌≢◌,
  ◌↔◌, refl, sym, subst, inl, inr, Bool-cases, arith,
}
use investor_cache.Go.{ok, World}
use investor_cache.Journal.{Entry, Proc}
use investor_cache.Reconciler.{
  Reconciler, Sample, Running, crashed, sample_keys, reconcile_sample, reconcile, after_pass,
  rounds_of, run,
}
use investor_cache.Reconciler.Sampling.{IsSample, keys_sampled, scan_failed, sample_keys-IsSample}
use investor_cache.Reconciler.Eviction.{reconcile_keys-IsPass}

module _ {W : Type 0} (r : Reconciler W)
    (never_nil : (key : String) (w : W) → (r.cache.get key w).0 ≢ ok none) (rank : ℕ → ℕ → ℕ)
    (progress : (master cursor : ℕ) (count : ℤ) (w : W) (page : List String) (next : ℕ)
      → (r.scan master cursor count w).0 ≡ ok (page, next)
      → next ≢ 0
      → rank master next < rank master cursor)
    (fuel n : ℕ) (enough : All (λ m. rank m 0 < fuel) r.masters) (size : r.sample_size ≡ pos n)
    (select : W → Bool × W) where
  reconcile_sample-ne-crash :
      (s : Sample) (w : World Entry W) → IsSample n s → (reconcile_sample r s w).0 ≢ none
  unfolding reconcile_sample
  reconcile_sample-ne-crash s w (keys_sampled keys e short) =
      let p = reconcile_keys-IsPass r never_nil keys 0 w in
      rw (e, p.counted) (λ x. ground (arith, x))
  reconcile_sample-ne-crash s w (scan_failed x e) = rw e (λ y. ground (arith, y))

  reconcile-ne-crash : (w : World Entry W) → (reconcile r fuel w).0 ≢ none
  unfolding reconcile
  reconcile-ne-crash w =
      let s : IsSample n (sample_keys r fuel r.sample_size w).0 =
        subst (λ count. IsSample n (sample_keys r fuel count w).0) (sym size)
          (sample_keys-IsSample r rank progress fuel n w enough) in
      reconcile_sample-ne-crash (sample_keys r fuel r.sample_size w).0
        (sample_keys r fuel r.sample_size w).1 s

  after_pass-ne-crashed :
      (rest : Proc W Running) (q : Option ℕ) (w : World Entry W)
      → q ≢ none
      → (rest w).0 ≢ crashed
      → (after_pass r rest q w).0 ≢ crashed
  unfolding after_pass
  after_pass-ne-crashed rest none w some_count later = absurd (some_count refl)
  after_pass-ne-crashed rest (some stale) w some_count later = later

  rounds_of-ne-crashed :
      (rounds : ℕ) (w : World Entry W) → (rounds_of r select fuel rounds w).0 ≢ crashed
  unfolding rounds_of
  rounds_of-ne-crashed zero w = λ e. ground (arith, e)
  rounds_of-ne-crashed (suc rounds) w =
      let v = record w { outside = (select w.outside).1 } in
      elim (Bool-cases (select w.outside).0) [
        | inl stop ↦ rw stop (λ e. ground (arith, e))
        | inr tick ↦ rw tick (
            after_pass-ne-crashed (rounds_of r select fuel rounds) (reconcile r fuel v).0
              (reconcile r fuel v).1 (reconcile-ne-crash v)
              (rounds_of-ne-crashed rounds (reconcile r fuel v).1))
      ]

  -- For a cache that never returns nil without an error, pages that bring the cursor of their master
  -- nearer to the end, fuel above the rank of every master's cursor 0, and a sample size that is not
  -- negative: whatever the reads, the ticks and the end of the context are, and for any number of
  -- rounds, `Run` panics exactly for an interval that is not positive.
  pub run-crashed_iff :
      (rounds : ℕ) (w : World Entry W)
      → ((run r select fuel rounds w).0 ≡ crashed) ↔ (r.interval ≤ℤ pos 0)
  unfolding run
  run-crashed_iff rounds w = elim (Bool-cases (leb_ℤ r.interval (pos 0))) [
    | inl low ↦ rw low ((λ _. ground arith), (λ _. refl))
    | inr high ↦
        rw high ((λ e. absurd (rounds_of-ne-crashed rounds w e)), (λ low. absurd (ground arith)))
  ]
