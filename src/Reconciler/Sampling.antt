-- ===== src/Reconciler/Sampling.antt =====
-- What the reconciler samples, and that the loop over the pages ends.
use investor_cache.Base.{
  All, leb, true, String, ℕ, suc, zero, ◌≤◌, ◌<◌, ◌==◌, ℤ, pos, List, [], ◌∷◌, ◌++◌, length, take,
  length-take, ltb_ℤ, ◌≡◌, ◌≢◌, refl, arith, inl, inr, Bool-cases,
}
use investor_cache.Go.{Io, Result, ok, err, Error, World}
use investor_cache.Journal.{Entry}
use investor_cache.Reconciler.{
  Reconciler, Scan, done, failed, unfinished, Sample, sampled, sample_error, after_page, scan_from,
  scan_masters, sample_of, truncate, sample_keys,
}

-- A loop that ended.
abbrev pub HasEnded : Scan → Type 0
HasEnded (done keys) = Unit {0}
HasEnded (failed e keys) = Unit {0}
HasEnded (unfinished keys) = ⊥

-- A sample of at most `n` keys, or the error of a scan.
pub data IsSample (n : ℕ) (s : Sample) : Type 0 where
  keys_sampled : (keys : List String) → s ≡ sampled keys → length keys ≤ n → IsSample n s
  scan_failed : (e : Error) → s ≡ sample_error e → IsSample n s

truncate-IsSample : (n : ℕ) (keys : List String) → IsSample n (truncate (pos n) keys)
unfolding truncate
truncate-IsSample n keys = elim (Bool-cases (ltb_ℤ (pos n) (pos (length keys)))) [
  | inl t ↦
      let inside : leb n (length keys) ≡ true = ground arith in
      rw (t, inside) (keys_sampled (take n keys) refl (omega (arith, length-take n keys)))
  | inr t ↦ rw t (keys_sampled keys refl (ground arith))
]

module _ {W : Type 0} (r : Reconciler W) (rank : ℕ → ℕ → ℕ)
    (progress : (master cursor : ℕ) (count : ℤ) (w : W) (page : List String) (next : ℕ)
      → (r.scan master cursor count w).0 ≡ ok (page, next)
      → next ≢ 0
      → rank master next < rank master cursor) where
  after_page-HasEnded :
      (rest : ℕ → List String → Io Entry W Scan) (keys : List String) (q : Result (List String × ℕ))
      (w : World Entry W)
      → ((page keys' : List String) (cursor : ℕ) (v : World Entry W)
          → q ≡ ok (page, cursor)
          → cursor ≢ 0
          → HasEnded (rest cursor keys' v).0)
      → HasEnded (after_page r rest keys q w).0
  unfolding after_page
  after_page-HasEnded rest keys (err e) w later = tt
  after_page-HasEnded rest keys (ok (page, cursor)) w later = elim (Bool-cases (cursor == 0)) [
    | inl t ↦ rw t tt
    | inr t ↦ rw t (later page (keys ++ page) cursor w refl (ground arith))
  ]

  scan_from-HasEnded :
      (fuel : ℕ) (count : ℤ) (master cursor : ℕ) (keys : List String) (w : World Entry W)
      → rank master cursor < fuel
      → HasEnded (scan_from r fuel count master cursor keys w).0
  unfolding scan_from
  scan_from-HasEnded zero count master cursor keys w enough = absurd (omega (arith, enough))
  scan_from-HasEnded (suc fuel) count master cursor keys w enough =
      elim (Bool-cases (ltb_ℤ (pos (length keys)) count)) [
        | inl t ↦ rw t (
            after_page-HasEnded (scan_from r fuel count master) keys _ _
              (λ page keys' next v scanned more. scan_from-HasEnded fuel count master next keys' v (
                omega
                  (arith, enough, progress master cursor count w.outside page next scanned more))))
        | inr t ↦ rw t tt
      ]

  scan_masters-HasEnded :
      (fuel : ℕ) (count : ℤ) (masters : List ℕ) (s : Scan) (w : World Entry W)
      → All (λ m. rank m 0 < fuel) masters
      → HasEnded s
      → HasEnded (scan_masters r fuel count masters s w).0
  unfolding scan_masters
  scan_masters-HasEnded fuel count [] s w enough ended = ended
  scan_masters-HasEnded fuel count (m ∷ ms) (done keys) w (e, es) ended =
      scan_masters-HasEnded fuel count ms _ _ es (scan_from-HasEnded fuel count m 0 keys w e)
  scan_masters-HasEnded fuel count (m ∷ ms) (failed e' keys) w (e, es) ended =
      scan_masters-HasEnded fuel count ms _ _ es tt
  scan_masters-HasEnded fuel count (m ∷ ms) (unfinished keys) w (e, es) ended = absurd ended

  sample_of-IsSample : (n : ℕ) (s : Scan) → HasEnded s → IsSample n (sample_of r (pos n) s)
  sample_of-IsSample n (done keys) ended = truncate-IsSample n keys
  sample_of-IsSample n (failed e keys) ended = scan_failed e refl
  sample_of-IsSample n (unfinished keys) ended = absurd ended

  -- If every page brings the cursor of its master nearer to the end, a rank that decreases: with
  -- fuel above the rank of every master's cursor 0, `sampleKeys` on a count `n` that is not
  -- negative ends, does not panic, and returns at most `n` keys or the error of a scan.
  pub sample_keys-IsSample :
      (fuel n : ℕ) (w : World Entry W)
      → All (λ m. rank m 0 < fuel) r.masters
      → IsSample n (sample_keys r fuel (pos n) w).0
  unfolding sample_keys
  sample_keys-IsSample fuel n w enough =
      sample_of-IsSample n _ (scan_masters-HasEnded fuel (pos n) r.masters (done []) w enough tt)
