-- ===== src/Outbox/Settings.antt =====
-- The relay's interval and batch size, as `NewRelay` leaves them.
use investor_cache.Base.{
  ℤ, pos, ◌<ℤ◌, ◌≤ℤ◌, ◌⊎◌, inl, inr, Bool-cases, leb_ℤ, ◌≡◌, if◌then◌else◌, arith,
}
use investor_cache.Outbox.{Relay, new_relay}

positive_or : ℤ → ℤ → ℤ
positive_or n default = if leb_ℤ n (pos 0) then default else n

positive_or-positive : (n default : ℤ) → pos 0 <ℤ default → pos 0 <ℤ positive_or n default
unfolding positive_or
positive_or-positive n default h = ground arith

positive_or-same : (n default : ℤ) → pos 0 <ℤ n → positive_or n default ≡ n
unfolding positive_or
positive_or-same n default h = ground arith

positive-cases : (n : ℤ) → (n ≤ℤ pos 0) ⊎ (pos 0 <ℤ n)
positive-cases n = elim (Bool-cases (leb_ℤ n (pos 0))) [
  | inl low ↦ inl (ground arith)
  | inr high ↦ inr (ground arith)
]

-- `NewRelay` gives any relay a positive interval and a positive batch size, which `time.NewTicker`
-- and LIMIT ask for, leaves a relay as it is unless its
-- interval or its size is not positive, and is done once: a second pass changes
-- nothing.
pub new_relay-IsRunnable :
    {W : Type 0} (r : Relay W)
    → (pos 0 <ℤ (new_relay r).poll_interval)
      × (pos 0 <ℤ (new_relay r).batch_size)
      × ((r.poll_interval ≤ℤ pos 0) ⊎ ((r.batch_size ≤ℤ pos 0) ⊎ (new_relay r ≡ r)))
      × (new_relay (new_relay r) ≡ new_relay r)
unfolding new_relay positive_or
new_relay-IsRunnable r =
    let poll = positive_or-positive r.poll_interval (pos 100_000_000) (omega arith) in
    let batch = positive_or-positive r.batch_size (pos 100) (omega arith) in
    (
      poll,
      batch,
      elim (positive-cases r.poll_interval) [
        | inl low ↦ inl low
        | inr h ↦ inr (elim (positive-cases r.batch_size) [
          | inl low ↦ inl low
          | inr h' ↦ inr (λ i. record r {
            poll_interval = positive_or-same r.poll_interval (pos 100_000_000) h i;
            batch_size = positive_or-same r.batch_size (pos 100) h' i;
          })
        ])
      ],
      λ i. record r {
        poll_interval =
            positive_or-same (positive_or r.poll_interval (pos 100_000_000)) (pos 100_000_000) poll
              i;
        batch_size = positive_or-same (positive_or r.batch_size (pos 100)) (pos 100) batch i;
      },
    )
