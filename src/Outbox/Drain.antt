-- ===== src/Outbox/Drain.antt =====
-- internal/outbox/relay.go, `Run`, while the database answers and the writer accepts.
pub mod Batch
pub mod Cycles
pub mod Emptied
pub mod Memory
mod Tests
use investor_cache.Base.{
  Bool, true, false, ℕ, ℤ, pos, leb_ℤ, List, [], ◌∷◌, map, take, ◌≡◌, ◌&&◌, ◌||◌, if◌then◌else◌,
}
use investor_cache.Go.{ok}
use investor_cache.Journal.{Message}
use investor_cache.Outbox.Events.{Event}
use investor_cache.Outbox.Repository.{Rows}
use investor_cache.Outbox.{Relay}
use investor_cache.Outbox.Publishing.{ids_of}

abbrev pub eq_ℤ : ℤ → ℤ → Bool
eq_ℤ a b = leb_ℤ a b && leb_ℤ b a

abbrev pub has : ℤ → List ℤ → Bool
has i [] = false
has i (j ∷ ids) = eq_ℤ i j || has i ids

-- The events whose identifiers are not listed.
abbrev pub without : List ℤ → List Event → List Event
without ids [] = []
without ids (e ∷ es) = let rest = without ids es in if has e.id ids then rest else e ∷ rest

-- No identifier occurs twice, as the table's primary key has it.
abbrev pub IsDistinct : List Event → Type 0
IsDistinct [] = Unit {0}
IsDistinct (e ∷ es) = (has e.id (ids_of es) ≡ false) × IsDistinct es

-- A database that answers, a writer that accepts, and ticks alone. `view` is what the table holds
-- unpublished and committed, the oldest first, and `staged` what the relay's transaction sees of it,
-- which only a commit puts in the table. Nobody else writes to it.
pub record IsHealthy {W : Type 0} (r : Relay W) (select : W → Bool × W) (view : W → List Event)
    : Type 0 where
  pub staged : W → List Event
  pub ticks : (w : W) → ((select w).0 ≡ false) × (view (select w).1 ≡ view w)
  pub begins : (w : W) → ((r.begin w).0 ≡ ok tt) × (staged (r.begin w).1 ≡ view w)
  -- The query answers the first rows, and each of them scans.
  pub selects :
      (n : ℕ) (w : W)
      → ((r.statements.select_unpublished (pos n) w).0
          ≡ ok (record { scans = map ok (take n (staged w)); last_error = ok tt }))
        × (staged (r.statements.select_unpublished (pos n) w).1 ≡ staged w)
  pub accepts :
      (m : Message) (w : W) → ((r.send m w).0 ≡ ok tt) × (staged (r.send m w).1 ≡ staged w)
  -- The rows with the listed identifiers are published from here on, in the transaction.
  pub updates :
      (ids : List ℤ) (w : W)
      → ((r.statements.update_published ids w).0 ≡ ok tt)
        × (staged (r.statements.update_published ids w).1 ≡ without ids (staged w))
  pub commits : (w : W) → ((r.tx_commit w).0 ≡ ok tt) × (view (r.tx_commit w).1 ≡ staged w)
  pub counts : (w : W) → view (r.statements.count w).1 ≡ view w
