-- ===== src/Go/Effects.antt =====
-- Calls with effects. The world outside (Redis, PostgreSQL, Kafka, the clock, other goroutines) is
-- a value of a type `W` that only the parameters of a component act on. Beside it stands the log of
-- what the code asked of it, newest entry first, with entries of a type `E` of the component's own.
use investor_cache.Base.{List, ◌∷◌}

pub record World (E W : Type 0) : Type 0 where
  pub outside : W
  pub log : List E

abbrev pub Io : Type 0 → Type 0 → Type 0 → Type 0
Io E W A = World E W → A × World E W

module _ {E W : Type 0} where
  abbrev pub pure : {A : Type 0} → A → Io E W A
  pure a w = (a, w)

  infixl 5 ◌>>=◌ ◌>>◌
  abbrev pub ◌>>=◌ : {A B : Type 0} → Io E W A → (A → Io E W B) → Io E W B
  ◌>>=◌ m f w = f (m w).0 (m w).1

  abbrev pub ◌>>◌ : {A B : Type 0} → Io E W A → Io E W B → Io E W B
  ◌>>◌ m k w = k (m w).1

  -- Adds an entry to the log.
  abbrev pub note : E → Io E W (Unit {0})
  note e w = (tt, record w { log = e ∷ w.log })

  -- A call out of the program: it is logged, and its answer and effect are the world's.
  abbrev pub call : {A : Type 0} → E → (W → A × W) → Io E W A
  call e f w = ((f w.outside).0, record { outside = (f w.outside).1; log = e ∷ w.log })

  -- A look at the world that is not logged.
  abbrev pub lift : {A : Type 0} → (W → A × W) → Io E W A
  lift f w = ((f w.outside).0, record w { outside = (f w.outside).1 })
