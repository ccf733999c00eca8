-- ===== src/Outbox/Repository.antt =====
-- internal/outbox/repository.go: the statements on the table `outbox`, with the errors that they wrap.
use investor_cache.Base.{String, ℤ, List, [], ◌∷◌, ◌++◌}
use investor_cache.Go.{Result, ok, err, wrap, pure, call, ◌>>=◌}
use investor_cache.Journal.{
  Proc, sql_insert_event, sql_fetch_unpublished, sql_mark_published, sql_record_error,
  sql_count_unpublished,
}
use investor_cache.Outbox.Events.{Event}

-- The rows of a query: what `Scan` makes of each, and `rows.Err()` behind the last.
pub record Rows : Type 0 where
  pub scans : List (Result Event)
  pub last_error : Result (Unit {0})

-- The statements, in the transaction that the caller has begun, and the count outside of one.
pub record Statements (W : Type 0) : Type 0 where
  pub insert_event : Event → W → Result (Unit {0}) × W
  pub select_unpublished : ℤ → W → Result Rows × W
  pub update_published : List ℤ → W → Result (Unit {0}) × W
  pub update_error : ℤ → String → W → Result (Unit {0}) × W
  pub count : W → Result ℤ × W

abbrev pub wrapped : {A : Type 0} → String → Result A → Result A
wrapped text (ok a) = ok a
wrapped text (err e) = err (wrap text e)

-- The loop over the rows: it returns at the first row that does not scan.
unfoldable pub collect : List (Result Event) → Result (Unit {0}) → List Event → Result (List Event)
collect [] (ok _) events = ok events
collect [] (err e) events = err (wrap "iterate outbox rows" e)
collect (err e ∷ rows) last_error events = err (wrap "scan outbox row" e)
collect (ok event ∷ rows) last_error events = collect rows last_error (events ++ event ∷ [])

abbrev pub scan_rows : Result Rows → Result (List Event)
scan_rows (err e) = err (wrap "select unpublished" e)
scan_rows (ok rows) = collect rows.scans rows.last_error []

module _ {W : Type 0} (s : Statements W) where
  unfoldable pub add_event : Event → Proc W (Result (Unit {0}))
  add_event e = do
    q ← call (sql_insert_event e.aggregate_id e.payload) (s.insert_event e)
    pure (wrapped "insert outbox" q)

  unfoldable pub fetch_unpublished : ℤ → Proc W (Result (List Event))
  fetch_unpublished limit = do
    q ← call (sql_fetch_unpublished limit) (s.select_unpublished limit)
    pure (scan_rows q)

  unfoldable pub mark_published : List ℤ → Proc W (Result (Unit {0}))
  mark_published [] = pure (ok tt)
  mark_published (i ∷ ids) = do
    q ← call (sql_mark_published (i ∷ ids)) (s.update_published (i ∷ ids))
    pure (wrapped "mark outbox published" q)

  unfoldable pub record_error : ℤ → String → Proc W (Result (Unit {0}))
  record_error id text = do
    q ← call (sql_record_error id) (s.update_error id text)
    pure (wrapped "record outbox error" q)

  unfoldable pub count_unpublished : Proc W (Result ℤ)
  count_unpublished = do
    q ← call sql_count_unpublished s.count
    pure (wrapped "count unpublished" q)
