-- ===== src/Kafka/Batches.antt =====
-- `processBulkInvalidation`: the loop over batches against the whole list of keys.
use mathlib.Core.List.{map-append, append_assoc, append-nil}
use investor_cache.Base.{
  Bool, true, false, if◌then◌else◌, ◌||◌, take_all, String, ℕ, suc, zero, ◌+◌, ◌-◌, ◌≤◌, ◌<◌, List,
  [], ◌∷◌, ◌++◌, map, length, take, drop, drop_all, drop-drop, take-add, length-take, length-drop,
  ltb, ◌≡◌, refl, ap, ◌∙◌, sym, arith, Bool-cases, inl, inr, ltb→lt,
}
use investor_cache.Go.{call, pure, Result, ok, err, Error, World}
use investor_cache.Journal.{cache_delete, Proc, Entry, cache_delete_batch}
use investor_cache.Cache.Outcome.{cache_key}
use investor_cache.Kafka.{
  InvalidationConsumer, batch_size, end_of, after_batch, bulk_from, process_bulk_invalidation,
  process_event, bulk_error,
}
use investor_cache.Kafka.Event.{InvalidationEvent}
use text.Mathlib.Text.{◌==◌ as str_eq}
use investor_cache.Kafka.Trace.{deleted_keys, AllBatches}

length-map : (ids : List String) → length (map cache_key ids) ≡ length ids
length-map [] = refl
length-map (id ∷ ids) = ap suc (length-map ids)

small_batch :
    (n : ℕ) (ids : List String) → n ≤ batch_size → length (map cache_key (take n ids)) ≤ batch_size
small_batch n ids h = rw length-map (omega (arith, length-take n ids))

keys-take_add :
    (n m : ℕ) (ids : List String)
    → map cache_key (take (n + m) ids)
      ≡ map cache_key (take n ids) ++ map cache_key (take m (drop n ids))
keys-take_add n m ids = rw take-add (map-append cache_key (take n ids) (take m (drop n ids)))

batch_bounds :
    (i : ℕ) (ids : List String)
    → i < length ids
    → (0 < end_of i ids - i) × (end_of i ids - i ≤ batch_size)
batch_bounds i ids h = ground arith

-- The identifiers behind a batch are those from the next index on.
rest_of_batch :
    (i : ℕ) (ids : List String)
    → i < length ids
    → drop (i + batch_size) ids ≡ drop (end_of i ids - i) (drop i ids)
rest_of_batch i ids h = elim (Bool-cases (ltb (length ids) (i + batch_size))) [
  | inl last ↦ rw (
    last,
    drop-drop,
    drop_all (i + batch_size) ids (ground arith),
    drop_all (i + (length ids - i)) ids (omega arith),
  )
  | inr more ↦ rw (more, drop-drop) (ap (λ (n : ℕ). drop n ids) (omega arith))
]

-- The keys that an event names.
abbrev pub keys_of : InvalidationEvent → List String
keys_of event =
    if str_eq event.event_type "update" || str_eq event.event_type "delete"
    then cache_key event.investor_id ∷ []
    else if str_eq event.event_type "bulk_update"
    then map cache_key event.investor_ids
    else []

module _ {W : Type 0} (c : InvalidationConsumer W) where
  -- The world behind the request for the first `n` of the identifiers.
  abbrev pub requested_batch : ℕ → List String → World Entry W → World Entry W
  requested_batch n ids w =
      let keys = map cache_key (take n ids) in
      record {
        outside = (c.cache.delete_batch keys w.outside).1;
        log = cache_delete_batch keys ∷ w.log;
      }

  -- The requests of a run, one by one: each takes the next identifiers, and goes on where the cache
  -- deleted them; a request that fails is the last, and the run ends with its error.
  pub data IsTrace : List String → World Entry W → Result (Unit {0}) × World Entry W → Type 0 where
    all_deleted : {w : World Entry W} → IsTrace [] w (ok tt, w)
    batch_deleted :
        {ids : List String} {w : World Entry W} {out : Result (Unit {0}) × World Entry W} (n : ℕ)
        → 0 < n
        → n ≤ batch_size
        → (c.cache.delete_batch (map cache_key (take n ids)) w.outside).0 ≡ ok tt
        → IsTrace (drop n ids) (requested_batch n ids w) out
        → IsTrace ids w out
    batch_refused :
        {ids : List String} {w : World Entry W} (n i : ℕ) (e : Error)
        → 0 < n
        → n ≤ batch_size
        → (c.cache.delete_batch (map cache_key (take n ids)) w.outside).0 ≡ err e
        → IsTrace ids w (err (bulk_error c i e), requested_batch n ids w)

  none_left : {ids : List String} {w : World Entry W} → ids ≡ [] → IsTrace ids w (ok tt, w)
  none_left e = rw e all_deleted

  after_batch-IsTrace :
      (n i : ℕ) (ids : List String) (rest : Proc W (Result (Unit {0}))) (r : Result (Unit {0}))
      (w : World Entry W)
      → 0 < n
      → n ≤ batch_size
      → (c.cache.delete_batch (map cache_key (take n ids)) w.outside).0 ≡ r
      → IsTrace (drop n ids) (requested_batch n ids w) (rest (requested_batch n ids w))
      → IsTrace ids w (after_batch c rest i r (requested_batch n ids w))
  unfolding after_batch
  after_batch-IsTrace n i ids rest (ok _) w some_keys small answer later =
      batch_deleted n some_keys small answer later
  after_batch-IsTrace n i ids rest (err e) w some_keys small answer later =
      batch_refused n i e some_keys small answer

  bulk_from-IsTrace :
      (fuel i : ℕ) (ids : List String) (w : World Entry W)
      → length ids ≤ i + fuel
      → IsTrace (drop i ids) w (bulk_from c fuel i ids w)
  unfolding bulk_from
  bulk_from-IsTrace zero i ids w enough = none_left (drop_all i ids (omega (arith, enough)))
  bulk_from-IsTrace (suc fuel) i ids w enough = elim (Bool-cases (ltb i (length ids))) [
    | inr end ↦ rw end (none_left (drop_all i ids (ground arith)))
    | inl more ↦
        let inside : i < length ids = ltb→lt i (length ids) more in
        let (some_keys, small) = batch_bounds i ids inside in
        rw more (
          after_batch-IsTrace (end_of i ids - i) i (drop i ids)
            (bulk_from c fuel (i + batch_size) ids) _ w some_keys small refl
            (rw (← rest_of_batch i ids inside)
              (bulk_from-IsTrace fuel (i + batch_size) ids _ (omega arith))))
  ]

  -- What a run of the loop has done: it requested the keys of the first `sent` identifiers in order,
  -- in batches of at most a thousand, and on success of all of them.
  pub record IsBulkRun (ids : List String) (w : World Entry W)
      (out : Result (Unit {0}) × World Entry W) : Type 0 where
    pub sent : ℕ
    pub requested : deleted_keys out.1.log ≡ deleted_keys w.log ++ map cache_key (take sent ids)
    pub all_sent : out.0 ≡ ok tt → length ids ≤ sent
    pub bounded : AllBatches batch_size w.log → AllBatches batch_size out.1.log

  none_sent : (ids : List String) (w : World Entry W) → length ids ≤ 0 → IsBulkRun ids w (ok tt, w)
  none_sent ids w h = record {
    sent = 0;
    requested = sym (append-nil (deleted_keys w.log));
    all_sent = λ _. h;
    bounded = λ b. b;
  }

  -- One batch, the first `n` identifiers, and what follows it.
  after_batch-IsBulkRun :
      (n i : ℕ) (ids : List String) (rest : Proc W (Result (Unit {0}))) (r : Result (Unit {0}))
      (w w' : World Entry W)
      → n ≤ batch_size
      → w'.log ≡ cache_delete_batch (map cache_key (take n ids)) ∷ w.log
      → IsBulkRun (drop n ids) w' (rest w')
      → IsBulkRun ids w (after_batch c rest i r w')
  unfolding after_batch
  after_batch-IsBulkRun n i ids rest (ok _) w w' small logged later = record {
    sent = n + later.sent;
    requested =
        later.requested
        ∙ ap (λ l. deleted_keys l ++ map cache_key (take later.sent (drop n ids))) logged
        ∙ append_assoc (deleted_keys w.log) (map cache_key (take n ids))
            (map cache_key (take later.sent (drop n ids)))
        ∙ ap (λ l. deleted_keys w.log ++ l) (sym (keys-take_add n later.sent ids));
    all_sent = λ e. omega (arith, later.all_sent e, length-drop n ids);
    bounded = λ b. later.bounded (rw logged (small_batch n ids small, b));
  }
  after_batch-IsBulkRun n i ids rest (err e) w w' small logged later = record {
    sent = n;
    requested = ap deleted_keys logged;
    all_sent = λ q. cc;
    bounded = λ b. rw logged (small_batch n ids small, b);
  }

  bulk_from-IsBulkRun :
      (fuel i : ℕ) (ids : List String) (w : World Entry W)
      → length ids ≤ i + fuel
      → IsBulkRun (drop i ids) w (bulk_from c fuel i ids w)
  unfolding bulk_from
  bulk_from-IsBulkRun zero i ids w enough =
      none_sent (drop i ids) w (omega (arith, length-drop i ids))
  bulk_from-IsBulkRun (suc fuel) i ids w enough = elim (Bool-cases (ltb i (length ids))) [
    | inr end ↦ rw end (none_sent (drop i ids) w (ground (arith, length-drop i ids)))
    | inl more ↦
        let inside : i < length ids = ltb→lt i (length ids) more in
        rw more (
          after_batch-IsBulkRun (end_of i ids - i) i (drop i ids)
            (bulk_from c fuel (i + batch_size) ids) _ w _ (batch_bounds i ids inside).1 refl
            (rw (← rest_of_batch i ids inside)
              (bulk_from-IsBulkRun fuel (i + batch_size) ids _ (omega arith))))
  ]

  -- `processBulkInvalidation` requests the deletion of the keys of the identifiers in their order,
  -- in batches of one to a thousand. It goes on behind a batch that the cache deletes, and stops
  -- behind the first that fails, with that error, wrapped; without an error every batch was deleted.
  -- What it has requested are the keys of a first part of the identifiers, and of all of them if it
  -- returns no error.
  pub process_bulk_invalidation-IsBulkRun :
      (ids : List String) (w : World Entry W)
      → IsTrace ids w (process_bulk_invalidation c ids w)
        × IsBulkRun ids w (process_bulk_invalidation c ids w)
  unfolding process_bulk_invalidation
  process_bulk_invalidation-IsBulkRun ids w = (
    bulk_from-IsTrace (length ids) 0 ids w (omega arith),
    bulk_from-IsBulkRun (length ids) 0 ids w (omega arith),
  )

  bulk-deletes :
      (ids : List String) (w : World Entry W)
      → (process_bulk_invalidation c ids w).0 ≡ ok tt
      → deleted_keys (process_bulk_invalidation c ids w).1.log
        ≡ deleted_keys w.log ++ map cache_key ids
  bulk-deletes ids w done =
      let (_, run) = process_bulk_invalidation-IsBulkRun ids w in
      run.requested
      ∙ ap (λ l. deleted_keys w.log ++ map cache_key l) (take_all run.sent ids (run.all_sent done))

  by_type :
      (single bulk : Bool) (event : InvalidationEvent) (w : World Entry W)
      → let run =
          if single
          then call
              (cache_delete (cache_key event.investor_id))
              (c.cache.delete (cache_key event.investor_id))
          else if bulk
          then process_bulk_invalidation c event.investor_ids
          else pure (ok tt) in
        (run w).0 ≡ ok tt
        → deleted_keys (run w).1.log
          ≡ deleted_keys w.log
            ++ (if single
                then cache_key event.investor_id ∷ []
                else if bulk
                then map cache_key event.investor_ids
                else [])
  by_type true bulk event w done = refl
  by_type false true event w done = bulk-deletes event.investor_ids w done
  by_type false false event w done = sym (append-nil (deleted_keys w.log))

  -- An event that is processed without an error has requested the deletion of exactly the keys that
  -- it names, in their order: the key of its investor for an update or a delete, the keys of all its
  -- investors for a bulk update, and none for another type.
  pub process_event-deletes :
      (event : InvalidationEvent) (w : World Entry W)
      → (process_event c event w).0 ≡ ok tt
      → deleted_keys (process_event c event w).1.log ≡ deleted_keys w.log ++ keys_of event
  unfolding process_event
  process_event-deletes event =
      by_type (str_eq event.event_type "update" || str_eq event.event_type "delete")
        (str_eq event.event_type "bulk_update") event
