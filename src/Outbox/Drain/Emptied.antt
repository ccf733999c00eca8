-- ===== src/Outbox/Drain/Emptied.antt =====
-- The rounds of `Run` of a healthy relay.
use mathlib.Core.List.{append_assoc, append-nil}
use investor_cache.Base.{
  Bool, ℕ, zero, suc, ◌*◌, ◌≤◌, ℤ, pos, List, [], ◌∷◌, ◌++◌, map, take, drop, length, none,
  take-append-drop, length-drop, drop_all, ◌≡◌, refl, ap, subst, ◌∙◌, sym, arith,
}
use investor_cache.Go.{Result, ok, World}
use investor_cache.Journal.{Entry, begin_tx, sql_fetch_unpublished}
use investor_cache.Outbox.Events.{Event}
use investor_cache.Outbox.Repository.{wrapped, fetch_unpublished, mark_published}
use investor_cache.Outbox.{
  Relay, message_of, publish_from, after_mark, after_publishing, after_fetch, after_begin,
  run_cycle, run,
}
use investor_cache.Outbox.Publishing.{attempts, ids_of}
use investor_cache.Outbox.Drain.{without, IsDistinct, IsHealthy}
use investor_cache.Outbox.Drain.Batch.{without_none, without-take, drop-IsDistinct}
use investor_cache.Outbox.Drain.Cycles.{
  map-append, collect-ok, commit-IsCommitted, publish_from-IsAccepted,
}

module _ {W : Type 0} (r : Relay W) (select : W → Bool × W) (view : W → List Event)
    (h : IsHealthy r select view) where
  -- It ends well, `look` sees what there was without the listed events, and `es` were sent.
  record IsDrained (es : List Event) (ids : List ℤ) (look : W → List Event) (before : List Event)
      (w : World Entry W) (out : Result (Unit {0}) × World Entry W) : Type 0 where
    pub result : out.0 ≡ ok tt
    pub left : look out.1.outside ≡ without ids before
    pub tried : attempts out.1.log ≡ attempts w.log ++ map message_of es

  mark_published-IsDrained :
      (ids : List ℤ) (w : World Entry W)
      → IsDrained [] ids h.staged (h.staged w.outside) w (mark_published r.statements ids w)
  unfolding mark_published
  mark_published-IsDrained [] w = record {
    result = refl;
    left = sym (without_none (h.staged w.outside));
    tried = sym (append-nil (attempts w.log));
  }
  mark_published-IsDrained (i ∷ ids) w =
      let (done, left) = h.updates (i ∷ ids) w.outside in
      record {
        result = ap (wrapped "mark outbox published") done;
        left = left;
        tried = sym (append-nil (attempts w.log));
      }

  after_publishing-IsDrained :
      (ids : List ℤ) (w : World Entry W)
      → IsDrained [] ids view (h.staged w.outside) w (after_publishing r (ok ids) w)
  unfolding after_publishing after_mark
  after_publishing-IsDrained ids w =
      let m = mark_published-IsDrained ids w in
      let c =
        commit-IsCommitted r select view h "commit publish cycle"
          (mark_published r.statements ids w).1 in
      rw m.result (record { result = c.result; left = c.left ∙ m.left; tried = c.quiet ∙ m.tried })

  after_fetch-IsDrained :
      (es : List Event) (w : World Entry W)
      → IsDrained es (ids_of es) view (h.staged w.outside) w (after_fetch r (ok es) w)
  unfolding after_fetch
  after_fetch-IsDrained [] w =
      let c = commit-IsCommitted r select view h "commit empty cycle" w in
      record {
        result = c.result;
        left = c.left ∙ sym (without_none (h.staged w.outside));
        tried = c.quiet ∙ sym (append-nil (attempts w.log));
      }
  after_fetch-IsDrained (e ∷ es) w =
      let a = publish_from-IsAccepted r select view h (e ∷ es) [] w in
      let d = after_publishing-IsDrained (ids_of (e ∷ es)) (publish_from r (e ∷ es) [] w).1 in
      rw a.result (record {
        result = d.result;
        left = d.left ∙ ap (without (ids_of (e ∷ es))) a.kept;
        tried = d.tried ∙ append-nil _ ∙ a.tried;
      })

  module _ (n : ℕ) (size : r.batch_size ≡ pos n) where
    query_lem :
        (w : W)
        → ((r.statements.select_unpublished r.batch_size w).0
            ≡ ok (record { scans = map ok (take n (h.staged w)); last_error = ok tt }))
          × (h.staged (r.statements.select_unpublished r.batch_size w).1 ≡ h.staged w)
    query_lem w =
        subst
          (λ b.
            ((r.statements.select_unpublished b w).0
              ≡ ok (record { scans = map ok (take n (h.staged w)); last_error = ok tt }))
            × (h.staged (r.statements.select_unpublished b w).1 ≡ h.staged w))
          (sym size) (h.selects n w)

    -- The world behind the query of a cycle.
    abbrev behind_query : World Entry W → World Entry W
    behind_query w = record {
      outside = (r.statements.select_unpublished r.batch_size (r.begin w.outside).1).1;
      log = sql_fetch_unpublished r.batch_size ∷ begin_tx ∷ w.log;
    }

    run_cycle-IsDrained :
        (w : World Entry W)
        → IsDrained
            (take n (view w.outside))
            (ids_of (take n (view w.outside)))
            view
            (view w.outside)
            w
            (run_cycle r w)
    unfolding run_cycle after_begin fetch_unpublished
    run_cycle-IsDrained w =
        let (begun, same) = h.begins w.outside in
        let (selected, same') = query_lem (r.begin w.outside).1 in
        let d = after_fetch-IsDrained (take n (view w.outside)) (behind_query w) in
        rw (begun, selected, same, collect-ok (take n (view w.outside)) [])
          (record {
            result = d.result;
            left = d.left ∙ ap (without (ids_of (take n (view w.outside)))) (same' ∙ same);
            tried = d.tried;
          })

    -- A round leaves the events behind the batch.
    drop_round :
        (w : World Entry W)
        → IsDistinct (view w.outside)
        → view (run_cycle r w).1.outside ≡ drop n (view w.outside)
    drop_round w distinct = (run_cycle-IsDrained w).left ∙ without-take n (view w.outside) distinct

    -- The world behind the wait for a tick.
    abbrev ticked : World Entry W → World Entry W
    ticked w = record w { outside = (select w.outside).1 }

    -- For a relay whose database answers, whose writer accepts and whose `select` sees ticks alone,
    -- and an outbox to which nobody adds and in which no identifier occurs twice: as many rounds of
    -- `Run` as cover the unpublished events with batches leave none of them unpublished in the
    -- committed table, have handed the message of each to the writer, once and in the table's order,
    -- and `Run` goes on.
    pub run-drains :
        (rounds : ℕ) (w : World Entry W)
        → IsDistinct (view w.outside)
        → length (view w.outside) ≤ rounds * n
        → ((run r select rounds w).0 ≡ none)
          × (view (run r select rounds w).1.outside ≡ [])
          × (attempts (run r select rounds w).1.log
              ≡ attempts w.log ++ map message_of (view w.outside))
    unfolding run
    run-drains zero w distinct enough =
        let empty : view w.outside ≡ [] = drop_all 0 (view w.outside) (omega arith) in
        (refl, empty, sym (ap (λ es. attempts w.log ++ map message_of es) empty ∙ append-nil _))
    run-drains (suc rounds) w distinct enough =
        let (tick, same) = h.ticks w.outside in
        let v = (run_cycle r (ticked w)).1 in
        let cycle = run_cycle-IsDrained (ticked w) in
        let left : view v.outside ≡ drop n (view w.outside) =
          drop_round (ticked w) (subst IsDistinct (sym same) distinct) ∙ ap (drop n) same in
        let few : length (view v.outside) ≤ rounds * n =
          rw left (omega (arith, length-drop n (view w.outside), enough)) in
        let (running, none_left, tried) =
          run-drains rounds v (rw left (drop-IsDistinct n (view w.outside) distinct)) few in
        rw tick (
          running,
          none_left,
          tried
              ∙ ap (λ es. attempts v.log ++ map message_of es) left
              ∙ ap (λ l. l ++ map message_of (drop n (view w.outside)))
                  (cycle.tried ∙ ap (λ es. attempts w.log ++ map message_of (take n es)) same)
              ∙ append_assoc (attempts w.log) (map message_of (take n (view w.outside)))
                  (map message_of (drop n (view w.outside)))
              ∙ ap (λ l. attempts w.log ++ l)
                  (sym (map-append (take n (view w.outside)) (drop n (view w.outside)))
                    ∙ ap (map message_of) (take-append-drop n (view w.outside))),
        )
