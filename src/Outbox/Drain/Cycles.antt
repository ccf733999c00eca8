-- ===== src/Outbox/Drain/Cycles.antt =====
-- The steps of a healthy relay's cycle.
use mathlib.Core.List.{append_assoc, append-nil}
use investor_cache.Base.{
  String, Bool, true, false, ℤ, List, [], ◌∷◌, ◌++◌, map, ◌≡◌, refl, ap, ◌∙◌, sym, if◌then◌else◌,
}
use investor_cache.Go.{Result, ok, err, World, call, ◌>>=◌}
use investor_cache.Journal.{Entry, publish, commit_tx, sql_count_unpublished}
use investor_cache.Metrics.{record_published}
use investor_cache.Outbox.Events.{Event}
use investor_cache.Outbox.Repository.{wrapped, collect, count_unpublished}
use investor_cache.Outbox.{
  Relay, message_of, counted, with_metrics, refresh_queue_depth, after_commit, commit, after_write,
  publish_from,
}
use investor_cache.Outbox.Publishing.{attempts, ids_of, with_metrics-IsSilent}
use investor_cache.Outbox.Drain.{IsHealthy}

pub map-append :
    (es fs : List Event) → map message_of (es ++ fs) ≡ map message_of es ++ map message_of fs
map-append [] fs = refl
map-append (e ∷ es) fs = ap (λ l. message_of e ∷ l) (map-append es fs)

-- Rows that scan are collected.
pub collect-ok : (es acc : List Event) → collect (map ok es) (ok tt) acc ≡ ok (acc ++ es)
unfolding collect
collect-ok [] acc = ap ok (sym (append-nil acc))
collect-ok (e ∷ es) acc = collect-ok es (acc ++ e ∷ []) ∙ ap ok (append_assoc acc (e ∷ []) es)

module _ {W : Type 0} (r : Relay W) (select : W → Bool × W) (view : W → List Event)
    (h : IsHealthy r select view) where
  -- A step that hands nothing to the writer and leaves the outbox.
  abbrev pub IsStill : World Entry W → World Entry W → Type 0
  IsStill w v = (view v.outside ≡ view w.outside) × (attempts v.log ≡ attempts w.log)

  counted-IsStill : (q : Result ℤ) (w : World Entry W) → IsStill w (counted r q w).1
  counted-IsStill (err e) w = (refl, refl)
  counted-IsStill (ok n) w = (refl, refl)

  behind_count : World Entry W → World Entry W
  behind_count w = record {
    outside = (r.statements.count w.outside).1;
    log = sql_count_unpublished ∷ w.log;
  }

  refresh-IsStill : (w : World Entry W) → IsStill w (refresh_queue_depth r w).1
  unfolding refresh_queue_depth count_unpublished behind_count
  refresh-IsStill w =
      elim r.has_metrics
        as (λ b.
          IsStill w (if b then (count_unpublished r.statements >>= counted r) w else (tt, w)).1) [
            | true ↦
                let (same, quiet) =
                  counted-IsStill (wrapped "count unpublished" (r.statements.count w.outside).0)
                    (behind_count w) in
                (same ∙ h.counts w.outside, quiet)
            | false ↦ (refl, refl)
          ]

  -- A commit puts in the table what the transaction sees, and hands nothing to the writer.
  pub record IsCommitted (w : World Entry W) (out : Result (Unit {0}) × World Entry W)
      : Type 0 where
    pub result : out.0 ≡ ok tt
    pub left : view out.1.outside ≡ h.staged w.outside
    pub quiet : attempts out.1.log ≡ attempts w.log

  pub commit-IsCommitted : (text : String) (w : World Entry W) → IsCommitted w (commit r text w)
  unfolding commit after_commit
  commit-IsCommitted text w =
      let (done, same) = h.commits w.outside in
      let (kept, quiet) =
        refresh-IsStill (record { outside = (r.tx_commit w.outside).1; log = commit_tx ∷ w.log }) in
      rw done (record { result = refl; left = kept ∙ same; quiet = quiet })

  -- The loop sends every event.
  pub record IsAccepted (es : List Event) (ids : List ℤ) (w : World Entry W)
      (out : Result (List ℤ) × World Entry W) : Type 0 where
    pub result : out.0 ≡ ok (ids ++ ids_of es)
    pub kept : h.staged out.1.outside ≡ h.staged w.outside
    pub tried : attempts out.1.log ≡ attempts w.log ++ map message_of es

  abbrev sent : Event → World Entry W → World Entry W
  sent e w = (call (publish (message_of e)) (r.send (message_of e)) w).1

  pub publish_from-IsAccepted :
      (es : List Event) (ids : List ℤ) (w : World Entry W)
      → IsAccepted es ids w (publish_from r es ids w)
  unfolding publish_from after_write
  publish_from-IsAccepted [] ids w = record {
    result = ap ok (sym (append-nil ids));
    kept = refl;
    tried = sym (append-nil (attempts w.log));
  }
  publish_from-IsAccepted (e ∷ es) ids w =
      let (accepted, same) = h.accepts (message_of e) w.outside in
      let (there, tried, _) =
        with_metrics-IsSilent r record_published (sent e w) (refl, refl, refl) in
      let later =
        publish_from-IsAccepted es (ids ++ e.id ∷ [])
          (with_metrics r record_published (sent e w)).1 in
      rw accepted (record {
        result = later.result ∙ ap ok (append_assoc ids (e.id ∷ []) (ids_of es));
        kept = later.kept ∙ ap h.staged there ∙ same;
        tried =
            later.tried
            ∙ ap (λ l. l ++ map message_of es) tried
            ∙ append_assoc (attempts w.log) (message_of e ∷ []) (map message_of es);
      })
