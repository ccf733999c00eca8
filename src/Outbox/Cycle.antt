-- ===== src/Outbox/Cycle.antt =====
-- One cycle of the relay: which events it writes, marks and commits.
use mathlib.Core.List.{append-nil}
use investor_cache.Base.{
  String, true, false, ℤ, List, [], ◌∷◌, ◌++◌, map, take, ◌≡◌, refl, ap, ◌∙◌, sym, if◌then◌else◌,
}
use investor_cache.Go.{Result, ok, err, Error, World, wrap, call, ◌>>=◌}
use investor_cache.Journal.{Entry, begin_tx, rollback_tx, sql_count_unpublished}
use investor_cache.Outbox.Events.{Event}
use investor_cache.Outbox.Repository.{wrapped, fetch_unpublished, mark_published, count_unpublished}
use investor_cache.Outbox.{
  publish_from, Relay, message_of, counted, refresh_queue_depth, roll_back, after_commit, commit,
  after_mark, after_publishing, after_fetch, after_begin, run_cycle,
}
use investor_cache.Outbox.Publishing.{
  marked, attempts, ids_of, Sends, no_event, IsRefused, IsPublished, published, cancelled,
  publish_from-IsPublished,
}

module _ {W : Type 0} (r : Relay W) where
  -- The identifiers are marked, and the transaction is committed behind it.
  abbrev pub HasCommitted : List ℤ → World Entry W → Type 0
  HasCommitted ids w =
      ((mark_published r.statements ids w).0 ≡ ok tt)
      × ((r.tx_commit (mark_published r.statements ids w).1.outside).0 ≡ ok tt)

  -- The batch of a cycle, and the world behind its fetch; the world behind the loop over it.
  abbrev pub fetched : World Entry W → Result (List Event) × World Entry W
  fetched w = fetch_unpublished r.statements r.batch_size (call begin_tx r.begin w).1

  abbrev pub behind_loop : List Event → World Entry W → World Entry W
  behind_loop events w = (publish_from r events [] (fetched w).1).1

  -- One cycle. It returns nil only as `relayed`; otherwise the transaction never began, or the last
  -- thing the cycle does is to roll it back.
  pub data IsCycle (w : World Entry W) (out : Result (Unit {0}) × World Entry W) : Type 0 where
    relayed :
        (events sent rest : List Event) {v : W}
        → (fetched w).0 ≡ ok events
        → events ≡ sent ++ rest
        → Sends r (fetched w).1.outside sent v
        → IsRefused r v rest
        → HasCommitted (ids_of sent) (behind_loop events w)
        → out.0 ≡ ok tt
        → attempts out.1.log ≡ attempts w.log ++ map message_of (sent ++ take 1 rest)
        → marked out.1.log ≡ marked w.log ++ ids_of sent
        → IsCycle w out
    not_begun : (e : Error) → out.0 ≡ err e → out.1.log ≡ begin_tx ∷ w.log → IsCycle w out
    rolled_back :
        (e : Error) (earlier : List Entry)
        → out.0 ≡ err e
        → out.1.log ≡ rollback_tx ∷ earlier
        → IsCycle w out

  -- The end of a transaction in which `ids` are still to be marked.
  data IsEnding (ids : List ℤ) (w : World Entry W) (out : Result (Unit {0}) × World Entry W)
      : Type 0 where
    ended :
        HasCommitted ids w
        → out.0 ≡ ok tt
        → attempts out.1.log ≡ attempts w.log
        → marked out.1.log ≡ marked w.log ++ ids
        → IsEnding ids w out
    undone :
        (e : Error) (earlier : List Entry)
        → out.0 ≡ err e
        → out.1.log ≡ rollback_tx ∷ earlier
        → IsEnding ids w out

  counted_lem :
      (q : Result ℤ) (w : World Entry W)
      → (attempts (counted r q w).1.log ≡ attempts w.log)
        × (marked (counted r q w).1.log ≡ marked w.log)
  counted_lem (err e) w = (refl, refl)
  counted_lem (ok n) w = (refl, refl)

  refresh_lem :
      (w : World Entry W)
      → (attempts (refresh_queue_depth r w).1.log ≡ attempts w.log)
        × (marked (refresh_queue_depth r w).1.log ≡ marked w.log)
  unfolding refresh_queue_depth count_unpublished
  refresh_lem w =
      elim r.has_metrics
        as (λ b.
          (attempts (if b then (count_unpublished r.statements >>= counted r) w else (tt, w)).1.log
            ≡ attempts w.log)
          × (marked (if b then (count_unpublished r.statements >>= counted r) w else (tt, w)).1.log
              ≡ marked w.log)) [
                | true ↦
                    counted_lem (wrapped "count unpublished" (r.statements.count w.outside).0)
                      (record {
                        outside = (r.statements.count w.outside).1;
                        log = sql_count_unpublished ∷ w.log;
                      })
                | false ↦ (refl, refl)
              ]

  after_commit-IsEnding :
      (text : String) (q : Result (Unit {0})) (w w' : World Entry W)
      → (r.tx_commit w.outside).0 ≡ q
      → attempts w'.log ≡ attempts w.log
      → marked w'.log ≡ marked w.log
      → IsEnding [] w (after_commit r text q w')
  unfolding after_commit roll_back mark_published
  after_commit-IsEnding text (err e) w w' h tried same = undone (wrap text e) w'.log refl refl
  after_commit-IsEnding text (ok _) w w' h tried same =
      let (tried', same') = refresh_lem w' in
      ended (refl, h) refl (tried' ∙ tried) (same' ∙ same ∙ sym (append-nil (marked w.log)))

  commit-IsEnding : (text : String) (w : World Entry W) → IsEnding [] w (commit r text w)
  unfolding commit
  commit-IsEnding text w = after_commit-IsEnding text _ w _ refl refl refl

  marked-IsEnding :
      (ids : List ℤ) (w w' : World Entry W) (out : Result (Unit {0}) × World Entry W)
      → (mark_published r.statements ids w).0 ≡ ok tt
      → (mark_published r.statements ids w).1.outside ≡ w'.outside
      → attempts w'.log ≡ attempts w.log
      → marked w'.log ≡ marked w.log ++ ids
      → IsEnding [] w' out
      → IsEnding ids w out
  unfolding mark_published
  marked-IsEnding ids w w' out done there tried marks (ended h result tried' marks') =
      ended (done, rw there h.1) result (tried' ∙ tried)
        (marks' ∙ append-nil (marked w'.log) ∙ marks)
  marked-IsEnding ids w w' out done there tried marks (undone e earlier result last) =
      undone e earlier result last

  after_mark-IsEnding :
      (ids : List ℤ) (q : Result (Unit {0})) (w w' : World Entry W)
      → (mark_published r.statements ids w).0 ≡ q
      → (mark_published r.statements ids w).1.outside ≡ w'.outside
      → attempts w'.log ≡ attempts w.log
      → marked w'.log ≡ marked w.log ++ ids
      → IsEnding ids w (after_mark r q w')
  unfolding after_mark roll_back
  after_mark-IsEnding ids (err e) w w' done there tried marks = undone e w'.log refl refl
  after_mark-IsEnding ids (ok _) w w' done there tried marks =
      marked-IsEnding ids w w' _ done there tried marks (commit-IsEnding "commit publish cycle" w')

  mark_published-IsEnding :
      (ids : List ℤ) (w : World Entry W) → IsEnding ids w (after_publishing r (ok ids) w)
  unfolding after_publishing mark_published
  mark_published-IsEnding [] w = after_mark-IsEnding [] _ w w refl refl refl (sym (append-nil _))
  mark_published-IsEnding (i ∷ ids) w = after_mark-IsEnding (i ∷ ids) _ w _ refl refl refl refl

  -- Behind the fetch.
  module _ (w : World Entry W) (tried : attempts (fetched w).1.log ≡ attempts w.log)
      (unmarked : marked (fetched w).1.log ≡ marked w.log) where
    ending-IsCycle :
        (events sent rest : List Event) {v : W} (out : Result (Unit {0}) × World Entry W)
        → (fetched w).0 ≡ ok events
        → events ≡ sent ++ rest
        → Sends r (fetched w).1.outside sent v
        → IsRefused r v rest
        → attempts (behind_loop events w).log
          ≡ attempts (fetched w).1.log ++ map message_of (sent ++ take 1 rest)
        → marked (behind_loop events w).log ≡ marked (fetched w).1.log
        → IsEnding (ids_of sent) (behind_loop events w) out
        → IsCycle w out
    ending-IsCycle events sent rest out got split chain refused tried' same
          (ended h result tried'' marks) =
        relayed events sent rest got split chain refused h result
          (tried'' ∙ tried' ∙ ap (λ l. l ++ map message_of (sent ++ take 1 rest)) tried)
          (marks ∙ ap (λ l. l ++ ids_of sent) (same ∙ unmarked))
    ending-IsCycle events sent rest out got split chain refused tried' same
          (undone e earlier result last) =
        rolled_back e earlier result last

    published-IsCycle :
        (events : List Event)
        → (fetched w).0 ≡ ok events
        → IsPublished r events [] (fetched w).1 (publish_from r events [] (fetched w).1)
        → IsCycle w ((publish_from r events [] >>= after_publishing r) (fetched w).1)
    unfolding after_publishing roll_back
    published-IsCycle events got (published sent rest split chain refused result more same) =
        rw result (
          ending-IsCycle events sent rest _ got split chain refused more same
            (mark_published-IsEnding (ids_of sent) (behind_loop events w)))
    published-IsCycle events got (cancelled x result) = rw result (rolled_back x _ refl refl)

    after_fetch-IsCycle :
        (q : Result (List Event)) → (fetched w).0 ≡ q → IsCycle w (after_fetch r q (fetched w).1)
    unfolding after_fetch roll_back publish_from
    after_fetch-IsCycle (err e) got = rolled_back e _ refl refl
    after_fetch-IsCycle (ok []) got =
        ending-IsCycle [] [] [] _ got refl no_event tt
          (sym (append-nil (attempts (fetched w).1.log))) refl
          (commit-IsEnding "commit empty cycle" (fetched w).1)
    after_fetch-IsCycle (ok (e ∷ es)) got =
        published-IsCycle (e ∷ es) got (publish_from-IsPublished r (e ∷ es) [] (fetched w).1)

  after_begin-IsCycle :
      (q : Result (Unit {0})) (w : World Entry W)
      → IsCycle w (after_begin r q (call begin_tx r.begin w).1)
  unfolding after_begin fetch_unpublished
  after_begin-IsCycle (err e) w = not_begun (wrap "begin tx" e) refl refl
  after_begin-IsCycle (ok _) w = after_fetch-IsCycle w refl refl _ refl

  -- A cycle that returns nil has fetched a batch, handed its events to the writer in their order up
  -- to the first one that was refused, marked exactly the accepted ones, and committed. Any other
  -- cycle returns an error, and its transaction was never begun or the cycle's last request is its
  -- rollback.
  pub run_cycle-IsCycle : (w : World Entry W) → IsCycle w (run_cycle r w)
  unfolding run_cycle
  run_cycle-IsCycle w = after_begin-IsCycle _ w
