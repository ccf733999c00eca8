-- ===== src/Outbox/Publishing.antt =====
-- The relay's loop over the events of a batch.
use mathlib.Core.List.{append_assoc, append-nil}
use investor_cache.Base.{
  true, false, ℤ, List, [], ◌∷◌, ◌++◌, map, take, ◌≡◌, refl, ap, ◌∙◌, sym, inl, inr, Bool-cases,
  if◌then◌else◌,
}
use investor_cache.Go.{Result, ok, err, Error, World, errors_is, canceled}
use investor_cache.Journal.{Proc, Entry, Message, sql_mark_published, sql_record_error, publish}
use investor_cache.Metrics.{record_published, record_publish_error}
use investor_cache.Outbox.Events.{Event}
use investor_cache.Outbox.Repository.{record_error}
use investor_cache.Outbox.{Relay, message_of, with_metrics, after_write, publish_from}

-- The identifiers whose marking was requested, and the messages that were handed to the writer, in
-- the order of the requests.
abbrev pub marked : List Entry → List ℤ
marked [] = []
marked (sql_mark_published ids ∷ es) = marked es ++ ids
marked (_ ∷ es) = marked es

abbrev pub attempts : List Entry → List Message
attempts [] = []
attempts (publish msg ∷ es) = attempts es ++ msg ∷ []
attempts (_ ∷ es) = attempts es

abbrev pub ids_of : List Event → List ℤ
ids_of [] = []
ids_of (e ∷ es) = e.id ∷ ids_of es

module _ {W : Type 0} (r : Relay W) where
  -- The writer accepts the events' messages one after the other, each in the world that the one
  -- before it left.
  pub data Sends : W → List Event → W → Type 0 where
    no_event : {w : W} → Sends w [] w
    sends :
        {w v : W} {e : Event} {es : List Event}
        → (r.send (message_of e) w).0 ≡ ok tt
        → Sends (r.send (message_of e) w).1 es v
        → Sends w (e ∷ es) v

  -- The writer refuses the first of the events, if there is one.
  abbrev pub IsRefused : W → List Event → Type 0
  IsRefused v [] = Unit {0}
  IsRefused v (e ∷ es) = (x : Error) × ((r.send (message_of e) v).0 ≡ err x)

  -- The loop over the events: it stops behind the first message that is refused, or by cancellation.
  pub data IsPublished (events : List Event) (ids : List ℤ) (w : World Entry W)
      (out : Result (List ℤ) × World Entry W) : Type 0 where
    published :
        (sent rest : List Event) {v : W}
        → events ≡ sent ++ rest
        → Sends w.outside sent v
        → IsRefused v rest
        → out.0 ≡ ok (ids ++ ids_of sent)
        → attempts out.1.log ≡ attempts w.log ++ map message_of (sent ++ take 1 rest)
        → marked out.1.log ≡ marked w.log
        → IsPublished events ids w out
    cancelled : (x : Error) → out.0 ≡ err x → IsPublished events ids w out

  abbrev written : Event → World Entry W → World Entry W
  written e w = record {
    outside = (r.send (message_of e) w.outside).1;
    log = publish (message_of e) ∷ w.log;
  }

  -- The error of the write is recorded.
  abbrev recorded : Event → Error → World Entry W → World Entry W
  recorded e x w = record {
    outside = (r.statements.update_error e.id (r.error_text x) (written e w).outside).1;
    log = sql_record_error e.id ∷ (written e w).log;
  }

  -- A step of metrics alone.
  abbrev pub IsSilent : World Entry W → World Entry W → Type 0
  IsSilent w w' =
      (w'.outside ≡ w.outside) × (attempts w'.log ≡ attempts w.log) × (marked w'.log ≡ marked w.log)

  pub with_metrics-IsSilent :
      (m : Proc W (Unit {0})) (w : World Entry W)
      → IsSilent w (m w).1
      → IsSilent w (with_metrics r m w).1
  with_metrics-IsSilent m w h =
      elim r.has_metrics as (λ b. IsSilent w (if b then m w else (tt, w)).1) [
        | true ↦ h
        | false ↦ (refl, refl, refl)
      ]

  first-IsPublished :
      (e : Event) (es : List Event) (ids : List ℤ) (w w2 : World Entry W)
      (out : Result (List ℤ) × World Entry W)
      → (r.send (message_of e) w.outside).0 ≡ ok tt
      → w2.outside ≡ (r.send (message_of e) w.outside).1
      → attempts w2.log ≡ attempts w.log ++ message_of e ∷ []
      → marked w2.log ≡ marked w.log
      → IsPublished es (ids ++ e.id ∷ []) w2 out
      → IsPublished (e ∷ es) ids w out
  first-IsPublished e es ids w w2 out accepted there tried same
        (published sent rest {v} split chain refused result more quiet) =
      published (e ∷ sent) rest (ap (λ l. e ∷ l) split) (sends accepted (rw (← there) chain))
        refused (result ∙ ap ok (append_assoc ids (e.id ∷ []) (ids_of sent)))
        (more
          ∙ ap (λ l. l ++ map message_of (sent ++ take 1 rest)) tried
          ∙ append_assoc (attempts w.log) (message_of e ∷ [])
              (map message_of (sent ++ take 1 rest)))
        (quiet ∙ same)
  first-IsPublished e es ids w w2 out accepted there tried same (cancelled x result) =
      cancelled x result

  after_write-IsPublished :
      (e : Event) (es : List Event) (ids : List ℤ) (q : Result (Unit {0})) (w : World Entry W)
      → (r.send (message_of e) w.outside).0 ≡ q
      → ((ids' : List ℤ) (w' : World Entry W) → IsPublished es ids' w' (publish_from r es ids' w'))
      → IsPublished (e ∷ es) ids w (after_write r (publish_from r es) e ids q (written e w))
  unfolding after_write record_error
  after_write-IsPublished e es ids (ok _) w h later =
      let (there, tried, same) =
        with_metrics-IsSilent record_published (written e w) (refl, refl, refl) in
      first-IsPublished e es ids w _ _ h there tried same (later _ _)
  after_write-IsPublished e es ids (err x) w h later =
      let (there, tried, same) =
        with_metrics-IsSilent record_publish_error (recorded e x w) (refl, refl, refl) in
      elim (Bool-cases (errors_is x canceled)) [
        | inl t ↦ rw t (cancelled x refl)
        | inr t ↦
            rw t
              (published [] (e ∷ es) refl no_event (x, h) (ap ok (sym (append-nil ids))) tried same)
      ]

  pub publish_from-IsPublished :
      (events : List Event) (ids : List ℤ) (w : World Entry W)
      → IsPublished events ids w (publish_from r events ids w)
  unfolding publish_from
  publish_from-IsPublished [] ids w =
      published [] [] refl no_event tt (ap ok (sym (append-nil ids)))
        (sym (append-nil (attempts w.log))) refl
  publish_from-IsPublished (e ∷ es) ids w =
      after_write-IsPublished e es ids _ w refl (publish_from-IsPublished es)
