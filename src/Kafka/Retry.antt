-- ===== src/Kafka/Retry.antt =====
-- `handleFailure`: the attempts, their waits, and what becomes of the message.
use mathlib.Core.List.{append_assoc}
use investor_cache.Base.{
  String, Bool, true, false, ℕ, suc, zero, ◌+◌, ◌*◌, ◌≤◌, List, [], ◌∷◌, ◌++◌, ◌≡◌, refl, ap, ◌∙◌,
  sym, arith, inl, inr, Bool-cases, ltb, length, if◌then◌else◌,
}
use investor_cache.Go.{Result, ok, err, Error, World, pure}
use investor_cache.Journal.{Proc, Entry, Message, sleep, dlq_write}
use investor_cache.Kafka.{
  InvalidationConsumer, after_batch, after_attempt, after_letter, bulk_from,
  process_bulk_invalidation, process_event, retry_from, dead_letter, send_to_dlq, handle_failure,
}
use investor_cache.Kafka.Event.{InvalidationEvent}
use investor_cache.Kafka.Trace.{commits, dead_letters, waits}

-- The waits of so many attempts, newest first: each is twice the one before.
abbrev pub backoffs : ℕ → ℕ → List ℕ
backoffs zero d = []
backoffs (suc n) d = backoffs n (d * 2) ++ d ∷ []

module _ {W : Type 0} (c : InvalidationConsumer W) where
  -- A step that commits nothing, sends no dead letter and does not sleep.
  abbrev pub IsQuiet : World Entry W → World Entry W → Type 0
  IsQuiet w w' =
      (commits w'.log ≡ commits w.log)
      × (dead_letters w'.log ≡ dead_letters w.log)
      × (waits w'.log ≡ waits w.log)

  after_batch-IsQuiet :
      (rest : Proc W (Result (Unit {0}))) (i : ℕ) (r : Result (Unit {0})) (w w' : World Entry W)
      → IsQuiet w w'
      → IsQuiet w' (rest w').1
      → IsQuiet w (after_batch c rest i r w').1
  unfolding after_batch
  after_batch-IsQuiet rest i (ok _) w w' h k = (k.0 ∙ h.0, k.1 ∙ h.1, k.2 ∙ h.2)
  after_batch-IsQuiet rest i (err e) w w' h k = h

  bulk_from-IsQuiet :
      (fuel i : ℕ) (ids : List String) (w : World Entry W) → IsQuiet w (bulk_from c fuel i ids w).1
  unfolding bulk_from
  bulk_from-IsQuiet zero i ids w = (refl, refl, refl)
  bulk_from-IsQuiet (suc fuel) i ids w = elim (Bool-cases (ltb i (length ids))) [
    | inl t ↦ rw t (
        after_batch-IsQuiet (bulk_from c fuel _ ids) i _ w _ (refl, refl, refl)
          (bulk_from-IsQuiet fuel _ ids _))
    | inr t ↦ rw t (refl, refl, refl)
  ]

  pub process_event-IsQuiet :
      (event : InvalidationEvent) (w : World Entry W) → IsQuiet w (process_event c event w).1
  unfolding process_event process_bulk_invalidation
  process_event-IsQuiet event w =
      ground (arith, bulk_from-IsQuiet (length event.investor_ids) 0 event.investor_ids w)

  -- The world of an attempt, behind its wait.
  abbrev pub slept : ℕ → World Entry W → World Entry W
  slept d w = record w { log = sleep d ∷ w.log }

  -- So many attempts in a row that failed, the first behind a wait of `d`.
  pub data AllFailed (event : InvalidationEvent)
      : ℕ → ℕ → World Entry W → World Entry W → Type 0 where
    no_attempt : {d : ℕ} {w : World Entry W} → AllFailed event 0 d w w
    attempt_failed :
        {n d : ℕ} {w v : World Entry W} (e : Error)
        → (process_event c event (slept d w)).0 ≡ err e
        → AllFailed event n (d * 2) (process_event c event (slept d w)).1 v
        → AllFailed event (suc n) d w v

  -- The wait before the attempt behind so many.
  abbrev pub wait_of : ℕ → ℕ → ℕ
  wait_of zero d = d
  wait_of (suc n) d = wait_of n (d * 2)

  -- The end of the loop over the attempts: after at most `left` waits one attempt succeeded, and the
  -- message was committed once; or all failed, and nothing was committed.
  pub record IsRetryRun (left backoff : ℕ) (msg : Message) (event : InvalidationEvent)
      (w : World Entry W) (out : Bool × World Entry W) : Type 0 where
    pub tries : ℕ
    pub waited : waits out.1.log ≡ backoffs tries backoff ++ waits w.log
    pub quiet : dead_letters out.1.log ≡ dead_letters w.log
    pub success :
        out.0 ≡ true
        → (tries ≤ left)
          × (commits out.1.log ≡ msg ∷ commits w.log)
          × ((n : ℕ) × (at : World Entry W) × (tries ≡ suc n)
              × AllFailed event n backoff w at
              × ((process_event c event (slept (wait_of n backoff) at)).0 ≡ ok tt))
    pub failure :
        out.0 ≡ false
        → (tries ≡ left)
          × (commits out.1.log ≡ commits w.log)
          × AllFailed event left backoff w out.1

  after_attempt-IsRetryRun :
      (left attempt backoff : ℕ) (msg : Message) (event : InvalidationEvent) (rest : Proc W Bool)
      (r : Result (Unit {0})) (w : World Entry W)
      → (process_event c event (slept backoff w)).0 ≡ r
      → IsRetryRun left
          (backoff * 2)
          msg
          event
          (process_event c event (slept backoff w)).1
          (rest (process_event c event (slept backoff w)).1)
      → IsRetryRun
          (suc left)
          backoff
          msg
          event
          w
          (after_attempt c rest attempt msg r (process_event c event (slept backoff w)).1)
  unfolding after_attempt
  after_attempt-IsRetryRun left attempt backoff msg event rest (ok tt) w ran later =
      let quiet = process_event-IsQuiet event (slept backoff w) in
      record {
        tries = 1;
        waited = quiet.2;
        quiet = quiet.1;
        success = λ _. (omega arith, ap (λ l. msg ∷ l) quiet.0, (0, w, refl, no_attempt, ran));
        failure = λ e. cc;
      }
  after_attempt-IsRetryRun left attempt backoff msg event rest (err e) w ran later =
      let quiet = process_event-IsQuiet event (slept backoff w) in
      record {
        tries = suc later.tries;
        waited =
            later.waited
            ∙ ap (λ l. backoffs later.tries (backoff * 2) ++ l) quiet.2
            ∙ sym (append_assoc (backoffs later.tries (backoff * 2)) (backoff ∷ []) (waits w.log));
        quiet = later.quiet ∙ quiet.1;
        success = λ t.
            let (few, committed, (n, at, count, bad, good)) = later.success t in
            (
              omega (arith, few),
              committed ∙ ap (λ l. msg ∷ l) quiet.0,
              (suc n, at, ap suc count, attempt_failed e ran bad, good),
            );
        failure = λ f.
            let (all, none_committed, bad) = later.failure f in
            (ap suc all, none_committed ∙ quiet.0, attempt_failed e ran bad);
      }

  pub retry_from-IsRetryRun :
      (left attempt backoff : ℕ) (msg : Message) (event : InvalidationEvent) (w : World Entry W)
      → IsRetryRun left backoff msg event w (retry_from c left attempt backoff msg event w)
  unfolding retry_from
  retry_from-IsRetryRun zero attempt backoff msg event w = record {
    tries = 0;
    waited = refl;
    quiet = refl;
    success = λ e. cc;
    failure = λ _. (refl, refl, no_attempt);
  }
  retry_from-IsRetryRun (suc left) attempt backoff msg event w =
      after_attempt-IsRetryRun left attempt backoff msg event
        (retry_from c left (attempt + 1) (backoff * 2) msg event) _ w refl
        (retry_from-IsRetryRun left (attempt + 1) (backoff * 2) msg event _)

  -- What becomes of a message whose first attempt failed with `e`.
  pub data IsSettled (msg : Message) (event : InvalidationEvent) (e : Error) (w w' : World Entry W)
      : Type 0 where
    -- Some of at most five more attempts failed and the next succeeded; the message is committed,
    -- once.
    retried :
        (tries n : ℕ) (at : World Entry W)
        → tries ≤ 5
        → waits w'.log ≡ backoffs tries 100_000_000 ++ waits w.log
        → tries ≡ suc n
        → AllFailed event n 100_000_000 w at
        → (process_event c event (slept (wait_of n 100_000_000) at)).0 ≡ ok tt
        → commits w'.log ≡ msg ∷ commits w.log
        → dead_letters w'.log ≡ dead_letters w.log
        → IsSettled msg event e w w'
    -- All of five more attempts failed; it went to the dead letter topic, and is committed, once.
    dead_lettered :
        (at : World Entry W)
        → waits w'.log ≡ backoffs 5 100_000_000 ++ waits w.log
        → AllFailed event 5 100_000_000 w at
        → (c.dlq_send (dead_letter c msg e) at.outside).0 ≡ ok tt
        → commits w'.log ≡ msg ∷ commits w.log
        → dead_letters w'.log ≡ dead_letter c msg e ∷ dead_letters w.log
        → IsSettled msg event e w w'
    -- All of them failed, and the dead letter topic refused it too: it is not committed.
    unsettled :
        (at : World Entry W) (x : Error)
        → waits w'.log ≡ backoffs 5 100_000_000 ++ waits w.log
        → AllFailed event 5 100_000_000 w at
        → (c.dlq_send (dead_letter c msg e) at.outside).0 ≡ err x
        → commits w'.log ≡ commits w.log
        → dead_letters w'.log ≡ dead_letter c msg e ∷ dead_letters w.log
        → IsSettled msg event e w w'

  after_letter-IsSettled :
      (msg : Message) (event : InvalidationEvent) (e : Error) (r : Result (Unit {0}))
      (w w1 w2 : World Entry W)
      → r ≡ (c.dlq_send (dead_letter c msg e) w1.outside).0
      → w2.log ≡ dlq_write (dead_letter c msg e) ∷ w1.log
      → waits w1.log ≡ backoffs 5 100_000_000 ++ waits w.log
      → commits w1.log ≡ commits w.log
      → dead_letters w1.log ≡ dead_letters w.log
      → AllFailed event 5 100_000_000 w w1
      → IsSettled msg event e w (after_letter c msg r w2).1
  unfolding after_letter
  after_letter-IsSettled msg event e (ok tt) w w1 w2 ran logged waited committed letters bad =
      dead_lettered w1 (ap waits logged ∙ waited) bad (sym ran)
        (ap (λ l. msg ∷ l) (ap commits logged ∙ committed))
        (ap dead_letters logged ∙ ap (λ l. dead_letter c msg e ∷ l) letters)
  after_letter-IsSettled msg event e (err x) w w1 w2 ran logged waited committed letters bad =
      unsettled w1 x (ap waits logged ∙ waited) bad (sym ran) (ap commits logged ∙ committed)
        (ap dead_letters logged ∙ ap (λ l. dead_letter c msg e ∷ l) letters)

  settle :
      (msg : Message) (event : InvalidationEvent) (e : Error) (b : Bool) (w w1 : World Entry W)
      → IsRetryRun 5 100_000_000 msg event w (b, w1)
      → IsSettled msg event e w ((if b then pure tt else send_to_dlq c msg e) w1).1
  unfolding send_to_dlq
  settle msg event e true w w1 run =
      let (few, committed, (n, at, count, bad, good)) = run.success refl in
      retried run.tries n at few run.waited count bad good committed run.quiet
  settle msg event e false w w1 run =
      let (all, committed, bad) = run.failure refl in
      after_letter-IsSettled msg event e _ w w1 _ refl refl
        (run.waited ∙ ap (λ (n : ℕ). backoffs n 100_000_000 ++ waits w.log) all) committed run.quiet
        bad

  -- Every message whose processing fails is settled: retried with success, dead-lettered, or left
  -- uncommitted. It is dead-lettered or left uncommitted only where five more attempts, behind waits
  -- that begin at 100 ms and double, all failed, and left uncommitted only where the dead letter
  -- topic refused it too; it is retried with success where fewer failed and the next succeeded. No
  -- branch commits twice.
  pub handle_failure-IsSettled :
      (msg : Message) (event : InvalidationEvent) (e : Error) (w : World Entry W)
      → IsSettled msg event e w (handle_failure c msg event e w).1
  unfolding handle_failure
  handle_failure-IsSettled msg event e w =
      settle msg event e (retry_from c 5 1 100_000_000 msg event w).0 w
        (retry_from c 5 1 100_000_000 msg event w).1
        (retry_from-IsRetryRun 5 1 100_000_000 msg event w)
