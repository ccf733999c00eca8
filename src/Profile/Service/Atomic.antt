-- ===== src/Profile/Service/Atomic.antt =====
-- The profile and its event are committed together or not at all.

use investor_cache.Base.{
  String, true, false, List, [], ◌∷◌, ◌++◌, Option, none, some, ◌≡◌, refl, ap, ◌∙◌, ◌⊎◌, inl, inr,
  if◌then◌else◌,
}
use investor_cache.Go.{Result, ok, err, Error, World, wrap, call}
use investor_cache.Journal.{Entry, begin_tx, commit_tx}
use investor_cache.Metrics.{record_outbox_event}
use investor_cache.Domain.{InvestorProfile}
use investor_cache.Outbox.Events.{
  Event, new_profile_updated_event, payload_of, event_with, marshalled,
}
use investor_cache.Profile.Patch.{UpdateProfilePatch, ValidationError, changed_fields}
use investor_cache.Profile.Service.{
  Service, with_metrics, after_commit, after_insert, after_event, after_update, after_begin,
  after_validation, update_profile,
}

-- A change that a transaction makes.
pub data Change : Type 0 where
  profile_set : InvestorProfile → Change
  event_added : Event → Change

-- What the service relies on of the database: the changes that are committed, and those of the
-- open transaction. Nothing but a commit adds to the first. A commit that fails may or may not have
-- taken effect.
pub record TransactionLaws {W F : Type 0} (s : Service W F) : Type 0 where
  pub committed : W → List Change
  pub staged : W → List Change
  pub begin_committed : (w : W) → committed (s.begin w).1 ≡ committed w
  pub begin_staged : (w : W) → (s.begin w).0 ≡ ok tt → staged (s.begin w).1 ≡ []
  pub update_committed :
      (id : String) (patch : UpdateProfilePatch) (w : World Entry W)
      → committed (s.profile_repo id patch w).1.outside ≡ committed w.outside
  pub update_staged :
      (id : String) (patch : UpdateProfilePatch) (w : World Entry W) {p : InvestorProfile}
      → (s.profile_repo id patch w).0 ≡ ok p
      → staged (s.profile_repo id patch w).1.outside ≡ staged w.outside ++ profile_set p ∷ []
  pub now_committed : (w : W) → committed (s.encoder.now w).1 ≡ committed w
  pub now_staged : (w : W) → staged (s.encoder.now w).1 ≡ staged w
  pub insert_committed :
      (e : Event) (w : World Entry W)
      → committed (s.outbox_repo e w).1.outside ≡ committed w.outside
  pub insert_staged :
      (e : Event) (w : World Entry W)
      → (s.outbox_repo e w).0 ≡ ok tt
      → staged (s.outbox_repo e w).1.outside ≡ staged w.outside ++ event_added e ∷ []
  pub commit_ok :
      (w : W) → (s.tx_commit w).0 ≡ ok tt → committed (s.tx_commit w).1 ≡ committed w ++ staged w
  pub commit_err :
      (w : W)
      → (committed (s.tx_commit w).1 ≡ committed w)
        ⊎ (committed (s.tx_commit w).1 ≡ committed w ++ staged w)
  pub rollback_committed : (w : W) → committed (s.tx_rollback w).1 ≡ committed w

module _ {W F : Type 0} (s : Service W F) (laws : TransactionLaws s) where
  open laws use {committed, staged}

  -- The two changes of an update, the event with the payload of the profile.
  pub record IsPair (patch : UpdateProfilePatch) (p : InvestorProfile) (l : List Change)
      : Type 0 where
    pub moment : W
    pub raw : String
    pub encoded :
        s.encoder.marshal (payload_of p (changed_fields patch) (s.encoder.now moment).0) ≡ ok raw
    pub changes : l ≡ profile_set p ∷ event_added (event_with p raw) ∷ []

  -- An update from the changes `before` on: all, with the profile as its result; or an error, with
  -- nothing or, where the commit's outcome is unknown, all.
  pub data IsAtomic (patch : UpdateProfilePatch) (before : List Change)
      (out : Result InvestorProfile × World Entry W) : Type 0 where
    done :
        (p : InvestorProfile) (l : List Change)
        → out.0 ≡ ok p
        → IsPair patch p l
        → committed out.1.outside ≡ before ++ l
        → IsAtomic patch before out
    nothing :
        (e : Error) → out.0 ≡ err e → committed out.1.outside ≡ before → IsAtomic patch before out
    unknown :
        (e : Error) (p : InvestorProfile) (l : List Change)
        → out.0 ≡ err (wrap "commit" e)
        → IsPair patch p l
        → committed out.1.outside ≡ before ++ l
        → IsAtomic patch before out

  metrics-outside :
      (t : String) (w : World Entry W)
      → (with_metrics s (record_outbox_event t) w).1.outside ≡ w.outside
  metrics-outside t w =
      elim s.has_metrics
        as (λ b. (if b then record_outbox_event t w else (tt, w)).1.outside ≡ w.outside) [
          | true ↦ refl
          | false ↦ refl
        ]

  -- With both changes staged, the commit decides.
  after_commit-IsAtomic :
      (patch : UpdateProfilePatch) (before l : List Change) (p : InvestorProfile) (event : Event)
      (q : Result (Unit {0})) (w : World Entry W)
      → (s.tx_commit w.outside).0 ≡ q
      → committed w.outside ≡ before
      → staged w.outside ≡ l
      → IsPair patch p l
      → IsAtomic patch before (after_commit s p event q (call commit_tx s.tx_commit w).1)
  unfolding after_commit
  after_commit-IsAtomic patch before l p event (ok _) w h old new pair = done p l refl pair (
      ap committed (metrics-outside event.event_type _)
      ∙ laws.commit_ok w.outside h
      ∙ rw (old, new))
  after_commit-IsAtomic patch before l p event (err e) w h old new pair =
      elim (laws.commit_err w.outside) [
        | inl same ↦ nothing (wrap "commit" e) refl (same ∙ old)
        | inr all ↦ unknown e p l refl pair (all ∙ rw (old, new))
      ]

  after_insert-IsAtomic :
      (patch : UpdateProfilePatch) (before l : List Change) (p : InvestorProfile) (event : Event)
      (q : Result (Unit {0})) (w : World Entry W)
      → (s.outbox_repo event w).0 ≡ q
      → committed w.outside ≡ before
      → staged w.outside ++ event_added event ∷ [] ≡ l
      → IsPair patch p l
      → IsAtomic patch before (after_insert s p event q (s.outbox_repo event w).1)
  unfolding after_insert
  after_insert-IsAtomic patch before l p event (ok _) w h old new pair =
      after_commit-IsAtomic patch before l p event _ _ refl (laws.insert_committed event w ∙ old)
        (laws.insert_staged event w h ∙ new) pair
  after_insert-IsAtomic patch before l p event (err e) w h old new pair =
      nothing _ refl (laws.insert_committed event w ∙ old)

  after_event-IsAtomic :
      (patch : UpdateProfilePatch) (before : List Change) (p : InvestorProfile) (moment : W)
      (m : Result String) (w : World Entry W)
      → s.encoder.marshal (payload_of p (changed_fields patch) (s.encoder.now moment).0) ≡ m
      → committed w.outside ≡ before
      → staged w.outside ≡ profile_set p ∷ []
      → IsAtomic patch before (after_event s p (marshalled p m) w)
  unfolding after_event
  after_event-IsAtomic patch before p moment (ok raw) w h old new =
      after_insert-IsAtomic patch before (profile_set p ∷ event_added (event_with p raw) ∷ []) p
        (event_with p raw) _ w refl old (ap (λ l. l ++ event_added (event_with p raw) ∷ []) new)
        (record { moment = moment; raw = raw; encoded = h; changes = refl })
  after_event-IsAtomic patch before p moment (err e) w h old new = nothing _ refl old

  after_update-IsAtomic :
      (id : String) (patch : UpdateProfilePatch) (before : List Change) (q : Result InvestorProfile)
      (w : World Entry W)
      → (s.profile_repo id patch w).0 ≡ q
      → committed w.outside ≡ before
      → staged w.outside ≡ []
      → IsAtomic patch before (after_update s patch q (s.profile_repo id patch w).1)
  unfolding after_update new_profile_updated_event
  after_update-IsAtomic id patch before (ok p) w h old empty =
      after_event-IsAtomic patch before p _ _ _ refl
        (laws.now_committed _ ∙ laws.update_committed id patch w ∙ old)
        (laws.now_staged _
          ∙ laws.update_staged id patch w h
          ∙ ap (λ l. l ++ profile_set p ∷ []) empty)
  after_update-IsAtomic id patch before (err e) w h old empty =
      nothing e refl (laws.update_committed id patch w ∙ old)

  rollback-IsAtomic :
      (patch : UpdateProfilePatch) (before : List Change) (r : Result InvestorProfile)
      (w w' : World Entry W)
      → w'.outside ≡ (s.tx_rollback w.outside).1
      → IsAtomic patch before (r, w)
      → IsAtomic patch before (r, w')
  rollback-IsAtomic patch before r w w' there (done p l result pair all) =
      done p l result pair (ap committed there ∙ laws.rollback_committed _ ∙ all)
  rollback-IsAtomic patch before r w w' there (nothing e result same) =
      nothing e result (ap committed there ∙ laws.rollback_committed _ ∙ same)
  rollback-IsAtomic patch before r w w' there (unknown e p l result pair all) =
      unknown e p l result pair (ap committed there ∙ laws.rollback_committed _ ∙ all)

  after_begin-IsAtomic :
      (id : String) (patch : UpdateProfilePatch) (q : Result (Unit {0})) (w : World Entry W)
      → (s.begin w.outside).0 ≡ q
      → IsAtomic patch (committed w.outside) (after_begin s id patch q (call begin_tx s.begin w).1)
  unfolding after_begin
  after_begin-IsAtomic id patch (err e) w h = nothing _ refl (laws.begin_committed w.outside)
  after_begin-IsAtomic id patch (ok _) w h =
      rollback-IsAtomic patch (committed w.outside) _ _ _ refl (
        after_update-IsAtomic id patch (committed w.outside) _ (call begin_tx s.begin w).1 refl
          (laws.begin_committed w.outside) (laws.begin_staged w.outside h))

  after_validation-IsAtomic :
      (id : String) (patch : UpdateProfilePatch) (v : Option ValidationError) (w : World Entry W)
      → IsAtomic patch (committed w.outside) (after_validation s id patch v w)
  unfolding after_validation
  after_validation-IsAtomic id patch (some e) w = nothing _ refl refl
  after_validation-IsAtomic id patch none w = after_begin-IsAtomic id patch _ w refl

  -- On a database whose transactions commit what they staged: `UpdateProfile` either returns a
  -- profile, and exactly that profile and one event with its payload are committed; or it returns an
  -- error and nothing is committed, except that behind a failed commit both may be. A profile is
  -- never committed without its event, nor an event without its profile.
  pub update_profile-IsAtomic :
      (id : String) (patch : UpdateProfilePatch) (w : World Entry W)
      → IsAtomic patch (committed w.outside) (update_profile s id patch w)
  unfolding update_profile
  update_profile-IsAtomic id patch w = after_validation-IsAtomic id patch _ w
