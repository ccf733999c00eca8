-- ===== src/Profile/Service/Ends.antt =====
-- How `UpdateProfile` ends on PostgreSQL: its result by the first of its steps that fails.
use investor_cache.Base.{
  ℤ, String, List, Bool, false, ◌++◌, ◌∷◌, [], Option, none, some, ◌≡◌, refl, arith,
}
use investor_cache.Go.{
  Result, ok, err, Error, World, wrap, validation, as_validation, errors_is, not_found,
  email_exists, call,
}
use investor_cache.Journal.{Entry, begin_tx}
use investor_cache.Domain.{InvestorProfile}
use investor_cache.Outbox.Events.{
  event_with, payload_of, Event, Encoder, KafkaPayload, new_profile_updated_event, marshalled,
}
use investor_cache.Outbox.Repository.{Statements, wrapped, add_event}
use investor_cache.Profile.Patch.{
  changed_fields, UpdateProfilePatch, ValidationError, Parsers, is_empty, validate_patch,
}
use investor_cache.Profile.Repository.{
  Row, UpdateQuery, build, query_of, scan_row, updated, update_error, update,
}
use investor_cache.Profile.Service.{
  Service, Transactions, new_service, after_validation, after_begin, after_update, after_event,
  after_insert, after_commit, update_profile,
}

-- An error that is none of the program's own.
pub record IsForeign (e : Error) : Type 0 where
  pub not_missing : errors_is e not_found ≡ false
  pub not_taken : errors_is e email_exists ≡ false
  pub not_invalid : as_validation e ≡ false

pub wrap-IsForeign : (text : String) (e : Error) → IsForeign e → IsForeign (wrap text e)
unfolding errors_is as_validation
wrap-IsForeign text e h = record {
  not_missing = h.not_missing;
  not_taken = h.not_taken;
  not_invalid = h.not_invalid;
}

-- The libraries fail with errors of their own: none of them knows the program's error values.
pub record ForeignErrors {W : Type 0} (db : Transactions W) (q : UpdateQuery W) (st : Statements W)
    (encoder : Encoder W) : Type 0 where
  pub begin_foreign : (w : W) {e : Error} → (db.begin w).0 ≡ err e → IsForeign e
  pub commit_foreign : (w : W) {e : Error} → (db.tx_commit w).0 ≡ err e → IsForeign e
  pub insert_foreign :
      (event : Event) (w : W) {e : Error} → (st.insert_event event w).0 ≡ err e → IsForeign e
  pub query_foreign :
      (text : String) (args : List String) (w : W) {e : Error}
      → (q.query_row text args w).0 ≡ err e
      → IsForeign e
  pub marshal_foreign :
      (payload : KafkaPayload) {e : Error} → encoder.marshal payload ≡ err e → IsForeign e

module _ {W F : Type 0} (db : Transactions W) (q : UpdateQuery W) (st : Statements W)
    (encoder : Encoder W) (parsers : Parsers F) (has_metrics : Bool) where
  abbrev pub service : Service W F
  service = new_service db q st encoder parsers has_metrics

  -- What the UPDATE returns in the transaction that is begun in the world `w`.
  abbrev pub queried : String → UpdateProfilePatch → W → Result Row
  queried id patch w =
      (q.query_row (query_of (build patch)) ((build patch).args ++ id ∷ []) (db.begin w).1).0

  -- What can fail behind the UPDATE in the transaction: the payload's JSON, the INSERT of the event
  -- that carries it, and the commit.
  pub data IsFailure (patch : UpdateProfilePatch) (row : Row) : Type 0 where
    not_marshalled :
        (now : ℤ) (e : Error)
        → encoder.marshal (payload_of (scan_row row) (changed_fields patch) now) ≡ err e
        → IsFailure patch row
    not_inserted :
        (raw : String) (at : W) (e : Error)
        → (st.insert_event (event_with (scan_row row) raw) at).0 ≡ err e
        → IsFailure patch row
    commit_failed : (at : W) (e : Error) → (db.tx_commit at).0 ≡ err e → IsFailure patch row

  pub data IsEnd (id : String) (patch : UpdateProfilePatch) (w : W) (r : Result InvestorProfile)
      : Type 0 where
    -- The patch is invalid, and the database is not asked.
    invalid :
        (v : ValidationError)
        → validate_patch parsers patch ≡ some v
        → r ≡ err (validation v.field v.message)
        → IsEnd id patch w r
    -- The transaction does not begin.
    not_begun :
        (e : Error)
        → validate_patch parsers patch ≡ none
        → (db.begin w).0 ≡ err e
        → IsForeign e
        → r ≡ err (wrap "begin tx" e)
        → IsEnd id patch w r
    -- The UPDATE fails.
    not_updated :
        (e : Error)
        → validate_patch parsers patch ≡ none
        → (db.begin w).0 ≡ ok tt
        → queried id patch w ≡ err e
        → IsForeign e
        → r ≡ err (update_error id e)
        → IsEnd id patch w r
    -- The UPDATE returns a row, and the event or the commit fails.
    not_committed :
        (row : Row) (e : Error)
        → validate_patch parsers patch ≡ none
        → (db.begin w).0 ≡ ok tt
        → queried id patch w ≡ ok row
        → IsFailure patch row
        → IsForeign e
        → r ≡ err e
        → IsEnd id patch w r
    -- The transaction is committed, and the profile of the row is returned.
    committed :
        (row : Row) (at : W)
        → validate_patch parsers patch ≡ none
        → (db.begin w).0 ≡ ok tt
        → queried id patch w ≡ ok row
        → (db.tx_commit at).0 ≡ ok tt
        → r ≡ ok (scan_row row)
        → IsEnd id patch w r

  module _ (foreign : ForeignErrors db q st encoder) where
    -- What follows the UPDATE ends with its profile, committed, or with a foreign error of a failure.
    data IsTail (patch : UpdateProfilePatch) (row : Row) (r : Result InvestorProfile) : Type 0 where
      well : (at : W) → (db.tx_commit at).0 ≡ ok tt → r ≡ ok (scan_row row) → IsTail patch row r
      ill : (e : Error) → IsFailure patch row → r ≡ err e → IsForeign e → IsTail patch row r

    after_commit-IsTail :
        (patch : UpdateProfilePatch) (row : Row) (event : Event) (c : Result (Unit {0}))
        (w w' : World Entry W)
        → (db.tx_commit w.outside).0 ≡ c
        → IsTail patch row (after_commit service (scan_row row) event c w').0
    unfolding after_commit
    after_commit-IsTail patch row event (ok _) w w' h = well w.outside h refl
    after_commit-IsTail patch row event (err e) w w' h =
        ill _ (commit_failed w.outside e h) refl
          (wrap-IsForeign "commit" e (foreign.commit_foreign w.outside h))

    after_insert-IsTail :
        (patch : UpdateProfilePatch) (row : Row) (raw : String) (c : Result (Unit {0}))
        (w w' : World Entry W)
        → (st.insert_event (event_with (scan_row row) raw) w.outside).0 ≡ c
        → IsTail patch row
            (after_insert service
              (scan_row row)
              (event_with (scan_row row) raw)
              (wrapped "insert outbox" c)
              w').0
    unfolding after_insert
    after_insert-IsTail patch row raw (ok _) w w' h = after_commit-IsTail patch row _ _ w' _ refl
    after_insert-IsTail patch row raw (err e) w w' h = ill _ (not_inserted raw w.outside e h) refl (
        wrap-IsForeign "insert outbox event" _
          (wrap-IsForeign "insert outbox" e (foreign.insert_foreign _ w.outside h)))

    after_event-IsTail :
        (patch : UpdateProfilePatch) (row : Row) (now : ℤ) (m : Result String) (w : World Entry W)
        → encoder.marshal (payload_of (scan_row row) (changed_fields patch) now) ≡ m
        → IsTail patch row (after_event service (scan_row row) (marshalled (scan_row row) m) w).0
    unfolding after_event add_event
    after_event-IsTail patch row now (ok raw) w h = after_insert-IsTail patch row raw _ w _ refl
    after_event-IsTail patch row now (err e) w h = ill _ (not_marshalled now e h) refl (
        wrap-IsForeign "build profile_updated event" _
          (wrap-IsForeign "marshal kafka payload" e (foreign.marshal_foreign _ h)))

    -- Behind the UPDATE, in the transaction.
    after_update-IsEnd :
        (id : String) (patch : UpdateProfilePatch) (x : W) (u : Result Row) (w : World Entry W)
        → validate_patch parsers patch ≡ none
        → (db.begin x).0 ≡ ok tt
        → queried id patch x ≡ u
        → IsEnd id patch x (after_update service patch (updated id u) w).0
    unfolding after_update new_profile_updated_event
    after_update-IsEnd id patch x (err e) w valid begun asked =
        not_updated e valid begun asked (foreign.query_foreign _ _ _ asked) refl
    after_update-IsEnd id patch x (ok row) w valid begun asked =
        elim (after_event-IsTail patch row _ _ _ refl) [
          | well at done same ↦ committed row at valid begun asked done same
          | ill e failure same other ↦ not_committed row e valid begun asked failure other same
        ]

    not_empty :
        (patch : UpdateProfilePatch) → validate_patch parsers patch ≡ none → is_empty patch ≡ false
    unfolding validate_patch
    not_empty patch valid = ground arith

    after_begin-IsEnd :
        (id : String) (patch : UpdateProfilePatch) (b : Result (Unit {0})) (w : World Entry W)
        → validate_patch parsers patch ≡ none
        → (db.begin w.outside).0 ≡ b
        → IsEnd id patch w.outside (after_begin service id patch b (call begin_tx db.begin w).1).0
    unfolding after_begin update
    after_begin-IsEnd id patch (err e) w valid begun =
        not_begun e valid begun (foreign.begin_foreign w.outside begun) refl
    after_begin-IsEnd id patch (ok _) w valid begun =
        rw (not_empty patch valid) (after_update-IsEnd id patch w.outside _ _ valid begun refl)

    after_validation-IsEnd :
        (id : String) (patch : UpdateProfilePatch) (v : Option ValidationError) (w : World Entry W)
        → validate_patch parsers patch ≡ v
        → IsEnd id patch w.outside (after_validation service id patch v w).0
    unfolding after_validation
    after_validation-IsEnd id patch (some v) w h = invalid v h refl
    after_validation-IsEnd id patch none w h = after_begin-IsEnd id patch _ w h refl

    pub update_profile-IsEnd :
        (id : String) (patch : UpdateProfilePatch) (w : World Entry W)
        → IsEnd id patch w.outside (update_profile service id patch w).0
    unfolding update_profile
    update_profile-IsEnd id patch w = after_validation-IsEnd id patch _ w refl
