-- ===== src/Profile/Handler/Statuses.antt =====
-- The answer of the profile service to a PATCH, by its cause.
use text.Mathlib.Text.{◌==◌ as str_eq}
use text.Mathlib.TextEquality.{eq_iff}
use investor_cache.Base.{
  String, Bool, true, false, ℕ, none, some, ◌≡◌, ◌≢◌, ◌⊎◌, inl, inr, refl, ap, arith, Bool-cases,
}
use investor_cache.Go.{
  Result, ok, err, Error, World, validation, as_validation, errors_is, pq_code, no_rows,
}
use investor_cache.Go.Strings.{concat}
use investor_cache.Journal.{Entry}
use investor_cache.Domain.{InvestorProfile}
use investor_cache.Outbox.Events.{Encoder}
use investor_cache.Outbox.Repository.{Statements}
use investor_cache.Profile.Patch.{
  UpdateProfilePatch, ValidationError, Parsers, error_of, validate_patch,
}
use investor_cache.Profile.Repository.{
  Row, UpdateQuery, scan_row, update_error, is_unique_violation,
}
use investor_cache.Profile.Service.{Transactions}
use investor_cache.Profile.Service.Ends.{
  IsFailure, IsForeign, wrap-IsForeign, ForeignErrors, IsEnd, invalid, not_begun, not_updated,
  not_committed, committed, queried, service, update_profile-IsEnd,
}
use investor_cache.Profile.Handler.{
  Handler, Request, Response, new_handler, profile, respond_error, respond_json, finish, refuse,
  after_service, after_decode, after_read, handle_update, code_invalid_request, code_not_found,
  code_email_already_exists, code_internal,
}

no_name : (s : String) → s ≡ "" → str_eq s "" ≡ false → ⊥
no_name s e t = ground (arith, eq_iff s "")

module _ {W F : Type 0} (db : Transactions W) (q : UpdateQuery W) (st : Statements W)
    (encoder : Encoder W) (parsers : Parsers F) (has_metrics : Bool)
    (decode : String → Result UpdateProfilePatch) (library_text : Error → String) where
  abbrev pub handler : Handler W F
  handler =
      new_handler (service db q st encoder parsers has_metrics) has_metrics decode library_text

  abbrev pub internal_error : Response
  internal_error = respond_error 500 code_internal "internal server error"

  -- The answer for a patch that was decoded.
  pub data IsPatchAnswer (id : String) (patch : UpdateProfilePatch) (w : W) (response : Response)
      : Type 0 where
    -- 400, and the field that is at fault.
    refused :
        (v : ValidationError)
        → validate_patch parsers patch ≡ some v
        → response ≡ respond_error 400 code_invalid_request (error_of v)
        → IsPatchAnswer id patch w response
    -- 404: the UPDATE finds no row.
    missing :
        (e : Error)
        → validate_patch parsers patch ≡ none
        → (db.begin w).0 ≡ ok tt
        → queried db q st encoder parsers has_metrics id patch w ≡ err e
        → errors_is e no_rows ≡ true
        → response ≡ respond_error 404 code_not_found (concat "investor " (concat id " not found"))
        → IsPatchAnswer id patch w response
    -- 409: the UPDATE violates a unique constraint.
    taken :
        (e : Error)
        → validate_patch parsers patch ≡ none
        → (db.begin w).0 ≡ ok tt
        → queried db q st encoder parsers has_metrics id patch w ≡ err e
        → errors_is e no_rows ≡ false
        → is_unique_violation (pq_code e) ≡ true
        → response ≡ respond_error 409 code_email_already_exists "email already exists"
        → IsPatchAnswer id patch w response
    -- 500: any other failure of the UPDATE.
    broken :
        (e : Error)
        → validate_patch parsers patch ≡ none
        → (db.begin w).0 ≡ ok tt
        → queried db q st encoder parsers has_metrics id patch w ≡ err e
        → errors_is e no_rows ≡ false
        → is_unique_violation (pq_code e) ≡ false
        → response ≡ internal_error
        → IsPatchAnswer id patch w response
    -- 500: the transaction does not begin; or the UPDATE finds its row, and the event's JSON, its
    -- INSERT or the commit fails.
    not_opened :
        (e : Error)
        → validate_patch parsers patch ≡ none
        → (db.begin w).0 ≡ err e
        → response ≡ internal_error
        → IsPatchAnswer id patch w response
    not_closed :
        (row : Row)
        → validate_patch parsers patch ≡ none
        → (db.begin w).0 ≡ ok tt
        → queried db q st encoder parsers has_metrics id patch w ≡ ok row
        → IsFailure db q st encoder parsers has_metrics patch row
        → response ≡ internal_error
        → IsPatchAnswer id patch w response
    -- 200, with the row that the UPDATE returned, and committed.
    updated :
        (row : Row) (at : W)
        → validate_patch parsers patch ≡ none
        → (db.begin w).0 ≡ ok tt
        → queried db q st encoder parsers has_metrics id patch w ≡ ok row
        → (db.tx_commit at).0 ≡ ok tt
        → response ≡ respond_json 200 (profile (scan_row row))
        → IsPatchAnswer id patch w response

  -- The request has no identifier, its body cannot be read, or it is no patch.
  abbrev pub IsMalformed : Request → Type 0
  IsMalformed r =
      (r.id ≡ "")
      ⊎ ((e : Error) × (r.body ≡ err e))
      ⊎ ((b : String) × (e : Error) × (r.body ≡ ok b) × (decode b ≡ err e))

  pub data IsAnswered (r : Request) (w : W) (response : Response) : Type 0 where
    malformed : IsMalformed r → response.status ≡ 400 → IsAnswered r w response
    decoded :
        (b : String) (patch : UpdateProfilePatch)
        → r.id ≢ ""
        → r.body ≡ ok b
        → decode b ≡ ok patch
        → IsPatchAnswer r.id patch w response
        → IsAnswered r w response

  finish_lem :
      (r : Request) (status : ℕ) (response : Response) (w : World Entry W)
      → (finish handler r status response w).0 ≡ response
  unfolding finish
  finish_lem r status response w = ground arith

  -- The switch over errors.
  refuse-invalid :
      (r : Request) (v : ValidationError) (w : World Entry W)
      → (refuse handler r (validation v.field v.message) w).0
        ≡ respond_error 400 code_invalid_request (error_of v)
  unfolding refuse as_validation
  refuse-invalid r v w = finish_lem r 400 _ w

  refuse-foreign :
      (r : Request) (e : Error) (w : World Entry W)
      → IsForeign e
      → (refuse handler r e w).0 ≡ internal_error
  unfolding refuse
  refuse-foreign r e w h =
      rw (h.not_invalid, h.not_missing, h.not_taken) (finish_lem r 500 internal_error w)

  refuse-update :
      (r : Request) (patch : UpdateProfilePatch) (e : Error) (x : W) (w : World Entry W)
      → validate_patch parsers patch ≡ none
      → (db.begin x).0 ≡ ok tt
      → queried db q st encoder parsers has_metrics r.id patch x ≡ err e
      → IsForeign e
      → IsPatchAnswer r.id patch x (refuse handler r (update_error r.id e) w).0
  unfolding update_error refuse as_validation errors_is
  refuse-update r patch e x w valid begun asked other = elim (Bool-cases (errors_is e no_rows)) [
    | inl t ↦ rw t (missing e valid begun asked t (finish_lem r 404 _ w))
    | inr f ↦ elim (Bool-cases (is_unique_violation (pq_code e))) [
      | inl t ↦ rw (f, t) (taken e valid begun asked f t (finish_lem r 409 _ w))
      | inr g ↦
          rw (f, g)
            (broken e valid begun asked f g
              (refuse-foreign r _ w (wrap-IsForeign (concat "update investor " r.id) e other)))
    ]
  ]

  module _ (foreign : ForeignErrors db q st encoder) where
    after_service-IsPatchAnswer :
        (r : Request) (patch : UpdateProfilePatch) (x : W) (u : Result InvestorProfile)
        (w : World Entry W)
        → IsEnd db q st encoder parsers has_metrics r.id patch x u
        → IsPatchAnswer r.id patch x (after_service handler r u w).0
    unfolding after_service
    after_service-IsPatchAnswer r patch x u w (invalid v h same) =
        rw same (refused v h (refuse-invalid r v w))
    after_service-IsPatchAnswer r patch x u w (not_begun e valid h other same) =
        rw same (not_opened e valid h (refuse-foreign r _ w (wrap-IsForeign "begin tx" e other)))
    after_service-IsPatchAnswer r patch x u w (not_updated e valid begun asked other same) =
        rw same (refuse-update r patch e x w valid begun asked other)
    after_service-IsPatchAnswer r patch x u w
          (not_committed row e valid begun asked failure other same) =
        rw same (not_closed row valid begun asked failure (refuse-foreign r e w other))
    after_service-IsPatchAnswer r patch x u w (committed row at valid begun asked done same) =
        rw same (updated row at valid begun asked done (finish_lem r 200 _ w))

    after_decode-IsAnswered :
        (r : Request) (b : String) (d : Result UpdateProfilePatch) (w : World Entry W)
        → r.id ≢ ""
        → r.body ≡ ok b
        → decode b ≡ d
        → IsAnswered r w.outside (after_decode handler r d w).0
    unfolding after_decode
    after_decode-IsAnswered r b (err e) w named body h =
        malformed (inr (inr (b, e, body, h)))
          (ap (λ (a : Response). a.status) (finish_lem r 400 _ w))
    after_decode-IsAnswered r b (ok patch) w named body h = decoded b patch named body h (
        after_service-IsPatchAnswer r patch w.outside _ _
          (update_profile-IsEnd db q st encoder parsers has_metrics foreign r.id patch w))

    after_read-IsAnswered :
        (r : Request) (b : Result String) (w : World Entry W)
        → r.id ≢ ""
        → r.body ≡ b
        → IsAnswered r w.outside (after_read handler r b w).0
    unfolding after_read
    after_read-IsAnswered r (err e) w named h =
        malformed (inr (inl (e, h))) (ap (λ (a : Response). a.status) (finish_lem r 400 _ w))
    after_read-IsAnswered r (ok b) w named h = after_decode-IsAnswered r b (decode b) w named h refl

    pub handle_update-IsAnswered :
        (r : Request) (w : World Entry W) → IsAnswered r w.outside (handle_update handler r w).0
    unfolding handle_update
    handle_update-IsAnswered r w = elim (Bool-cases (str_eq r.id "")) [
      | inl t ↦ rw t (
          malformed (inl ((eq_iff r.id "").0 t))
            (ap (λ (a : Response). a.status) (finish_lem r 400 _ w)))
      | inr f ↦ rw f (after_read-IsAnswered r r.body w (λ e. absurd (no_name r.id e f)) refl)
    ]
