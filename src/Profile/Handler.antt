-- ===== src/Profile/Handler.antt =====
-- internal/profile/handler.go: the HTTP handler of the profile service. Reading the body and decoding
-- its JSON are parameters.
pub mod Statuses
pub mod Router
mod Tests
use text.Mathlib.Text.{◌==◌ as str_eq}
use investor_cache.Base.{String, Bool, true, false, ℕ, pos, if◌then◌else◌}
use investor_cache.Go.{
  Result, ok, err, Error, sentinel, wrap, message, pq_error, num_error, validation, as_validation,
  errors_is, not_found, email_exists, pure, ◌>>=◌, ◌>>◌,
}
use investor_cache.Go.Strings.{concat}
use investor_cache.Journal.{Proc}
use investor_cache.Metrics.{record_http_request}
use investor_cache.Domain.{InvestorProfile}
use investor_cache.Profile.Patch.{UpdateProfilePatch, error_of}
use investor_cache.Profile.Service.{Service, update_profile}

abbrev pub code_invalid_request : String
code_invalid_request = "INVALID_REQUEST"

abbrev pub code_not_found : String
code_not_found = "NOT_FOUND"

abbrev pub code_email_already_exists : String
code_email_already_exists = "EMAIL_ALREADY_EXISTS"

abbrev pub code_internal : String
code_internal = "INTERNAL"

abbrev pub endpoint : String
endpoint = "/api/v1/investors/{id}"

-- The JSON of a response: a profile, `{"error": {"code": …, "message": …}}` or `{"status": …}`.
pub data Body : Type 0 where
  profile : InvestorProfile → Body
  error_body : String → String → Body
  status_text : String → Body

pub record Response : Type 0 where
  pub status : ℕ
  pub content_type : String
  pub body : Body

-- `io.ReadAll(http.MaxBytesReader(w, r.Body, 1<<20))` is the field `body`.
pub record Request : Type 0 where
  pub method : String
  pub id : String
  pub body : Result String

-- `json.Decoder.Decode` with unknown fields disallowed, and the text of a library's error.
pub record Handler (W F : Type 0) : Type 0 where
  pub service : Service W F
  pub has_metrics : Bool
  pub decode : String → Result UpdateProfilePatch
  pub library_text : Error → String

abbrev pub new_handler :
    {W F : Type 0}
    → Service W F
    → Bool
    → (String → Result UpdateProfilePatch)
    → (Error → String)
    → Handler W F
new_handler service has_metrics decode library_text = record {
  service = service;
  has_metrics = has_metrics;
  decode = decode;
  library_text = library_text;
}

abbrev pub respond_json : ℕ → Body → Response
respond_json status body = record {
  status = status;
  content_type = "application/json";
  body = body;
}

abbrev pub respond_error : ℕ → String → String → Response
respond_error status code text = respond_json status (error_body code text)

module _ {W F : Type 0} (h : Handler W F) where
  -- `err.Error()`
  abbrev pub text_of : Error → String
  text_of (validation field text) = error_of (record { field = field; message = text })
  text_of (sentinel s) = h.library_text (sentinel s)
  text_of (wrap text e) = h.library_text (wrap text e)
  text_of (message text) = text
  text_of (pq_error code) = h.library_text (pq_error code)
  text_of (num_error s) = h.library_text (num_error s)

  -- The deferred metric, with the status that the variable has at the return.
  unfoldable pub finish : Request → ℕ → Response → Proc W Response
  finish r status response w =
      if h.has_metrics
      then (record_http_request r.method endpoint (pos status) >> pure response) w
      else (response, w)

  -- The switch over the service's error.
  unfoldable pub refuse : Request → Error → Proc W Response
  refuse r e =
      if as_validation e
      then finish r 400 (respond_error 400 code_invalid_request (text_of e))
      else if errors_is e not_found
      then finish r 404
          (respond_error 404 code_not_found (concat "investor " (concat r.id " not found")))
      else if errors_is e email_exists
      then finish r 409 (respond_error 409 code_email_already_exists "email already exists")
      else finish r 500 (respond_error 500 code_internal "internal server error")

  unfoldable pub after_service : Request → Result InvestorProfile → Proc W Response
  after_service r (err e) = refuse r e
  after_service r (ok p) = finish r 200 (respond_json 200 (profile p))

  unfoldable pub after_decode : Request → Result UpdateProfilePatch → Proc W Response
  after_decode r (err e) =
      finish r 400 (respond_error 400 code_invalid_request (concat "invalid JSON: " (text_of e)))
  after_decode r (ok patch) = update_profile h.service r.id patch >>= after_service r

  unfoldable pub after_read : Request → Result String → Proc W Response
  after_read r (err e) =
      finish r 400 (respond_error 400 code_invalid_request "failed to read request body")
  after_read r (ok body) = after_decode r (h.decode body)

  unfoldable pub handle_update : Request → Proc W Response
  handle_update r =
      if str_eq r.id ""
      then finish r 400 (respond_error 400 code_invalid_request "investor id is required")
      else after_read r r.body

  unfoldable pub health_check : Proc W Response
  health_check = pure (respond_json 200 (status_text "ok"))
