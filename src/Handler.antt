-- ===== src/Handler.antt =====
-- internal/handler/profile.go: the HTTP handler of the read path.
pub mod Responses
pub mod Router
mod Tests
use investor_cache.Base.{String, Bool, true, false, ℕ, List, [], ◌∷◌, if◌then◌else◌}
use investor_cache.Go.{Result, ok, err, Error, pure, call, ◌>>=◌, ◌>>◌}
use text.Mathlib.Text.{◌==◌ as str_eq}
use investor_cache.Journal.{Proc, repo_get}
use investor_cache.Metrics.{record_cache_bypass, record_middleware_request}
use investor_cache.Domain.{InvestorProfile, ProfileRepository}
use investor_cache.Cache.Outcome.{CacheResult, bypass, label}
use investor_cache.Cache.Manager.{CacheManager, get_profile}

abbrev pub route_investor_by_id : String
route_investor_by_id = "/api/v1/investors/{id}"

-- The JSON of a response: a profile, `{"error": …}` or `{"status": …}`.
pub data Body : Type 0 where
  profile : InvestorProfile → Body
  error_text : String → Body
  status_text : String → Body

pub record Response : Type 0 where
  pub status : ℕ
  pub content_type : String
  pub body : Body

-- What is read of the request: the path variable and the header `Cache-Control`.
pub record Request : Type 0 where
  pub id : String
  pub cache_control : String

pub record ProfileHandler (W : Type 0) : Type 0 where
  pub cache_manager : CacheManager W
  pub repo : ProfileRepository W
  -- `err.Error()`
  pub text_of : Error → String

abbrev pub new_profile_handler :
    {W : Type 0} → CacheManager W → ProfileRepository W → (Error → String) → ProfileHandler W
new_profile_handler cm repo text_of = record { cache_manager = cm; repo = repo; text_of = text_of }

abbrev pub respond_json : ℕ → Body → Response
respond_json status body = record {
  status = status;
  content_type = "application/json";
  body = body;
}

module _ {W : Type 0} (h : ProfileHandler W) where
  abbrev pub respond_error : Error → Response
  respond_error e = respond_json 500 (error_text (h.text_of e))

  -- The deferred metric, behind the response.
  unfoldable pub finish : CacheResult → String → Response → Proc W Response
  finish result status response = do
    record_middleware_request route_investor_by_id (label result) status
    pure response

  unfoldable pub bypassed : Result InvestorProfile → Proc W Response
  bypassed (err e) = finish bypass "error" (respond_error e)
  bypassed (ok p) = do record_cache_bypass; finish bypass "ok" (respond_json 200 (profile p))

  unfoldable pub answered : Result InvestorProfile × CacheResult → Proc W Response
  answered (err e, result) = finish result "error" (respond_error e)
  answered (ok p, result) = finish result "ok" (respond_json 200 (profile p))

  unfoldable pub handle_get : Request → Proc W Response
  handle_get r =
      if str_eq r.cache_control "no-cache"
      then (call (repo_get r.id) (h.repo.get_by_id r.id) >>= bypassed)
      else (get_profile h.cache_manager r.id >>= answered)

  unfoldable pub health_check : Proc W Response
  health_check = pure (respond_json 200 (status_text "ok"))
