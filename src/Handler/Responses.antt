-- ===== src/Handler/Responses.antt =====
-- The responses of `GetProfile`, and the metric that goes with each.
use text.Mathlib.Text.{◌==◌ as str_eq}
use text.Mathlib.TextEquality.{eq_iff}
use investor_cache.Base.{
  String, false, List, [], ◌∷◌, ◌≡◌, ◌≢◌, refl, arith, Bool-cases, inl, inr, ap,
}
use investor_cache.Go.{Result, ok, err, World}
use investor_cache.Journal.{Entry, observe, inc, middleware_request, repo_get, cache_requests}
use investor_cache.Domain.{InvestorProfile}
use investor_cache.Cache.Outcome.{CacheResult, bypass, label}
use investor_cache.Cache.Manager.{get_profile}
use investor_cache.Handler.{
  ProfileHandler, Request, Response, profile, error_text, respond_json, finish, bypassed, answered,
  handle_get, route_investor_by_id,
}

no_cache_differs : (s : String) → s ≡ "no-cache" → str_eq s "no-cache" ≡ false → ⊥
no_cache_differs s e t = ground (arith, eq_iff s "no-cache")

module _ {W : Type 0} (h : ProfileHandler W) where
  -- 200 with the profile, or 500 with the error's text.
  abbrev pub response_to : Result InvestorProfile → Response
  response_to (ok p) = respond_json 200 (profile p)
  response_to (err e) = respond_json 500 (error_text (h.text_of e))

  abbrev pub status_label : Result InvestorProfile → String
  status_label (ok p) = "ok"
  status_label (err e) = "error"

  -- The sample that the deferred function records.
  abbrev pub sample : CacheResult → Result InvestorProfile → Entry
  sample result r =
      observe middleware_request (route_investor_by_id ∷ label result ∷ status_label r ∷ [])

  -- What stands in the log behind a bypass: the read of the database, and the count of a bypass
  -- that found a profile.
  abbrev pub bypass_log : String → Result InvestorProfile → List Entry → List Entry
  bypass_log id (ok p) log = inc cache_requests ("bypass" ∷ []) ∷ repo_get id ∷ log
  bypass_log id (err e) log = repo_get id ∷ log

  pub data IsAnswered (r : Request) (w : World Entry W) (out : Response × World Entry W)
      : Type 0 where
    -- `Cache-Control: no-cache`: the database is read once, and the cache is not touched.
    from_database :
        (q : Result InvestorProfile)
        → r.cache_control ≡ "no-cache"
        → q ≡ (h.repo.get_by_id r.id w.outside).0
        → out.0 ≡ response_to q
        → out.1.log ≡ sample bypass q ∷ bypass_log r.id q w.log
        → IsAnswered r w out
    -- Any other request goes through the cache manager, with the label that it returns.
    from_manager :
        (q : Result InvestorProfile) (result : CacheResult)
        → r.cache_control ≢ "no-cache"
        → (q, result) ≡ (get_profile h.cache_manager r.id w).0
        → out.0 ≡ response_to q
        → out.1.log ≡ sample result q ∷ (get_profile h.cache_manager r.id w).1.log
        → IsAnswered r w out

  answered_lem :
      (q : Result InvestorProfile) (result : CacheResult) (w : World Entry W)
      → ((answered h (q, result) w).0 ≡ response_to q)
        × ((answered h (q, result) w).1.log ≡ sample result q ∷ w.log)
  unfolding answered finish
  answered_lem (ok p) result w = (refl, refl)
  answered_lem (err e) result w = (refl, refl)

  bypass-IsAnswered :
      (q : Result InvestorProfile) (r : Request) (w v : World Entry W)
      → r.cache_control ≡ "no-cache"
      → q ≡ (h.repo.get_by_id r.id w.outside).0
      → v.log ≡ repo_get r.id ∷ w.log
      → IsAnswered r w (bypassed h q v)
  unfolding bypassed finish
  bypass-IsAnswered (ok p) r w v no_cache same logged =
      from_database (ok p) no_cache same refl
        (ap (λ l. sample bypass (ok p) ∷ inc cache_requests ("bypass" ∷ []) ∷ l) logged)
  bypass-IsAnswered (err e) r w v no_cache same logged =
      from_database (err e) no_cache same refl (ap (λ l. sample bypass (err e) ∷ l) logged)

  -- `GetProfile` answers 200 with the profile, or 500 with the text of the error, whatever the error
  -- is, and records one sample with the cache's label and the status. Under `Cache-Control: no-cache`
  -- the answer is the database's, the label is bypass and the cache is not touched; otherwise the
  -- answer and the label are the cache manager's.
  pub handle_get-IsAnswered : (r : Request) (w : World Entry W) → IsAnswered r w (handle_get h r w)
  unfolding handle_get
  handle_get-IsAnswered r w = elim (Bool-cases (str_eq r.cache_control "no-cache")) [
    | inl t ↦ rw t (bypass-IsAnswered _ r w _ ((eq_iff _ _).0 t) refl refl)
    | inr t ↦
        let (response, log) =
          answered_lem (get_profile h.cache_manager r.id w).0.0
            (get_profile h.cache_manager r.id w).0.1 (get_profile h.cache_manager r.id w).1 in
        rw t (
          from_manager (get_profile h.cache_manager r.id w).0.0
            (get_profile h.cache_manager r.id w).0.1
            (λ e. absurd (no_cache_differs r.cache_control e t)) refl response log)
  ]
