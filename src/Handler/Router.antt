-- ===== src/Handler/Router.antt =====
-- internal/handler/profile.go: the routes of the read path. The router itself is a parameter.
use investor_cache.Base.{subst, sym, ap, none, String, List, [], ◌∷◌, ◌≡◌, ◌≢◌, ◌⊎◌, inl, inr, refl}
use investor_cache.Go.{World}
use investor_cache.Go.Strings.{concat}
use investor_cache.Journal.{Entry, Proc}
use investor_cache.Mux.{
  serve_http, serve_http-clean, serve_http-moved, Route, Vars, Mux, MuxLaws, IsLiteral, IsSegment,
  IsVariable, Served, handled, refused, served, var,
}
use investor_cache.Mux.Two.{
  text_cases, dispatch-IsDispatched, to_variable, to_literal, variable_method, literal_method,
  nowhere,
}
use investor_cache.Handler.{
  ProfileHandler, Response, Request, handle_get, health_check, respond_json, status_text,
}
use investor_cache.Handler.Responses.{IsAnswered, handle_get-IsAnswered}

-- What the code reads of a request.
pub record HttpRequest : Type 0 where
  pub method : String
  pub path : String
  pub cache_control : String

abbrev pub Endpoint : Type 0 → Type 0
Endpoint W = HttpRequest → Vars → Proc W Response

module _ {W : Type 0} (h : ProfileHandler W) where
  abbrev pub request_of : HttpRequest → String → Request
  request_of r id = record { id = id; cache_control = r.cache_control }

  abbrev pub get_investor : Endpoint W
  get_investor r vars = handle_get h (request_of r (var "id" vars))

  abbrev pub get_health : Endpoint W
  get_health r vars = health_check h

  abbrev pub new_router : List (Route (Endpoint W))
  new_router =
      record { template = "/api/v1/investors/{id}"; method = "GET"; handler = get_investor }
      ∷ record { template = "/health"; method = "GET"; handler = get_health }
      ∷ []

  unfoldable pub serve : Mux (Endpoint W) → HttpRequest → Proc W (Served Response)
  serve x r = serve_http x new_router r.method r.path r

  pub data IsServed (r : HttpRequest) (w : World Entry W) (out : Served Response × World Entry W)
      : Type 0 where
    -- `GET` of an investor: the response of `GetProfile`, for the segment of the path.
    investor :
        (id : String) (response : Response)
        → IsSegment id
        → r.path ≡ concat "/api/v1/investors/" id
        → r.method ≡ "GET"
        → IsAnswered h (request_of r id) w (response, out.1)
        → out.0 ≡ handled response
        → IsServed r w out
    healthy :
        r.path ≡ "/health"
        → r.method ≡ "GET"
        → out ≡ (handled (respond_json 200 (status_text "ok")), w)
        → IsServed r w out
    -- A path of the router under another method.
    wrong_method :
        (r.path ≡ "/health")
          ⊎ ((id : String) × IsSegment id × (r.path ≡ concat "/api/v1/investors/" id))
        → r.method ≢ "GET"
        → out ≡ (refused 405, w)
        → IsServed r w out
    unknown :
        r.path ≢ "/health"
        → ((id : String) → IsSegment id → r.path ≢ concat "/api/v1/investors/" id)
        → out ≡ (refused 404, w)
        → IsServed r w out

  module _ (x : Mux (Endpoint W)) (laws : MuxLaws x)
      (variable : IsVariable x "/api/v1/investors/{id}" "/api/v1/investors/" "id")
      (fixed : IsLiteral x "/health")
      (apart : x.takes "/api/v1/investors/{id}" "/health" ≡ none) where
    dispatched-IsServed :
        (r : HttpRequest) (w : World Entry W)
        → IsServed r w (served (x.dispatch new_router r.method r.path) r w)
    unfolding served health_check
    dispatched-IsServed r w =
        elim (dispatch-IsDispatched x laws "/api/v1/investors/{id}" "/api/v1/investors/" "id" "GET"
          variable "/health" "GET" fixed apart get_investor get_health r.method r.path) [
            | to_variable s segment is m d ↦
                rw d (investor s _ segment is m (handle_get-IsAnswered h (request_of r s) w) refl)
            | to_literal is m d ↦ rw d (healthy is m refl)
            | variable_method s segment is m d ↦ rw d (wrong_method (inr (s, segment, is)) m refl)
            | literal_method is m d ↦ rw d (wrong_method (inl is) m refl)
            | nowhere v l d ↦ rw d (unknown l v refl)
          ]

    -- If the router matches templates and dispatches as its library documents: a request
    -- to the read path whose path is not clean is redirected with 301 and changes nothing, and any
    -- other has one of four ends. A `GET` of `/api/v1/investors/` and one more segment gets the
    -- response of `GetProfile` for that segment, a `GET` of `/health` gets 200 and changes nothing,
    -- another method on either gets 405, and any other path gets 404, both with nothing changed.
    pub serve-IsServed :
        (r : HttpRequest) (w : World Entry W)
        → ((x.clean r.path ≢ r.path) × (serve x r w ≡ (refused 301, w)))
          ⊎ ((x.clean r.path ≡ r.path) × IsServed r w (serve x r w))
    unfolding serve
    serve-IsServed r w = elim (text_cases (x.clean r.path) r.path) [
      | inl clean ↦ inr (
        clean,
        subst (IsServed r w)
            (sym (ap (λ f. f w) (serve_http-clean x new_router r.method r.path r clean)))
            (dispatched-IsServed r w),
      )
      | inr dirty ↦
          inl (dirty, ap (λ f. f w) (serve_http-moved x new_router r.method r.path r dirty))
    ]
