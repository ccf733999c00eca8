-- ===== src/Profile/Handler/Router.antt =====
-- internal/profile/handler.go: the routes of the profile service. The router itself is a parameter.
use investor_cache.Base.{
  subst, sym, ap, String, Bool, List, [], ◌∷◌, none, ◌≡◌, ◌≢◌, ◌⊎◌, inl, inr, refl,
}
use investor_cache.Go.{Result, ok, err, Error, World}
use investor_cache.Go.Strings.{concat}
use investor_cache.Journal.{Entry, Proc}
use investor_cache.Mux.{
  serve_http, serve_http-clean, serve_http-moved, Route, Vars, Mux, MuxLaws, IsLiteral, IsSegment,
  IsVariable, Served, handled, refused, served, var,
}
use investor_cache.Mux.Two.{
  text_cases, dispatch-IsDispatched, to_variable, to_literal, variable_method, literal_method,
  nowhere,
}
use investor_cache.Outbox.Events.{Encoder}
use investor_cache.Outbox.Repository.{Statements}
use investor_cache.Profile.Patch.{UpdateProfilePatch, Parsers}
use investor_cache.Profile.Repository.{UpdateQuery}
use investor_cache.Profile.Service.{Transactions}
use investor_cache.Profile.Service.Ends.{ForeignErrors}
use investor_cache.Profile.Handler.{
  Handler, Response, Request, handle_update, health_check, respond_json, status_text,
}
use investor_cache.Profile.Handler.Statuses.{
  IsAnswered, IsPatchAnswer, malformed, decoded, handler, handle_update-IsAnswered,
}

-- What the code reads of a request.
pub record HttpRequest : Type 0 where
  pub method : String
  pub path : String
  pub body : Result String

abbrev pub Endpoint : Type 0 → Type 0
Endpoint W = HttpRequest → Vars → Proc W Response

abbrev pub request_of : HttpRequest → String → Request
request_of r id = record { method = r.method; id = id; body = r.body }

module _ {W F : Type 0} (h : Handler W F) where
  abbrev pub update_investor : Endpoint W
  update_investor r vars = handle_update h (request_of r (var "id" vars))

  abbrev pub get_health : Endpoint W
  get_health r vars = health_check h

  abbrev pub new_router : List (Route (Endpoint W))
  new_router =
      record { template = "/api/v1/investors/{id}"; method = "PATCH"; handler = update_investor }
      ∷ record { template = "/health"; method = "GET"; handler = get_health }
      ∷ []

  unfoldable pub serve : Mux (Endpoint W) → HttpRequest → Proc W (Served Response)
  serve x r = serve_http x new_router r.method r.path r

module _ {W F : Type 0} (db : Transactions W) (q : UpdateQuery W) (st : Statements W)
    (encoder : Encoder W) (parsers : Parsers F) (has_metrics : Bool)
    (decode : String → Result UpdateProfilePatch) (library_text : Error → String) where
  abbrev pub server : Handler W F
  server = handler db q st encoder parsers has_metrics decode library_text

  -- The path is an investor's, with this identifier.
  abbrev pub IsInvestor : HttpRequest → String → Type 0
  IsInvestor r id = IsSegment id × (r.path ≡ concat "/api/v1/investors/" id)

  pub data IsServed (r : HttpRequest) (w : World Entry W) (out : Served Response × World Entry W)
      : Type 0 where
    -- A body that cannot be read, or is no patch.
    unreadable :
        (id : String) (response : Response)
        → IsInvestor r id
        → r.method ≡ "PATCH"
        → ((e : Error) × (r.body ≡ err e))
          ⊎ ((b : String) × (e : Error) × (r.body ≡ ok b) × (decode b ≡ err e))
        → response.status ≡ 400
        → out.0 ≡ handled response
        → IsServed r w out
    patched :
        (id b : String) (patch : UpdateProfilePatch) (response : Response)
        → IsInvestor r id
        → r.method ≡ "PATCH"
        → r.body ≡ ok b
        → decode b ≡ ok patch
        → IsPatchAnswer db q st encoder parsers has_metrics decode library_text id patch w.outside
            response
        → out.0 ≡ handled response
        → IsServed r w out
    healthy :
        r.path ≡ "/health"
        → r.method ≡ "GET"
        → out ≡ (handled (respond_json 200 (status_text "ok")), w)
        → IsServed r w out
    patch_only :
        (id : String)
        → IsInvestor r id
        → r.method ≢ "PATCH"
        → out ≡ (refused 405, w)
        → IsServed r w out
    get_only : r.path ≡ "/health" → r.method ≢ "GET" → out ≡ (refused 405, w) → IsServed r w out
    unknown :
        r.path ≢ "/health"
        → ((id : String) → IsSegment id → r.path ≢ concat "/api/v1/investors/" id)
        → out ≡ (refused 404, w)
        → IsServed r w out

  -- A `PATCH`: the path names an investor, so the identifier is not missing.
  patch-IsServed :
      (r : HttpRequest) (w : World Entry W) (id : String) (out : Response × World Entry W)
      → IsInvestor r id
      → r.method ≡ "PATCH"
      → IsAnswered db q st encoder parsers has_metrics decode library_text
          (request_of r id)
          w.outside
          out.0
      → IsServed r w (handled out.0, out.1)
  patch-IsServed r w id out named m (malformed (inl e) status) = absurd (named.0.filled e)
  patch-IsServed r w id out named m (malformed (inr cause) status) =
      unreadable id out.0 named m cause status refl
  patch-IsServed r w id out named m (decoded b patch id_named body read answer) =
      patched id b patch out.0 named m body read answer refl

  module _ (foreign : ForeignErrors db q st encoder) (x : Mux (Endpoint W)) (laws : MuxLaws x)
      (variable : IsVariable x "/api/v1/investors/{id}" "/api/v1/investors/" "id")
      (fixed : IsLiteral x "/health")
      (apart : x.takes "/api/v1/investors/{id}" "/health" ≡ none) where
    dispatched-IsServed :
        (r : HttpRequest) (w : World Entry W)
        → IsServed r w (served (x.dispatch (new_router server) r.method r.path) r w)
    unfolding served health_check
    dispatched-IsServed r w =
        elim (dispatch-IsDispatched x laws "/api/v1/investors/{id}" "/api/v1/investors/" "id"
          "PATCH" variable "/health" "GET" fixed apart (update_investor server) (get_health server)
          r.method r.path) [
            | to_variable s segment is m d ↦ rw d (
                patch-IsServed r w s (handle_update server (request_of r s) w) (segment, is) m
                  (handle_update-IsAnswered db q st encoder parsers has_metrics decode library_text
                    foreign (request_of r s) w))
            | to_literal is m d ↦ rw d (healthy is m refl)
            | variable_method s segment is m d ↦ rw d (patch_only s (segment, is) m refl)
            | literal_method is m d ↦ rw d (get_only is m refl)
            | nowhere v l d ↦ rw d (unknown l v refl)
          ]

    -- If the router matches templates and dispatches as its library documents, and the libraries fail
    -- with errors of their own: a request to the profile service whose path is not clean is
    -- redirected with 301 and changes nothing; any other has one end, and the refusal of a missing
    -- identifier is none of them. A `PATCH` of `/api/v1/investors/` and one more segment
    -- gets 400 where its body cannot be read or decoded, and otherwise the answer that its patch has
    -- for that identifier; a `GET` of `/health` gets 200; another method on either path gets 405 and
    -- any other path 404, and none of these three changes anything.
    pub serve-IsRouted :
        (r : HttpRequest) (w : World Entry W)
        → ((x.clean r.path ≢ r.path) × (serve server x r w ≡ (refused 301, w)))
          ⊎ ((x.clean r.path ≡ r.path) × IsServed r w (serve server x r w))
    unfolding serve
    serve-IsRouted r w = elim (text_cases (x.clean r.path) r.path) [
      | inl clean ↦ inr (
        clean,
        subst (IsServed r w)
            (sym (ap (λ f. f w) (serve_http-clean x (new_router server) r.method r.path r clean)))
            (dispatched-IsServed r w),
      )
      | inr dirty ↦
          inl
            (dirty, ap (λ f. f w) (serve_http-moved x (new_router server) r.method r.path r dirty))
    ]
