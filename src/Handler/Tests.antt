-- ===== src/Handler/Tests.antt =====
-- Requests to a handler whose cache is empty and whose database lacks the investor.
use investor_cache.Mux.Memory.{
  memory, memory-MuxLaws, by_id-IsVariable, takes-IsLiteral, health-apart, takes, dispatch, reached,
  missed, bound, after_prefix,
}
use investor_cache.Base.{◌⊎◌}
use investor_cache.Mux.Memory.{squeeze}
use investor_cache.Mux.{serve_http, served, refused}
use investor_cache.Handler.Router.{HttpRequest, serve, IsServed, serve-IsServed}
use text.Mathlib.TextEquality.{eq_iff}
use investor_cache.Base.{String, ◌≢◌, true, false, [], pos, ◌≡◌, refl}
use investor_cache.Go.{ok, err, World, sentinel, no_rows, redis_nil}
use investor_cache.Journal.{Entry}
use investor_cache.Repository.{Database, postgres_repository, get_by_id, scanned, query_error}
use investor_cache.Cache.Manager.{new_cache_manager}
use investor_cache.Handler.{
  ProfileHandler, new_profile_handler, Request, handle_get, bypassed, finish,
}
use investor_cache.Handler.Responses.{IsAnswered, handle_get-IsAnswered}

abbrev database : Database (Unit {0})
database = record { select_investor = λ id w. (err (sentinel no_rows), w) }

abbrev handler : ProfileHandler (Unit {0})
handler =
    new_profile_handler
      (new_cache_manager (λ name. "true")
        (record {
          get = λ k w. (err (sentinel redis_nil), w);
          set_versioned = λ k p ttl w. (ok true, w);
          delete = λ k w. (ok tt, w);
          delete_batch = λ ks w. (ok tt, w);
        })
        (postgres_repository database) (λ k f w. (((f w).0, false), (f w).1)) (λ f w. f w)
        (pos 3_600_000_000_000))
      (postgres_repository database) (λ e. "an error")

abbrev request : Request
request = record { id = "7"; cache_control = "no-cache" }

abbrev empty : World Entry (Unit {0})
empty = record { outside = tt; log = [] }

-- A missing investor is answered 500.
missing_investor : (handle_get handler request empty).0.status ≡ 500
unfolding handle_get get_by_id scanned query_error bypassed finish
missing_investor = refl

handle_get-IsAnswered_example : IsAnswered handler request empty (handle_get handler request empty)
handle_get-IsAnswered_example = handle_get-IsAnswered handler request empty

abbrev health : String
health = "/health"

not_by_id : health ≢ "/api/v1/investors/{id}"
not_by_id e = let same = (eq_iff health "/api/v1/investors/{id}").1 e in cc same

abbrev lookup : HttpRequest
lookup = record { method = "GET"; path = "/api/v1/investors/7"; cache_control = "no-cache" }

-- A path with a segment too many has no route.
too_long :
    (serve handler memory
      (record { method = "GET"; path = "/api/v1/investors/7/x"; cache_control = "" })
      empty).0
    ≡ refused 404
unfolding serve serve_http served dispatch reached missed takes bound after_prefix
too_long = refl

-- A double slash is redirected.
redirected :
    (serve handler memory
      (record { method = "GET"; path = "//health"; cache_control = "" })
      empty).0
    ≡ refused 301
unfolding serve serve_http
redirected = refl

serve-IsServed_example :
    ((squeeze lookup.path ≢ lookup.path)
      × (serve handler memory lookup empty ≡ (refused 301, empty)))
    ⊎ ((squeeze lookup.path ≡ lookup.path)
        × IsServed handler lookup empty (serve handler memory lookup empty))
serve-IsServed_example =
    serve-IsServed handler memory memory-MuxLaws by_id-IsVariable
      (takes-IsLiteral "/health" not_by_id) health-apart lookup empty
