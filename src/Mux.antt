-- ===== src/Mux.antt =====
-- gorilla/mux, which the routers are made with: a router is the list of its routes, and the dispatch
-- of a request is a parameter, with what the library documents of it.
pub mod Two
pub mod Memory
use text.Mathlib.Text.{◌==◌ as str_eq}
use text.Mathlib.TextEquality.{eq_iff}
use investor_cache.Base.{
  if◌then◌else◌, String, Bool, true, false, ℕ, List, [], ◌∷◌, Option, none, some, ◌≡◌, ◌≢◌, refl,
  arith,
}
use investor_cache.Go.{pure, ◌>>=◌}
use investor_cache.Go.Strings.{concat, contains}
use investor_cache.Journal.{Proc}

-- `HandleFunc(template, handler).Methods(method)`; `H` are the handlers.
pub record Route (H : Type 0) : Type 0 where
  pub template : String
  pub method : String
  pub handler : H

-- The values of a request's path variables, `mux.Vars(r)`.
abbrev pub Vars : Type 0
Vars = List (String × String)

-- What a request comes to: a handler, 405 or 404.
pub data Dispatched (H : Type 0) : Type 0 where
  found : H → Vars → Dispatched H
  not_allowed : Dispatched H
  absent : Dispatched H

-- `clean` removes dot segments and double slashes of a path, as `cleanPath` does; `takes` matches a
-- template with a cleaned path.
pub record Mux (H : Type 0) : Type 0 where
  pub clean : String → String
  pub takes : String → String → Option Vars
  pub dispatch : List (Route H) → String → String → Dispatched H

-- Routes are tested in their order. One whose template matches under another method is remembered.
pub record MuxLaws {H : Type 0} (x : Mux H) : Type 0 where
  pub dispatch_none : (method path : String) → x.dispatch [] method path ≡ absent
  pub dispatch_first :
      (r : Route H) (rs : List (Route H)) (method path : String) (vars : Vars)
      → x.takes r.template path ≡ some vars
      → r.method ≡ method
      → x.dispatch (r ∷ rs) method path ≡ found r.handler vars
  pub dispatch_next :
      (r : Route H) (rs : List (Route H)) (method path : String)
      → x.takes r.template path ≡ none
      → x.dispatch (r ∷ rs) method path ≡ x.dispatch rs method path
  pub dispatch_other :
      (r : Route H) (rs : List (Route H)) (method path : String) (vars : Vars)
      → x.takes r.template path ≡ some vars
      → r.method ≢ method
      → x.dispatch rs method path ≡ absent
      → x.dispatch (r ∷ rs) method path ≡ not_allowed

-- A template without variables matches itself alone.
pub record IsLiteral {H : Type 0} (x : Mux H) (template : String) : Type 0 where
  pub takes_self : x.takes template template ≡ some []
  pub takes_ne : (path : String) → path ≢ template → x.takes template path ≡ none

-- A text that is not empty and has no slash.
pub record IsSegment (s : String) : Type 0 where
  pub filled : s ≢ ""
  pub whole : contains "/" s ≡ false

-- A template that ends with the variable `name` behind `prefix` matches the paths with one more
-- segment.
pub record IsVariable {H : Type 0} (x : Mux H) (template prefix name : String) : Type 0 where
  pub takes_segment :
      (s : String) → IsSegment s → x.takes template (concat prefix s) ≡ some ((name, s) ∷ [])
  pub takes_inv :
      (path : String) (vars : Vars)
      → x.takes template path ≡ some vars
      → (s : String) × IsSegment s × (path ≡ concat prefix s) × (vars ≡ (name, s) ∷ [])

-- `mux.Vars(r)[name]`
abbrev pub var : String → Vars → String
var name [] = ""
var name ((k, v) ∷ vars) = if str_eq k name then v else var name vars

-- What the client gets: a handler's response, or the status that the router answers by itself.
pub data Served (R : Type 0) : Type 0 where
  handled : R → Served R
  refused : ℕ → Served R

-- A dispatched request: `Q` is the request, `R` the response.
unfoldable pub served : {Q W R : Type 0} → Dispatched (Q → Vars → Proc W R) → Q → Proc W (Served R)
served (found handler vars) r = do response ← handler r vars; pure (handled response)
served not_allowed r = pure (refused 405)
served absent r = pure (refused 404)

-- `ServeHTTP`: a request whose path is not clean is redirected to the clean one by 301.
unfoldable pub serve_http :
    {Q W R : Type 0}
    → Mux (Q → Vars → Proc W R)
    → List (Route (Q → Vars → Proc W R))
    → String
    → String
    → Q
    → Proc W (Served R)
serve_http x routes method path r =
    let dispatched = served (x.dispatch routes method path) r in
    if str_eq (x.clean path) path then dispatched else pure (refused 301)

pub serve_http-clean :
    {Q W R : Type 0} (x : Mux (Q → Vars → Proc W R)) (routes : List (Route (Q → Vars → Proc W R)))
    (method path : String) (r : Q)
    → x.clean path ≡ path
    → serve_http x routes method path r ≡ served (x.dispatch routes method path) r
unfolding serve_http
serve_http-clean x routes method path r h =
    let same : str_eq (x.clean path) path ≡ true = (eq_iff (x.clean path) path).1 h in rw same refl

pub serve_http-moved :
    {Q W R : Type 0} (x : Mux (Q → Vars → Proc W R)) (routes : List (Route (Q → Vars → Proc W R)))
    (method path : String) (r : Q)
    → x.clean path ≢ path
    → serve_http x routes method path r ≡ pure (refused 301)
unfolding serve_http
serve_http-moved x routes method path r h =
    let other : str_eq (x.clean path) path ≡ false = ground (arith, eq_iff (x.clean path) path) in
    rw other refl
