-- ===== src/Mux/Memory.antt =====
-- A concrete router, whose only template with a variable is that of the investors.
use Prim.Native.String.{len, slice}
use Prim.Native.Char.{code}
use investor_cache.Base.{◌==◌}
use text.Mathlib.Text.{◌==◌ as str_eq, starts_with}
use text.Mathlib.TextEquality.{eq_iff, starts_with_iff}
use text.Mathlib.TextPositions.{starts_with-append, slice-append_right, len-append}
use investor_cache.Base.{
  String, Bool, true, false, not, ◌&&◌, if◌then◌else◌, List, [], ◌∷◌, Option, none, some, ◌≡◌, ◌≢◌,
  refl, sym, ap, ◌∙◌, arith, Bool-cases, inl, inr,
}
use investor_cache.Go.Strings.{concat, contains}
use investor_cache.Mux.{
  Route, Vars, Dispatched, found, not_allowed, absent, Mux, MuxLaws, IsLiteral, IsSegment,
  IsVariable,
}

abbrev pub investors : String
investors = "/api/v1/investors/"

abbrev pub by_id : String
by_id = "/api/v1/investors/{id}"

abbrev pub is_segment : String → Bool
is_segment s = not (str_eq s "") && not (contains "/" s)

unfoldable pub bound : String → Option Vars
bound s = if is_segment s then some (("id", s) ∷ []) else none

unfoldable pub after_prefix : String → Option Vars
after_prefix path =
    if starts_with path investors then bound (slice path (len investors) (len path)) else none

unfoldable pub takes : String → String → Option Vars
takes template path =
    if str_eq template by_id
    then after_prefix path
    else if str_eq template path
    then some []
    else none

-- Double slashes become one.
abbrev pub is_slash_first : String → Bool
is_slash_first String.[] = false
is_slash_first (String.◌∷◌ c s) = code c == code "/"

abbrev pub squeeze : String → String
squeeze String.[] = ""
squeeze (String.◌∷◌ c s) =
    let rest = squeeze s in
    if code c == code "/" && is_slash_first rest then rest else String.◌∷◌ c rest

module _ {H : Type 0} where
  unfoldable pub missed : Dispatched H → Dispatched H
  missed (found h vars) = found h vars
  missed not_allowed = not_allowed
  missed absent = not_allowed

  unfoldable pub reached : Option Vars → Route H → String → Dispatched H → Dispatched H
  reached none r m rest = rest
  reached (some vars) r m rest = if str_eq r.method m then found r.handler vars else missed rest

  unfoldable pub dispatch : List (Route H) → String → String → Dispatched H
  dispatch [] m path = absent
  dispatch (r ∷ rs) m path = reached (takes r.template path) r m (dispatch rs m path)

abbrev pub memory : {H : Type 0} → Mux H
memory = record { clean = squeeze; takes = takes; dispatch = dispatch }

ne_test : {s t : String} → s ≢ t → str_eq s t ≡ false
ne_test {s} {t} ne = ground (arith, eq_iff s t)

eq_test : (s : String) → str_eq s s ≡ true
eq_test s = (eq_iff s s).1 refl

pub memory-MuxLaws : {H : Type 0} → MuxLaws (memory {H = H})
unfolding dispatch reached missed
memory-MuxLaws = record {
  dispatch_none = λ m path. refl;
  dispatch_first = λ r rs m path vars taken same. rw (taken, (eq_iff r.method m).1 same) refl;
  dispatch_next = λ r rs m path refused. rw refused refl;
  dispatch_other = λ r rs m path vars taken ne none_left. rw (taken, ne_test ne, none_left) refl;
}

pub takes-IsLiteral :
    {H : Type 0} (template : String) → template ≢ by_id → IsLiteral (memory {H = H}) template
unfolding takes
takes-IsLiteral template ne = record {
  takes_self = rw (ne_test ne, eq_test template) refl;
  takes_ne = λ path other. rw (ne_test ne, ne_test (λ e. other (sym e))) refl;
}

bound_inv : (s : String) (vars : Vars) → bound s ≡ some vars → IsSegment s × (vars ≡ ("id", s) ∷ [])
unfolding bound
bound_inv s vars h = ground (arith, eq_iff s "")

segment-bound : (s : String) → IsSegment s → bound s ≡ some (("id", s) ∷ [])
unfolding bound
segment-bound s h = rw (ne_test h.filled, h.whole) refl

after_prefix-concat : (s : String) → after_prefix (concat investors s) ≡ bound s
unfolding after_prefix
after_prefix-concat s =
    rw (starts_with-append investors s, len-append investors s, slice-append_right investors s) refl

no_prefix : (path : String) → starts_with path investors ≡ false → after_prefix path ≡ none
unfolding after_prefix
no_prefix path f = rw f refl

after_prefix_inv :
    (path : String) (vars : Vars)
    → after_prefix path ≡ some vars
    → (s : String) × IsSegment s × (path ≡ concat investors s) × (vars ≡ ("id", s) ∷ [])
after_prefix_inv path vars h = elim (Bool-cases (starts_with path investors)) [
  | inl t ↦
      let (s, e) = (starts_with_iff path investors).0 t in
      let (segment, said) =
        bound_inv s vars (sym (after_prefix-concat s) ∙ ap after_prefix e ∙ h) in
      (s, segment, sym e, said)
  | inr f ↦ let no = no_prefix path f in absurd (cc (no, h))
]

-- The template with the variable does not take the other path.
pub health-apart : takes by_id "/health" ≡ none
unfolding takes after_prefix bound
health-apart = refl

pub by_id-IsVariable : {H : Type 0} → IsVariable (memory {H = H}) by_id investors "id"
unfolding takes
by_id-IsVariable = record {
  takes_segment = λ s h. after_prefix-concat s ∙ segment-bound s h;
  takes_inv = after_prefix_inv;
}
