-- ===== src/Mux/Two.antt =====
-- A router of two routes, a variable one and a literal one, as both routers of the repository are.
use text.Mathlib.Text.{◌==◌ as str_eq}
use text.Mathlib.TextEquality.{eq_iff}
use investor_cache.Base.{
  String, List, [], ◌∷◌, Option, none, some, ◌≡◌, ◌≢◌, refl, sym, ◌∙◌, ap, arith, inl, inr, ◌⊎◌,
  Bool-cases,
}
use investor_cache.Go.Strings.{concat}
use investor_cache.Mux.{
  Route, Vars, Dispatched, found, not_allowed, absent, Mux, MuxLaws, IsLiteral, IsSegment,
  IsVariable,
}

pub text_cases : (s t : String) → (s ≡ t) ⊎ (s ≢ t)
text_cases s t = elim (Bool-cases (str_eq s t)) [
  | inl same ↦ inl (ground (arith, eq_iff s t))
  | inr other ↦ inr (ground (arith, eq_iff s t))
]

Option-cases : (o : Option Vars) → ((vars : Vars) × (o ≡ some vars)) ⊎ (o ≡ none)
Option-cases none = inr refl
Option-cases (some vars) = inl (vars, refl)

none-ne-some : {vars : Vars} → none ≢ some vars
none-ne-some = cc

module _ {H : Type 0} (x : Mux H) (laws : MuxLaws x) (template prefix name method : String)
    (variable : IsVariable x template prefix name) (literal other : String)
    (fixed : IsLiteral x literal) (apart : x.takes template literal ≡ none)
    (by_id by_literal : H) where
  abbrev pub routes : List (Route H)
  routes =
      record { template = template; method = method; handler = by_id }
      ∷ record { template = literal; method = other; handler = by_literal }
      ∷ []

  -- What a request comes to.
  pub data IsDispatched (m path : String) (d : Dispatched H) : Type 0 where
    to_variable :
        (s : String)
        → IsSegment s
        → path ≡ concat prefix s
        → m ≡ method
        → d ≡ found by_id ((name, s) ∷ [])
        → IsDispatched m path d
    to_literal : path ≡ literal → m ≡ other → d ≡ found by_literal [] → IsDispatched m path d
    variable_method :
        (s : String)
        → IsSegment s
        → path ≡ concat prefix s
        → m ≢ method
        → d ≡ not_allowed
        → IsDispatched m path d
    literal_method : path ≡ literal → m ≢ other → d ≡ not_allowed → IsDispatched m path d
    nowhere :
        ((s : String) → IsSegment s → path ≢ concat prefix s)
        → path ≢ literal
        → d ≡ absent
        → IsDispatched m path d

  abbrev first_route : Route H
  first_route = record { template = template; method = method; handler = by_id }

  abbrev last_route : Route H
  last_route = record { template = literal; method = other; handler = by_literal }

  -- The second route, on a path that is not its own.
  literal-absent : (m path : String) → path ≢ literal → x.dispatch (last_route ∷ []) m path ≡ absent
  literal-absent m path ne =
      laws.dispatch_next last_route [] m path (fixed.takes_ne path ne) ∙ laws.dispatch_none m path

  variable-IsDispatched :
      (m path : String) (vars : Vars)
      → x.takes template path ≡ some vars
      → IsDispatched m path (x.dispatch routes m path)
  variable-IsDispatched m path vars taken =
      let (s, segment, is, said) = variable.takes_inv path vars taken in
      let elsewhere : path ≢ literal =
        λ e. none-ne-some (sym apart ∙ ap (x.takes template) (sym e) ∙ taken) in
      elim (text_cases method m) [
        | inl e ↦ to_variable s segment is (sym e) (
            laws.dispatch_first first_route (last_route ∷ []) m path vars taken e
            ∙ ap (found by_id) said)
        | inr ne ↦
            variable_method s segment is (λ e. ne (sym e))
              (laws.dispatch_other first_route (last_route ∷ []) m path vars taken ne
                (literal-absent m path elsewhere))
      ]

  literal-IsDispatched :
      (m path : String)
      → x.takes template path ≡ none
      → IsDispatched m path (x.dispatch routes m path)
  literal-IsDispatched m path refused =
      let next = laws.dispatch_next first_route (last_route ∷ []) m path refused in
      elim (text_cases path literal) [
        | inl is ↦
            let taken = ap (x.takes literal) is ∙ fixed.takes_self in
            elim (text_cases other m) [
              | inl e ↦
                  to_literal is (sym e) (next ∙ laws.dispatch_first last_route [] m path [] taken e)
              | inr ne ↦
                  literal_method is (λ e. ne (sym e))
                    (next
                      ∙ laws.dispatch_other last_route [] m path [] taken ne
                          (laws.dispatch_none m path))
            ]
        | inr ne ↦
            nowhere
              (λ s segment e.
                none-ne-some
                  (sym refused ∙ ap (x.takes template) e ∙ variable.takes_segment s segment))
              ne (next ∙ literal-absent m path ne)
      ]

  pub dispatch-IsDispatched : (m path : String) → IsDispatched m path (x.dispatch routes m path)
  dispatch-IsDispatched m path = elim (Option-cases (x.takes template path)) [
    | inl (vars, taken) ↦ variable-IsDispatched m path vars taken
    | inr refused ↦ literal-IsDispatched m path refused
  ]
