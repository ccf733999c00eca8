-- ===== src/Profile/Repository/Placeholders.antt =====
-- The statement of `Update`: its placeholders and the arguments that they stand for.
use mathlib.Core.List.{append-nil, map-append}
use investor_cache.Base.{
  String, false, pos, ℕ, zero, suc, ◌+◌, List, [], ◌∷◌, ◌++◌, Option, none, some, map, length,
  length-append, ◌≡◌, refl, ap, ◌∙◌, sym, arith,
}
use investor_cache.Go.Strings.{concat}
use investor_cache.Profile.Patch.{UpdateProfilePatch, append_field, changed_fields}
use investor_cache.Go.{World}
use investor_cache.Go.Strings.{join}
use investor_cache.Go.Strconv.{format_int}
use investor_cache.Journal.{Entry, sql_update_profile}
use investor_cache.Profile.Patch.{is_empty}
use investor_cache.Profile.Repository.{
  Builder, clause, add_field, build, query_of, update, updated, UpdateQuery,
}

-- A column that is set: its name, the cast behind its placeholder, and the new value.
pub record Assignment : Type 0 where
  pub name : String
  pub cast : String
  pub new_value : String

abbrev pub present : Option String → String → String → List Assignment
present none name cast = []
present (some v) name cast = record { name = name; cast = cast; new_value = v } ∷ []

-- The assignments that a patch asks for.
abbrev pub assignments : UpdateProfilePatch → List Assignment
assignments p =
    ((((present p.full_name "full_name" "" ++ present p.email "email" "")
          ++ present p.risk_profile "risk_profile" "")
        ++ present p.kyc_status "kyc_status" "")
      ++ present p.portfolio_value "portfolio_value" "::numeric")
    ++ present p.preferences "preferences" "::jsonb"

-- The SET clauses of assignments, numbered from `n` on.
abbrev pub numbered : ℕ → List Assignment → List String
numbered n [] = []
numbered n (a ∷ as') = clause (concat a.name " = $") n a.cast ∷ numbered (n + 1) as'

abbrev pub names_of : List Assignment → List String
names_of = map (λ (a : Assignment). a.name)

abbrev pub values_of : List Assignment → List String
values_of = map (λ (a : Assignment). a.new_value)

-- The element behind so many.
abbrev pub get_elem? : List String → ℕ → Option String
get_elem? [] i = none
get_elem? (s ∷ rest) zero = some s
get_elem? (s ∷ rest) (suc i) = get_elem? rest i

numbered-append :
    (n : ℕ) (l m : List Assignment)
    → numbered n (l ++ m) ≡ numbered n l ++ numbered (n + length l) m
numbered-append n [] m = ap (λ k. numbered k m) (omega arith)
numbered-append n (a ∷ l) m =
    ap (λ t. clause (concat a.name " = $") n a.cast ∷ t)
      (numbered-append (n + 1) l m ∙ ap (λ k. numbered (n + 1) l ++ numbered k m) (omega arith))

get_elem?-append_last : (l : List String) (s : String) → get_elem? (l ++ s ∷ []) (length l) ≡ some s
get_elem?-append_last [] s = refl
get_elem?-append_last (t ∷ l) s = get_elem?-append_last l s

length-values_of : (l : List Assignment) → length (values_of l) ≡ length l
length-values_of [] = refl
length-values_of (a ∷ l) = omega (arith, length-values_of l)

record IsBuilt (l : List Assignment) (b : Builder) : Type 0 where
  clauses : b.set_clauses ≡ numbered 1 l
  bound : b.args ≡ values_of l
  last : b.next ≡ 1 + length l

add_field-IsBuilt :
    (o : Option String) (name cast : String) {l : List Assignment} {b : Builder}
    → IsBuilt l b
    → IsBuilt (l ++ present o name cast) (add_field o (concat name " = $") cast b)
add_field-IsBuilt none name cast {l} h = rw (append-nil l) h
add_field-IsBuilt (some v) name cast {l} {b} h = record {
  clauses =
      ap (λ t. t ++ clause (concat name " = $") b.next cast ∷ []) h.clauses
      ∙ ap (λ k. numbered 1 l ++ clause (concat name " = $") k cast ∷ []) h.last
      ∙ sym (numbered-append 1 l (present (some v) name cast));
  bound =
      ap (λ t. t ++ v ∷ []) h.bound
      ∙ sym (map-append (λ (a : Assignment). a.new_value) l (present (some v) name cast));
  last = omega (arith, h.last, length-append l (present (some v) name cast));
}

build-IsBuilt : (p : UpdateProfilePatch) → IsBuilt (assignments p) (build p)
unfolding build
build-IsBuilt p =
    let empty : IsBuilt [] (record { set_clauses = []; args = []; next = 1 }) = record {
      clauses = refl;
      bound = refl;
      last = omega arith;
    } in
    add_field-IsBuilt p.preferences "preferences" "::jsonb" (
      add_field-IsBuilt p.portfolio_value "portfolio_value" "::numeric" (
        add_field-IsBuilt p.kyc_status "kyc_status" "" (
          add_field-IsBuilt p.risk_profile "risk_profile" "" (
            add_field-IsBuilt p.email "email" ""
              (add_field-IsBuilt p.full_name "full_name" "" empty)))))

names_of-append :
    (l : List Assignment) (o : Option String) (name cast : String)
    → names_of (l ++ present o name cast) ≡ append_field o name (names_of l)
names_of-append l none name cast = ap names_of (append-nil l)
names_of-append l (some v) name cast =
    map-append (λ (a : Assignment). a.name) l (present (some v) name cast)

names_of-assignments : (p : UpdateProfilePatch) → names_of (assignments p) ≡ changed_fields p
unfolding changed_fields
names_of-assignments p = rw (
  names_of-append _ p.preferences "preferences" "::jsonb",
  names_of-append _ p.portfolio_value "portfolio_value" "::numeric",
  names_of-append _ p.kyc_status "kyc_status" "",
  names_of-append _ p.risk_profile "risk_profile" "",
  names_of-append (present p.full_name "full_name" "") p.email "email" "",
  names_of-append [] p.full_name "full_name" "",
)

get_elem?-values_of :
    (before after : List Assignment) (a : Assignment) (rest : List String)
    → get_elem? (values_of (before ++ a ∷ after) ++ rest) (length before) ≡ some a.new_value
get_elem?-values_of [] after a rest = refl
get_elem?-values_of (b ∷ before) after a rest = get_elem?-values_of before after a rest

-- The text that the assignments ask for: they are numbered from 1 on, and the number of the WHERE
-- clause is the next.
abbrev pub statement_of : List Assignment → String
statement_of l = concat "\n\t\tUPDATE investors\n\t\tSET " (
    concat (join ", " (numbered 1 l)) (
      concat "\n\t\tWHERE investor_id = $" (
        concat (format_int (pos (length l + 1)))
          "\n\t\tRETURNING investor_id, full_name, email, risk_profile, kyc_status,\n\t\t          portfolio_value::text, preferences::text, updated_at::text, cache_version\n\t")))

-- What `Update` asks of the transaction, in a world.
pub record IsStatement {W : Type 0} (q : UpdateQuery W) (p : UpdateProfilePatch) (id : String)
    (w : World Entry W) : Type 0 where
  pub args : List String
  pub columns : names_of (assignments p) ≡ changed_fields p
  pub asked : update q id p w ≡ (
    updated id (q.query_row (statement_of (assignments p)) args w.outside).0,
    record {
      outside = (q.query_row (statement_of (assignments p)) args w.outside).1;
      log = sql_update_profile id ∷ w.log;
    },
  )
  pub bound :
      (before after : List Assignment) (a : Assignment)
      → assignments p ≡ before ++ a ∷ after
      → get_elem? args (length before) ≡ some a.new_value
  pub id_bound : get_elem? args (length (assignments p)) ≡ some id
  pub no_more : length args ≡ suc (length (assignments p))

query_of-build : (p : UpdateProfilePatch) → query_of (build p) ≡ statement_of (assignments p)
unfolding query_of
query_of-build p =
    let next : (build p).next ≡ length (assignments p) + 1 = (build-IsBuilt p).last ∙ omega arith in
    rw ((build-IsBuilt p).clauses, next) refl

-- For a patch that is not empty, `Update` asks once, for an UPDATE that sets exactly the columns that
-- the patch changes, in the order in which `ChangedFields` lists them, with placeholders numbered
-- from 1 on and the next number in the WHERE clause. The argument in the place of each number is the
-- new value of its column, the one in the place of the WHERE clause's number is the identifier, and
-- there are no more. It returns what the answer to that statement comes to.
pub update-IsStatement :
    {W : Type 0} (q : UpdateQuery W) (p : UpdateProfilePatch) (id : String) (w : World Entry W)
    → is_empty p ≡ false
    → IsStatement q p id w
unfolding update
update-IsStatement q p id w filled = record {
  args = values_of (assignments p) ++ id ∷ [];
  columns = names_of-assignments p;
  asked = rw (filled, query_of-build p, (build-IsBuilt p).bound) refl;
  bound = λ before after a split. rw split (get_elem?-values_of before after a (id ∷ []));
  id_bound =
      rw (← length-values_of (assignments p))
        (get_elem?-append_last (values_of (assignments p)) id);
  no_more =
      length-append (values_of (assignments p)) (id ∷ [])
      ∙ omega (arith, length-values_of (assignments p));
}
