-- ===== src/Profile/Repository/Tests.antt =====
-- The statement of a patch with two fields.
use investor_cache.Base.{[], ◌∷◌, none, some, ◌≡◌, refl}
use investor_cache.Journal.{Entry}
use investor_cache.Go.{
  err, World, sentinel, pq_error, wrap, message, no_rows, not_found, email_exists, errors_is,
  pq_code,
}
use investor_cache.Go.Strconv.{format_int}
use investor_cache.Profile.Patch.{UpdateProfilePatch, is_empty}
use investor_cache.Profile.Repository.{build, query_of, update_error, UpdateQuery}
use investor_cache.Profile.Repository.Placeholders.{IsStatement, update-IsStatement}

abbrev patch : UpdateProfilePatch
patch = record {
  full_name = none;
  email = some "ann@example.org";
  risk_profile = none;
  kyc_status = none;
  portfolio_value = some "10.5";
  preferences = none;
}

statement :
    ((build patch).set_clauses ≡ "email = $1" ∷ "portfolio_value = $2::numeric" ∷ [])
    × ((build patch).args ≡ "ann@example.org" ∷ "10.5" ∷ [])
    × (query_of (build patch)
        ≡ "\n\t\tUPDATE investors\n\t\tSET email = $1, portfolio_value = $2::numeric\n\t\tWHERE investor_id = $3\n\t\tRETURNING investor_id, full_name, email, risk_profile, kyc_status,\n\t\t          portfolio_value::text, preferences::text, updated_at::text, cache_version\n\t")
unfolding build query_of format_int
statement = (refl, refl, refl)

errors :
    (update_error "7" (sentinel no_rows) ≡ sentinel not_found)
    × (update_error "7" (pq_error "23505") ≡ sentinel email_exists)
    × (update_error "7" (message "timeout") ≡ wrap "update investor 7" (message "timeout"))
unfolding update_error errors_is pq_code
errors = (refl, refl, refl)

-- A transaction in which no row is found.
abbrev nobody : UpdateQuery (Unit {0})
nobody = record { query_row = λ text args w. (err (sentinel no_rows), w) }

abbrev start : World Entry (Unit {0})
start = record { outside = tt; log = [] }

update-IsStatement_example : IsStatement nobody patch "7" start
unfolding is_empty
update-IsStatement_example = update-IsStatement nobody patch "7" start refl
