-- ===== src/Profile/Repository.antt =====
-- internal/profile/repository.go: the UPDATE that a patch becomes. The statement runs in the caller's
-- transaction, which is a parameter.
pub mod Placeholders
mod Tests
use text.Mathlib.Text.{◌==◌ as str_eq}
use investor_cache.Base.{
  String, Bool, true, false, ℕ, ◌+◌, ℤ, pos, List, [], ◌∷◌, ◌++◌, Option, none, some, if◌then◌else◌,
}
use investor_cache.Go.{
  Result, ok, err, Error, sentinel, wrap, validation, no_rows, not_found, email_exists, errors_is,
  pq_code, pure, call, ◌>>=◌,
}
use investor_cache.Go.Strings.{concat, join}
use investor_cache.Go.Strconv.{format_int}
use investor_cache.Journal.{Proc, sql_update_profile}
use investor_cache.Domain.{InvestorProfile}
use investor_cache.Profile.Patch.{UpdateProfilePatch, is_empty}

-- The three local variables that the blocks of the fields move on.
pub record Builder : Type 0 where
  pub set_clauses : List String
  pub args : List String
  pub next : ℕ

-- `"column = $" + strconv.Itoa(next) + cast`
abbrev pub clause : String → ℕ → String → String
clause column next cast = concat column (concat (format_int (pos next)) cast)

-- `if patch.F != nil { … }`
abbrev pub add_field : Option String → String → String → Builder → Builder
add_field none column cast b = b
add_field (some v) column cast b = record {
  set_clauses = b.set_clauses ++ clause column b.next cast ∷ [];
  args = b.args ++ v ∷ [];
  next = b.next + 1;
}

abbrev start : Builder
start = record { set_clauses = []; args = []; next = 1 }

unfoldable pub build : UpdateProfilePatch → Builder
build patch = add_field patch.preferences "preferences = $" "::jsonb" (
    add_field patch.portfolio_value "portfolio_value = $" "::numeric" (
      add_field patch.kyc_status "kyc_status = $" "" (
        add_field patch.risk_profile "risk_profile = $" "" (
          add_field patch.email "email = $" ""
            (add_field patch.full_name "full_name = $" "" start)))))

abbrev pub returning : String
returning =
    "\n\t\tRETURNING investor_id, full_name, email, risk_profile, kyc_status,\n\t\t          portfolio_value::text, preferences::text, updated_at::text, cache_version\n\t"

-- The text of the statement.
unfoldable pub query_of : Builder → String
query_of b = concat "\n\t\tUPDATE investors\n\t\tSET " (
    concat (join ", " b.set_clauses)
      (concat "\n\t\tWHERE investor_id = $" (concat (format_int (pos b.next)) returning)))

-- The nine columns that are returned.
pub record Row : Type 0 where
  pub investor_id : String
  pub full_name : String
  pub email : String
  pub risk_profile : String
  pub kyc_status : String
  pub portfolio_value : String
  pub preferences : String
  pub updated_at : String
  pub cache_version : ℤ

-- Two fields of the profile are not scanned, and keep their zero values.
abbrev pub scan_row : Row → InvestorProfile
scan_row row = record {
  investor_id = row.investor_id;
  full_name = row.full_name;
  email = row.email;
  risk_profile = row.risk_profile;
  kyc_status = row.kyc_status;
  portfolio_value = row.portfolio_value;
  preferences = row.preferences;
  qualified_investor = false;
  investment_horizon = "";
  updated_at = row.updated_at;
  cache_version = row.cache_version;
}

abbrev pub is_unique_violation : Option String → Bool
is_unique_violation none = false
is_unique_violation (some code) = str_eq code "23505"

unfoldable pub update_error : String → Error → Error
update_error id e =
    if errors_is e no_rows
    then sentinel not_found
    else if is_unique_violation (pq_code e)
    then sentinel email_exists
    else wrap (concat "update investor " id) e

abbrev pub updated : String → Result Row → Result InvestorProfile
updated id (ok row) = ok (scan_row row)
updated id (err e) = err (update_error id e)

-- `tx.QueryRowContext(ctx, query, args...).Scan(…)`
pub record UpdateQuery (W : Type 0) : Type 0 where
  pub query_row : String → List String → W → Result Row × W

module _ {W : Type 0} (q : UpdateQuery W) where
  unfoldable pub update : String → UpdateProfilePatch → Proc W (Result InvestorProfile)
  update id patch =
      if is_empty patch
      then pure (err (validation "" "patch is empty"))
      else (call (sql_update_profile id)
            (q.query_row (query_of (build patch)) ((build patch).args ++ id ∷ []))
          >>= λ r. pure (updated id r))
