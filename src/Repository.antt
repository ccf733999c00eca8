-- ===== src/Repository.antt =====
-- internal/repository/postgres.go: `GetByID`. The query is PostgreSQL's; its row comes back with the
-- columns of the profile, or with an error of `database/sql`.
use investor_cache.Base.{String}
use investor_cache.Go.{Result, ok, err, Error, sentinel, message, wrap, no_rows}
use investor_cache.Go.Strings.{concat}
use investor_cache.Domain.{InvestorProfile, ProfileRepository}

-- `QueryRowContext(ctx, query, id).Scan(…)` of the eleven columns.
pub record Database (W : Type 0) : Type 0 where
  pub select_investor : String → W → Result InvestorProfile × W

-- `err == sql.ErrNoRows` compares the value itself, and looks through no wrapping.
unfoldable pub query_error : String → Error → Error
query_error id (sentinel no_rows) = message (concat "investor " (concat id " not found"))
query_error id e = wrap (concat "failed to query investor " id) e

unfoldable pub scanned : String → Result InvestorProfile → Result InvestorProfile
unfolding query_error
scanned id (ok p) = ok p
scanned id (err e) = err (query_error id e)

module _ {W : Type 0} (db : Database W) where
  unfoldable pub get_by_id : String → W → Result InvestorProfile × W
  get_by_id id w = (scanned id (db.select_investor id w).0, (db.select_investor id w).1)

  abbrev pub postgres_repository : ProfileRepository W
  postgres_repository = record { get_by_id = get_by_id }
