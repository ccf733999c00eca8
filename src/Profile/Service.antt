-- ===== src/Profile/Service.antt =====
-- internal/profile/service.go: a profile's update and its outbox event in one transaction.
pub mod Atomic
pub mod Ends
mod Tests
use investor_cache.Base.{String, Bool, true, false, Option, none, some, if◌then◌else◌}
use investor_cache.Go.{Result, ok, err, Error, wrap, validation, pure, call, ◌>>=◌, ◌>>◌}
use investor_cache.Journal.{Proc, begin_tx, commit_tx, rollback_tx}
use investor_cache.Metrics.{record_outbox_event}
use investor_cache.Domain.{InvestorProfile}
use investor_cache.Outbox.Events.{Event, Encoder, new_profile_updated_event}
use investor_cache.Outbox.Repository.{Statements, add_event}
use investor_cache.Profile.Patch.{
  UpdateProfilePatch, ValidationError, Parsers, changed_fields, validate_patch,
}
use investor_cache.Profile.Repository.{UpdateQuery, update}

-- The service, with its two repositories as interfaces and the transaction's begin and end.
pub record Service (W F : Type 0) : Type 0 where
  pub begin : W → Result (Unit {0}) × W
  pub tx_commit : W → Result (Unit {0}) × W
  pub tx_rollback : W → Result (Unit {0}) × W
  pub profile_repo : String → UpdateProfilePatch → Proc W (Result InvestorProfile)
  pub outbox_repo : Event → Proc W (Result (Unit {0}))
  pub encoder : Encoder W
  pub parsers : Parsers F
  pub has_metrics : Bool

-- A transaction's begin and end.
pub record Transactions (W : Type 0) : Type 0 where
  pub begin : W → Result (Unit {0}) × W
  pub tx_commit : W → Result (Unit {0}) × W
  pub tx_rollback : W → Result (Unit {0}) × W

-- `NewService` with the repositories that the program gives it.
abbrev pub new_service :
    {W F : Type 0}
    → Transactions W
    → UpdateQuery W
    → Statements W
    → Encoder W
    → Parsers F
    → Bool
    → Service W F
new_service db q s encoder parsers has_metrics = record {
  begin = db.begin;
  tx_commit = db.tx_commit;
  tx_rollback = db.tx_rollback;
  profile_repo = update q;
  outbox_repo = add_event s;
  encoder = encoder;
  parsers = parsers;
  has_metrics = has_metrics;
}

module _ {W F : Type 0} (s : Service W F) where
  abbrev pub with_metrics : Proc W (Unit {0}) → Proc W (Unit {0})
  with_metrics m w = if s.has_metrics then m w else (tt, w)

  unfoldable pub after_commit :
      InvestorProfile → Event → Result (Unit {0}) → Proc W (Result InvestorProfile)
  after_commit profile event (err e) = pure (err (wrap "commit" e))
  after_commit profile event (ok _) =
      with_metrics (record_outbox_event event.event_type) >> pure (ok profile)

  unfoldable pub after_insert :
      InvestorProfile → Event → Result (Unit {0}) → Proc W (Result InvestorProfile)
  after_insert profile event (err e) = pure (err (wrap "insert outbox event" e))
  after_insert profile event (ok _) = call commit_tx s.tx_commit >>= after_commit profile event

  unfoldable pub after_event : InvestorProfile → Result Event → Proc W (Result InvestorProfile)
  after_event profile (err e) = pure (err (wrap "build profile_updated event" e))
  after_event profile (ok event) = s.outbox_repo event >>= after_insert profile event

  unfoldable pub after_update :
      UpdateProfilePatch → Result InvestorProfile → Proc W (Result InvestorProfile)
  after_update patch (err e) = pure (err e)
  after_update patch (ok profile) =
      new_profile_updated_event s.encoder (some profile) (changed_fields patch)
      >>= after_event profile

  -- Behind the begin, with the deferred rollback, which a committed transaction refuses.
  unfoldable pub after_begin :
      String → UpdateProfilePatch → Result (Unit {0}) → Proc W (Result InvestorProfile)
  after_begin id patch (err e) = pure (err (wrap "begin tx" e))
  after_begin id patch (ok _) = do
    r ← (s.profile_repo id patch >>= after_update patch)
    call rollback_tx s.tx_rollback
    pure r

  unfoldable pub after_validation :
      String → UpdateProfilePatch → Option ValidationError → Proc W (Result InvestorProfile)
  after_validation id patch (some e) = pure (err (validation e.field e.message))
  after_validation id patch none = call begin_tx s.begin >>= after_begin id patch

  unfoldable pub update_profile : String → UpdateProfilePatch → Proc W (Result InvestorProfile)
  update_profile id patch = after_validation id patch (validate_patch s.parsers patch)
