-- ===== src/Profile/Service/Tests.antt =====
-- The service on tables in memory, and its theorem at a concrete patch.
use investor_cache.Base.{
  String, Bool, true, false, List, [], ◌∷◌, ◌++◌, none, some, ◌≡◌, refl, inl, inr, pos, arith,
  Bool-cases,
}
use investor_cache.Go.{ok, World}
use investor_cache.Journal.{Entry}
use investor_cache.Go.Text.{trim_space, trim_left, trim_right, is_space}
use investor_cache.Domain.{InvestorProfile}
use investor_cache.Outbox.Events.{Event, Encoder, new_profile_updated_event}
use investor_cache.Outbox.Repository.{Statements, add_event}
use investor_cache.Profile.Patch.{
  UpdateProfilePatch, Parsers, is_empty, validate_patch, full_name_fault, email_fault,
  risk_profile_fault, kyc_status_fault, portfolio_value_fault, preferences_fault,
}
use investor_cache.Profile.Repository.{Row, UpdateQuery, scan_row, update}
use investor_cache.Profile.Service.{
  Service, Transactions, new_service, update_profile, after_validation, after_begin, after_update,
  after_event, after_insert, after_commit,
}
use investor_cache.Profile.Service.Atomic.{
  Change, profile_set, event_added, TransactionLaws, IsAtomic, update_profile-IsAtomic,
}

record Tables : Type 0 where
  committed : List Change
  staged : List Change

abbrev row : Row
row = record {
  investor_id = "7";
  full_name = "Ann";
  email = "ann@example.org";
  risk_profile = "moderate";
  kyc_status = "verified";
  portfolio_value = "10.00";
  preferences = "{}";
  updated_at = "2026-01-01";
  cache_version = pos 5;
}

abbrev transactions : Transactions Tables
transactions = record {
  begin = λ t. (ok tt, record t { staged = [] });
  tx_commit = λ t. (ok tt, record { committed = t.committed ++ t.staged; staged = [] });
  tx_rollback = λ t. (ok tt, record t { staged = [] });
}

abbrev update_query : UpdateQuery Tables
update_query = record {
  query_row =
      λ text args t. (ok row, record t { staged = t.staged ++ profile_set (scan_row row) ∷ [] });
}

abbrev statements : Statements Tables
statements = record {
  insert_event = λ e t. (ok tt, record t { staged = t.staged ++ event_added e ∷ [] });
  select_unpublished = λ n t. (ok (record { scans = []; last_error = ok tt }), t);
  update_published = λ ids t. (ok tt, t);
  update_error = λ id text t. (ok tt, t);
  count = λ t. (ok (pos 0), t);
}

abbrev encoder : Encoder Tables
encoder = record { now = λ t. (pos 1, t); marshal = λ p. ok "{}" }

abbrev parsers : Parsers Bool
parsers = record { parse_float = λ s. ok false; is_negative = λ b. b; json_valid = λ s. true }

abbrev service : Service Tables Bool
service = new_service transactions update_query statements encoder parsers true

update-committed :
    (id : String) (patch : UpdateProfilePatch) (w : World Entry Tables)
    → (update update_query id patch w).1.outside.committed ≡ w.outside.committed
unfolding update
update-committed id patch w = elim (Bool-cases (is_empty patch)) [ inl t ↦ rw t | inr t ↦ rw t ]

update-staged :
    (id : String) (patch : UpdateProfilePatch) (w : World Entry Tables) {p : InvestorProfile}
    → (update update_query id patch w).0 ≡ ok p
    → (update update_query id patch w).1.outside.staged ≡ w.outside.staged ++ profile_set p ∷ []
unfolding update
update-staged id patch w = ground arith

add_event-staged :
    (e : Event) (w : World Entry Tables)
    → ((add_event statements e w).1.outside.committed ≡ w.outside.committed)
      × ((add_event statements e w).1.outside.staged ≡ w.outside.staged ++ event_added e ∷ [])
unfolding add_event
add_event-staged e w = (refl, refl)

abbrev laws : TransactionLaws service
laws = record {
  committed = λ t. t.committed;
  staged = λ t. t.staged;
  begin_committed = λ t. refl;
  begin_staged = λ t h. refl;
  update_committed = update-committed;
  update_staged = update-staged;
  now_committed = λ t. refl;
  now_staged = λ t. refl;
  insert_committed = λ e w. (add_event-staged e w).0;
  insert_staged = λ e w h. (add_event-staged e w).1;
  commit_ok = λ t h. refl;
  commit_err = λ t. inr refl;
  rollback_committed = λ t. refl;
}

abbrev patch : UpdateProfilePatch
patch = record {
  full_name = some "Ann";
  email = none;
  risk_profile = none;
  kyc_status = none;
  portfolio_value = none;
  preferences = none;
}

abbrev empty : World Entry Tables
empty = record { outside = record { committed = []; staged = [] }; log = [] }

answers_row : (update_profile service "7" patch empty).0 ≡ ok (scan_row row)
unfolding update_profile after_validation after_begin after_update after_event after_insert
    after_commit new_profile_updated_event add_event update validate_patch is_empty full_name_fault
    email_fault risk_profile_fault kyc_status_fault portfolio_value_fault preferences_fault
    trim_space trim_left trim_right is_space
answers_row = refl

update_profile-IsAtomic_example :
    IsAtomic service laws patch [] (update_profile service "7" patch empty)
update_profile-IsAtomic_example = update_profile-IsAtomic service laws "7" patch empty
