-- ===== src/Profile/Handler/Tests.antt =====
-- Requests to a handler whose UPDATE finds no row.
use investor_cache.Base.{◌⊎◌}
use investor_cache.Mux.{refused}
use investor_cache.Mux.Memory.{
  squeeze, memory, memory-MuxLaws, by_id-IsVariable, takes-IsLiteral, health-apart,
}
use investor_cache.Profile.Handler.Router.{HttpRequest, server, serve, IsServed, serve-IsRouted}
use text.Mathlib.TextEquality.{eq_iff}
use investor_cache.Base.{◌≢◌, String, Bool, true, false, arith, [], none, some, ◌≡◌, refl, pos}
use investor_cache.Go.{
  Result, ok, err, Error, World, sentinel, no_rows, errors_is, pq_code, as_validation,
}
use investor_cache.Go.Text.{trim_space, trim_left, trim_right, is_space}
use investor_cache.Journal.{Entry}
use investor_cache.Outbox.Events.{Encoder}
use investor_cache.Outbox.Repository.{Statements}
use investor_cache.Profile.Patch.{
  UpdateProfilePatch, Parsers, is_empty, validate_patch, full_name_fault, email_fault,
  risk_profile_fault, kyc_status_fault, portfolio_value_fault, preferences_fault,
}
use investor_cache.Profile.Repository.{Row, UpdateQuery, update, update_error}
use investor_cache.Profile.Service.{
  Transactions, update_profile, after_validation, after_begin, after_update,
}
use investor_cache.Profile.Service.Ends.{ForeignErrors, IsForeign}
use investor_cache.Profile.Handler.{
  Request, handle_update, after_read, after_decode, after_service, refuse, finish,
}
use investor_cache.Profile.Handler.Statuses.{handler}

abbrev transactions : Transactions (Unit {0})
transactions = record {
  begin = λ w. (ok tt, w);
  tx_commit = λ w. (ok tt, w);
  tx_rollback = λ w. (ok tt, w);
}

abbrev no_row : Result Row
no_row = err (sentinel no_rows)

abbrev no_investor : UpdateQuery (Unit {0})
no_investor = record { query_row = λ text args w. (no_row, w) }

abbrev statements : Statements (Unit {0})
statements = record {
  insert_event = λ e w. (ok tt, w);
  select_unpublished = λ n w. (ok (record { scans = []; last_error = ok tt }), w);
  update_published = λ ids w. (ok tt, w);
  update_error = λ id text w. (ok tt, w);
  count = λ w. (ok (pos 0), w);
}

abbrev encoder : Encoder (Unit {0})
encoder = record { now = λ w. (pos 1, w); marshal = λ p. ok "{}" }

abbrev parsers : Parsers Bool
parsers = record { parse_float = λ s. ok false; is_negative = λ b. b; json_valid = λ s. true }

abbrev decode : String → Result UpdateProfilePatch
decode b = ok (record {
  full_name = some b;
  email = none;
  risk_profile = none;
  kyc_status = none;
  portfolio_value = none;
  preferences = none;
})

no_row-IsForeign : {e : Error} → no_row ≡ err e → IsForeign e
unfolding errors_is as_validation
no_row-IsForeign h = record {
  not_missing = ground arith;
  not_taken = ground arith;
  not_invalid = ground arith;
}

foreign : ForeignErrors transactions no_investor statements encoder
foreign = record {
  begin_foreign = λ w h. absurd (cc h);
  commit_foreign = λ w h. absurd (cc h);
  insert_foreign = λ event w h. absurd (cc h);
  query_foreign = λ text args w h. no_row-IsForeign h;
  marshal_foreign = λ payload h. absurd (cc h);
}

abbrev request : Request
request = record { method = "PATCH"; id = "7"; body = ok "Ann" }

abbrev empty : World Entry (Unit {0})
empty = record { outside = tt; log = [] }

not_found_status :
    (handle_update
      (handler transactions no_investor statements encoder parsers true decode (λ e. "an error"))
      request
      empty).0.status
    ≡ 404
unfolding handle_update after_read after_decode after_service refuse finish update_profile
    after_validation after_begin after_update update update_error validate_patch is_empty
    full_name_fault email_fault risk_profile_fault kyc_status_fault portfolio_value_fault
    preferences_fault trim_space trim_left trim_right is_space errors_is pq_code as_validation
not_found_status = refl

abbrev health : String
health = "/health"

not_by_id : health ≢ "/api/v1/investors/{id}"
not_by_id e = let same = (eq_iff health "/api/v1/investors/{id}").1 e in cc same

abbrev patch_request : HttpRequest
patch_request = record { method = "PATCH"; path = "/api/v1/investors/7"; body = ok "Ann" }

serve-IsRouted_example :
    ((squeeze patch_request.path ≢ patch_request.path)
      × ((serve
            (server transactions no_investor statements encoder parsers true decode
              (λ e. "an error"))
            memory
            patch_request
            empty)
          ≡ (refused 301, empty)))
    ⊎ ((squeeze patch_request.path ≡ patch_request.path)
        × IsServed transactions no_investor statements encoder parsers true decode
            (λ e. "an error")
            patch_request
            empty
            (serve
              (server transactions no_investor statements encoder parsers true decode
                (λ e. "an error"))
              memory
              patch_request
              empty))
serve-IsRouted_example =
    serve-IsRouted transactions no_investor statements encoder parsers true decode (λ e. "an error")
      foreign memory memory-MuxLaws by_id-IsVariable (takes-IsLiteral "/health" not_by_id)
      health-apart patch_request empty
