-- ===== src/Metrics/Tests.antt =====
-- A request of the middleware as a sample.
use investor_cache.Base.{[], ◌≡◌, true}
use investor_cache.Go.{World}
use investor_cache.Journal.{Entry}
use investor_cache.Metrics.Descriptions.{is_registrable}
use investor_cache.Metrics.Samples.{
  Method, middleware, collector_of, perform, IsSampled, perform-IsSampled,
}

abbrev start : World Entry (Unit {0})
start = record { outside = tt; log = [] }

abbrev request : Method
request = middleware "/api/v1/investors/{id}" "hit" "ok"

perform-IsSampled_example :
    (is_registrable (collector_of request) ≡ true)
    × IsSampled (collector_of request) start (perform request start).1
perform-IsSampled_example = perform-IsSampled request start
