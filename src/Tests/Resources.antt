-- ===== src/Tests/Resources.antt =====
-- Runs of the checks of resource coverage against runs.
use fog_http_benchmark.Runtime.{is_text, py_str}
use fog_http_benchmark.Prelude.Text.{str_nat, str_int, is_blank}
use fog_http_benchmark.Schema.Fields.{is_null, require_integer, require_object, require_string}
use fog_http_benchmark.Prelude.{
  for_each, lookup, ◌≡◌, refl, true, String, List, [], ◌∷◌, All, traverse, ok,
}
use fog_http_benchmark.Prelude.Int.{pos}
use fog_http_benchmark.Json.{get_or, find?, has, get, Json, int, str, arr, obj, nil, JsonObject}
use fog_http_benchmark.Schema.Identity.{
  streaming_dimensions, or_raise, identity_text, aggregate_identity,
}
use fog_http_benchmark.Schema.Resources.{
  validate_resource_observations, recorded_observations, runs_of, resource_coverage_field,
  validate_resource_coverage, validate_ordinary_resource_coverage,
}
use fog_http_benchmark.Schema.Resources.Recorded.{
  IsIdentified, IsObserved, validate_ordinary_resource_coverage-IsObserved,
}
use fog_http_benchmark.Tests.{plain_runtime, fields}

abbrev keys : List (String × Json) → List (String × Json)
keys rest =
    ("mode", str "async")
    ∷ ("client", str "foghttp")
    ∷ ("scenario", str "json-small")
    ∷ ("concurrency", int (pos 4))
    ∷ ("request_limit", int (pos 8))
    ∷ rest

abbrev measured_row : JsonObject
measured_row = fields (
    keys (
      ("repeats", int (pos 1))
      ∷ ("rss_mb_max", int (pos 40))
      ∷ (
        "resource_coverage",
        obj (
            fields (
              (
                "rss_mb_max",
                obj (
                    fields (
                      ("available", int (pos 1))
                      ∷ ("expected", int (pos 1))
                      ∷ ("unavailable_reasons", arr nil)
                      ∷ [])),
              )
              ∷ [])),
      )
      ∷ []))

abbrev measured_run : JsonObject
measured_run = fields (keys (("peak_rss_mb", int (pos 40)) ∷ []))

measured_rows_pass :
    validate_ordinary_resource_coverage "requests" (measured_row ∷ []) (measured_run ∷ []) true
    ≡ ok tt
unfolding validate_ordinary_resource_coverage traverse aggregate_identity lookup require_string get
    is_blank for_each validate_resource_coverage has resource_coverage_field require_object
    require_integer is_null runs_of identity_text py_str find? get_or str_int str_nat is_text
    or_raise streaming_dimensions recorded_observations validate_resource_observations
measured_rows_pass = refl

validate_ordinary_resource_coverage-IsObserved_example :
    All (IsIdentified "requests") (measured_run ∷ [])
    × All (IsObserved "requests" (measured_run ∷ []) true) (measured_row ∷ [])
validate_ordinary_resource_coverage-IsObserved_example =
    validate_ordinary_resource_coverage-IsObserved "requests" (measured_row ∷ [])
      (measured_run ∷ []) true measured_rows_pass
