-- ===== src/Schema/Layouts.antt =====
-- The layouts of rows and their migration, of report_schema/decoding.py.
pub mod Migration
use fog_http_benchmark.Prelude.{
  ℕ, Bool, true, false, not, ◌&&◌, ◌||◌, String, Option, none, some, List, [], ◌∷◌, ◌++◌, map,
  length, any, all, keep, contains, ◌==◌, string_eq, nat_eq, if◌then◌else◌, Result, ok, err,
  type_error, value_error, ◌>>=◌, ◌>>◌, raise_if, for_each, traverse,
}
use fog_http_benchmark.Prelude.Int.{ℤ, pos}
use fog_http_benchmark.Json.{
  Json, null, int, str, arr, obj, JsonObject, empty, entry, find?, get, get_or, has, set,
  set_default, json_eq, size,
}
use fog_http_benchmark.Runtime.{Runtime, is_text}
use fog_http_benchmark.Timing.{validate_row_scopes}
use fog_http_benchmark.Validity.Profiles.{uses_streaming_profile}
use fog_http_benchmark.Validity.Serialization.{validity_summary_from_payload}
use fog_http_benchmark.Schema.Fields.{
  require_integer, require_number, require_object, require_rows, require_string,
  validate_finite_json,
}
use fog_http_benchmark.Schema.Identity.{validate_unique_aggregate_rows}
use fog_http_benchmark.Schema.Ordinary.{validate_ordinary_rows}
use fog_http_benchmark.Schema.Fields.{nonnegative, is_null}
use fog_http_benchmark.Schema.Resources.{
  validate_ordinary_resource_coverage, validate_resource_coverage,
}
use fog_http_benchmark.Schema.Tables.{
  report_suites, report_schema_version, resource_metric_schema_version,
}

-- The suites whose signature a row, or a run, carries.
unfoldable pub row_layouts : JsonObject → Bool → List String
row_layouts row run =
    let operations = if run then "operations_per_second" else "ops_s_median" in
    let requests = if run then "ok_requests_per_second" else "ok_req_s_median" in
    let streams = if run then "ok_streams_per_second" else "ok_streams_s_median" in
    map (λ (e : String × Bool). e.0)
      (keep (λ (e : String × Bool). e.1)
        (("requests", has row "scenario" && has row requests)
          ∷ ("client-creation", has row "client_count" && has row operations)
          ∷ ("resource-backpressure", has row "max_pending_requests")
          ∷ ("one-upstream", has row "profile" && has row "case" && has row requests)
          ∷ ("request-builder", has row "kind" && has row operations)
          ∷ ("response-streaming", has row streams || has row "verified_bytes_s_median")
          ∷ ("proxy-connect", has row "target_scheme" && has row "config")
          ∷ []))

the_only : List String → Result String
the_only (suite ∷ []) = ok suite
the_only _ = err value_error

unfoldable pub legacy_row_suite : JsonObject → Result String
unfolding the_only
legacy_row_suite row = the_only (row_layouts row false)

-- the one member of the set of these texts
the_common : List String → Result String
the_common [] = err value_error
the_common (suite ∷ suites) = if all (λ s. s == suite) suites then ok suite else err value_error

unfoldable pub report_suite : JsonObject → List JsonObject → Result String
unfolding the_common
report_suite metadata rows = elim (find? metadata "suite") [
  | some value ↦
      (require_string value >>= λ suite.
      if contains suite report_suites then ok suite else err value_error)
  | none ↦ traverse legacy_row_suite rows >>= the_common
]

-- The other layouts that a row carries markers of; a run is read both ways.
unfoldable pub foreign_layouts : String → Bool → JsonObject → List String
foreign_layouts suite is_run row =
    let layout = if suite == "compressed-response" then "requests" else suite in
    keep (λ candidate. not (candidate == layout))
      (row_layouts row false ++ (if is_run then row_layouts row true else []))

has_any : List String → Bool
has_any [] = false
has_any (s ∷ ss) = true

validate_row_markers : String → Bool → JsonObject → Result (Unit {0})
unfolding has_any
validate_row_markers suite is_run row = do
  raise_if (has row "schema_version") value_error
  raise_if (has_any (foreign_layouts suite is_run row)) value_error

unfoldable pub validate_layout_markers : String → List JsonObject → Bool → Result (Unit {0})
unfolding validate_row_markers
validate_layout_markers suite rows is_run = for_each (validate_row_markers suite is_run) rows

migrate_limit : JsonObject → Result JsonObject
migrate_limit row = elim (find? row "max_connections") [
  | none ↦ ok row
  | some value ↦
      (require_integer value 0 >>= λ old.
      if has row "request_limit" && not (json_eq (get row "request_limit") (int (pos old)))
      then err value_error
      else ok (set_default row "request_limit" (int (pos old))))
]

-- `row.get("profile") not in {"lifecycle", "async-bytes"}`, which raises for a list or a dict
ordinary_profile : Json → Result Bool
ordinary_profile (arr vs) = err type_error
ordinary_profile (obj o) = err type_error
ordinary_profile v = ok (not (is_text v "lifecycle" || is_text v "async-bytes"))

unfoldable pub migrate_legacy_row : String → JsonObject → Result JsonObject
unfolding migrate_limit ordinary_profile
migrate_legacy_row suite row = do
  limited ← migrate_limit row
  if suite == "response-streaming"
      then (do
        ordinary ← ordinary_profile (get limited "profile")
        ok (if ordinary then set_default limited "read" (str "bytes") else limited))
      else ok limited

unfoldable pub migrate_legacy_rows : String → List JsonObject → Result (List JsonObject)
migrate_legacy_rows suite rows = traverse (migrate_legacy_row suite) rows
