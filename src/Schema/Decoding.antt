-- ===== src/Schema/Decoding.antt =====
-- The admission of a saved report: `decode_report_payload` of report_schema/decoding.py.
pub mod Admitted
use fog_http_benchmark.Prelude.{
  ℕ, Bool, true, false, not, ◌&&◌, ◌||◌, String, Option, none, some, List, [], ◌∷◌, ◌++◌, map,
  length, any, all, keep, contains, ◌==◌, string_eq, nat_eq, if◌then◌else◌, Result, ok, err,
  type_error, value_error, ◌>>=◌, ◌>>◌, raise_if, for_each, traverse,
}
use fog_http_benchmark.Prelude.Int.{ℤ, pos}
use fog_http_benchmark.Json.{
  Json, null, int, str, arr, obj, JsonObject, empty, entry, find?, get, get_or, has, set,
  set_default, json_eq, size,
}
use fog_http_benchmark.Runtime.{Runtime, is_text}
use fog_http_benchmark.Timing.{validate_row_scopes}
use fog_http_benchmark.Validity.Profiles.{uses_streaming_profile}
use fog_http_benchmark.Validity.Serialization.{validity_summary_from_payload}
use fog_http_benchmark.Schema.Fields.{
  require_integer, require_number, require_object, require_rows, require_string,
  validate_finite_json,
}
use fog_http_benchmark.Schema.Identity.{validate_unique_aggregate_rows}
use fog_http_benchmark.Schema.Ordinary.{validate_ordinary_rows}
use fog_http_benchmark.Schema.Fields.{nonnegative, is_null}
use fog_http_benchmark.Schema.Resources.{
  validate_ordinary_resource_coverage, validate_resource_coverage,
}
use fog_http_benchmark.Schema.Tables.{
  report_suites, report_schema_version, resource_metric_schema_version,
}
use fog_http_benchmark.Schema.Layouts.{
  report_suite, validate_layout_markers, migrate_legacy_rows, row_layouts,
}
use fog_http_benchmark.Schema.Metadata.{
  validate_metadata, validate_isolation_metadata, validate_research_rows, check_present,
  validate_recorded_validity,
}

pub record DecodedReport : Type 0 where
  pub suite : String
  pub metadata : JsonObject
  pub aggregate_rows : List JsonObject
  pub run_rows : List JsonObject

-- `metadata.get("resource_metric_schema_version") == 2`
is_current : JsonObject → Bool
is_current metadata =
    json_eq (get metadata "resource_metric_schema_version")
      (int (pos resource_metric_schema_version))

declared_row_scopes : Json → List JsonObject → List JsonObject → Result (Unit {0})
declared_row_scopes (str scope) aggregate runs = do
  validate_row_scopes scope aggregate
  validate_row_scopes scope runs
declared_row_scopes _ aggregate runs = ok tt

module _ ⦃r : Runtime⦄ where
  validate_ordinary_report :
      String → JsonObject → List JsonObject → List JsonObject → Result (Unit {0})
  unfolding is_current declared_row_scopes
  validate_ordinary_report suite metadata aggregate runs = do
    validate_layout_markers suite aggregate false
    validate_layout_markers suite runs true
    validate_ordinary_rows suite aggregate runs
    declared_row_scopes (get metadata "timing_scope") aggregate runs
    validate_ordinary_resource_coverage suite aggregate runs (is_current metadata)

  unfoldable pub is_research_report : String → JsonObject → List JsonObject → Bool
  is_research_report suite metadata aggregate =
      suite == "response-streaming"
      && any (uses_streaming_profile metadata aggregate) ("lifecycle" ∷ "async-bytes" ∷ [])

  migrated : Bool → String → List JsonObject → Result (List JsonObject)
  migrated true suite rows = ok rows
  migrated false suite rows = migrate_legacy_rows suite rows

  pub expected_matches : Option String → String → Bool
  expected_matches none suite = true
  expected_matches (some expected) suite = suite == expected

  -- The part after the suite is known, on the metadata that records it.
  decode_rows : String → JsonObject → List JsonObject → List JsonObject → Result DecodedReport
  unfolding migrated validate_ordinary_report check_present validate_recorded_validity
  decode_rows suite metadata raw_aggregate raw_runs = do
    validate_metadata metadata suite
    validate_isolation_metadata metadata
    aggregate ← migrated (has metadata "report_schema_version") suite raw_aggregate
    runs ← migrated (has metadata "report_schema_version") suite raw_runs
    if is_research_report suite metadata aggregate
        then validate_research_rows aggregate
        else validate_ordinary_report suite metadata aggregate runs
    check_present metadata "validity" validate_recorded_validity
    validate_unique_aggregate_rows suite aggregate none
    ok (record { suite = suite; metadata = metadata; aggregate_rows = aggregate; run_rows = runs })

  unfoldable pub decode_report_payload : Json → Option String → Result DecodedReport
  unfolding expected_matches decode_rows
  decode_report_payload value expected_suite = do
    payload ← require_object value
    validate_finite_json (obj payload)
    metadata ← require_object (get payload "metadata")
    aggregate ← require_rows (get payload "aggregate")
    runs ← require_rows (get payload "runs")
    raise_if (has metadata "report_schema_version" && not (has metadata "suite")) value_error
    suite ← report_suite metadata aggregate
    raise_if (not (expected_matches expected_suite suite)) value_error
    decode_rows suite (set metadata "suite" (str suite)) aggregate runs
