-- ===== src/Tests/Reports.antt =====
-- Runs of the decoder, of the timing scopes and of the statistics.
use fog_http_benchmark.Validity.Summary.{
  worst_from, worse, status_beq, reasons_allow_comparison, count_reasons, count_one, count_from,
  combined_status, allows_comparison,
}
use fog_http_benchmark.Validity.Serialization.{
  validity_summary_from_payload, validate_reason_counts, status_value, reasons_from_items,
  reason_from_payload,
}
use fog_http_benchmark.Validity.Profiles.{uses_streaming_profile, research_envelope_profile}
use fog_http_benchmark.Schema.Identity.{
  validate_unique_identities, validate_unique_aggregate_rows, unique_zip, unique_from,
  streaming_dimensions, or_raise, identity_text, aggregate_identity,
}
use fog_http_benchmark.Schema.Ordinary.{
  validate_error_map, validate_error_bound, operation_error_limit, count_errors, validate_run,
  validate_aggregate, validate_identity, validate_ordinary_rows,
}
use fog_http_benchmark.Schema.Fields.{or_key_error, is_null}
use fog_http_benchmark.Schema.Optional.{
  validate_optional_numbers, validate_optional_counts, validate_nested_counts,
  validate_optional_fields,
}
use fog_http_benchmark.Prelude.Text.{str_nat, str_int, is_blank}
use fog_http_benchmark.Runtime.{py_str, is_text}
use fog_http_benchmark.Schema.Fields.{
  require_number, require_string, require_rows, validate_finite_json, require_object,
  require_integer,
}
use fog_http_benchmark.Prelude.{
  Option, length, traverse, keep, for_each, contains, all, any, lookup, ◌≡◌, refl, ◌↔◌, true,
  String, none, some, List, [], ◌∷◌, All, IsDistinct, ok,
}
use fog_http_benchmark.Prelude.Int.{◌*ℤ◌, pos}
use fog_http_benchmark.Json.{
  Json, items, round_nat, one, size, number_of, json_eq, whole, float_of_int, get_or, set,
  set_default, get, has, find?, null, int, str, JsonObject,
}
use fog_http_benchmark.Schema.Decoding.{
  is_research_report, DecodedReport, decode_report_payload, expected_matches,
}
use fog_http_benchmark.Schema.Layouts.{
  legacy_row_suite, row_layouts, foreign_layouts, validate_layout_markers, migrate_legacy_rows,
  report_suite, migrate_legacy_row,
}
use fog_http_benchmark.Schema.Metadata.{
  validate_research_rows, validate_child_diagnostic, validate_isolation_metadata,
  validate_metadata_objects, validate_versions, validate_metadata,
}
use fog_http_benchmark.Schema.Decoding.Admitted.{
  IsAdmitted, decode_report_payload-IsAdmitted, decode_report_payload-IsAccounted,
}
use fog_http_benchmark.Schema.Layouts.Migration.{migrate_legacy_row_idempotent}
use fog_http_benchmark.Schema.Ordinary.Rows.{IsAccounted, IsAccountedRun}
use fog_http_benchmark.Schema.Resources.{
  validate_resource_observations, validate_resource_coverage, validate_ordinary_resource_coverage,
  runs_of, resource_coverage_field, recorded_observations, ResourceMetricCoverage,
}
use fog_http_benchmark.Timing.{
  validate_row_scopes, TimingScope, report_timing_scope, validate_timing_compatibility,
}
use fog_http_benchmark.Timing.Agreement.{validate_timing_compatibility_iff}
use fog_http_benchmark.Statistics.{
  resource_values, ErrorCounts, merge_error_types, metric_coverage, optional_resource_max,
}
use fog_http_benchmark.Statistics.Conserves.{
  names, count_of, counts_of, merge_error_types-conserves,
}
use fog_http_benchmark.Statistics.Coverage.{IsMaximum, is_available, metric_coverage-IsMaximum}
use fog_http_benchmark.Tests.{plain_runtime, fields, upstream_row, upstream_run, upstream_report}

abbrev decoded : DecodedReport
decoded = record {
  suite = "one-upstream";
  metadata = fields (("suite", str "one-upstream") ∷ []);
  aggregate_rows = upstream_row ∷ [];
  run_rows = upstream_run ∷ [];
}

upstream_report_decodes : decode_report_payload upstream_report (some "one-upstream") ≡ ok decoded
unfolding decode_report_payload require_object validate_finite_json get require_rows has
    report_suite require_string is_blank contains validate_metadata validate_versions set
    validate_metadata_objects for_each get_or validate_isolation_metadata migrate_legacy_rows
    migrate_legacy_row is_research_report validate_layout_markers foreign_layouts keep row_layouts
    validate_ordinary_rows lookup validate_identity require_integer validate_aggregate
    require_number float_of_int whole validate_optional_fields validate_run json_eq number_of size
    one round_nat find? set_default items ◌*ℤ◌ all any traverse str_int str_nat is_text py_str
    legacy_row_suite validate_child_diagnostic validate_research_rows aggregate_identity
    identity_text or_raise streaming_dimensions unique_from unique_zip
    validate_unique_aggregate_rows validate_unique_identities count_errors is_null
    operation_error_limit or_key_error validate_error_bound validate_error_map
    validate_nested_counts validate_optional_counts validate_optional_numbers recorded_observations
    resource_coverage_field runs_of validate_ordinary_resource_coverage validate_resource_coverage
    validate_resource_observations validate_row_scopes research_envelope_profile
    uses_streaming_profile reason_from_payload reasons_from_items status_value
    validate_reason_counts validity_summary_from_payload allows_comparison combined_status
    count_from count_one count_reasons reasons_allow_comparison status_beq worse worst_from
upstream_report_decodes = refl

decode_report_payload-IsAdmitted_example :
    IsAdmitted decoded × (expected_matches (some "one-upstream") decoded.suite ≡ true)
decode_report_payload-IsAdmitted_example =
    decode_report_payload-IsAdmitted upstream_report (some "one-upstream") decoded
      upstream_report_decodes

decode_report_payload-IsAccounted_example :
    All (IsAccounted "one-upstream") (upstream_row ∷ [])
    × All (IsAccountedRun "one-upstream") (upstream_run ∷ [])
unfolding contains is_research_report
decode_report_payload-IsAccounted_example =
    decode_report_payload-IsAccounted upstream_report (some "one-upstream") decoded
      upstream_report_decodes refl refl

abbrev old_row : JsonObject
old_row = fields (("max_connections", int (pos 8)) ∷ [])

abbrev new_row : JsonObject
new_row =
    fields (
      ("max_connections", int (pos 8))
      ∷ ("request_limit", int (pos 8))
      ∷ ("read", str "bytes")
      ∷ [])

migrate_legacy_row_idempotent_example : migrate_legacy_row "response-streaming" new_row ≡ ok new_row
unfolding migrate_legacy_row find? require_integer has get set_default is_text
migrate_legacy_row_idempotent_example =
    migrate_legacy_row_idempotent "response-streaming" old_row new_row refl

abbrev current_metadata : JsonObject
current_metadata = fields (("timing_scope", str "requests-load-only-v2") ∷ [])

abbrev timed_row : JsonObject
timed_row = fields (("timing_scope", str "requests-load-only-v2") ∷ [])

validate_timing_compatibility_iff_example :
    (validate_timing_compatibility "requests" current_metadata
        (timed_row ∷ [])
        current_metadata
        []
        none
        none
      ≡ ok tt)
    ↔ ((scope : TimingScope) × (report_timing_scope "requests" current_metadata
            (timed_row ∷ [])
            none
          ≡ ok scope)
        × (report_timing_scope "requests" current_metadata [] none ≡ ok scope))
validate_timing_compatibility_iff_example =
    validate_timing_compatibility_iff "requests" current_metadata (timed_row ∷ []) current_metadata
      [] none none

abbrev two_dicts : List ErrorCounts
two_dicts = (("PoolTimeout", 2) ∷ ("ReadError", 1) ∷ []) ∷ (("PoolTimeout", 3) ∷ []) ∷ []

merge_error_types-conserves_example :
    IsDistinct (names (merge_error_types two_dicts))
    × ((name : String) → count_of name (merge_error_types two_dicts) ≡ counts_of name two_dicts)
merge_error_types-conserves_example = merge_error_types-conserves two_dicts

abbrev half_covered : ResourceMetricCoverage
half_covered = record {
  available = 1;
  expected = 2;
  unavailable_reasons = "reason-not-recorded" ∷ [];
}

half_covered_passes : metric_coverage (null ∷ int (pos 40) ∷ []) ≡ ok half_covered
unfolding metric_coverage resource_values
half_covered_passes = refl

metric_coverage-IsMaximum_example :
    (half_covered.expected ≡ 2)
    × (half_covered.available ≡ length (keep is_available (null ∷ int (pos 40) ∷ [])))
    × (best : Option Json) × (optional_resource_max (null ∷ int (pos 40) ∷ []) ≡ ok best)
    × IsMaximum (null ∷ int (pos 40) ∷ []) half_covered.available best
metric_coverage-IsMaximum_example =
    metric_coverage-IsMaximum (null ∷ int (pos 40) ∷ []) half_covered half_covered_passes

largest_is_found :
    optional_resource_max (int (pos 40) ∷ null ∷ int (pos 60) ∷ int (pos 50) ∷ [])
    ≡ ok (some (int (pos 60)))
unfolding optional_resource_max resource_values number_of
largest_is_found = refl
