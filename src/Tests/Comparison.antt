-- ===== src/Tests/Comparison.antt =====
-- Runs of the loading and the comparison of reports.
use fog_http_benchmark.Validity.Serialization.{status_text}
use fog_http_benchmark.Evidence.{member_of, hex_digest, harness_fingerprint, condition_fingerprint}
use fog_http_benchmark.Compare.Order.{
  texts_lt, text_lt, take_first, rank_of, group_by, first_of, append_to, find_key, put_key,
  insert_sorted, sort_into, sort_by,
}
use fog_http_benchmark.Compare.Analysis.{
  row_sources, reason_summary, error_rows, count_unmatched, comparison_validity, focus_from,
  shared_keys_of, canonical_rows, focus_rows_by_identity,
}
use fog_http_benchmark.Timing.{
  report_profile, scope_text, is_supported, declared_scope, scope_of, current_timing_scope,
  report_timing_scope, validate_timing_compatibility, validate_row_scopes,
}
use fog_http_benchmark.Validity.Helpers.{
  first_primary_value, int_field as tolerant_int_field,
  optional_float_field as tolerant_float_field,
}
use fog_http_benchmark.Validity.Compatibility.{
  failure_matches, expected_compatibility_failures, shown_failures, compatibility_failure_reasons,
}
use fog_http_benchmark.Validity.Resource.{
  resource_expected_pressure_row, resource_recovery_reasons, unexpected_error_count,
}
use fog_http_benchmark.Validity.Generic.{
  variation_reasons, zero_primary_metric_reasons, warmup_error_reasons, measured_error_reasons,
  unexplained_errors, error_reasons,
}
use fog_http_benchmark.Validity.Proxy.{proxy_specific_reasons}
use fog_http_benchmark.Validity.Lifecycle.{lifecycle_report_reasons}
use fog_http_benchmark.Validity.Attribution.{attribution_report_reasons}
use fog_http_benchmark.Validity.Children.{child_process_reasons}
use fog_http_benchmark.Validity.Classification.{
  row_reasons, rows_reasons, report_reasons, classify_report_validity,
  validity_summary_from_metadata,
}
use fog_http_benchmark.Compare.Fields.{
  resource_int_value, resource_int_field, resource_float_field, optional_float_field, float_field,
  int_field, str_field,
}
use fog_http_benchmark.Compare.Rows.{one_upstream_row}
use fog_http_benchmark.Runtime.{py_str, is_text}
use fog_http_benchmark.Validity.Profiles.{
  streaming_profile_reasons, research_envelope_profile, uses_streaming_profile,
}
use fog_http_benchmark.Schema.Identity.{
  unique_zip, unique_from, identity_text, comparison_group, aggregate_identity,
  validate_unique_identities, validate_unique_aggregate_rows,
}
use fog_http_benchmark.Schema.Resources.{
  resource_coverage_field, validate_resource_coverage, validate_ordinary_resource_coverage,
}
use fog_http_benchmark.Schema.Optional.{validate_optional_fields}
use fog_http_benchmark.Schema.Ordinary.{
  validate_aggregate, validate_identity, validate_ordinary_rows,
}
use fog_http_benchmark.Schema.Metadata.{
  validate_isolation_metadata, validate_metadata_objects, validate_versions, validate_metadata,
}
use fog_http_benchmark.Prelude.Text.{str_nat, concat, str_int, is_blank}
use fog_http_benchmark.Schema.Layouts.{
  row_layouts, foreign_layouts, validate_layout_markers, migrate_legacy_row, migrate_legacy_rows,
  report_suite,
}
use fog_http_benchmark.Schema.Fields.{
  or_key_error, is_null, require_number, require_integer, require_string, require_rows,
  validate_finite_json, require_object,
}
use fog_http_benchmark.Schema.Decoding.{is_research_report, decode_report_payload}
use fog_http_benchmark.Prelude.{
  traverse, false, String, Option, all, any, lookup, keep, for_each, contains, true, ◌≡◌, refl,
  none, some, [], ◌∷◌, ok, err, value_error,
}
use fog_http_benchmark.Prelude.Int.{◌+ℤ◌, ◌*ℤ◌, pos}
use fog_http_benchmark.Json.{
  find?, one, size, number_of, json_eq, float_of_int, get_or, set, has, get, whole,
}
use fog_http_benchmark.Validity.Summary.{
  reasons_allow_comparison, combined_status, summary_of_reasons, count_reasons, valid,
}
use fog_http_benchmark.Compare.{
  validate_provenance, foghttp_source, blocks_strong_conclusions, measures_bytes,
  validate_comparable_reports, BenchmarkRow, BenchmarkReport,
}
use fog_http_benchmark.Compare.Loading.{
  package_versions, build_row, benchmark_row, load_report, load_benchmark_report,
}
use fog_http_benchmark.Compare.Loaded.{IsLoaded, load_benchmark_report-IsLoaded}
use fog_http_benchmark.Compare.Ratios.{
  summarize_segment, summarize_by, sum_ints, safe_ratio, present, optional_ratio, median, mean,
  max_optional_int, max_optional, largest, geomean, FloatMath,
}
use fog_http_benchmark.Compare.Outcome.{ComparisonResult, RowComparison, SegmentSummary}
use fog_http_benchmark.Compare.Reports.{
  resource_summary, measurement_scope, compare_row, pair_of, compare_reports,
}
use fog_http_benchmark.Compare.Matched.{AreMatched, compare_reports-AreMatched}
use fog_http_benchmark.Compare.Wins.{
  ranked_rows, has_no_winners, groups_wins, group_wins, compare_wins, WinsSnapshot, wins_for_report,
}
use fog_http_benchmark.Compare.Counted.{IsCountedIfAny, wins_for_report-total}
use fog_http_benchmark.Tests.{clean_row, clean_metadata, clean_report, plain_runtime}

abbrev loaded_row : BenchmarkRow
loaded_row = record {
  suite = "one-upstream";
  identity = "async" ∷ "foghttp" ∷ "latency" ∷ "get" ∷ "small" ∷ "4" ∷ "8" ∷ [];
  group = "async" ∷ "latency" ∷ "get" ∷ "small" ∷ "4" ∷ "8" ∷ [];
  label = "async / foghttp / latency / get / small / conc=4";
  mode = "async";
  client = "foghttp";
  scenario = "get";
  primary_value = some (whole 950);
  p95_ms = none;
  p99_ms = none;
  errors_total = pos 0;
  warmup_errors_total = pos 0;
  error_rate_percent = none;
  rss_mb = none;
  threads = none;
  fds = none;
  resource_coverage = [];
  resource_unavailable_reasons = [];
}

abbrev loaded : BenchmarkReport
loaded = record {
  path = "old.json";
  suite = "one-upstream";
  timestamp = "-";
  package_versions = [];
  rows = loaded_row ∷ [];
  aggregate_rows = clean_row ∷ [];
  metadata = clean_metadata;
  validity = record {
    status = valid;
    is_valid = true;
    can_compare = true;
    reason_count = 0;
    reason_counts = [];
    reasons = [];
  };
  run_rows = [];
}

clean_loads : load_benchmark_report "old.json" clean_report (err value_error) ≡ ok loaded
unfolding load_benchmark_report load_report decode_report_payload require_object
    validate_finite_json get require_rows has report_suite require_string is_blank contains
    validate_metadata validate_versions set validate_metadata_objects for_each get_or
    validate_isolation_metadata migrate_legacy_rows migrate_legacy_row is_research_report
    validate_layout_markers foreign_layouts keep row_layouts validate_ordinary_rows lookup
    validate_identity require_integer validate_aggregate require_number float_of_int whole
    validate_optional_fields validate_ordinary_resource_coverage validate_resource_coverage json_eq
    resource_coverage_field validate_unique_aggregate_rows validate_unique_identities
    aggregate_identity uses_streaming_profile is_text any research_envelope_profile benchmark_row
    build_row one_upstream_row str_field int_field float_field optional_float_field is_null
    resource_float_field comparison_group concat summary_of_reasons py_str combined_status
    reasons_allow_comparison resource_int_field resource_int_value validity_summary_from_metadata
    classify_report_validity report_reasons child_process_reasons attribution_report_reasons
    lifecycle_report_reasons rows_reasons row_reasons proxy_specific_reasons error_reasons
    unexplained_errors unexpected_error_count compatibility_failure_reasons shown_failures
    resource_recovery_reasons package_versions identity_text str_nat streaming_profile_reasons all
    count_reasons str_int measured_error_reasons warmup_error_reasons zero_primary_metric_reasons
    resource_expected_pressure_row first_primary_value variation_reasons
    expected_compatibility_failures failure_matches tolerant_int_field tolerant_float_field
    validate_row_scopes
clean_loads = refl

load_benchmark_report-IsLoaded_example : IsLoaded loaded
load_benchmark_report-IsLoaded_example =
    load_benchmark_report-IsLoaded "old.json" clean_report (err value_error) loaded clean_loads

-- arithmetic in which every result is one
instance abbrev plain_math : FloatMath
plain_math = record {
  divide = λ x y. whole 1;
  log = λ x. whole 1;
  exp = λ x. whole 1;
  sum_floats = λ xs. whole 1;
  median_of = λ xs. whole 1;
  mean_of = λ xs. whole 1;
}

wins_for_report-total_example :
    (found : Option WinsSnapshot) × (wins_for_report loaded "foghttp" ≡ ok found)
    × IsCountedIfAny found
wins_for_report-total_example = wins_for_report-total loaded "foghttp" (tt, tt)

abbrev same_row : RowComparison
same_row = record {
  row = loaded_row;
  old_primary = whole 950;
  new_primary = whole 950;
  primary_ratio = whole 1;
  old_p95_ms = none;
  new_p95_ms = none;
  p95_ratio = none;
  old_p99_ms = none;
  new_p99_ms = none;
  p99_ratio = none;
  old_errors_total = pos 0;
  new_errors_total = pos 0;
  old_error_rate_percent = none;
  new_error_rate_percent = none;
}

abbrev even_segment : String → SegmentSummary
even_segment name = record {
  name = name;
  rows = 1;
  primary_geomean_ratio = some (whole 1);
  primary_median_ratio = some (whole 1);
  p95_geomean_ratio = none;
  p99_geomean_ratio = none;
}

abbrev compared : ComparisonResult
compared = record {
  metadata = record {
    old_path = "old.json";
    new_path = "old.json";
    suite = "one-upstream";
    focus_client = "foghttp";
    old_timestamp = "-";
    new_timestamp = "-";
    old_focus_version = "-";
    new_focus_version = "-";
    comparison_axis = none;
  };
  validity = record {
    old_status = valid;
    new_status = valid;
    is_blocked = false;
    old_reason_count = 0;
    new_reason_count = 0;
    old_reasons = [];
    new_reasons = [];
  };
  overall = even_segment "overall";
  by_mode = even_segment "async" ∷ [];
  by_scenario = even_segment "get" ∷ [];
  wins = some (record {
    old_wins = 1;
    new_wins = 1;
    comparable_groups = 1;
    old_geomean_to_winner = some (whole 1);
    new_geomean_to_winner = some (whole 1);
    old_average_rank = some (whole 1);
    new_average_rank = some (whole 1);
  });
  top_improvements = same_row ∷ [];
  top_regressions = same_row ∷ [];
  new_error_rows = [];
  resource_summary = record {
    old_rss_mb_max = none;
    new_rss_mb_max = none;
    old_threads_max = none;
    new_threads_max = none;
    old_fds_max = none;
    new_fds_max = none;
    old_errors_total = pos 0;
    new_errors_total = pos 0;
    comparable = true;
    old_measurement_scope = "legacy-unspecified";
    new_measurement_scope = "legacy-unspecified";
  };
  unmatched_old_rows = 0;
  unmatched_new_rows = 0;
  resource_coverage =
      record {
        label = loaded_row.label;
        old_coverage = [];
        new_coverage = [];
        old_unavailable_reasons = [];
        new_unavailable_reasons = [];
      }
      ∷ [];
}

loaded_compares : compare_reports loaded loaded "foghttp" 3 none ≡ ok compared
unfolding compare_reports validate_comparable_reports measures_bytes uses_streaming_profile is_text
    get any research_envelope_profile has validate_timing_compatibility report_timing_scope
    current_timing_scope lookup scope_of declared_scope is_supported scope_text validate_row_scopes
    focus_rows_by_identity canonical_rows validate_unique_identities contains shared_keys_of sort_by
    sort_into keep focus_from insert_sorted put_key traverse pair_of or_key_error find_key
    compare_row blocks_strong_conclusions comparison_validity count_unmatched error_rows
    reason_summary row_sources append_to first_of group_by rank_of take_first text_lt texts_lt
    geomean largest max_optional max_optional_int mean median optional_ratio present safe_ratio
    sum_ints summarize_by summarize_segment measurement_scope resource_summary compare_wins
    group_wins groups_wins has_no_winners ranked_rows wins_for_report foghttp_source
    validate_provenance condition_fingerprint harness_fingerprint hex_digest member_of json_eq
    number_of size one whole find? get_or ◌*ℤ◌ ◌+ℤ◌ all concat str_int str_nat py_str unique_from
    unique_zip report_profile status_text
loaded_compares = refl

compare_reports-AreMatched_example : AreMatched loaded loaded "foghttp" compared
compare_reports-AreMatched_example =
    compare_reports-AreMatched loaded loaded "foghttp" 3 none loaded_compares
