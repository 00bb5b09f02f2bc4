-- ===== src/Compare/Reports.antt =====
-- `compare_reports` of foghttp_benchmark/compare/analysis.py, with the rows and the resources that it
-- compares.
use fog_http_benchmark.Prelude.{
  ℕ, Bool, String, Option, none, some, List, map, ◌==◌, string_eq, list_eq, nat_eq, if◌then◌else◌,
  Result, ok, err, value_error, ◌>>=◌, ◌>>◌, raise_if, length, traverse, lookup,
}
use fog_http_benchmark.Json.{str, get_or, float_lt}
use fog_http_benchmark.Runtime.{Runtime, py_str}
use fog_http_benchmark.Schema.Fields.{or_key_error}
use fog_http_benchmark.Schema.Identity.{Identity}
use fog_http_benchmark.Compare.{
  BenchmarkRow, BenchmarkReport, blocks_strong_conclusions, validate_comparable_reports,
}
use fog_http_benchmark.Compare.Order.{sort_by, find_key, take_first}
use fog_http_benchmark.Compare.Outcome.{
  RowComparison, ResourceSummary, ResourceCoverageComparison, ComparisonResult,
}
use fog_http_benchmark.Compare.Ratios.{
  FloatMath, safe_ratio, optional_ratio, max_optional, max_optional_int, sum_ints,
  summarize_segment, summarize_by,
}
use fog_http_benchmark.Compare.Analysis.{
  FocusRows, comparison_validity, focus_rows_by_identity, shared_keys_of, count_unmatched,
  error_rows,
}
use fog_http_benchmark.Compare.Wins.{compare_wins}

-- a value that is compared only if the scopes agree
abbrev when_comparable {ℓ} : {A : Type ℓ} → Bool → Option A → Option A
when_comparable comparable value = if comparable then value else none

unfoldable pub measurement_scope : ⦃r : Runtime⦄ → BenchmarkReport → String
measurement_scope report =
    py_str (get_or report.metadata "measurement_scope" (str "legacy-unspecified"))

unfoldable pub resource_summary :
    ⦃r : Runtime⦄
    → List BenchmarkRow
    → List BenchmarkRow
    → BenchmarkReport
    → BenchmarkReport
    → ResourceSummary
resource_summary old_list new_list old_report new_report =
    let old_scope = measurement_scope old_report in
    let new_scope = measurement_scope new_report in
    let comparable = old_scope == new_scope in
    record {
      old_rss_mb_max = when_comparable comparable (max_optional (map (λ b. b.rss_mb) old_list));
      new_rss_mb_max = when_comparable comparable (max_optional (map (λ b. b.rss_mb) new_list));
      old_threads_max =
          when_comparable comparable (max_optional_int (map (λ b. b.threads) old_list));
      new_threads_max =
          when_comparable comparable (max_optional_int (map (λ b. b.threads) new_list));
      old_fds_max = when_comparable comparable (max_optional_int (map (λ b. b.fds) old_list));
      new_fds_max = when_comparable comparable (max_optional_int (map (λ b. b.fds) new_list));
      old_errors_total = sum_ints (map (λ b. b.errors_total) old_list);
      new_errors_total = sum_ints (map (λ b. b.errors_total) new_list);
      comparable = comparable;
      old_measurement_scope = old_scope;
      new_measurement_scope = new_scope;
    }

coverage_of : BenchmarkRow → BenchmarkRow → ResourceCoverageComparison
coverage_of old_row new_row = record {
  label = new_row.label;
  old_coverage = old_row.resource_coverage;
  new_coverage = new_row.resource_coverage;
  old_unavailable_reasons = old_row.resource_unavailable_reasons;
  new_unavailable_reasons = new_row.resource_unavailable_reasons;
}

-- `(old_rows[key], new_rows[key])`
unfoldable pub pair_of : FocusRows → FocusRows → Identity → Result (BenchmarkRow × BenchmarkRow)
pair_of old_rows new_rows key = do
  old_row ← or_key_error (find_key key old_rows)
  new_row ← or_key_error (find_key key new_rows)
  ok (old_row, new_row)

module _ ⦃m : FloatMath⦄ where
  unfoldable pub compare_row : BenchmarkRow → BenchmarkRow → Result RowComparison
  compare_row old_row new_row = elim old_row.primary_value [
    | none ↦ err value_error
    | some old_primary ↦ elim new_row.primary_value [
      | none ↦ err value_error
      | some new_primary ↦ ok (record {
        row = new_row;
        old_primary = old_primary;
        new_primary = new_primary;
        primary_ratio = safe_ratio new_primary old_primary;
        old_p95_ms = old_row.p95_ms;
        new_p95_ms = new_row.p95_ms;
        p95_ratio = optional_ratio new_row.p95_ms old_row.p95_ms;
        old_p99_ms = old_row.p99_ms;
        new_p99_ms = new_row.p99_ms;
        p99_ratio = optional_ratio new_row.p99_ms old_row.p99_ms;
        old_errors_total = old_row.errors_total;
        new_errors_total = new_row.errors_total;
        old_error_rate_percent = old_row.error_rate_percent;
        new_error_rate_percent = new_row.error_rate_percent;
      })
    ]
  ]

  -- `top_n` is a number of rows, which the command line keeps from being negative
  unfoldable pub compare_reports :
      ⦃r : Runtime⦄
      → BenchmarkReport
      → BenchmarkReport
      → String
      → ℕ
      → Option String
      → Result ComparisonResult
  unfolding coverage_of
  compare_reports old_report new_report focus_client top_n comparison_axis = do
    validate_comparable_reports old_report new_report comparison_axis
    old_rows ← focus_rows_by_identity old_report focus_client
    new_rows ← focus_rows_by_identity new_report focus_client
    let shared_keys = shared_keys_of old_rows new_rows
    raise_if (length shared_keys == 0) value_error
    pairs ← traverse (pair_of old_rows new_rows) shared_keys
    comparisons ← traverse (λ (old_row, new_row). compare_row old_row new_row) pairs
    wins ←
        if blocks_strong_conclusions old_report new_report
        then ok none
        else compare_wins old_report new_report focus_client
    new_error_rows ← error_rows new_report
    ok (record {
      metadata = record {
        old_path = old_report.path;
        new_path = new_report.path;
        suite = new_report.suite;
        focus_client = focus_client;
        old_timestamp = old_report.timestamp;
        new_timestamp = new_report.timestamp;
        old_focus_version = version_of old_report focus_client;
        new_focus_version = version_of new_report focus_client;
        comparison_axis = comparison_axis;
      };
      validity = comparison_validity old_report new_report;
      overall = summarize_segment "overall" comparisons;
      by_mode = summarize_by (λ c. c.row.mode) comparisons;
      by_scenario = summarize_by (λ c. c.row.scenario) comparisons;
      wins = wins;
      top_improvements =
          take_first top_n (sort_by (λ a b. float_lt b.primary_ratio a.primary_ratio) comparisons);
      top_regressions =
          take_first top_n (sort_by (λ a b. float_lt a.primary_ratio b.primary_ratio) comparisons);
      new_error_rows = new_error_rows;
      resource_summary =
          resource_summary (map (λ e. e.1) old_rows) (map (λ e. e.1) new_rows) old_report
            new_report;
      unmatched_old_rows = count_unmatched old_rows new_rows;
      unmatched_new_rows = count_unmatched new_rows old_rows;
      resource_coverage = map (λ (old_row, new_row). coverage_of old_row new_row) pairs;
    })
    where
      version_of : BenchmarkReport → String → String
      version_of report client = elim (lookup client report.package_versions) [
        | none ↦ "-"
        | some version ↦ version
      ]
