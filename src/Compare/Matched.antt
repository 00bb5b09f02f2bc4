-- ===== src/Compare/Matched.antt =====
-- Theorems about the rows that `compare_reports` of compare/analysis.py matches.
use fog_http_benchmark.Prelude.{
  ℕ, ◌+◌, ◌≡◌, ◌<◌, sym, ap, false, String, Option, none, arith, if◌then◌else◌, length, keep,
  contains, IsDistinct, ◌==◌, string_eq, list_eq, nat_eq, ◌∙◌, ok, traverse, >>=-eq-ok, >>-eq-ok,
  ok-injective, raise_if, raise_if-eq-ok, value_error,
}
use fog_http_benchmark.Runtime.{Runtime}
use fog_http_benchmark.Compare.{
  BenchmarkReport, validate_comparable_reports, blocks_strong_conclusions,
}
use fog_http_benchmark.Compare.Order.{texts_lt}
use fog_http_benchmark.Compare.Outcome.{ComparisonResult}
use fog_http_benchmark.Compare.Ratios.{FloatMath, summarize_segment}
use fog_http_benchmark.Compare.Analysis.{
  FocusRows, keys, focus_rows_by_identity, shared_keys_of, count_unmatched, error_rows,
}
use fog_http_benchmark.Compare.Focus.{measured_rows, focus_rows-IsDistinct, focus_rows-length}
use fog_http_benchmark.Compare.Wins.{compare_wins}
use fog_http_benchmark.Compare.Reports.{pair_of, compare_row, compare_reports}
use fog_http_benchmark.Compare.Sorted.{
  length-sort_by, length_of_split, length-map, length-traverse, length_of_common,
}

-- The shared keys and the unmatched ones of each side make up its rows.
shared_and_unmatched :
    (old_rows new_rows : FocusRows)
    → IsDistinct (keys old_rows)
    → IsDistinct (keys new_rows)
    → (length (shared_keys_of old_rows new_rows) + count_unmatched old_rows new_rows
        ≡ length old_rows)
      × (length (shared_keys_of old_rows new_rows) + count_unmatched new_rows old_rows
          ≡ length new_rows)
unfolding shared_keys_of count_unmatched
shared_and_unmatched old_rows new_rows old_distinct new_distinct =
    let old_keys = keys old_rows in
    let new_keys = keys new_rows in
    let sorted = length-sort_by texts_lt (keep (λ k. contains k new_keys) old_keys) in
    (
      omega (
        arith,
        sorted,
        length_of_split (λ k. contains k new_keys) old_keys,
        length-map (λ e. e.0) old_rows,
      ),
      omega (
        arith,
        sorted,
        length_of_common old_keys new_keys old_distinct new_distinct,
        length_of_split (λ k. contains k old_keys) new_keys,
        length-map (λ e. e.0) new_rows,
      ),
    )

nonzero : (n : ℕ) → (n == 0) ≡ false → 0 < n
nonzero n h = ground arith

module _ ⦃m : FloatMath⦄ ⦃r : Runtime⦄ where
  -- What a comparison says of the measured rows of the client in both reports.
  pub record AreMatched (old_report new_report : BenchmarkReport) (client : String)
      (result : ComparisonResult) : Type 0 where
    pub some_shared : 0 < result.overall.rows
    pub old_accounted :
        result.overall.rows + result.unmatched_old_rows
        ≡ length (measured_rows client old_report.rows)
    pub new_accounted :
        result.overall.rows + result.unmatched_new_rows
        ≡ length (measured_rows client new_report.rows)
    pub covered : length result.resource_coverage ≡ result.overall.rows

  -- A comparison that returns has compared at least one row, and its compared rows together with
  -- the unmatched ones of either report are as many as the rows of the client there that have a
  -- primary value; it shows the resource coverage of each compared row.
  pub compare_reports-AreMatched :
      (old_report new_report : BenchmarkReport) (client : String) (top_n : ℕ) (axis : Option String)
      {result : ComparisonResult}
      → compare_reports old_report new_report client top_n axis ≡ ok result
      → AreMatched old_report new_report client result
  unfolding compare_reports summarize_segment
  compare_reports-AreMatched old_report new_report client top_n axis h =
      let (_, h) = >>-eq-ok (validate_comparable_reports old_report new_report axis) _ h in
      let (old_rows, old_found, h) = >>=-eq-ok (focus_rows_by_identity old_report client) _ h in
      let (new_rows, new_found, h) = >>=-eq-ok (focus_rows_by_identity new_report client) _ h in
      let shared = shared_keys_of old_rows new_rows in
      let (nonempty, h) = >>-eq-ok (raise_if (length shared == 0) value_error) _ h in
      let (pairs, paired, h) = >>=-eq-ok (traverse (pair_of old_rows new_rows) shared) _ h in
      let (comparisons, compared, h) =
        >>=-eq-ok (traverse (λ (old_row, new_row). compare_row old_row new_row) pairs) _ h in
      let (wins, _, h) =
        >>=-eq-ok
          (if blocks_strong_conclusions old_report new_report
            then ok none
            else compare_wins old_report new_report client)
          _ h in
      let (errors, _, h) = >>=-eq-ok (error_rows new_report) _ h in
      let some_shared = raise_if-eq-ok (length shared == 0) value_error nonempty.1 in
      let pair_count = length-traverse (pair_of old_rows new_rows) shared paired in
      let row_count =
        length-traverse (λ (old_row, new_row). compare_row old_row new_row) pairs compared in
      let same_count = row_count ∙ pair_count in
      let accounted =
        shared_and_unmatched old_rows new_rows (focus_rows-IsDistinct old_report client old_found)
          (focus_rows-IsDistinct new_report client new_found) in
      rw (← ok-injective h) (record {
        some_shared = rw same_count (nonzero _ some_shared);
        old_accounted =
            ap (λ n. n + count_unmatched old_rows new_rows) same_count
            ∙ accounted.0
            ∙ focus_rows-length old_report client old_found;
        new_accounted =
            ap (λ n. n + count_unmatched new_rows old_rows) same_count
            ∙ accounted.1
            ∙ focus_rows-length new_report client new_found;
        covered = length-map _ pairs ∙ sym row_count;
      })
