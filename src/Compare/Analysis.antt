-- ===== src/Compare/Analysis.antt =====
-- The comparison of two reports: `compare_reports` of foghttp_benchmark/compare/analysis.py and the
-- functions that it calls.
use fog_http_benchmark.Prelude.{
  ℕ, suc, Bool, true, false, not, ◌&&◌, String, none, some, List, [], ◌∷◌, map, ◌==◌, string_eq,
  list_eq, nat_eq, if◌then◌else◌, Result, ok, ◌>>=◌, ◌>>◌, keep, contains, length,
}
use fog_http_benchmark.Prelude.Int.{pos, ℤ_eq}
use fog_http_benchmark.Prelude.Text.{concat, str_nat}
use fog_http_benchmark.Schema.Identity.{Identity, validate_unique_identities}
use fog_http_benchmark.Validity.Summary.{ValidityReason}
use fog_http_benchmark.Validity.Serialization.{status_text}
use fog_http_benchmark.Compare.{BenchmarkRow, BenchmarkReport, blocks_strong_conclusions}
use fog_http_benchmark.Compare.Order.{texts_lt, sort_by, put_key}
use fog_http_benchmark.Compare.Outcome.{ComparisonValidity, ErrorRow}

unfoldable pub reason_summary : ValidityReason → String
reason_summary reason =
    concat (status_text reason.status ∷ ":" ∷ reason.code ∷ ":" ∷ reason.row_label ∷ [])

unfoldable pub comparison_validity : BenchmarkReport → BenchmarkReport → ComparisonValidity
comparison_validity old_report new_report = record {
  old_status = old_report.validity.status;
  new_status = new_report.validity.status;
  is_blocked = blocks_strong_conclusions old_report new_report;
  old_reason_count = old_report.validity.reason_count;
  new_reason_count = new_report.validity.reason_count;
  old_reasons = map reason_summary old_report.validity.reasons;
  new_reasons = map reason_summary new_report.validity.reasons;
}

-- the sources of the rows, which serve a message
unfoldable pub row_sources : String → ℕ → List BenchmarkRow → List String
row_sources path index [] = []
row_sources path index (row ∷ rows) =
    concat (path ∷ ":aggregate[" ∷ str_nat index ∷ "]" ∷ []) ∷ row_sources path (suc index) rows

unfoldable pub canonical_rows : BenchmarkReport → Result (List BenchmarkRow)
unfolding row_sources
canonical_rows report = do
  validate_unique_identities (map ok (map (λ row. row.identity) report.rows))
      (some (row_sources report.path 0 report.rows))
  ok (sort_by (λ a b. texts_lt a.identity b.identity) report.rows)

abbrev pub FocusRows : Type 0
FocusRows = List (Identity × BenchmarkRow)

abbrev pub has_primary : BenchmarkRow → Bool
has_primary row = elim row.primary_value [ none ↦ false | some x ↦ true ]

unfoldable pub focus_from : String → FocusRows → List BenchmarkRow → FocusRows
focus_from focus_client found [] = found
focus_from focus_client found (row ∷ rows) =
    focus_from focus_client
      (if row.client == focus_client && has_primary row
        then put_key row.identity row found
        else found)
      rows

unfoldable pub focus_rows_by_identity : BenchmarkReport → String → Result FocusRows
focus_rows_by_identity report focus_client = do
  rows ← canonical_rows report
  ok (focus_from focus_client [] rows)

abbrev pub keys : FocusRows → List Identity
keys = map (λ e. e.0)

-- `sorted(set(old_rows) & set(new_rows))`
unfoldable pub shared_keys_of : FocusRows → FocusRows → List Identity
shared_keys_of old_rows new_rows =
    sort_by texts_lt (keep (λ k. contains k (keys new_rows)) (keys old_rows))

-- `len(set(rows) - set(others))`
unfoldable pub count_unmatched : FocusRows → FocusRows → ℕ
count_unmatched rows others = length (keep (λ k. not (contains k (keys others))) (keys rows))

unfoldable pub error_rows : BenchmarkReport → Result (List ErrorRow)
error_rows report = do
  rows ← canonical_rows report
  let failing =
      keep (λ row. not (row.errors_total == pos 0 && row.warmup_errors_total == pos 0)) rows
  let found =
      map
        (λ row. record {
          label = row.label;
          mode = row.mode;
          client = row.client;
          scenario = row.scenario;
          errors_total = row.errors_total;
          warmup_errors_total = row.warmup_errors_total;
          error_rate_percent = row.error_rate_percent;
        })
        failing
  ok (sort_by (λ a b. texts_lt (order_key a) (order_key b)) found)
  where
    order_key : ErrorRow → List String
    order_key row = row.mode ∷ row.client ∷ row.scenario ∷ row.label ∷ []
