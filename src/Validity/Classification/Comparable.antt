-- ===== src/Validity/Classification/Comparable.antt =====
-- Theorems about the reports that validity/classification.py finds comparable.
use fog_http_benchmark.Prelude.{
  ◌≡◌, ◌⊎◌, true, false, String, List, [], ◌∷◌, ◌++◌, ◌==◌, string_eq, All, All-append,
  All-append_three, all-All, ok, >>=-eq-ok, ok-injective,
}
use fog_http_benchmark.Json.{JsonObject, Items, arr, obj, get}
use fog_http_benchmark.Runtime.{Runtime, is_text}
use fog_http_benchmark.Schema.Metadata.{validate_isolation_metadata}
use fog_http_benchmark.Validity.Summary.{
  ValidityReason, ValiditySummary, allows_comparison, reasons_allow_comparison, summary_of_reasons,
  Allow,
}
use fog_http_benchmark.Validity.Resource.{resource_recovery_reasons}
use fog_http_benchmark.Validity.Resource.Recovered.{
  IsRecovered, resource_recovery_reasons-IsRecovered,
}
use fog_http_benchmark.Validity.Proxy.{has_proxy_bypass_errors, proxy_specific_reasons}
use fog_http_benchmark.Validity.Proxy.Bypass.{proxy_specific_reasons-Allow}
use fog_http_benchmark.Validity.Generic.{
  error_reasons, zero_primary_metric_reasons, variation_reasons,
}
use fog_http_benchmark.Validity.Generic.Unexplained.{IsExplained, error_reasons-IsExplained}
use fog_http_benchmark.Validity.Children.{child_process_reasons}
use fog_http_benchmark.Validity.Children.Succeeded.{
  AreSuccessful, child_process_reasons-AreSuccessful,
}
use fog_http_benchmark.Validity.Profiles.{streaming_profile_reasons}
use fog_http_benchmark.Validity.Attribution.{attribution_report_reasons}
use fog_http_benchmark.Validity.Lifecycle.{lifecycle_report_reasons}
use fog_http_benchmark.Validity.Classification.{
  row_reasons, rows_reasons, report_reasons, classify_report_validity,
}

module _ ⦃r : Runtime⦄ where
  -- What holds of each row of a comparable report: every error is explained, the proxy suite has no
  -- bypass of the proxy, and no recovery failed.
  pub record IsComparableRow (suite : String) (row : JsonObject) : Type 0 where
    pub explained : IsExplained suite row
    pub proxied : ((suite == "proxy-connect") ≡ false) ⊎ (has_proxy_bypass_errors row ≡ ok false)
    pub recovered : IsRecovered suite row

  row_reasons-IsComparableRow :
      (suite : String) (row : JsonObject) (reasons : List ValidityReason)
      → row_reasons suite row ≡ ok reasons
      → Allow reasons
      → IsComparableRow suite row
  unfolding row_reasons
  row_reasons-IsComparableRow suite row reasons h allow =
      let (proxy, proxy_read, h) = >>=-eq-ok (proxy_specific_reasons suite row) _ h in
      let (errors, errors_read, h) = >>=-eq-ok (error_reasons suite row) _ h in
      let (zero_rate, _, h) = >>=-eq-ok (zero_primary_metric_reasons suite row) _ h in
      let (variation, _, h) = >>=-eq-ok (variation_reasons row) _ h in
      let (recovery, recovery_read, h) = >>=-eq-ok (resource_recovery_reasons suite row) _ h in
      let same = ok-injective h in
      let all_allow = rw (← same) at allow in
      let (front, _, last) =
        All-append_three _ (proxy ++ errors ++ zero_rate) variation recovery all_allow in
      let (first, second, _) = All-append_three _ proxy errors zero_rate front in
      record {
        explained = error_reasons-IsExplained suite row errors errors_read second;
        proxied = proxy_specific_reasons-Allow suite row proxy proxy_read first;
        recovered = resource_recovery_reasons-IsRecovered suite row recovery recovery_read last;
      }

  rows_reasons-IsComparableRow :
      (suite : String) (rows : List JsonObject) (reasons : List ValidityReason)
      → rows_reasons suite rows ≡ ok reasons
      → Allow reasons
      → All (IsComparableRow suite) rows
  unfolding rows_reasons
  rows_reasons-IsComparableRow suite [] reasons h allow = tt
  rows_reasons-IsComparableRow suite (row ∷ rows) reasons h allow =
      let (these, read, h) = >>=-eq-ok (row_reasons suite row) _ h in
      let (others, rest, h) = >>=-eq-ok (rows_reasons suite rows) _ h in
      let same = ok-injective h in
      let all_allow = rw (← same) at allow in
      let (here, there) = All-append _ these others all_allow in
      (
        row_reasons-IsComparableRow suite row these read here,
        rows_reasons-IsComparableRow suite rows others rest there,
      )

  -- What reasons that allow a comparison say of the rows and of the child processes.
  report_reasons-Allow :
      (suite : String) (metadata : JsonObject) (rows : List JsonObject)
      (reasons : List ValidityReason)
      → report_reasons suite metadata rows ≡ ok reasons
      → Allow reasons
      → All (IsComparableRow suite) rows
        × ((children : List ValidityReason) × (child_process_reasons metadata ≡ ok children)
            × Allow children)
  unfolding report_reasons
  report_reasons-Allow suite metadata rows reasons h allow =
      let (children, failed, h) = >>=-eq-ok (child_process_reasons metadata) _ h in
      let (attribution, _, h) = >>=-eq-ok (attribution_report_reasons metadata rows) _ h in
      let (lifecycle, _, h) = >>=-eq-ok (lifecycle_report_reasons metadata rows) _ h in
      let (measured, read, h) = >>=-eq-ok (rows_reasons suite rows) _ h in
      let same = ok-injective h in
      let all_allow = rw (← same) at allow in
      let profiles = streaming_profile_reasons suite metadata rows in
      let (front, _, last) =
        All-append_three _ (children ++ profiles ++ attribution) lifecycle measured all_allow in
      let (first, _, _) = All-append_three _ children profiles attribution front in
      (rows_reasons-IsComparableRow suite rows measured read last, (children, failed, first))

  -- In a report that the gate finds comparable, each row leaves no error of its warmup unexplained and
  -- none of its measured phase, unless its errors include a bypass of the proxy, which a row of the
  -- proxy suite has none of; it shows no known incompatibility of a client; and a row of the resource
  -- suite records no failed recovery.
  pub classify_report_validity-IsComparableRow :
      (suite : String) (rows : List JsonObject) (metadata : JsonObject) (summary : ValiditySummary)
      → classify_report_validity suite rows metadata ≡ ok summary
      → summary.can_compare ≡ true
      → All (IsComparableRow suite) rows
  unfolding classify_report_validity summary_of_reasons reasons_allow_comparison
  classify_report_validity-IsComparableRow suite rows metadata summary h comparable =
      let (reasons, read, h) = >>=-eq-ok (report_reasons suite metadata rows) _ h in
      let same = ok-injective h in
      let allowed = rw (← same) at comparable in
      (report_reasons-Allow suite metadata rows reasons read
        (all-All allows_comparison reasons allowed)).0

  -- In a report whose isolation metadata is admitted and that the gate finds comparable, every child
  -- process that the metadata lists has the path of its report and the return code zero, or null in
  -- its place if each case of a lifecycle had a process.
  pub classify_report_validity-AreSuccessful :
      (suite : String) (rows : List JsonObject) (metadata : JsonObject) (summary : ValiditySummary)
      (isolation : JsonObject) (children : Items)
      → get metadata "isolation" ≡ obj isolation
      → get isolation "children" ≡ arr children
      → validate_isolation_metadata metadata ≡ ok tt
      → classify_report_validity suite rows metadata ≡ ok summary
      → summary.can_compare ≡ true
      → AreSuccessful (is_text (get isolation "mode") "per-lifecycle-case") children
  unfolding classify_report_validity summary_of_reasons reasons_allow_comparison
  classify_report_validity-AreSuccessful suite rows metadata summary isolation children found listed
        admitted h comparable =
      let (reasons, read, h) = >>=-eq-ok (report_reasons suite metadata rows) _ h in
      let same = ok-injective h in
      let allowed = rw (← same) at comparable in
      let (_, (blocking, failed, allow)) =
        report_reasons-Allow suite metadata rows reasons read
          (all-All allows_comparison reasons allowed) in
      child_process_reasons-AreSuccessful metadata isolation children blocking found listed admitted
        failed allow
