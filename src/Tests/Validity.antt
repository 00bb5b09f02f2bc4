-- ===== src/Tests/Validity.antt =====
-- Runs of the validity gate.
use fog_http_benchmark.Prelude.Text.{is_blank}
use fog_http_benchmark.Schema.Fields.{
  require_integer, require_string, is_null, require_rows, require_object,
}
use fog_http_benchmark.Validity.Compatibility.{
  failure_matches, expected_compatibility_failures, shown_failures, compatibility_failure_reasons,
}
use fog_http_benchmark.Validity.Resource.{
  resource_recovery_reasons, resource_expected_pressure_row, at_least_zero, disagrees,
  unexpected_in, unexpected_error_count,
}
use fog_http_benchmark.Validity.Helpers.{optional_float_field, str_field, dict_field, int_field}
use fog_http_benchmark.Validity.Generic.{
  warmup_error_reasons, measured_error_reasons, variation_reasons, zero_primary_metric_reasons,
  unexplained_errors, error_reasons,
}
use fog_http_benchmark.Validity.Proxy.{proxy_specific_reasons}
use fog_http_benchmark.Validity.Lifecycle.{lifecycle_report_reasons}
use fog_http_benchmark.Runtime.{py_str, is_text}
use fog_http_benchmark.Validity.Profiles.{
  streaming_profile_reasons, research_envelope_profile, uses_streaming_profile,
}
use fog_http_benchmark.Validity.Attribution.{attribution_report_reasons}
use fog_http_benchmark.Validity.Children.{child_process_reasons}
use fog_http_benchmark.Prelude.{
  for_each, lookup, contains, keep, any, all, ◌≤◌, ◌≡◌, refl, ◌↔◌, true, false, List, [], ◌∷◌, All,
  ok,
}
use fog_http_benchmark.Prelude.Int.{pos, ◌-ℤ◌, ◌+ℤ◌}
use fog_http_benchmark.Json.{
  find?, Items, JsonObject, arr, cons, empty, get, get_or, has, int, nil, obj, str,
}
use fog_http_benchmark.Validity.Summary.{
  has_reason, reasons_allow_comparison, count_reasons, valid, warning, needs_rerun, invalid,
  severity, ValidityReason, ValiditySummary, combined_status, combine_validity_summaries,
  summary_of_reasons,
}
use fog_http_benchmark.Validity.Summary.Status.{IsWorse, combined_status-le_iff}
use fog_http_benchmark.Validity.Summary.Combine.{Retains, combine-Retains}
use fog_http_benchmark.Validity.Serialization.{
  validate_reason_counts, reason_payload, reason_from_payload, status_value, validity_payload,
  validity_summary_from_payload,
}
use fog_http_benchmark.Validity.Serialization.Consistent.{
  IsConsistent, validity_summary_from_payload-IsConsistent,
}
use fog_http_benchmark.Validity.Serialization.RoundTrip.{
  validity_summary_from_payload-validity_payload,
}
use fog_http_benchmark.Validity.Classification.{
  row_reasons, rows_reasons, report_reasons, classify_report_validity,
  validity_summary_from_metadata, recorded_summaries,
}
use fog_http_benchmark.Validity.Classification.Comparable.{
  IsComparableRow, classify_report_validity-IsComparableRow, classify_report_validity-AreSuccessful,
}
use fog_http_benchmark.Validity.Children.{child_reasons, child_provenance_reasons}
use fog_http_benchmark.Schema.Metadata.{validate_child_diagnostic, validate_isolation_metadata}
use fog_http_benchmark.Validity.Children.Succeeded.{AreSuccessful}
use fog_http_benchmark.Validity.Classification.Recorded.{validity_summary_from_metadata-comparable}
use fog_http_benchmark.Tests.{plain_runtime, fields, pressure_row}

abbrev slow_warmup : ValidityReason
slow_warmup = record {
  status = warning;
  code = "high_variation";
  message = "ops_s_cv_percent is 61.0%, above 50.0%.";
  row_label = "async / foghttp";
  row = fields (("client", str "foghttp") ∷ []);
}

abbrev failed_child : ValidityReason
failed_child = record {
  status = invalid;
  code = "isolated_child_failed";
  message = "Isolated child process failed or did not write a report.";
  row_label = "child=1";
  row = empty;
}

-- the summaries of no reason, and of one
abbrev clean : ValiditySummary
clean = record {
  status = valid;
  is_valid = true;
  can_compare = true;
  reason_count = 0;
  reason_counts = [];
  reasons = [];
}

abbrev warned : ValiditySummary
warned = record {
  status = warning;
  is_valid = false;
  can_compare = true;
  reason_count = 1;
  reason_counts = (warning, 1) ∷ [];
  reasons = slow_warmup ∷ [];
}

abbrev failed : ValiditySummary
failed = record {
  status = invalid;
  is_valid = false;
  can_compare = false;
  reason_count = 1;
  reason_counts = (invalid, 1) ∷ [];
  reasons = failed_child ∷ [];
}

combined_status-le_iff_example :
    (severity (combined_status (warning ∷ needs_rerun ∷ valid ∷ [])) ≤ severity invalid)
    ↔ IsWorse invalid (warning ∷ needs_rerun ∷ valid ∷ [])
combined_status-le_iff_example = combined_status-le_iff (warning ∷ needs_rerun ∷ valid ∷ []) invalid

combine-Retains_example :
    All
      (Retains (combine_validity_summaries (warned ∷ failed ∷ warned ∷ [])))
      (warned ∷ failed ∷ warned ∷ [])
combine-Retains_example = combine-Retains (warned ∷ failed ∷ warned ∷ [])

validity_summary_from_payload-IsConsistent_example : IsConsistent warned
unfolding validity_summary_from_payload status_value get validity_payload reason_from_payload
    reason_payload validate_reason_counts all count_reasons combined_status reasons_allow_comparison
validity_summary_from_payload-IsConsistent_example =
    validity_summary_from_payload-IsConsistent (validity_payload warned) warned refl

validity_summary_from_payload-validity_payload_example :
    validity_summary_from_payload (validity_payload warned) ≡ ok warned
validity_summary_from_payload-validity_payload_example =
    validity_summary_from_payload-validity_payload warned
      validity_summary_from_payload-IsConsistent_example

pressure_row_passes :
    classify_report_validity "resource-backpressure" (pressure_row ∷ []) empty ≡ ok clean
unfolding classify_report_validity report_reasons child_process_reasons get
    attribution_report_reasons uses_streaming_profile is_text any research_envelope_profile has
    lifecycle_report_reasons rows_reasons row_reasons proxy_specific_reasons error_reasons
    unexplained_errors int_field get_or unexpected_error_count dict_field unexpected_in disagrees
    ◌+ℤ◌ at_least_zero ◌-ℤ◌ keep contains lookup str_field py_str compatibility_failure_reasons
    shown_failures expected_compatibility_failures failure_matches zero_primary_metric_reasons
    resource_expected_pressure_row variation_reasons optional_float_field resource_recovery_reasons
    summary_of_reasons combined_status reasons_allow_comparison streaming_profile_reasons
    count_reasons measured_error_reasons all warmup_error_reasons
pressure_row_passes = refl

classify_report_validity-IsComparableRow_example :
    All (IsComparableRow "resource-backpressure") (pressure_row ∷ [])
classify_report_validity-IsComparableRow_example =
    classify_report_validity-IsComparableRow "resource-backpressure" (pressure_row ∷ []) empty clean
      pressure_row_passes refl

abbrev child_list : Items
child_list =
    cons
      (obj (
        fields (
          ("sequence", int (pos 1))
          ∷ ("returncode", int (pos 0))
          ∷ ("report_path", str "results/child-1.json")
          ∷ [])))
      nil

abbrev isolation_metadata : JsonObject
isolation_metadata = fields (("children", arr child_list) ∷ [])

abbrev isolated_metadata : JsonObject
isolated_metadata = fields (("isolation", obj isolation_metadata) ∷ [])

isolated_report_passes :
    classify_report_validity "resource-backpressure" (pressure_row ∷ []) isolated_metadata
    ≡ ok clean
unfolding classify_report_validity report_reasons child_process_reasons get
    attribution_report_reasons uses_streaming_profile is_text any research_envelope_profile has
    lifecycle_report_reasons rows_reasons row_reasons proxy_specific_reasons error_reasons
    unexplained_errors int_field get_or unexpected_error_count dict_field unexpected_in disagrees
    ◌+ℤ◌ at_least_zero ◌-ℤ◌ keep contains lookup str_field py_str compatibility_failure_reasons
    shown_failures expected_compatibility_failures failure_matches zero_primary_metric_reasons
    resource_expected_pressure_row variation_reasons optional_float_field resource_recovery_reasons
    summary_of_reasons combined_status reasons_allow_comparison streaming_profile_reasons
    count_reasons measured_error_reasons all warmup_error_reasons child_reasons
    child_provenance_reasons
isolated_report_passes = refl

isolation_admitted : validate_isolation_metadata isolated_metadata ≡ ok tt
unfolding validate_isolation_metadata find? require_object require_rows for_each
    validate_child_diagnostic is_text get has is_null require_string is_blank require_integer
isolation_admitted = refl

classify_report_validity-AreSuccessful_example : AreSuccessful false child_list
unfolding get is_text
classify_report_validity-AreSuccessful_example =
    classify_report_validity-AreSuccessful "resource-backpressure" (pressure_row ∷ [])
      isolated_metadata clean isolation_metadata child_list refl refl isolation_admitted
      isolated_report_passes refl

-- a report that was saved with a warning
abbrev saved_metadata : JsonObject
saved_metadata = fields (("validity", obj (validity_payload warned)) ∷ [])

saved_report_passes :
    validity_summary_from_metadata saved_metadata "resource-backpressure" (pressure_row ∷ [])
    ≡ ok warned
unfolding recorded_summaries validity_summary_from_metadata classify_report_validity report_reasons
    child_process_reasons get attribution_report_reasons uses_streaming_profile is_text any
    research_envelope_profile has lifecycle_report_reasons rows_reasons row_reasons
    proxy_specific_reasons error_reasons unexplained_errors int_field get_or unexpected_error_count
    dict_field unexpected_in disagrees ◌+ℤ◌ at_least_zero ◌-ℤ◌ keep contains lookup str_field py_str
    compatibility_failure_reasons shown_failures expected_compatibility_failures failure_matches
    zero_primary_metric_reasons resource_expected_pressure_row variation_reasons
    optional_float_field resource_recovery_reasons validity_summary_from_payload status_value
    validity_payload reason_from_payload reason_payload validate_reason_counts all count_reasons
    combine_validity_summaries combined_status has_reason summary_of_reasons
    streaming_profile_reasons measured_error_reasons warmup_error_reasons reasons_allow_comparison
saved_report_passes = refl

validity_summary_from_metadata-comparable_example :
    All (IsComparableRow "resource-backpressure") (pressure_row ∷ [])
    × ((recorded : List ValiditySummary) × (recorded_summaries saved_metadata ≡ ok recorded)
        × All (λ (s : ValiditySummary). s.can_compare ≡ true) recorded)
validity_summary_from_metadata-comparable_example =
    validity_summary_from_metadata-comparable saved_metadata "resource-backpressure"
      (pressure_row ∷ []) warned saved_report_passes refl
