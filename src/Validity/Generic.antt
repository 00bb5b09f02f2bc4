-- ===== src/Validity/Generic.antt =====
-- Reasons that any suite's rows can give: validity/generic.py.
pub mod Unexplained
use fog_http_benchmark.Prelude.{
  Bool, true, false, not, ◌&&◌, ◌||◌, String, Option, none, some, List, [], ◌∷◌, ◌++◌,
  if◌then◌else◌, Result, ok, err, ◌>>=◌, ◌>>◌,
}
use fog_http_benchmark.Prelude.Int.{ℤ, pos, negsuc, ltb_ℤ, leb_ℤ, ◌-ℤ◌}
use fog_http_benchmark.Prelude.Text.{str_int, concat}
use fog_http_benchmark.Json.{JsonObject, Float, whole, float_lt, float_le, fixed_1}
use fog_http_benchmark.Runtime.{Runtime}
use fog_http_benchmark.Validity.Summary.{ValidityStatus, ValidityReason, needs_rerun, warning}
use fog_http_benchmark.Validity.Helpers.{
  int_field, row_reference, validity_reason, optional_float_field, first_primary_value,
  ok_total_value, cv_fields,
}
use fog_http_benchmark.Validity.Resource.{
  unexpected_error_count, resource_expected_pressure_row, at_least_zero,
}
use fog_http_benchmark.Validity.Proxy.{has_proxy_bypass_errors}
use fog_http_benchmark.Validity.Compatibility.{
  compatibility_expected_error_count, compatibility_failure_reasons,
}

unfoldable pub high_cv_warning : Float
high_cv_warning = whole 50

module _ ⦃r : Runtime⦄ where
  -- The errors of one phase that neither the scenario nor a known incompatibility explains.
  unfoldable pub unexplained_errors : String → JsonObject → String → String → Result ℤ
  unexplained_errors suite row error_field total_field = do
    total ← int_field row total_field
    unexpected ← unexpected_error_count suite row total error_field
    if leb_ℤ unexpected (pos 0) then ok unexpected else (do
      known ← compatibility_expected_error_count suite row error_field total_field
      ok (at_least_zero (unexpected -ℤ known)))

  error_reason : String → String → String → ℤ → JsonObject → List ValidityReason
  error_reason code before after n row =
      validity_reason needs_rerun code (concat (before ∷ str_int n ∷ after ∷ []))
        (row_reference row)
      ∷ []

  unfoldable pub measured_error_reasons : ℤ → Bool → JsonObject → List ValidityReason
  unfolding error_reason
  measured_error_reasons unexpected bypassed row =
      if ltb_ℤ (pos 0) unexpected && not bypassed
      then error_reason "unexpected_measured_errors" "Measured run recorded " " unexpected errors."
          unexpected row
      else []

  unfoldable pub warmup_error_reasons : ℤ → JsonObject → List ValidityReason
  unfolding error_reason
  warmup_error_reasons unexpected row =
      if ltb_ℤ (pos 0) unexpected
      then error_reason "unexpected_warmup_errors" "Warmup recorded " " unexpected errors."
          unexpected row
      else []

  unfoldable pub error_reasons : String → JsonObject → Result (List ValidityReason)
  error_reasons suite row = do
    int_field row "errors_total"
    int_field row "warmup_errors_total"
    measured ← unexplained_errors suite row "error_types" "errors_total"
    bypassed ← if ltb_ℤ (pos 0) measured then has_proxy_bypass_errors row else ok false
    warmup ← unexplained_errors suite row "warmup_error_types" "warmup_errors_total"
    known ← compatibility_failure_reasons suite row
    ok (measured_error_reasons measured bypassed row ++ warmup_error_reasons warmup row ++ known)

  zero_reason : JsonObject → ℤ → Option ℤ → List ValidityReason
  zero_reason row errors_total ok_total =
      let reasons =
        validity_reason needs_rerun "zero_success_throughput"
          "Primary success throughput is zero for a measured row." (row_reference row)
        ∷ [] in
      elim ok_total [ none ↦ if leb_ℤ errors_total (pos 0) then [] else reasons | some n ↦ reasons ]

  is_zero_primary : Option Float → Bool
  is_zero_primary none = false
  is_zero_primary (some value) = not (float_lt (whole 0) value)

  unfoldable pub zero_primary_metric_reasons : String → JsonObject → Result (List ValidityReason)
  unfolding zero_reason is_zero_primary
  zero_primary_metric_reasons suite row =
      if resource_expected_pressure_row suite row then ok [] else (do
        primary ← first_primary_value row
        if not (is_zero_primary primary) then ok [] else (do
          errors_total ← int_field row "errors_total"
          ok_total ← ok_total_value row
          ok (zero_reason row errors_total ok_total)))

  cv_reason : JsonObject → String → Option Float → List ValidityReason
  unfolding high_cv_warning
  cv_reason row field none = []
  cv_reason row field (some value) =
      if float_lt high_cv_warning value
      then validity_reason warning "high_variation"
          (concat (field ∷ " is " ∷ fixed_1 value ∷ "%, above 50.0%." ∷ [])) (row_reference row)
        ∷ []
      else []

  variation_from : JsonObject → List String → Result (List ValidityReason)
  unfolding cv_reason
  variation_from row [] = ok []
  variation_from row (field ∷ fields) = do
    value ← optional_float_field row field
    rest ← variation_from row fields
    ok (cv_reason row field value ++ rest)

  unfoldable pub variation_reasons : JsonObject → Result (List ValidityReason)
  unfolding variation_from
  variation_reasons row = variation_from row cv_fields
