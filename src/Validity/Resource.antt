-- ===== src/Validity/Resource.antt =====
-- Errors that a resource scenario is meant to provoke: validity/resource.py.
pub mod Recovered
use fog_http_benchmark.Prelude.{
  Bool, true, false, not, ◌&&◌, ◌||◌, String, Option, none, some, List, [], ◌∷◌, map, any, keep,
  ◌==◌, string_eq, contains, lookup, if◌then◌else◌, Result, ok, err, ◌>>=◌,
}
use fog_http_benchmark.Prelude.Int.{ℤ, pos, negsuc, ◌+ℤ◌, ◌-ℤ◌, ltb_ℤ, leb_ℤ, ℤ_eq}
use fog_http_benchmark.Prelude.Text.{str_int, concat}
use fog_http_benchmark.Json.{JsonObject}
use fog_http_benchmark.Runtime.{Runtime}
use fog_http_benchmark.Validity.Summary.{ValidityReason, needs_rerun}
use fog_http_benchmark.Validity.Helpers.{
  dict_field, int_field, row_reference, str_field, validity_reason,
}

abbrev pub expected_resource_errors : List (String × List String)
expected_resource_errors =
    ("aggregate-buffered-budget", "ResponseBodyBudgetExceededError" ∷ [])
    ∷ ("pending-queue-full", "PoolTimeout" ∷ [])
    ∷ ("pool-timeout-recovery", "PoolTimeout" ∷ [])
    ∷ ("response-body-limit", "ResponseBodyTooLargeError" ∷ [])
    ∷ []

abbrev pub Counts : Type 0
Counts = List (String × ℤ)

unfoldable pub sum_counts : Counts → ℤ
sum_counts [] = pos 0
sum_counts ((name, n) ∷ counts) = n +ℤ sum_counts counts

-- `any(count < 0 …) or sum(…) != total`
unfoldable pub disagrees : Counts → ℤ → Bool
unfolding sum_counts
disagrees counts total = any (λ e. ltb_ℤ e.1 (pos 0)) counts || not (sum_counts counts == total)

-- `max(0, n)`
unfoldable pub at_least_zero : ℤ → ℤ
at_least_zero (pos n) = pos n
at_least_zero (negsuc n) = pos 0

expected_types : Option (List String) → List String
expected_types none = []
expected_types (some types) = types

unfoldable pub unexpected_in : Counts → List String → ℤ → ℤ
unexpected_in counts expected errors_total =
    if disagrees counts errors_total
    then errors_total
    else at_least_zero (errors_total -ℤ sum_counts (keep (λ e. contains e.0 expected) counts))

is_known {ℓ} : {A : Type ℓ} → Option A → Bool
is_known none = false
is_known (some a) = true

module _ ⦃r : Runtime⦄ where
  unfoldable pub unexpected_error_count : String → JsonObject → ℤ → String → Result ℤ
  unfolding expected_types
  unexpected_error_count suite row errors_total error_field =
      if leb_ℤ errors_total (pos 0)
      then ok (pos 0)
      else if not (suite == "resource-backpressure")
      then ok errors_total
      else (do
        counts ← dict_field row error_field
        let expected =
            expected_types (lookup (str_field row "scenario" "") expected_resource_errors)
        ok (unexpected_in counts expected errors_total))

  unfoldable pub resource_expected_pressure_row : String → JsonObject → Bool
  unfolding is_known
  resource_expected_pressure_row suite row =
      suite == "resource-backpressure"
      && is_known (lookup (str_field row "scenario" "") expected_resource_errors)

  unfoldable pub resource_recovery_reasons : String → JsonObject → Result (List ValidityReason)
  resource_recovery_reasons suite row =
      if not (suite == "resource-backpressure") then ok [] else (do
        failures ← int_field row "recovery_failures"
        if leb_ℤ failures (pos 0)
            then ok []
            else ok (
                validity_reason needs_rerun "resource_recovery_failed"
                  (concat (
                    "Resource recovery health check failed in "
                    ∷ str_int failures
                    ∷ " repeats."
                    ∷ []))
                  (row_reference row)
                ∷ []))
