-- ===== src/Validity/Resource/Recovered.antt =====
-- Theorems about the recovery check of validity/resource.py.
use fog_http_benchmark.Prelude.{
  ◌≡◌, ◌⊎◌, inl, inr, true, false, String, List, ◌==◌, string_eq, ok, >>=-eq-ok, ok-injective,
  Bool-cases,
}
use fog_http_benchmark.Prelude.Int.{ℤ, pos, leb_ℤ}
use fog_http_benchmark.Json.{JsonObject}
use fog_http_benchmark.Runtime.{Runtime}
use fog_http_benchmark.Validity.Summary.{ValidityReason, Allow, allows_comparison}
use fog_http_benchmark.Validity.Helpers.{int_field, validity_reason}
use fog_http_benchmark.Validity.Resource.{resource_recovery_reasons}

-- The row of a resource suite records no failed recovery.
abbrev pub IsRecovered : String → JsonObject → Type 0
IsRecovered suite row =
    ((suite == "resource-backpressure") ≡ false)
    ⊎ ((failures : ℤ) × (int_field row "recovery_failures" ≡ ok failures)
        × (leb_ℤ failures (pos 0) ≡ true))

module _ ⦃r : Runtime⦄ where
  pub resource_recovery_reasons-IsRecovered :
      (suite : String) (row : JsonObject) (reasons : List ValidityReason)
      → resource_recovery_reasons suite row ≡ ok reasons
      → Allow reasons
      → IsRecovered suite row
  unfolding resource_recovery_reasons allows_comparison validity_reason
  resource_recovery_reasons-IsRecovered suite row reasons h allow =
      elim (Bool-cases (suite == "resource-backpressure")) [
        | inr other ↦ inl other
        | inl same ↦
            let h = rw same at h in
            let (failures, read, h) = >>=-eq-ok (int_field row "recovery_failures") _ h in
            elim (Bool-cases (leb_ℤ failures (pos 0))) [
              | inl none_left ↦ inr (failures, read, none_left)
              | inr positive ↦
                  let h = rw positive at h in
                  let same = ok-injective h in let allow = rw (← same) at allow in cc (allow.0)
            ]
      ]
