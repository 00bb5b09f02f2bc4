-- ===== src/Validity/Generic/Unexplained.antt =====
-- Theorems about the error reasons of validity/generic.py.
use fog_http_benchmark.Prelude.{
  ◌≡◌, ◌⊎◌, inl, inr, Bool, true, false, not, ◌&&◌, String, List, [], All-append_three, ok,
  >>=-eq-ok, >>-eq-ok, ok-injective, Bool-cases, if◌then◌else◌,
}
use fog_http_benchmark.Prelude.Int.{ℤ, pos, ltb_ℤ}
use fog_http_benchmark.Json.{JsonObject}
use fog_http_benchmark.Runtime.{Runtime}
use fog_http_benchmark.Validity.Summary.{ValidityReason, Allow, allows_comparison}
use fog_http_benchmark.Validity.Helpers.{int_field, validity_reason}
use fog_http_benchmark.Validity.Proxy.{has_proxy_bypass_errors}
use fog_http_benchmark.Validity.Compatibility.{shown_failures, compatibility_failure_reasons}
use fog_http_benchmark.Validity.Compatibility.Blocking.{compatibility_failure_reasons-Allow}
use fog_http_benchmark.Validity.Generic.{
  unexplained_errors, error_reasons, measured_error_reasons, warmup_error_reasons, error_reason,
}

module _ ⦃r : Runtime⦄ where
  -- No error of a row is unexplained: none in the measured phase, but for bypasses of the proxy, none
  -- in the warmup, and no known incompatibility.
  pub record IsExplained (suite : String) (row : JsonObject) : Type 0 where
    pub measured : ℤ
    pub measured_read : unexplained_errors suite row "error_types" "errors_total" ≡ ok measured
    pub measured_none : (ltb_ℤ (pos 0) measured ≡ false) ⊎ (has_proxy_bypass_errors row ≡ ok true)
    pub warmup : ℤ
    pub warmup_read :
        unexplained_errors suite row "warmup_error_types" "warmup_errors_total" ≡ ok warmup
    pub warmup_none : ltb_ℤ (pos 0) warmup ≡ false
    pub compatible : shown_failures suite row ≡ ok []

  warmup-Allow :
      (warmup : ℤ) (row : JsonObject)
      → Allow (warmup_error_reasons warmup row)
      → ltb_ℤ (pos 0) warmup ≡ false
  unfolding warmup_error_reasons error_reason allows_comparison validity_reason
  warmup-Allow warmup row h = elim (Bool-cases (ltb_ℤ (pos 0) warmup)) [
    | inl positive ↦ let h = rw positive at h in cc (h.0)
    | inr none_left ↦ none_left
  ]

  measured-Allow :
      (measured : ℤ) (bypassed : Bool) (row : JsonObject)
      → (if ltb_ℤ (pos 0) measured then has_proxy_bypass_errors row else ok false) ≡ ok bypassed
      → Allow (measured_error_reasons measured bypassed row)
      → (ltb_ℤ (pos 0) measured ≡ false) ⊎ (has_proxy_bypass_errors row ≡ ok true)
  unfolding measured_error_reasons error_reason allows_comparison validity_reason
  measured-Allow measured bypassed row read h = elim (Bool-cases (ltb_ℤ (pos 0) measured)) [
    | inr none_left ↦ inl none_left
    | inl positive ↦ inr (guarded bypassed (rw positive at read) (rw positive at h))
  ]
    where
      guarded :
          (b : Bool)
          → has_proxy_bypass_errors row ≡ ok b
          → Allow (
              if true && not b
              then error_reason "unexpected_measured_errors" "Measured run recorded "
                  " unexpected errors." measured row
              else [])
          → has_proxy_bypass_errors row ≡ ok true
      guarded true read h = read
      guarded false read h = cc (h.0)

  pub error_reasons-IsExplained :
      (suite : String) (row : JsonObject) (reasons : List ValidityReason)
      → error_reasons suite row ≡ ok reasons
      → Allow reasons
      → IsExplained suite row
  unfolding error_reasons
  error_reasons-IsExplained suite row reasons h allow =
      let (_, h) = >>-eq-ok (int_field row "errors_total") _ h in
      let (_, h) = >>-eq-ok (int_field row "warmup_errors_total") _ h in
      let (measured, measured_read, h) =
        >>=-eq-ok (unexplained_errors suite row "error_types" "errors_total") _ h in
      let (bypassed, bypass_read, h) =
        >>=-eq-ok (if ltb_ℤ (pos 0) measured then has_proxy_bypass_errors row else ok false) _ h in
      let (warmup, warmup_read, h) =
        >>=-eq-ok (unexplained_errors suite row "warmup_error_types" "warmup_errors_total") _ h in
      let (known, known_read, h) = >>=-eq-ok (compatibility_failure_reasons suite row) _ h in
      let same = ok-injective h in
      let all_allow = rw (← same) at allow in
      let (here, warm, rest) =
        All-append_three _ (measured_error_reasons measured bypassed row)
          (warmup_error_reasons warmup row) known all_allow in
      record {
        measured = measured;
        measured_read = measured_read;
        measured_none = measured-Allow measured bypassed row bypass_read here;
        warmup = warmup;
        warmup_read = warmup_read;
        warmup_none = warmup-Allow warmup row warm;
        compatible = compatibility_failure_reasons-Allow suite row known known_read rest;
      }
