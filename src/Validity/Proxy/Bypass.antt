-- ===== src/Validity/Proxy/Bypass.antt =====
-- Theorems about the bypass errors of validity/proxy.py.
use fog_http_benchmark.Prelude.{
  ◌≡◌, refl, ◌⊎◌, inl, inr, Bool, false, String, List, [], ◌∷◌, any, keep, ◌==◌, string_eq,
  All-append_three, ok, >>=-eq-ok, ok-injective, Bool-cases, arith,
}
use fog_http_benchmark.Json.{JsonObject}
use fog_http_benchmark.Runtime.{Runtime}
use fog_http_benchmark.Validity.Summary.{ValidityReason, Allow, allows_comparison}
use fog_http_benchmark.Validity.Helpers.{dict_field, int_field, validity_reason}
use fog_http_benchmark.Validity.Proxy.{
  has_proxy_bypass_errors, proxy_specific_reasons, bypass_errors, bypass_reasons, proxy_invalid,
}

none_kept : (p : String → Bool) (names : List String) → keep p names ≡ [] → any p names ≡ false
unfolding keep any
none_kept p [] h = refl
none_kept p (x ∷ xs) h = ground (arith, none_kept p xs)

module _ ⦃r : Runtime⦄ where
  bypass_reasons-Allow :
      (row : JsonObject) (names : List String) → Allow (bypass_reasons row names) → names ≡ []
  unfolding bypass_reasons proxy_invalid allows_comparison validity_reason
  bypass_reasons-Allow row [] h = refl
  bypass_reasons-Allow row (name ∷ []) h = cc (h.0)
  bypass_reasons-Allow row (first ∷ second ∷ names) h = cc (h.0)

  pub proxy_specific_reasons-Allow :
      (suite : String) (row : JsonObject) (reasons : List ValidityReason)
      → proxy_specific_reasons suite row ≡ ok reasons
      → Allow reasons
      → ((suite == "proxy-connect") ≡ false) ⊎ (has_proxy_bypass_errors row ≡ ok false)
  unfolding proxy_specific_reasons has_proxy_bypass_errors bypass_errors
  proxy_specific_reasons-Allow suite row reasons h allow =
      elim (Bool-cases (suite == "proxy-connect")) [
        | inr other ↦ inl other
        | inl proxied ↦
            let h = rw proxied at h in
            let (counts, read, h) = >>=-eq-ok (dict_field row "error_types") _ h in
            let (_, _, h) = >>=-eq-ok (int_field row "ok_requests_total") _ h in
            let (_, _, h) = >>=-eq-ok (int_field row "measured_proxy_http_requests_max") _ h in
            let (_, _, h) = >>=-eq-ok (int_field row "measured_proxy_connect_requests_max") _ h in
            let (_, _, h) = >>=-eq-ok (int_field row "total_proxy_http_requests_max") _ h in
            let (_, _, h) = >>=-eq-ok (int_field row "total_proxy_connect_requests_max") _ h in
            let same = ok-injective h in
            let all_allow = rw (← same) at allow in
            let (here, _, _) =
              All-append_three _ (bypass_reasons row (bypass_errors counts)) _ _ all_allow in
            let free = none_kept _ _ (bypass_reasons-Allow row _ here) in inr (rw (read, free) refl)
      ]
