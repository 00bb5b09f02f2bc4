-- ===== src/Validity/Proxy.antt =====
-- Whether a proxy row went through the proxy: validity/proxy.py.
pub mod Bypass
use fog_http_benchmark.Prelude.{
  Bool, true, false, not, ◌&&◌, ◌||◌, String, Option, none, some, List, [], ◌∷◌, ◌++◌, map, any,
  keep, ◌==◌, string_eq, contains, if◌then◌else◌, Result, ok, err, ◌>>=◌,
}
use fog_http_benchmark.Prelude.Int.{ℤ, pos, negsuc, ltb_ℤ, leb_ℤ}
use fog_http_benchmark.Prelude.Text.{concat}
use fog_http_benchmark.Json.{JsonObject}
use fog_http_benchmark.Runtime.{Runtime}
use fog_http_benchmark.Validity.Summary.{ValidityReason, invalid}
use fog_http_benchmark.Validity.Helpers.{
  dict_field, int_field, row_reference, str_field, validity_reason,
}
use fog_http_benchmark.Validity.Resource.{Counts}

-- in alphabetical order
abbrev pub proxy_bypass_error_types : List String
proxy_bypass_error_types = "proxy_connect_bypass" ∷ "proxy_http_bypass" ∷ []

bypass_errors : Counts → List String
bypass_errors counts = keep (λ name. contains name (map (λ e. e.0) counts)) proxy_bypass_error_types

unfoldable pub has_proxy_bypass_errors : JsonObject → Result Bool
unfolding bypass_errors
has_proxy_bypass_errors row = do
  counts ← dict_field row "error_types"
  ok (any (λ name. contains name (map (λ e. e.0) counts)) proxy_bypass_error_types)

is_positive : ℤ → Bool
is_positive n = ltb_ℤ (pos 0) n

module _ ⦃r : Runtime⦄ where
  proxy_invalid : String → String → JsonObject → List ValidityReason
  proxy_invalid code message row = validity_reason invalid code message (row_reference row) ∷ []

  bypass_reasons : JsonObject → List String → List ValidityReason
  unfolding proxy_invalid
  bypass_reasons row [] = []
  bypass_reasons row (name ∷ []) =
      proxy_invalid "proxy_usage_guard_failed"
        (concat ("Proxy usage guard errors were recorded: " ∷ name ∷ "." ∷ [])) row
  bypass_reasons row (first ∷ second ∷ names) =
      proxy_invalid "proxy_usage_guard_failed"
        (concat ("Proxy usage guard errors were recorded: " ∷ first ∷ ", " ∷ second ∷ "." ∷ [])) row

  connect_counter_value : JsonObject → ℤ → ℤ → ℤ
  connect_counter_value row measured_connect total_connect =
      if str_field row "lifecycle" "" == "cold-client" then measured_connect else total_connect

  unfoldable pub missing_proxy_counter_reasons :
      JsonObject → String → ℤ → ℤ → ℤ → List ValidityReason
  unfolding proxy_invalid connect_counter_value
  missing_proxy_counter_reasons row target_scheme measured_http measured_connect total_connect =
      if target_scheme == "http" && leb_ℤ measured_http (pos 0)
      then proxy_invalid "missing_proxy_http_counter"
          "HTTP proxy scenario completed successful requests without measured proxy HTTP counters."
          row
      else if target_scheme == "https"
          && leb_ℤ (connect_counter_value row measured_connect total_connect) (pos 0)
      then proxy_invalid "missing_proxy_connect_counter"
          "HTTPS proxy scenario completed successful requests without measured CONNECT counters."
          row
      else []

  unfoldable pub proxy_specific_reasons : String → JsonObject → Result (List ValidityReason)
  unfolding bypass_errors bypass_reasons is_positive missing_proxy_counter_reasons proxy_invalid
  proxy_specific_reasons suite row = if not (suite == "proxy-connect") then ok [] else (do
    counts ← dict_field row "error_types"
    let config = str_field row "config" ""
    let target_scheme = str_field row "target_scheme" ""
    ok_requests ← int_field row "ok_requests_total"
    measured_http ← int_field row "measured_proxy_http_requests_max"
    measured_connect ← int_field row "measured_proxy_connect_requests_max"
    total_http ← int_field row "total_proxy_http_requests_max"
    total_connect ← int_field row "total_proxy_connect_requests_max"
    let leaks = any is_positive (measured_http ∷ measured_connect ∷ total_http ∷ total_connect ∷ [])
    ok (
        bypass_reasons row (bypass_errors counts)
        ++ (if config == "direct" && leaks
            then proxy_invalid "direct_proxy_counter_leak"
                "Direct proxy baseline recorded proxy counters." row
            else [])
        ++ (if contains config ("explicit" ∷ "trust-env" ∷ []) && is_positive ok_requests
            then missing_proxy_counter_reasons row target_scheme measured_http measured_connect
                total_connect
            else [])))
