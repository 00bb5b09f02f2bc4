-- ===== src/Timing/Agreement.antt =====
-- Theorems about the timing scopes of measurement_timing.py.
use fog_http_benchmark.Prelude.{
  ◌≡◌, refl, ◌↔◌, true, false, not, String, Option, some, List, any, lookup, string_eq, eq_iff, ok,
  value_error, >>=-eq-ok, raise_if, raise_if-eq-ok, ◌⊎◌, arith, All,
}
use fog_http_benchmark.Json.{JsonObject, get, has}
use fog_http_benchmark.Runtime.{is_text}
use fog_http_benchmark.Timing.{
  TimingScope, scope_text, scope_eq, timing_scopes, current_timing_scope, report_profile,
  declared_scope, scope_of, is_supported, report_timing_scope, validate_timing_compatibility,
}

scope_of_text : (s : TimingScope) → lookup (scope_text s) timing_scopes ≡ some s
unfolding lookup scope_text
scope_of_text TimingScope.requests = refl
scope_of_text TimingScope.one_upstream = refl
scope_of_text TimingScope.proxy_connect = refl
scope_of_text TimingScope.resource_backpressure = refl
scope_of_text TimingScope.client_creation = refl
scope_of_text TimingScope.request_builder = refl
scope_of_text TimingScope.streaming = refl
scope_of_text TimingScope.lifecycle = refl
scope_of_text TimingScope.async_bytes = refl
scope_of_text TimingScope.legacy_requests = refl
scope_of_text TimingScope.legacy_one_upstream = refl
scope_of_text TimingScope.legacy_proxy_connect = refl
scope_of_text TimingScope.legacy_resource_backpressure = refl
scope_of_text TimingScope.legacy_streaming = refl

pub scope_eq_iff : (a b : TimingScope) → (scope_eq a b ≡ true) ↔ (a ≡ b)
scope_eq_iff a b = (
  λ h. cc (scope_of_text a, scope_of_text b, (eq_iff (scope_text a) (scope_text b)).0 h),
  λ h. rw h ((eq_iff (scope_text b) (scope_text b)).1 refl),
)

-- The timing of two reports is accepted exactly if both have a scope and it is the same one.
pub validate_timing_compatibility_iff :
    (suite : String) (old_metadata : JsonObject) (old_rows : List JsonObject)
    (new_metadata : JsonObject) (new_rows : List JsonObject)
    (old_runs new_runs : Option (List JsonObject))
    → (validate_timing_compatibility suite old_metadata old_rows new_metadata new_rows old_runs
          new_runs
        ≡ ok tt)
      ↔ ((scope : TimingScope) × (report_timing_scope suite old_metadata old_rows old_runs
            ≡ ok scope)
          × (report_timing_scope suite new_metadata new_rows new_runs ≡ ok scope))
unfolding validate_timing_compatibility
validate_timing_compatibility_iff suite old_metadata old_rows new_metadata new_rows old_runs
      new_runs =
    (
      λ h.
          let (old_scope, old, h) =
            >>=-eq-ok (report_timing_scope suite old_metadata old_rows old_runs) _ h in
          let (new_scope, new, h) =
            >>=-eq-ok (report_timing_scope suite new_metadata new_rows new_runs) _ h in
          (old_scope, old, agreed old_scope new_scope h new),
      λ (scope, old, new). rw (old, new) (accepted scope),
    )
  where
    agreed :
        (a b : TimingScope)
        → raise_if (not (scope_eq a b)) value_error ≡ ok tt
        → report_timing_scope suite new_metadata new_rows new_runs ≡ ok b
        → report_timing_scope suite new_metadata new_rows new_runs ≡ ok a
    agreed a b h new =
        rw ((scope_eq_iff a b).0 (ground (arith, raise_if-eq-ok (not (scope_eq a b)) _ h))) new

    accepted : (a : TimingScope) → raise_if (not (scope_eq a a)) value_error ≡ ok tt
    accepted a = rw ((scope_eq_iff a a).1 refl) refl

-- What the scope of a report says: it is the declared one, the suite's code measures it or once
-- did, and rows that declare a scope all declare this one.
pub record IsScope (suite : String) (metadata : JsonObject) (rows : List JsonObject)
    (scope : TimingScope) : Type 0 where
  pub current : TimingScope
  pub measures : current_timing_scope suite (report_profile suite metadata rows) ≡ ok current
  pub declared :
      scope_of (declared_scope suite (report_profile suite metadata rows) metadata rows)
      ≡ some scope
  pub supported : is_supported suite (report_profile suite metadata rows) current scope ≡ true
  pub rows_agree :
      (any (λ row. has row "timing_scope") rows ≡ false)
      ⊎ All (λ row. is_text (get row "timing_scope") (scope_text scope) ≡ true) rows
