-- ===== src/Validity/Classification.antt =====
-- The classification of a report: validity/classification.py.
pub mod Comparable
pub mod Recorded
use fog_http_benchmark.Prelude.{
  Bool, true, false, String, Option, none, some, List, [], ◌∷◌, ◌++◌, Result, ok, err, type_error,
  value_error, if◌then◌else◌, ◌>>=◌, traverse,
}
use fog_http_benchmark.Json.{Json, null, arr, obj, Items, nil, cons, JsonObject, get, find?}
use fog_http_benchmark.Runtime.{Runtime}
use fog_http_benchmark.Validity.Summary.{
  ValidityReason, ValiditySummary, combine_validity_summaries, summary_of_reasons,
}
use fog_http_benchmark.Validity.Serialization.{validity_summary_from_payload}
use fog_http_benchmark.Validity.Profiles.{streaming_profile_reasons}
use fog_http_benchmark.Validity.Resource.{resource_recovery_reasons}
use fog_http_benchmark.Validity.Proxy.{proxy_specific_reasons}
use fog_http_benchmark.Validity.Generic.{
  error_reasons, zero_primary_metric_reasons, variation_reasons,
}
use fog_http_benchmark.Validity.Children.{child_process_reasons}
use fog_http_benchmark.Validity.Lifecycle.{lifecycle_report_reasons}
use fog_http_benchmark.Validity.Attribution.{attribution_report_reasons}

module _ ⦃r : Runtime⦄ where
  unfoldable pub row_reasons : String → JsonObject → Result (List ValidityReason)
  row_reasons suite row = do
    proxy ← proxy_specific_reasons suite row
    errors ← error_reasons suite row
    zero ← zero_primary_metric_reasons suite row
    variation ← variation_reasons row
    recovery ← resource_recovery_reasons suite row
    ok (proxy ++ errors ++ zero ++ variation ++ recovery)

  unfoldable pub rows_reasons : String → List JsonObject → Result (List ValidityReason)
  rows_reasons suite [] = ok []
  rows_reasons suite (row ∷ rows) = do
    these ← row_reasons suite row
    others ← rows_reasons suite rows
    ok (these ++ others)

  unfoldable pub report_reasons :
      String → JsonObject → List JsonObject → Result (List ValidityReason)
  report_reasons suite metadata rows = do
    children ← child_process_reasons metadata
    let profiles = streaming_profile_reasons suite metadata rows
    attribution ← attribution_report_reasons metadata rows
    lifecycle ← lifecycle_report_reasons metadata rows
    measured ← rows_reasons suite rows
    ok (children ++ profiles ++ attribution ++ lifecycle ++ measured)

  unfoldable pub classify_report_validity :
      String → List JsonObject → JsonObject → Result ValiditySummary
  classify_report_validity suite rows metadata = do
    reasons ← report_reasons suite metadata rows
    ok (summary_of_reasons reasons)

  -- `raise ValueError(msg) from exc`, for a type error as for a value error
  as_value_error : Result ValiditySummary → Result ValiditySummary
  as_value_error (err type_error) = err value_error
  as_value_error result = result

  -- The validity that the report's metadata, or a child process of it, recorded.
  recorded_validity : Bool → Json → Result ValiditySummary
  unfolding as_value_error
  recorded_validity is_metadata (obj payload) =
      let read = validity_summary_from_payload payload in
      if is_metadata then read else as_value_error read
  recorded_validity is_metadata _ = err type_error

  recorded_in : Bool → List JsonObject → Result (List ValiditySummary)
  unfolding recorded_validity
  recorded_in is_metadata [] = ok []
  recorded_in is_metadata (holder ∷ rest) =
      let others = recorded_in is_metadata rest in
      elim (find? holder "validity") [
        | none ↦ others
        | some value ↦ recorded_validity is_metadata value >>= λ summary.
            others >>= λ found. ok (summary ∷ found)
      ]

  child_objects : Items → List JsonObject
  child_objects nil = []
  child_objects (cons (obj child) rest) = child ∷ child_objects rest
  child_objects (cons v rest) = child_objects rest

  child_list : Json → List JsonObject
  unfolding child_objects
  child_list (arr children) = child_objects children
  child_list _ = []

  children_records : JsonObject → List JsonObject
  unfolding child_list
  children_records metadata = elim (get metadata "isolation") [
    | obj isolation ↦ child_list (get isolation "children")
    | _ ↦ []
  ]

  -- the recorded summaries of a report and of its children, in order
  unfoldable pub recorded_summaries : JsonObject → Result (List ValiditySummary)
  unfolding recorded_in children_records
  recorded_summaries metadata = do
    own ← recorded_in true (metadata ∷ [])
    children ← recorded_in false (children_records metadata)
    ok (own ++ children)

  combined_with : ValiditySummary → List ValiditySummary → ValiditySummary
  combined_with current [] = current
  combined_with current (s ∷ rest) = combine_validity_summaries (current ∷ s ∷ rest)

  unfoldable pub validity_summary_from_metadata :
      JsonObject → String → List JsonObject → Result ValiditySummary
  unfolding recorded_summaries combined_with
  validity_summary_from_metadata metadata suite rows = do
    current ← classify_report_validity suite rows metadata
    recorded ← recorded_summaries metadata
    ok (combined_with current recorded)
