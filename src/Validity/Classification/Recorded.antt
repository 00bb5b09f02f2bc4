-- ===== src/Validity/Classification/Recorded.antt =====
-- Theorems about the recorded validity that validity/classification.py adds.
use fog_http_benchmark.Prelude.{◌≡◌, true, String, List, [], ◌∷◌, All, ok, >>=-eq-ok, ok-injective}
use fog_http_benchmark.Json.{JsonObject}
use fog_http_benchmark.Runtime.{Runtime}
use fog_http_benchmark.Validity.Summary.{ValiditySummary}
use fog_http_benchmark.Validity.Summary.Combine.{Retains, combine-Retains}
use fog_http_benchmark.Validity.Classification.{
  classify_report_validity, validity_summary_from_metadata, recorded_summaries, combined_with,
}
use fog_http_benchmark.Validity.Classification.Comparable.{
  IsComparableRow, classify_report_validity-IsComparableRow,
}

module _ ⦃r : Runtime⦄ where
  combined_with-can_compare :
      (current : ValiditySummary) (recorded : List ValiditySummary)
      → (combined_with current recorded).can_compare ≡ true
      → (current.can_compare ≡ true) × All (λ (s : ValiditySummary). s.can_compare ≡ true) recorded
  unfolding combined_with
  combined_with-can_compare current [] h = (h, tt)
  combined_with-can_compare current (s ∷ rest) h =
      comparable (current ∷ s ∷ rest) (combine-Retains (current ∷ s ∷ rest))
    where
      comparable :
          (items : List ValiditySummary)
          → All (Retains (combined_with current (s ∷ rest))) items
          → All (λ (s : ValiditySummary). s.can_compare ≡ true) items
      comparable [] kept = tt
      comparable (x ∷ xs) kept = ((kept.0).can_compare h, comparable xs kept.1)

  -- The summary of a report with its recorded validity is comparable only if the classification of
  -- its rows finds each of them comparable and every validity that the report or a child process
  -- recorded was comparable.
  pub validity_summary_from_metadata-comparable :
      (metadata : JsonObject) (suite : String) (rows : List JsonObject) (summary : ValiditySummary)
      → validity_summary_from_metadata metadata suite rows ≡ ok summary
      → summary.can_compare ≡ true
      → All (IsComparableRow suite) rows
        × ((recorded : List ValiditySummary) × (recorded_summaries metadata ≡ ok recorded)
            × All (λ (s : ValiditySummary). s.can_compare ≡ true) recorded)
  unfolding validity_summary_from_metadata
  validity_summary_from_metadata-comparable metadata suite rows summary h comparable =
      let (current, classified, h) = >>=-eq-ok (classify_report_validity suite rows metadata) _ h in
      let (recorded, read, h) = >>=-eq-ok (recorded_summaries metadata) _ h in
      let same = ok-injective h in
      let allowed = rw (← same) at comparable in
      let (now, before) = combined_with-can_compare current recorded allowed in
      (
        classify_report_validity-IsComparableRow suite rows metadata current classified now,
        (recorded, read, before),
      )
