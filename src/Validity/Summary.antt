-- ===== src/Validity/Summary.antt =====
-- Statuses, reasons and summaries: validity/models.py, the combining functions of
-- validity/helpers.py, and `combine_validity_summaries` of validity/classification.py.
pub mod Status
pub mod Combine
use fog_http_benchmark.Prelude.{
  ℕ, ◌+◌, Bool, true, false, not, ◌&&◌, ◌||◌, String, Option, none, some, List, [], ◌∷◌, ◌++◌, map,
  All, length, all, any, ltb, ◌==◌, nat_eq, string_eq, if◌then◌else◌, Eq, ◌≡◌, ◌↔◌, arith,
}
use fog_http_benchmark.Json.{JsonObject, json_eq, obj}

pub data ValidityStatus : Type 0 where
  valid warning needs_rerun invalid : ValidityStatus

-- `STATUS_SEVERITY`
abbrev pub severity : ValidityStatus → ℕ
severity valid = 0
severity warning = 1
severity needs_rerun = 2
severity invalid = 3

unfoldable pub status_beq : ValidityStatus → ValidityStatus → Bool
status_beq a b = severity a == severity b

pub record ValidityReason : Type 0 where
  pub status : ValidityStatus
  pub code : String
  pub message : String
  pub row_label : String
  pub row : JsonObject

abbrev pub StatusCounts : Type 0
StatusCounts = List (ValidityStatus × ℕ)

pub record ValiditySummary : Type 0 where
  pub status : ValidityStatus
  pub is_valid : Bool
  pub can_compare : Bool
  pub reason_count : ℕ
  pub reason_counts : StatusCounts
  pub reasons : List ValidityReason

unfoldable pub worse : ValidityStatus → ValidityStatus → ValidityStatus
worse status item = if ltb (severity status) (severity item) then item else status

-- the loop over the statuses
unfoldable pub worst_from : ValidityStatus → List ValidityStatus → ValidityStatus
worst_from status [] = status
worst_from status (item ∷ items) = worst_from (worse status item) items

unfoldable pub combined_status : List ValidityStatus → ValidityStatus
unfolding worst_from worse
combined_status = worst_from valid

-- `status in ("valid", "warning")`
abbrev pub is_comparable : ValidityStatus → Bool
is_comparable valid = true
is_comparable warning = true
is_comparable _ = false

abbrev pub is_valid_status : ValidityStatus → Bool
is_valid_status valid = true
is_valid_status _ = false

unfoldable pub allows_comparison : ValidityReason → Bool
allows_comparison reason =
    is_comparable reason.status && not (reason.code == "expected_compatibility_failure")

unfoldable pub reasons_allow_comparison : List ValidityReason → Bool
unfolding allows_comparison
reasons_allow_comparison = all allows_comparison

-- `counts[status] = counts.get(status, 0) + 1`
unfoldable pub count_one : ValidityStatus → StatusCounts → StatusCounts
unfolding status_beq
count_one s [] = (s, 1) ∷ []
count_one s ((t, n) ∷ counts) =
    if status_beq s t then (t, n + 1) ∷ counts else (t, n) ∷ count_one s counts

unfoldable pub count_from : StatusCounts → List ValidityReason → StatusCounts
unfolding count_one
count_from counts [] = counts
count_from counts (reason ∷ reasons) = count_from (count_one reason.status counts) reasons

unfoldable pub count_reasons : List ValidityReason → StatusCounts
unfolding count_from
count_reasons = count_from []

unfoldable pub reason_eq : ValidityReason → ValidityReason → Bool
unfolding status_beq
reason_eq a b =
    status_beq a.status b.status
    && a.code == b.code
    && a.message == b.message
    && a.row_label == b.row_label
    && json_eq (obj a.row) (obj b.row)

-- `reason in reasons`
unfoldable pub has_reason : ValidityReason → List ValidityReason → Bool
unfolding reason_eq
has_reason reason = any (λ r. reason_eq r reason)

-- `reasons.extend(reason for reason in new if reason not in reasons)`: the generator reads the
-- list as it grows.
unfoldable pub extend_new : List ValidityReason → List ValidityReason → List ValidityReason
extend_new reasons [] = reasons
extend_new reasons (reason ∷ new) =
    extend_new (if has_reason reason reasons then reasons else reasons ++ reason ∷ []) new

unfoldable pub merged_reasons : List ValidityReason → List ValiditySummary → List ValidityReason
unfolding extend_new
merged_reasons reasons [] = reasons
merged_reasons reasons (summary ∷ rest) = merged_reasons (extend_new reasons summary.reasons) rest

unfoldable pub combine_validity_summaries : List ValiditySummary → ValiditySummary
unfolding merged_reasons
combine_validity_summaries items =
    let reasons = merged_reasons [] items in
    let status = combined_status (map (λ s. s.status) items ++ map (λ r. r.status) reasons) in
    record {
      status = status;
      is_valid = is_valid_status status && all (λ s. s.is_valid) items;
      can_compare =
          is_comparable status
          && all (λ s. s.can_compare) items
          && reasons_allow_comparison reasons;
      reason_count = length reasons;
      reason_counts = count_reasons reasons;
      reasons = reasons;
    }

-- The summary of reasons that were found just now: the end of `classify_report_validity`.
unfoldable pub summary_of_reasons : List ValidityReason → ValiditySummary
summary_of_reasons reasons =
    let status = combined_status (map (λ r. r.status) reasons) in
    record {
      status = status;
      is_valid = is_valid_status status;
      can_compare = reasons_allow_comparison reasons;
      reason_count = length reasons;
      reason_counts = count_reasons reasons;
      reasons = reasons;
    }

-- No reason of a list blocks a comparison.
abbrev pub Allow : List ValidityReason → Type 0
Allow = All (λ r. allows_comparison r ≡ true)
