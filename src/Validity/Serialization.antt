-- ===== src/Validity/Serialization.antt =====
-- Summaries as JSON, and back: validity/serialization.py.
pub mod Consistent
pub mod RoundTrip
use fog_http_benchmark.Prelude.{
  ℕ, zero, suc, ◌+◌, Bool, true, false, not, ◌&&◌, ◌||◌, String, Option, none, some, List, [], ◌∷◌,
  map, length, ltb, ◌==◌, nat_eq, string_eq, if◌then◌else◌, Result, ok, err, type_error,
  value_error, ◌>>=◌, ◌>>◌, raise_if, all,
}
use fog_http_benchmark.Prelude.Int.{ℤ, pos, negsuc, ℤ_eq}
use fog_http_benchmark.Json.{
  Json, null, bool, int, str, arr, obj, Items, nil, cons, JsonObject, empty, entry, find?, get, has,
}
use fog_http_benchmark.Validity.Summary.{
  ValidityStatus, valid, warning, needs_rerun, invalid, severity, ValidityReason, StatusCounts,
  ValiditySummary, combined_status, is_comparable, is_valid_status, reasons_allow_comparison,
  count_reasons,
}

unfoldable pub status_text : ValidityStatus → String
status_text valid = "valid"
status_text warning = "warning"
status_text needs_rerun = "needs-rerun"
status_text invalid = "invalid"

status_of_text : String → Result ValidityStatus
status_of_text s =
    if s == "valid"
    then ok valid
    else if s == "warning"
    then ok warning
    else if s == "needs-rerun"
    then ok needs_rerun
    else if s == "invalid"
    then ok invalid
    else err value_error

unfoldable pub status_value : Json → Result ValidityStatus
unfolding status_of_text
status_value (str s) = status_of_text s
status_value _ = err value_error

unfoldable pub reason_payload : ValidityReason → Json
unfolding status_text
reason_payload reason = obj (
    entry "status" (str (status_text reason.status)) (
      entry "code" (str reason.code) (
        entry "message" (str reason.message)
          (entry "row_label" (str reason.row_label) (entry "row" (obj reason.row) empty)))))

reason_items : List ValidityReason → Items
reason_items [] = nil
reason_items (reason ∷ reasons) = cons (reason_payload reason) (reason_items reasons)

count_payload : StatusCounts → JsonObject
count_payload [] = empty
count_payload ((status, n) ∷ counts) =
    entry (status_text status) (int (pos n)) (count_payload counts)

unfoldable pub validity_payload : ValiditySummary → JsonObject
unfolding status_text reason_items count_payload
validity_payload summary = entry "status" (str (status_text summary.status)) (
    entry "is_valid" (bool summary.is_valid) (
      entry "can_compare" (bool summary.can_compare) (
        entry "reason_count" (int (pos summary.reason_count)) (
          entry "reason_counts" (obj (count_payload summary.reason_counts))
            (entry "reasons" (arr (reason_items summary.reasons)) empty)))))

-- A field that must be a text; a missing one has the default, if there is one.
string_field : JsonObject → String → Option String → Result String
string_field payload key default = elim (find? payload key) [
  | some (str s) ↦ ok s
  | some _ ↦ err type_error
  | none ↦ elim default [ some s ↦ ok s | none ↦ err type_error ]
]

bool_field : JsonObject → String → Bool → Result Bool
bool_field payload key default = elim (find? payload key) [
  | none ↦ ok default
  | some (bool b) ↦ ok b
  | some _ ↦ err type_error
]

row_field : JsonObject → Result JsonObject
row_field payload = elim (find? payload "row") [
  | none ↦ ok empty
  | some (obj row) ↦ ok row
  | some _ ↦ err value_error
]

reason_of_object : JsonObject → Result ValidityReason
reason_of_object payload = do
  status ← status_value (get payload "status")
  code ← string_field payload "code" none
  raise_if (code == "") value_error
  row ← row_field payload
  message ← string_field payload "message" (some "")
  label ← string_field payload "row_label" (some "-")
  ok (record { status = status; code = code; message = message; row_label = label; row = row })

unfoldable pub reason_from_payload : Json → Result ValidityReason
unfolding reason_of_object string_field row_field status_value
reason_from_payload (obj payload) = reason_of_object payload
reason_from_payload _ = err type_error

unfoldable pub reasons_from_items : Items → Result (List ValidityReason)
reasons_from_items nil = ok []
reasons_from_items (cons v vs) = do
  reason ← reason_from_payload v
  reasons ← reasons_from_items vs
  ok (reason ∷ reasons)

reasons_from_payload : Json → Result (List ValidityReason)
unfolding reasons_from_items
reasons_from_payload (arr vs) = reasons_from_items vs
reasons_from_payload _ = err type_error

count_value : Json → Result ℕ
count_value (int (pos n)) = ok n
count_value _ = err value_error

-- `{status: count for status, count in counts.items() if count}`, after the check of each entry
nonzero_counts : JsonObject → Result StatusCounts
unfolding count_value
nonzero_counts empty = ok []
nonzero_counts (entry key value rest) = do
  status ← status_value (str key)
  n ← count_value value
  counts ← nonzero_counts rest
  ok (if n == 0 then counts else (status, n) ∷ counts)

count_in : ValidityStatus → StatusCounts → ℕ
count_in s [] = 0
count_in s ((t, n) ∷ counts) = if severity s == severity t then n else count_in s counts

-- Two dicts of nonzero counts are equal if they give each status the same count.
counts_eq : StatusCounts → StatusCounts → Bool
unfolding count_in
counts_eq a b =
    all (λ s. count_in s a == count_in s b) (valid ∷ warning ∷ needs_rerun ∷ invalid ∷ [])

is_count : ℕ → Json → Bool
is_count n (int m) = m == pos n
is_count n _ = false

validate_counts_of : Json → StatusCounts → Result (Unit {0})
unfolding nonzero_counts counts_eq
validate_counts_of (obj counts) expected = do
  given ← nonzero_counts counts
  raise_if (not (counts_eq given expected)) value_error
validate_counts_of _ expected = err type_error

unfoldable pub validate_reason_counts :
    JsonObject → List ValidityReason → StatusCounts → Result (Unit {0})
unfolding is_count validate_counts_of
validate_reason_counts payload reasons expected = do
  elim (find? payload "reason_count") [
    | none ↦ ok tt
    | some n ↦ raise_if (not (is_count (length reasons) n)) value_error
  ]
  elim (find? payload "reason_counts") [
    | none ↦ ok tt
    | some counts ↦ validate_counts_of counts expected
  ]

unfoldable pub validity_summary_from_payload : JsonObject → Result ValiditySummary
unfolding reasons_from_payload bool_field
validity_summary_from_payload payload = do
  declared ← status_value (get payload "status")
  reasons ← reasons_from_payload (get payload "reasons")
  let status = combined_status (declared ∷ map (λ r. r.status) reasons)
  validate_reason_counts payload reasons (count_reasons reasons)
  let comparable = is_comparable status && reasons_allow_comparison reasons
  is_valid ← bool_field payload "is_valid" (is_valid_status status)
  can_compare ← bool_field payload "can_compare" comparable
  ok (record {
    status = status;
    is_valid = is_valid && is_valid_status status;
    can_compare = can_compare && comparable;
    reason_count = length reasons;
    reason_counts = count_reasons reasons;
    reasons = reasons;
  })
