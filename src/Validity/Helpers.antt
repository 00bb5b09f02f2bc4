-- ===== src/Validity/Helpers.antt =====
-- The tolerant reads of validity/helpers.py, and the references of reasons to rows.
use fog_http_benchmark.Prelude.{
  Bool, true, false, String, Option, none, some, List, [], ◌∷◌, nat_eq, string_eq, if◌then◌else◌,
  Result, ok, ◌>>=◌, not,
}
use fog_http_benchmark.Prelude.Int.{ℤ, pos}
use fog_http_benchmark.Prelude.Text.{parse_int, concat}
use fog_http_benchmark.Json.{
  Json, null, bool, int, float, str, obj, JsonObject, empty, entry, find?, get, get_or, has, Float,
  truncate, float_of_int, whole,
}
use fog_http_benchmark.Runtime.{Runtime, py_str, is_text}
use fog_http_benchmark.Validity.Summary.{ValidityStatus, ValidityReason}

abbrev pub row_reference_fields : List String
row_reference_fields =
    "mode" ∷ "client" ∷ "scenario" ∷ "case" ∷ "group" ∷ "target_scheme" ∷ "config" ∷ "lifecycle"
    ∷ "kind" ∷ "profile" ∷ "read" ∷ "consume" ∷ "concurrency" ∷ "request_limit" ∷ "client_count"
    ∷ "iterations" ∷ []

abbrev pub primary_metric_fields : List String
primary_metric_fields =
    "ok_req_s_median" ∷ "ok_streams_s_median" ∷ "ops_s_median" ∷ "ok_requests_total" ∷ []

abbrev pub cv_fields : List String
cv_fields =
    "req_s_cv_percent" ∷ "streams_s_cv_percent" ∷ "ops_s_cv_percent" ∷ "duration_s_cv_percent" ∷ []

restrict : JsonObject → List String → JsonObject
restrict row [] = empty
restrict row (field ∷ fields) = elim (find? row field) [
  | none ↦ restrict row fields
  | some v ↦ entry field v (restrict row fields)
]

unfoldable pub row_reference : JsonObject → JsonObject
unfolding restrict
row_reference row = restrict row row_reference_fields

-- `int(value)` of a float raises for an infinity and for NaN.
unfoldable pub int_value : Json → ℤ → Result ℤ
int_value (bool true) default = ok (pos 1)
int_value (bool false) default = ok (pos 0)
int_value (int n) default = ok n
int_value (float x) default = truncate x
int_value (str s) default = elim (parse_int s) [ none ↦ ok default | some n ↦ ok n ]
int_value _ default = ok default

unfoldable pub int_field : JsonObject → String → Result ℤ
unfolding int_value
int_field row key = int_value (get_or row key (int (pos 0))) (pos 0)

unfoldable pub count_entries : JsonObject → Result (List (String × ℤ))
unfolding int_value
count_entries empty = ok []
count_entries (entry name count rest) = do
  this ← int_value count (pos 0)
  others ← count_entries rest
  ok ((name, this) ∷ others)

unfoldable pub dict_field : JsonObject → String → Result (List (String × ℤ))
unfolding count_entries
dict_field row key = elim (get row key) [ obj counts ↦ count_entries counts | _ ↦ ok [] ]

-- The value of a field as a float, which an int beyond the largest float has none of.
unfoldable pub optional_float_field : ⦃r : Runtime⦄ → JsonObject → String → Result (Option Float)
optional_float_field ⦃r⦄ row key = elim (get row key) [
  | bool true ↦ ok (some (whole 1))
  | bool false ↦ ok (some (whole 0))
  | int n ↦ float_of_int n >>= λ x. ok (some x)
  | float x ↦ ok (some x)
  | str s ↦ ok (r.float_of s)
  | _ ↦ ok none
]

first_value : ⦃r : Runtime⦄ → JsonObject → List String → Result (Option Float)
first_value row [] = ok none
first_value row (field ∷ fields) =
    let rest = first_value row fields in
    optional_float_field row field >>= λ value. elim value [ none ↦ rest | some x ↦ ok (some x) ]

unfoldable pub first_primary_value : ⦃r : Runtime⦄ → JsonObject → Result (Option Float)
unfolding first_value
first_primary_value row = first_value row primary_metric_fields

abbrev is_missing : Json → Bool
is_missing null = true
is_missing _ = false

unfoldable pub ok_total_value : JsonObject → Result (Option ℤ)
ok_total_value row =
    if not (is_missing (get row "ok_requests_total"))
    then (int_field row "ok_requests_total" >>= λ n. ok (some n))
    else if not (is_missing (get row "ok_streams_total"))
    then (int_field row "ok_streams_total" >>= λ n. ok (some n))
    else ok none

module _ ⦃r : Runtime⦄ where
  unfoldable pub str_field : JsonObject → String → String → String
  str_field row key default = py_str (get_or row key (str default))

  label_parts : JsonObject → List String → List String
  label_parts row [] = []
  label_parts row (field ∷ fields) = elim (find? row field) [
    | none ↦ label_parts row fields
    | some v ↦ if is_text v "" then label_parts row fields else py_str v ∷ label_parts row fields
  ]

  child_parts : JsonObject → List String → List String
  child_parts row [] =
      if has row "sequence"
      then concat ("child=" ∷ py_str (get row "sequence") ∷ [])
        ∷ py_str (get_or row "client" (str ""))
        ∷ py_str (get_or row "scenario" (str ""))
        ∷ []
      else []
  child_parts row parts = parts

  join_parts : String → List String → String
  join_parts first [] = first
  join_parts first (part ∷ parts) = concat (first ∷ " / " ∷ join_parts part parts ∷ [])

  label_text : List String → String
  label_text [] = "-"
  label_text (part ∷ parts) = join_parts part parts

  unfoldable pub row_label : JsonObject → String
  unfolding label_parts child_parts join_parts label_text
  row_label row = label_text (child_parts row (label_parts row row_reference_fields))

  unfoldable pub validity_reason : ValidityStatus → String → String → JsonObject → ValidityReason
  validity_reason status code message row = record {
    status = status;
    code = code;
    message = message;
    row_label = row_label row;
    row = row;
  }
