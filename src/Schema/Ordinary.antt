-- ===== src/Schema/Ordinary.antt =====
-- The rows of ordinary reports: report_schema/ordinary.py.
pub mod Accounting
pub mod Rows
use fog_http_benchmark.Prelude.{
  ℕ, zero, suc, ◌+◌, ◌*◌, Bool, true, false, not, ◌&&◌, ◌||◌, String, Option, none, some, List, [],
  ◌∷◌, ◌++◌, ltb, ◌==◌, nat_eq, string_eq, contains, lookup, if◌then◌else◌, Error, Result, ok, err,
  type_error, value_error, key_error, ◌>>=◌, ◌>>◌, raise_if, for_each,
}
use fog_http_benchmark.Json.{
  Json, null, int, str, obj, JsonObject, empty, entry, find?, get, has, float_lt, whole, Float,
}
use fog_http_benchmark.Runtime.{is_text}
use fog_http_benchmark.Schema.Fields.{
  require_object, require_rows, require_string, require_integer, require_number,
}
use fog_http_benchmark.Schema.Tables.{
  row_fields, aggregate_primary_fields, run_primary_fields, success_counts, operation_suites,
  identity_choices, numeric_fields, nullable_numeric_fields, count_fields, nullable_count_fields,
  signed_numeric_fields, signed_count_fields, max_error_rate_percent,
}
use fog_http_benchmark.Schema.Fields.{is_null, nonnegative, or_key_error}
use fog_http_benchmark.Schema.Optional.{validate_optional_fields}

validate_choice : JsonObject → String → Result (Unit {0})
validate_choice row field = do
  value ← require_string (get row field)
  elim (lookup field identity_choices) [
    | none ↦ ok tt
    | some choices ↦ raise_if (not (contains value choices)) value_error
  ]

validate_nullable_count : JsonObject → String → Result (Unit {0})
validate_nullable_count row field = do
  raise_if (not (has row field)) value_error
  if is_null (get row field) then ok tt else require_integer (get row field) 0 >> ok tt

unfoldable pub validate_identity : String → JsonObject → Result (Unit {0})
unfolding validate_choice validate_nullable_count or_key_error
validate_identity suite row = do
  fields ← or_key_error (lookup suite row_fields)
  for_each (validate_choice row) ("mode" ∷ "client" ∷ fields)
  if contains suite operation_suites
      then (do
        require_integer (get row "iterations") 1
        if suite == "client-creation"
            then require_integer (get row "client_count") 1 >> ok tt
            else ok tt)
      else (do
        require_integer (get row "concurrency") 1
        require_integer (get row "request_limit") 0
        ok tt)
  if suite == "resource-backpressure"
      then (do
        require_integer (get row "max_pending_requests") 0
        for_each (validate_nullable_count row)
            ("per_origin_request_limit" ∷ "max_buffered_response_bytes" ∷ []))
      else ok tt

-- A failed response check, resource snapshot and close can each record an event.
pub creation_error_limit : JsonObject → ℕ → Json → Result ℕ
creation_error_limit row iterations scenario =
    if is_text scenario "create-first-request"
    then ok (iterations * 3)
    else if is_text scenario "reused-request"
    then ok (iterations + 2)
    else if is_text scenario "many-clients-open-close"
    then (do
      clients ← require_integer (get row "client_count") 1
      raise_if (not (iterations == clients)) value_error
      ok (clients + 1))
    else ok iterations

unfoldable pub operation_error_limit : String → JsonObject → Result ℕ
unfolding or_key_error creation_error_limit
operation_error_limit suite row = do
  iterations ← require_integer (get row "iterations") 1
  if suite == "client-creation"
      then or_key_error (find? row "scenario") >>= creation_error_limit row iterations
      else ok iterations

unfoldable pub validate_error_bound : ℕ → ℕ → Result (Unit {0})
validate_error_bound errors limit = raise_if (ltb limit errors) value_error

unfoldable pub count_errors : JsonObject → Result ℕ
count_errors empty = ok 0
count_errors (entry name value rest) = do
  require_string (str name)
  this ← require_integer value 0
  others ← count_errors rest
  ok (this + others)

unfoldable pub validate_error_map : JsonObject → String → String → Result (Unit {0})
unfolding count_errors
validate_error_map row field total_field =
    if has row field
    then (do
      errors ← require_object (get row field)
      total ← require_integer (get row total_field) 0
      count ← count_errors errors
      raise_if (not (count == total)) value_error)
    else ok tt

-- The primary measurement is a count in one suite, and a finite number in the others.
validate_primary : String → JsonObject → String → Result (Unit {0})
validate_primary suite row primary =
    if suite == "resource-backpressure"
    then require_integer (get row primary) 0 >> ok tt
    else require_number (get row primary) nonnegative >> ok tt

validate_successes : JsonObject → ℕ → ℕ → Option String → Result (Unit {0})
validate_successes row errors total none = ok tt
validate_successes row errors total (some field) = do
  successes ← require_integer (get row field) 0
  raise_if (not (successes + errors == total)) value_error

validate_outcomes : String → JsonObject → ℕ → ℕ → Result (Unit {0})
unfolding operation_error_limit validate_error_bound validate_successes
validate_outcomes suite row repeats errors =
    if contains suite operation_suites
    then (do limit ← operation_error_limit suite row; validate_error_bound errors (limit * repeats))
    else (do
      requests ← require_integer (get row "requests") 1
      require_integer (get row "warmup_errors_total") 0
      validate_error_bound errors (requests * repeats)
      validate_successes row errors (requests * repeats) (lookup suite success_counts))

unfoldable pub validate_aggregate : String → JsonObject → Result (Unit {0})
unfolding validate_primary validate_outcomes or_key_error validate_error_map
validate_aggregate suite row = do
  repeats ← require_integer (get row "repeats") 1
  errors ← require_integer (get row "errors_total") 0
  primary ← or_key_error (lookup suite aggregate_primary_fields)
  validate_primary suite row primary
  validate_outcomes suite row repeats errors
  validate_error_map row "error_types" "errors_total"
  validate_error_map row "warmup_error_types" "warmup_errors_total"

abbrev pub success_field : String → String
success_field suite = if suite == "response-streaming" then "ok_streams" else "ok_requests"

run_limit : String → JsonObject → ℕ → Result ℕ
unfolding operation_error_limit
run_limit suite row errors =
    if contains suite operation_suites then operation_error_limit suite row else (do
      limit ← require_integer (get row "requests") 1
      require_integer (get row "warmup_errors") 0
      successes ← require_integer (get row (success_field suite)) 0
      raise_if (not (successes + errors == limit)) value_error
      ok limit)

unfoldable pub validate_run : String → JsonObject → Result (Unit {0})
unfolding validate_primary run_limit or_key_error validate_error_map validate_error_bound
validate_run suite row = do
  require_integer (get row "repeat") 0
  require_number (get row "duration_s") nonnegative
  errors ← require_integer (get row "errors") 0
  primary ← or_key_error (lookup suite run_primary_fields)
  validate_primary suite row primary
  limit ← run_limit suite row errors
  validate_error_bound errors limit
  validate_error_map row "error_types" "errors"
  validate_error_map row "warmup_error_types" "warmup_errors"

validate_aggregate_row : String → JsonObject → Result (Unit {0})
validate_aggregate_row suite row = do
  validate_identity suite row
  validate_aggregate suite row
  validate_optional_fields row

validate_run_row : String → JsonObject → Result (Unit {0})
validate_run_row suite row = do
  validate_identity suite row
  validate_run suite row
  validate_optional_fields row

unfoldable pub validate_ordinary_rows :
    String → List JsonObject → List JsonObject → Result (Unit {0})
unfolding validate_aggregate_row validate_run_row or_key_error
validate_ordinary_rows suite aggregates runs = do
  elim (lookup suite row_fields) [ none ↦ err value_error | some _ ↦ ok tt ]
  for_each (validate_aggregate_row suite) aggregates
  for_each (validate_run_row suite) runs
