-- ===== src/Schema/Optional.antt =====
-- The checks of the optional fields of ordinary rows, of report_schema/ordinary.py.
use fog_http_benchmark.Prelude.{
  Bool, true, false, not, String, none, some, [], ◌∷◌, nat_eq, string_eq, if◌then◌else◌, Result, ok,
  value_error, ◌>>=◌, ◌>>◌, raise_if, for_each,
}
use fog_http_benchmark.Json.{Json, int, JsonObject, empty, entry, find?, float_lt, whole}
use fog_http_benchmark.Schema.Fields.{require_object, require_integer, require_number}
use fog_http_benchmark.Schema.Tables.{
  numeric_fields, nullable_numeric_fields, count_fields, nullable_count_fields,
  signed_numeric_fields, signed_count_fields, max_error_rate_percent,
}
use fog_http_benchmark.Schema.Fields.{is_null, nonnegative}

if_present : JsonObject → String → (Json → Result (Unit {0})) → Result (Unit {0})
if_present row field check = elim (find? row field) [ none ↦ ok tt | some v ↦ check v ]

if_measured : JsonObject → String → (Json → Result (Unit {0})) → Result (Unit {0})
unfolding if_present
if_measured row field check = if_present row field (λ v. if is_null v then ok tt else check v)

unfoldable pub validate_optional_numbers : JsonObject → Result (Unit {0})
unfolding if_present if_measured
validate_optional_numbers row = do
  for_each (λ f. if_present row f (λ v. require_number v nonnegative >> ok tt)) numeric_fields
  for_each (λ f. if_measured row f (λ v. require_number v nonnegative >> ok tt))
      nullable_numeric_fields
  for_each (λ f. if_measured row f (λ v. require_number v none >> ok tt)) signed_numeric_fields

is_int : Json → Bool
is_int (int n) = true
is_int _ = false

unfoldable pub validate_optional_counts : JsonObject → Result (Unit {0})
unfolding if_present if_measured is_int
validate_optional_counts row = do
  for_each (λ f. if_present row f (λ v. require_integer v 0 >> ok tt)) count_fields
  for_each (λ f. if_measured row f (λ v. require_integer v 0 >> ok tt)) nullable_count_fields
  for_each (λ f. if_measured row f (λ v. raise_if (not (is_int v)) value_error)) signed_count_fields

validate_counts : JsonObject → Result (Unit {0})
validate_counts empty = ok tt
validate_counts (entry key value rest) = require_integer value 0 >> validate_counts rest

unfoldable pub validate_nested_counts : JsonObject → Result (Unit {0})
unfolding if_measured validate_counts
validate_nested_counts row =
    for_each (λ f. if_measured row f (λ v. require_object v >>= validate_counts))
      ("client_stats" ∷ "measured_proxy" ∷ "total_proxy" ∷ [])

validate_error_rate : Json → Result (Unit {0})
validate_error_rate value = do
  rate ← require_number value nonnegative
  raise_if (float_lt (whole max_error_rate_percent) rate) value_error

unfoldable pub validate_optional_fields : JsonObject → Result (Unit {0})
unfolding validate_optional_numbers validate_optional_counts validate_nested_counts if_present
    validate_error_rate
validate_optional_fields row = do
  validate_optional_numbers row
  validate_optional_counts row
  if_present row "error_rate_percent" validate_error_rate
  validate_nested_counts row
