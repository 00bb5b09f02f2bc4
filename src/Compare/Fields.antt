-- ===== src/Compare/Fields.antt =====
-- The reads of a decoded row in foghttp_benchmark/compare/loading.py.
use fog_http_benchmark.Prelude.{
  ℕ, ◌%◌, suc, Bool, false, not, ◌||◌, String, Option, none, some, ◌==◌, nat_eq, if◌then◌else◌,
  Result, ok, err, type_error, value_error, ◌>>=◌, ◌>>◌, raise_if,
}
use fog_http_benchmark.Prelude.Int.{ℤ, pos, negsuc}
use fog_http_benchmark.Json.{
  Json, null, int, obj, arr, JsonObject, empty, get, has, Float, finite, one, truncate,
  round_half_even, negate,
}
use fog_http_benchmark.Runtime.{is_text}
use fog_http_benchmark.Schema.Fields.{
  require_string, require_integer, require_number, nonnegative, is_null,
}

unfoldable pub object_field : JsonObject → String → JsonObject
object_field value key = elim (get value key) [ obj o ↦ o | _ ↦ empty ]

unfoldable pub str_field : JsonObject → String → Option String → Result String
str_field row key none = require_string (get row key)
str_field row key (some default) =
    if not (has row key) then ok default else require_string (get row key)

-- the field of a row that has to be there
abbrev pub text_field : JsonObject → String → Result String
text_field row key = str_field row key none

unfoldable pub int_field : JsonObject → String → Result ℕ
int_field row key = require_integer (get row key) 0

unfoldable pub optional_int_field : JsonObject → String → Result (Option ℕ)
optional_int_field row key =
    if is_null (get row key) then ok none else (int_field row key >>= λ n. ok (some n))

unfoldable pub float_field : JsonObject → String → Result Float
float_field row key = require_number (get row key) nonnegative

unfoldable pub optional_float_field : JsonObject → String → Result (Option Float)
optional_float_field row key =
    if is_null (get row key) then ok none else (float_field row key >>= λ x. ok (some x))

unfoldable pub resource_float_field : JsonObject → String → Result (Option Float)
resource_float_field row key =
    if is_null (get row key)
    then ok none
    else (require_number (get row key) none >>= λ x. ok (some x))

-- `number.is_integer()`
unfoldable pub is_integer : Float → Bool
unfolding one
is_integer (finite (pos n)) = n % one == 0
is_integer (finite (negsuc n)) = suc n % one == 0
is_integer _ = false

unfoldable pub resource_int_value : Json → Result (Option ℤ)
resource_int_value null = ok none
resource_int_value (int n) = ok (some n)
resource_int_value v = do
  number ← require_number v none
  raise_if (not (is_integer number)) value_error
  n ← truncate number
  ok (some n)

unfoldable pub resource_int_field : JsonObject → String → Result (Option ℤ)
resource_int_field row key = resource_int_value (get row key)

-- `value / 1024`, which moves the exponent, and rounds where a subnormal loses bits
unfoldable pub per_1024 : Float → Float
unfolding round_half_even
per_1024 (finite (pos n)) = finite (pos (round_half_even n 1024))
per_1024 (finite (negsuc n)) = finite (negate (round_half_even (suc n) 1024))
per_1024 x = x

-- `value in {"lifecycle", "async-bytes"}`, which raises for a value without a hash
unfoldable pub is_measured_profile : Json → Result Bool
is_measured_profile (arr vs) = err type_error
is_measured_profile (obj o) = err type_error
is_measured_profile v = ok (is_text v "lifecycle" || is_text v "async-bytes")
