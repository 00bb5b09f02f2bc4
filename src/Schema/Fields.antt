-- ===== src/Schema/Fields.antt =====
-- The checked reads of report_schema/fields.py, and `validate_finite_json` of decoding.py.
pub mod Reads
use fog_http_benchmark.Prelude.{
  ℕ, ◌≤◌, ◌≡◌, refl, ◌↔◌, Bool, true, false, not, String, Option, none, some, List, [], ◌∷◌, arith,
  ltb, if◌then◌else◌, Result, ok, err, type_error, value_error, key_error, ◌>>=◌, ◌>>◌, traverse,
  raise_if,
}
use fog_http_benchmark.Prelude.Int.{ℤ, pos, negsuc}
use fog_http_benchmark.Prelude.Text.{is_blank}
use fog_http_benchmark.Json.{
  Json, null, bool, int, float, str, arr, obj, Items, nil, cons, JsonObject, empty, entry, items,
  Float, is_finite, float_lt, float_le, float_of_int, finite, inf, neg_inf, nan, whole,
}

unfoldable pub require_object : Json → Result JsonObject
require_object (obj o) = ok o
require_object _ = err type_error

unfoldable pub require_rows : Json → Result (List JsonObject)
unfolding require_object items traverse
require_rows (arr vs) = traverse require_object (items vs)
require_rows _ = err type_error

unfoldable pub require_string : Json → Result String
require_string (str s) = if is_blank s then err value_error else ok s
require_string _ = err value_error

-- The value is at least `minimum`, which no call puts below zero, so it is a natural number.
unfoldable pub require_integer : Json → ℕ → Result ℕ
require_integer (int (pos n)) minimum = if ltb n minimum then err value_error else ok n
require_integer _ minimum = err value_error

pub below : Float → Option Float → Bool
below x none = false
below x (some m) = float_lt x m

-- A bool is refused although it is an int, and an int beyond the largest float is refused too.
unfoldable pub require_number : Json → Option Float → Result Float
unfolding below
require_number (float x) minimum = do
  raise_if (not (is_finite x)) value_error
  raise_if (below x minimum) value_error
  ok x
require_number (int n) minimum = elim (float_of_int n) [
  | err e ↦ err value_error
  | ok x ↦ do raise_if (not (is_finite x)) value_error; raise_if (below x minimum) value_error; ok x
]
require_number _ minimum = err type_error

unfoldable mutual
  -- No NaN and no infinity stands anywhere in the value.
  pub validate_finite_json : Json → Result (Unit {0})
  validate_finite_json (float x) = raise_if (not (is_finite x)) value_error
  validate_finite_json (obj o) = validate_finite_entries o
  validate_finite_json (arr vs) = validate_finite_items vs
  validate_finite_json _ = ok tt

  validate_finite_items : Items → Result (Unit {0})
  validate_finite_items nil = ok tt
  validate_finite_items (cons v vs) = validate_finite_json v >> validate_finite_items vs

  validate_finite_entries : JsonObject → Result (Unit {0})
  validate_finite_entries empty = ok tt
  validate_finite_entries (entry k v o) = validate_finite_json v >> validate_finite_entries o

-- the default `minimum` of `require_number`
abbrev pub nonnegative : Option Float
nonnegative = some (whole 0)

-- `table[key]`
unfoldable pub or_key_error {ℓ} : {A : Type ℓ} → Option A → Result A
or_key_error none = err key_error
or_key_error (some a) = ok a

unfoldable pub is_null : Json → Bool
is_null null = true
is_null _ = false
