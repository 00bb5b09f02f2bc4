-- ===== src/Runtime.antt =====
-- What the modelled code takes from the Python runtime and its libraries without computing with
-- the result: the texts of floats and of containers, the canonical JSON text, the reading of a
-- float from a text, and SHA-256. They are a parameter of every definition that uses them.
use fog_http_benchmark.Prelude.{String, Option, ◌==◌, string_eq, Bool, true, false}
use fog_http_benchmark.Prelude.Text.{str_int}
use fog_http_benchmark.Json.{Json, null, bool, int, str, Float}

pub record Runtime : Type 0 where
  -- `str(value)` of a float, a list or a dict
  pub repr : Json → String
  -- `json.dumps(value, sort_keys=True)`
  pub dumps : Json → String
  -- `float(text)`; `none` is its ValueError
  pub float_of : String → Option Float
  -- `hashlib.sha256(json.dumps(value, sort_keys=True, …).encode()).hexdigest()`; `none` is the
  -- ValueError of `allow_nan=False`
  pub digest_of : Json → Option String

-- `str(value)`
unfoldable pub py_str : ⦃r : Runtime⦄ → Json → String
py_str ⦃r⦄ null = "None"
py_str ⦃r⦄ (bool true) = "True"
py_str ⦃r⦄ (bool false) = "False"
py_str ⦃r⦄ (int n) = str_int n
py_str ⦃r⦄ (str s) = s
py_str ⦃r⦄ v = r.repr v

-- `value == text`, for a value of any type
unfoldable pub is_text : Json → String → Bool
is_text (str s) t = s == t
is_text _ t = false
