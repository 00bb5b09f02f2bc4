-- ===== src/Statistics.antt =====
-- Error counts of several runs put together, and the resource observations of a row:
-- foghttp_benchmark/statistics.py and foghttp_benchmark/resource_metrics.py.
pub mod Conserves
pub mod Coverage
use fog_http_benchmark.Prelude.{
  ℕ, zero, suc, ◌+◌, Bool, true, false, not, String, Option, none, some, List, [], ◌∷◌, ◌==◌,
  string_eq, ltb, length, if◌then◌else◌, Result, ok, err, type_error, value_error, ◌>>=◌,
}
use fog_http_benchmark.Json.{Json, null, bool, int, float, Float, is_finite, number_of, float_lt}
use fog_http_benchmark.Schema.Resources.{ResourceMetricCoverage, ResourceCoverage}

-- A dict of counts, in order.
abbrev pub ErrorCounts : Type 0
ErrorCounts = List (String × ℕ)

-- `merged[name] = merged.get(name, 0) + count`
unfoldable pub add_count : String → ℕ → ErrorCounts → ErrorCounts
add_count name count [] = (name, count) ∷ []
add_count name count ((other, n) ∷ merged) =
    if name == other then (other, n + count) ∷ merged else (other, n) ∷ add_count name count merged

unfoldable pub add_counts : ErrorCounts → ErrorCounts → ErrorCounts
unfolding add_count
add_counts merged [] = merged
add_counts merged ((name, count) ∷ rest) = add_counts (add_count name count merged) rest

-- the loop over the dicts
unfoldable pub merge_from : ErrorCounts → List ErrorCounts → ErrorCounts
unfolding add_counts
merge_from merged [] = merged
merge_from merged (error_types ∷ values) = merge_from (add_counts merged error_types) values

unfoldable pub merge_error_types : List ErrorCounts → ErrorCounts
unfolding merge_from
merge_error_types = merge_from []

-- The numbers among the values, as they stand.
unfoldable pub resource_values : List Json → Result (List Json)
resource_values [] = ok []
resource_values (null ∷ values) = resource_values values
resource_values (int n ∷ values) = do rest ← resource_values values; ok (int n ∷ rest)
resource_values (float x ∷ values) =
    let tail = resource_values values in
    if is_finite x then (tail >>= λ rest. ok (float x ∷ rest)) else err value_error
resource_values (_ ∷ values) = err type_error

abbrev number_below : Option Float → Option Float → Bool
number_below (some a) (some b) = float_lt a b
number_below _ _ = false

-- `max`, which keeps the first of equal numbers
unfoldable pub max_from : Json → List Json → Json
max_from best [] = best
max_from best (value ∷ values) =
    max_from (if number_below (number_of best) (number_of value) then value else best) values

max_of : List Json → Option Json
unfolding max_from
max_of [] = none
max_of (value ∷ values) = some (max_from value values)

unfoldable pub optional_resource_max : List Json → Result (Option Json)
unfolding max_of
optional_resource_max values = do present ← resource_values values; ok (max_of present)

unfoldable pub metric_coverage : List Json → Result ResourceMetricCoverage
metric_coverage values = do
  present ← resource_values values
  ok (record {
    available = length present;
    expected = length values;
    unavailable_reasons =
        if ltb (length present) (length values) then "reason-not-recorded" ∷ [] else [];
  })

unfoldable pub resource_coverage : List (String × List Json) → Result ResourceCoverage
resource_coverage [] = ok []
resource_coverage ((name, observations) ∷ fields) = do
  this ← metric_coverage observations
  others ← resource_coverage fields
  ok ((name, this) ∷ others)
