-- ===== src/Compare/Ratios.antt =====
-- The numbers of foghttp_benchmark/compare/analysis.py: ratios, means, maxima and the summary of
-- one segment. Rounded arithmetic is a parameter.
use fog_http_benchmark.Prelude.{
  Bool, ◌&&◌, String, Option, none, some, List, [], ◌∷◌, map, keep, length, if◌then◌else◌,
  string_eq,
}
use fog_http_benchmark.Prelude.Int.{ℤ, pos, ltb_ℤ, ◌+ℤ◌}
use fog_http_benchmark.Json.{Float, whole, inf, float_lt, float_le, is_finite}
use fog_http_benchmark.Compare.Order.{sort_by, text_lt, group_by}
use fog_http_benchmark.Compare.Outcome.{RowComparison, SegmentSummary}

-- float division, `math.log`, `math.exp`, `sum`, `statistics.median` and `statistics.mean`
pub record FloatMath : Type 0 where
  pub divide : Float → Float → Float
  pub log : Float → Float
  pub exp : Float → Float
  pub sum_floats : List Float → Float
  pub median_of : List Float → Float
  pub mean_of : List Float → Float

-- the values that are there
unfoldable pub present {ℓ} : {A : Type ℓ} → List (Option A) → List A
present [] = []
present (none ∷ values) = present values
present (some x ∷ values) = x ∷ present values

unfoldable pub largest {ℓ} : {A : Type ℓ} → (A → A → Bool) → List A → Option A
largest lt [] = none
largest lt (x ∷ xs) = elim (largest lt xs) [
  | none ↦ some x
  | some y ↦ some (if lt x y then y else x)
]

unfoldable pub max_optional : List (Option Float) → Option Float
max_optional values = largest float_lt (present values)

unfoldable pub max_optional_int : List (Option ℤ) → Option ℤ
max_optional_int values = largest ltb_ℤ (present values)

unfoldable pub sum_ints : List ℤ → ℤ
sum_ints [] = pos 0
sum_ints (n ∷ ns) = n +ℤ sum_ints ns

module _ ⦃m : FloatMath⦄ where
  unfoldable pub safe_ratio : Float → Float → Float
  safe_ratio new_value old_value =
      if float_le old_value (whole 0)
      then (if float_lt (whole 0) new_value then inf else whole 1)
      else m.divide new_value old_value

  unfoldable pub optional_ratio : Option Float → Option Float → Option Float
  optional_ratio (some new_value) (some old_value) = some (safe_ratio new_value old_value)
  optional_ratio _ _ = none

  geomean_of : List Float → Option Float
  geomean_of [] = none
  geomean_of (x ∷ xs) =
      some (m.exp (m.divide (m.sum_floats (map m.log (x ∷ xs))) (whole (length (x ∷ xs)))))

  unfoldable pub geomean : List Float → Option Float
  unfolding geomean_of
  geomean values = geomean_of (keep (λ x. float_lt (whole 0) x && is_finite x) values)

  if_any : (List Float → Float) → List Float → Option Float
  if_any f [] = none
  if_any f (x ∷ xs) = some (f (x ∷ xs))

  unfoldable pub median : List Float → Option Float
  unfolding if_any
  median values = if_any m.median_of (keep is_finite values)

  unfoldable pub mean : List Float → Option Float
  unfolding if_any
  mean = if_any m.mean_of

  unfoldable pub summarize_segment : String → List RowComparison → SegmentSummary
  summarize_segment name comparisons =
      let primary_ratios = map (λ c. c.primary_ratio) comparisons in
      record {
        name = name;
        rows = length comparisons;
        primary_geomean_ratio = geomean primary_ratios;
        primary_median_ratio = median primary_ratios;
        p95_geomean_ratio = geomean (present (map (λ c. c.p95_ratio) comparisons));
        p99_geomean_ratio = geomean (present (map (λ c. c.p99_ratio) comparisons));
      }

  unfoldable pub summarize_by : (RowComparison → String) → List RowComparison → List SegmentSummary
  summarize_by segment_name comparisons =
      map (λ (name, items). summarize_segment name items)
        (sort_by (λ a b. text_lt a.0 b.0) (group_by segment_name [] comparisons))
