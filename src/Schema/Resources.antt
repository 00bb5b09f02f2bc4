-- ===== src/Schema/Resources.antt =====
-- The resource observations of rows: report_schema/resources.py, with `ResourceMetricCoverage` of
-- foghttp_benchmark/resource_metrics.py.
pub mod Available
pub mod Recorded
pub mod Counted
use fog_http_benchmark.Prelude.{
  ℕ, zero, suc, ◌+◌, Bool, true, false, not, ◌&&◌, ◌||◌, String, Option, none, some, List, [], ◌∷◌,
  map, length, keep, any, ltb, ◌==◌, nat_eq, string_eq, list_eq, lookup, if◌then◌else◌, Result, ok,
  err, type_error, value_error, ◌>>=◌, ◌>>◌, raise_if, for_each, traverse,
}
use fog_http_benchmark.Json.{
  Json, null, str, obj, arr, Items, nil, cons, JsonObject, empty, entry, find?, get, has,
}
use fog_http_benchmark.Runtime.{Runtime}
use fog_http_benchmark.Schema.Fields.{require_object, require_string, require_integer}
use fog_http_benchmark.Schema.Identity.{Identity, aggregate_identity}
use fog_http_benchmark.Schema.Fields.{is_null}
use fog_http_benchmark.Schema.Tables.{raw_resource_fields, client_stat_fields}

pub record ResourceMetricCoverage : Type 0 where
  pub available : ℕ
  pub expected : ℕ
  pub unavailable_reasons : List String

abbrev pub ResourceCoverage : Type 0
ResourceCoverage = List (String × ResourceMetricCoverage)

strings : Items → Result (List String)
strings nil = ok []
strings (cons (str s) vs) = do rest ← strings vs; ok (s ∷ rest)
strings (cons _ vs) = err value_error

string_list : Json → Result (List String)
unfolding strings
string_list (arr vs) = strings vs
string_list _ = err value_error

coverage_record : Json → Result ResourceMetricCoverage
unfolding string_list
coverage_record observation = do
  value ← require_object observation
  available ← require_integer (get value "available") 0
  expected ← require_integer (get value "expected") 0
  raise_if (ltb expected available) value_error
  reasons ← string_list (get value "unavailable_reasons")
  ok (record { available = available; expected = expected; unavailable_reasons = reasons })

coverage_entries : JsonObject → Result ResourceCoverage
unfolding coverage_record
coverage_entries empty = ok []
coverage_entries (entry metric observation rest) = do
  require_string (str metric)
  this ← coverage_record observation
  others ← coverage_entries rest
  ok ((metric, this) ∷ others)

unfoldable pub resource_coverage_field : JsonObject → Result ResourceCoverage
unfolding coverage_entries
resource_coverage_field row = elim (find? row "resource_coverage") [
  | none ↦ ok []
  | some value ↦ require_object value >>= coverage_entries
]

bool_eq : Bool → Bool → Bool
bool_eq true b = b
bool_eq false b = not b

validate_observation : JsonObject → String × ResourceMetricCoverage → Result (Unit {0})
unfolding bool_eq
validate_observation row (metric, observation) = elim (find? row metric) [
  | none ↦ err value_error
  | some v ↦ raise_if (not (bool_eq (is_null v) (observation.available == 0))) value_error
]

unfoldable pub validate_resource_coverage : JsonObject → Bool → Result ResourceCoverage
unfolding validate_observation
validate_resource_coverage row current = do
  raise_if (current && not (has row "resource_coverage")) value_error
  coverage ← resource_coverage_field row
  for_each (validate_observation row) coverage
  ok coverage

count_true : List Bool → ℕ
count_true [] = 0
count_true (true ∷ bs) = suc (count_true bs)
count_true (false ∷ bs) = count_true bs

-- `run.get("client_stats") is not None and require_object(…).get(field) is not None`
stat_recorded : String → JsonObject → Result Bool
stat_recorded field run =
    if is_null (get run "client_stats")
    then ok false
    else (do stats ← require_object (get run "client_stats"); ok (not (is_null (get stats field))))

-- How many of the runs recorded a metric, or `none` for one that no run records.
unfoldable pub recorded_observations : String → List JsonObject → Result (Option ℕ)
unfolding count_true stat_recorded
recorded_observations metric runs = elim (lookup metric raw_resource_fields) [
  | some field ↦ ok (some (count_true (map (λ run. not (is_null (get run field))) runs)))
  | none ↦ elim (lookup metric client_stat_fields) [
    | some field ↦ traverse (stat_recorded field) runs >>= λ found. ok (some (count_true found))
    | none ↦ ok none
  ]
]

matches_recorded : ℕ → Option ℕ → Bool
matches_recorded available none = true
matches_recorded available (some n) = available == n

validate_recorded : List JsonObject → String × ResourceMetricCoverage → Result (Unit {0})
unfolding matches_recorded
validate_recorded runs (metric, observation) = do
  available ← recorded_observations metric runs
  raise_if (not (matches_recorded observation.available available)) value_error

unfoldable pub validate_resource_observations :
    ResourceCoverage → List JsonObject → Result (Unit {0})
unfolding validate_recorded
validate_resource_observations coverage runs = for_each (validate_recorded runs) coverage

is_empty {ℓ} : {A : Type ℓ} → List A → Bool
is_empty [] = true
is_empty (x ∷ xs) = false

-- `run_groups.get(identity, [])`: the runs of one identity, in order. The identity of every run
-- has been computed before.
unfoldable pub runs_of : Identity → List (Identity × JsonObject) → List JsonObject
runs_of identity [] = []
runs_of identity ((i, run) ∷ rest) =
    if identity == i then run ∷ runs_of identity rest else runs_of identity rest

module _ ⦃r : Runtime⦄ where
  pub run_group_entry : String → JsonObject → Result (Identity × JsonObject)
  run_group_entry suite run = do identity ← aggregate_identity suite run; ok (identity, run)

  validate_row_coverage :
      String → List (Identity × JsonObject) → Bool → JsonObject → Result (Unit {0})
  unfolding is_empty
  validate_row_coverage suite groups current row = do
    coverage ← validate_resource_coverage row current
    if is_empty coverage then ok tt else (do
      repeats ← require_integer (get row "repeats") 1
      for_each (λ c. raise_if (not (c.1.expected == repeats)) value_error) coverage
      if is_empty groups then ok tt else (do
        identity ← aggregate_identity suite row
        let observations = runs_of identity groups
        raise_if (not (length observations == repeats)) value_error
        validate_resource_observations coverage observations))

  unfoldable pub validate_ordinary_resource_coverage :
      String → List JsonObject → List JsonObject → Bool → Result (Unit {0})
  unfolding run_group_entry validate_row_coverage
  validate_ordinary_resource_coverage suite aggregates runs current = do
    groups ← traverse (run_group_entry suite) runs
    for_each (validate_row_coverage suite groups current) aggregates
