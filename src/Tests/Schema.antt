-- ===== src/Tests/Schema.antt =====
-- Runs of the checks of rows.
use fog_http_benchmark.Runtime.{is_text}
use fog_http_benchmark.Prelude.Text.{is_blank}
use fog_http_benchmark.Prelude.{
  lookup, for_each, ℕ, ◌≤◌, ◌≡◌, refl, ◌↔◌, true, String, none, some, List, [], ◌∷◌, map, All,
  IsDistinct, contains, length, ok, err, type_error,
}
use fog_http_benchmark.Prelude.Int.{pos}
use fog_http_benchmark.Json.{
  find?, round_nat, one, float_of_int, has, null, bool, int, str, arr, obj, nil, cons, JsonObject,
  get, whole,
}
use fog_http_benchmark.Schema.Fields.{
  require_string, require_object, require_integer, require_number,
}
use fog_http_benchmark.Schema.Fields.Reads.{
  Holds, IsMeasurement, IsNumber, require_integer_iff, require_number_iff,
}
use fog_http_benchmark.Schema.Identity.{
  Identity, aggregate_identity, validate_unique_identities, validate_unique_aggregate_rows,
}
use fog_http_benchmark.Schema.Identity.Unique.{
  validate_unique_identities_iff, validate_unique_identities_sources_iff,
  validate_unique_aggregate_rows_iff,
}
use fog_http_benchmark.Schema.Ordinary.{
  validate_error_bound, count_errors, validate_run, validate_aggregate, validate_identity,
  validate_ordinary_rows, validate_error_map, operation_error_limit,
}
use fog_http_benchmark.Schema.Fields.{or_key_error, is_null, nonnegative}
use fog_http_benchmark.Schema.Optional.{
  validate_optional_numbers, validate_optional_counts, validate_nested_counts,
  validate_optional_fields,
}
use fog_http_benchmark.Schema.Ordinary.Accounting.{
  SumsTo, validate_error_map-SumsTo, IsErrorLimit, operation_error_limit_iff,
}
use fog_http_benchmark.Schema.Ordinary.Rows.{
  IsAccounted, IsAccountedRun, validate_ordinary_rows-IsAccounted,
}
use fog_http_benchmark.Schema.Resources.{
  resource_coverage_field, ResourceMetricCoverage, validate_resource_coverage,
}
use fog_http_benchmark.Schema.Resources.Available.{IsCovered, validate_resource_coverage-IsCovered}
use fog_http_benchmark.Tests.{plain_runtime, fields, upstream_row, upstream_run}

upstream_rows_pass :
    validate_ordinary_rows "one-upstream" (upstream_row ∷ []) (upstream_run ∷ []) ≡ ok tt
unfolding validate_ordinary_rows lookup for_each validate_identity require_string get is_blank
    contains require_integer validate_aggregate require_number float_of_int whole has require_object
    validate_optional_fields validate_run one round_nat find? count_errors is_null
    operation_error_limit or_key_error validate_error_bound validate_error_map
    validate_nested_counts validate_optional_counts validate_optional_numbers
upstream_rows_pass = refl

validate_ordinary_rows-IsAccounted_example :
    All (IsAccounted "one-upstream") (upstream_row ∷ [])
    × All (IsAccountedRun "one-upstream") (upstream_run ∷ [])
unfolding contains validate_ordinary_rows lookup for_each validate_identity require_string get
    is_blank require_integer validate_aggregate require_number float_of_int whole has require_object
    validate_optional_fields validate_run one round_nat find? count_errors is_null
    operation_error_limit or_key_error validate_error_bound validate_error_map
    validate_nested_counts validate_optional_counts validate_optional_numbers
validate_ordinary_rows-IsAccounted_example =
    validate_ordinary_rows-IsAccounted "one-upstream" (upstream_row ∷ []) (upstream_run ∷ []) refl
      refl

validate_error_map-SumsTo_example :
    (errors : JsonObject) × (total : ℕ) × (get upstream_row "error_types" ≡ obj errors)
    × Holds (get upstream_row "errors_total") total
    × SumsTo errors total
unfolding validate_error_map has require_object get require_integer require_string is_blank
validate_error_map-SumsTo_example =
    validate_error_map-SumsTo upstream_row "error_types" "errors_total" refl refl

abbrev creation_row : JsonObject
creation_row = fields (("scenario", str "create-first-request") ∷ ("iterations", int (pos 2)) ∷ [])

operation_error_limit_iff_example :
    (operation_error_limit "client-creation" creation_row ≡ ok 6) ↔ (
      (iterations : ℕ) × Holds (get creation_row "iterations") iterations
      × (1 ≤ iterations)
      × IsErrorLimit "client-creation" creation_row iterations 6)
operation_error_limit_iff_example = operation_error_limit_iff "client-creation" creation_row 6

creation_limit : operation_error_limit "client-creation" creation_row ≡ ok 6
unfolding operation_error_limit require_integer get is_text
creation_limit = refl

require_integer_iff_example :
    (require_integer (int (pos 5)) 1 ≡ ok 5) ↔ ((int (pos 5) ≡ int (pos 5)) × (1 ≤ 5))
require_integer_iff_example = require_integer_iff (int (pos 5)) 1 5

require_number_iff_example :
    (require_number (int (pos 5)) nonnegative ≡ ok (whole 5))
    ↔ (IsNumber (int (pos 5)) (whole 5) × IsMeasurement (whole 5) nonnegative)
require_number_iff_example = require_number_iff (int (pos 5)) nonnegative (whole 5)

five_is_read : require_number (int (pos 5)) nonnegative ≡ ok (whole 5)
unfolding require_number float_of_int whole
five_is_read = refl

bool_is_refused : require_number (bool true) nonnegative ≡ err type_error
unfolding require_number
bool_is_refused = refl

abbrev two_ids : List Identity
two_ids = ("async" ∷ "foghttp" ∷ []) ∷ ("sync" ∷ "foghttp" ∷ []) ∷ []

validate_unique_identities_iff_example :
    (validate_unique_identities (map ok two_ids) none ≡ ok tt) ↔ IsDistinct two_ids
validate_unique_identities_iff_example = validate_unique_identities_iff two_ids

validate_unique_identities_sources_iff_example :
    (validate_unique_identities (map ok two_ids) (some ("a" ∷ "b" ∷ [])) ≡ ok tt)
    ↔ ((length two_ids ≡ length {A = String} ("a" ∷ "b" ∷ [])) × IsDistinct two_ids)
validate_unique_identities_sources_iff_example =
    validate_unique_identities_sources_iff two_ids ("a" ∷ "b" ∷ [])

validate_unique_aggregate_rows_iff_example :
    (validate_unique_aggregate_rows "one-upstream" (upstream_row ∷ []) none ≡ ok tt) ↔ (
      (ids : List Identity) × (map (aggregate_identity "one-upstream") (upstream_row ∷ [])
        ≡ map ok ids)
      × IsDistinct ids)
validate_unique_aggregate_rows_iff_example =
    validate_unique_aggregate_rows_iff "one-upstream" (upstream_row ∷ [])

-- a metric that one of two runs recorded, and one that none recorded
abbrev covered_row : JsonObject
covered_row = fields (
    ("rss_mb_max", int (pos 40))
    ∷ ("peak_rss_mb", null)
    ∷ (
      "resource_coverage",
      obj (
          fields (
            (
              "rss_mb_max",
              obj (
                  fields (
                    ("available", int (pos 1))
                    ∷ ("expected", int (pos 2))
                    ∷ ("unavailable_reasons", arr (cons (str "reason-not-recorded") nil))
                    ∷ [])),
            )
            ∷ (
              "peak_rss_mb",
              obj (
                  fields (
                    ("available", int (pos 0))
                    ∷ ("expected", int (pos 2))
                    ∷ ("unavailable_reasons", arr (cons (str "reason-not-recorded") nil))
                    ∷ [])),
            )
            ∷ [])),
    )
    ∷ [])

abbrev coverage_of : ℕ → ResourceMetricCoverage
coverage_of n = record {
  available = n;
  expected = 2;
  unavailable_reasons = "reason-not-recorded" ∷ [];
}

validate_resource_coverage-IsCovered_example :
    All
      (IsCovered covered_row)
      (("rss_mb_max", coverage_of 1) ∷ ("peak_rss_mb", coverage_of 0) ∷ [])
unfolding validate_resource_coverage has resource_coverage_field require_object require_string
    is_blank require_integer get for_each is_null
validate_resource_coverage-IsCovered_example =
    validate_resource_coverage-IsCovered covered_row true
      (("rss_mb_max", coverage_of 1) ∷ ("peak_rss_mb", coverage_of 0) ∷ []) refl
