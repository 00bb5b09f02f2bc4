-- ===== src/Schema/Ordinary/Rows.antt =====
-- Theorems about whole rows and runs of report_schema/ordinary.py, of the suites that count requests.
use fog_http_benchmark.Prelude.{
  ◌⊎◌, inl, inr, Bool-cases, ℕ, ◌+◌, ◌*◌, ◌≤◌, ◌≡◌, false, not, String, Option, none, some, List,
  arith, ok, err, >>=-eq-ok, >>-eq-ok, ok-injective, raise_if, raise_if-eq-ok, value_error,
  contains, string_eq, lookup, ◌==◌, nat_eq, All, All-imply, for_each, for_each-All,
}
use fog_http_benchmark.Json.{obj, JsonObject, get, has}
use fog_http_benchmark.Schema.Fields.{require_integer, require_number}
use fog_http_benchmark.Schema.Fields.Reads.{require_integer_iff, Holds}
use fog_http_benchmark.Schema.Tables.{
  operation_suites, success_counts, row_fields, aggregate_primary_fields, run_primary_fields,
}
use fog_http_benchmark.Schema.Ordinary.{
  validate_identity, validate_error_bound, validate_error_map, validate_primary, validate_successes,
  validate_outcomes, validate_aggregate, validate_aggregate_row, run_limit, success_field,
  validate_run, validate_run_row, validate_ordinary_rows,
}
use fog_http_benchmark.Schema.Fields.{or_key_error, nonnegative}
use fog_http_benchmark.Schema.Ordinary.Accounting.{SumsTo, validate_error_map-SumsTo}

-- A field counts the successes: with the errors they are all of the requests.
abbrev pub Balances : JsonObject → ℕ → ℕ → Option String → Type 0
Balances row errors total none = Unit
Balances row errors total (some field) =
    (successes : ℕ) × Holds (get row field) successes × (successes + errors ≡ total)

-- The errors by their types, where a row has them, sum up to the errors.
abbrev pub IsItemised : JsonObject → String → String → Type 0
IsItemised row field total_field =
    (has row field ≡ false)
    ⊎ ((errors : JsonObject) × (total : ℕ) × (get row field ≡ obj errors)
        × Holds (get row total_field) total
        × SumsTo errors total)

error_map-IsItemised :
    (row : JsonObject) (field total_field : String)
    → validate_error_map row field total_field ≡ ok tt
    → IsItemised row field total_field
error_map-IsItemised row field total_field h = elim (Bool-cases (has row field)) [
  | inl present ↦ inr (validate_error_map-SumsTo row field total_field h present)
  | inr missing ↦ inl missing
]

-- The accounts of an aggregate row.
pub record IsAccounted (suite : String) (row : JsonObject) : Type 0 where
  pub repeats : ℕ
  pub requests : ℕ
  pub errors : ℕ
  pub repeats_held : Holds (get row "repeats") repeats
  pub requests_held : Holds (get row "requests") requests
  pub errors_held : Holds (get row "errors_total") errors
  pub repeated : 1 ≤ repeats
  pub requested : 1 ≤ requests
  pub bounded : errors ≤ requests * repeats
  pub balanced : Balances row errors (requests * repeats) (lookup suite success_counts)
  pub error_types : IsItemised row "error_types" "errors_total"
  pub warmup_error_types : IsItemised row "warmup_error_types" "warmup_errors_total"

validate_error_bound-le :
    (errors limit : ℕ) → validate_error_bound errors limit ≡ ok tt → errors ≤ limit
unfolding validate_error_bound
validate_error_bound-le errors limit h = ground (arith, raise_if-eq-ok _ _ h)

validate_successes-Balances :
    (row : JsonObject) (errors total : ℕ) (field : Option String)
    → validate_successes row errors total field ≡ ok tt
    → Balances row errors total field
unfolding validate_successes
validate_successes-Balances row errors total none h = tt
validate_successes-Balances row errors total (some field) h =
    let (successes, read, h) = >>=-eq-ok (require_integer (get row field) 0) _ h in
    (
      successes,
      ((require_integer_iff _ 0 successes).0 read).0,
      ground (arith, raise_if-eq-ok (not (successes + errors == total)) _ h),
    )

-- the counts that `validate_outcomes` checks in a suite that counts requests
abbrev Outcomes : String → JsonObject → ℕ → ℕ → Type 0
Outcomes suite row repeats errors =
    (requests : ℕ) × Holds (get row "requests") requests
    × (1 ≤ requests)
    × (errors ≤ requests * repeats)
    × Balances row errors (requests * repeats) (lookup suite success_counts)

module _ (suite : String) (counted : contains suite operation_suites ≡ false) where
  validate_outcomes-Outcomes :
      (row : JsonObject) (repeats errors : ℕ)
      → validate_outcomes suite row repeats errors ≡ ok tt
      → Outcomes suite row repeats errors
  unfolding validate_outcomes
  validate_outcomes-Outcomes row repeats errors h =
      let h = rw counted at h in
      let (requests, read, h) = >>=-eq-ok (require_integer (get row "requests") 1) _ h in
      let (_, h) = >>-eq-ok (require_integer (get row "warmup_errors_total") 0) _ h in
      let (bound, h) = >>-eq-ok (validate_error_bound errors (requests * repeats)) _ h in
      let (held, least) = (require_integer_iff _ 1 requests).0 read in
      (
        requests,
        held,
        least,
        validate_error_bound-le errors (requests * repeats) bound.1,
        validate_successes-Balances row errors _ _ h,
      )

  validate_aggregate-IsAccounted :
      (row : JsonObject) → validate_aggregate suite row ≡ ok tt → IsAccounted suite row
  unfolding validate_aggregate
  validate_aggregate-IsAccounted row h =
      let (repeats, repeats_read, h) = >>=-eq-ok (require_integer (get row "repeats") 1) _ h in
      let (errors, errors_read, h) = >>=-eq-ok (require_integer (get row "errors_total") 0) _ h in
      let (primary, _, h) = >>=-eq-ok (or_key_error (lookup suite aggregate_primary_fields)) _ h in
      let (_, h) = >>-eq-ok (validate_primary suite row primary) _ h in
      let (outcomes, h) = >>-eq-ok (validate_outcomes suite row repeats errors) _ h in
      let (types, warmup_types) =
        >>-eq-ok (validate_error_map row "error_types" "errors_total") _ h in
      let counts = validate_outcomes-Outcomes row repeats errors outcomes.1 in
      let read = (require_integer_iff _ 1 repeats).0 repeats_read in
      record {
        repeats = repeats;
        requests = counts.0;
        errors = errors;
        repeats_held = read.0;
        requests_held = counts.1;
        errors_held = ((require_integer_iff _ 0 errors).0 errors_read).0;
        repeated = read.1;
        requested = counts.2;
        bounded = counts.3;
        balanced = counts.4;
        error_types = error_map-IsItemised row "error_types" "errors_total" types.1;
        warmup_error_types =
            error_map-IsItemised row "warmup_error_types" "warmup_errors_total" warmup_types;
      }

-- The accounts of a run: one repeat, in which every request succeeds or fails.
pub record IsAccountedRun (suite : String) (row : JsonObject) : Type 0 where
  pub requests : ℕ
  pub errors : ℕ
  pub successes : ℕ
  pub requests_held : Holds (get row "requests") requests
  pub errors_held : Holds (get row "errors") errors
  pub successes_held : Holds (get row (success_field suite)) successes
  pub requested : 1 ≤ requests
  pub balanced : successes + errors ≡ requests
  pub error_types : IsItemised row "error_types" "errors"
  pub warmup_error_types : IsItemised row "warmup_error_types" "warmup_errors"

module _ (suite : String) (counted : contains suite operation_suites ≡ false) where
  run_limit-balanced :
      (row : JsonObject) (errors limit : ℕ)
      → run_limit suite row errors ≡ ok limit
      → (successes : ℕ) × Holds (get row "requests") limit
        × Holds (get row (success_field suite)) successes
        × (1 ≤ limit)
        × (successes + errors ≡ limit)
  unfolding run_limit
  run_limit-balanced row errors limit h =
      let h = rw counted at h in
      let (requests, read, h) = >>=-eq-ok (require_integer (get row "requests") 1) _ h in
      let (_, h) = >>-eq-ok (require_integer (get row "warmup_errors") 0) _ h in
      let (successes, found, h) =
        >>=-eq-ok (require_integer (get row (success_field suite)) 0) _ h in
      let (sum, h) = >>-eq-ok (raise_if (not (successes + errors == requests)) value_error) _ h in
      let (held, least) = (require_integer_iff _ 1 requests).0 read in
      rw (← ok-injective h) (
        successes,
        held,
        ((require_integer_iff _ 0 successes).0 found).0,
        least,
        ground (arith, raise_if-eq-ok (not (successes + errors == requests)) _ sum.1),
      )

  validate_run-IsAccountedRun :
      (row : JsonObject) → validate_run suite row ≡ ok tt → IsAccountedRun suite row
  unfolding validate_run
  validate_run-IsAccountedRun row h =
      let (_, h) = >>-eq-ok (require_integer (get row "repeat") 0) _ h in
      let (_, h) = >>-eq-ok (require_number (get row "duration_s") nonnegative) _ h in
      let (errors, errors_read, h) = >>=-eq-ok (require_integer (get row "errors") 0) _ h in
      let (primary, _, h) = >>=-eq-ok (or_key_error (lookup suite run_primary_fields)) _ h in
      let (_, h) = >>-eq-ok (validate_primary suite row primary) _ h in
      let (limit, limited, h) = >>=-eq-ok (run_limit suite row errors) _ h in
      let (_, h) = >>-eq-ok (validate_error_bound errors limit) _ h in
      let (types, warmup_types) = >>-eq-ok (validate_error_map row "error_types" "errors") _ h in
      let counts = run_limit-balanced row errors limit limited in
      record {
        requests = limit;
        errors = errors;
        successes = counts.0;
        requests_held = counts.1;
        errors_held = ((require_integer_iff _ 0 errors).0 errors_read).0;
        successes_held = counts.2;
        requested = counts.3;
        balanced = counts.4;
        error_types = error_map-IsItemised row "error_types" "errors" types.1;
        warmup_error_types =
            error_map-IsItemised row "warmup_error_types" "warmup_errors" warmup_types;
      }

  aggregate_row-IsAccounted :
      (row : JsonObject) → validate_aggregate_row suite row ≡ ok tt → IsAccounted suite row
  unfolding validate_aggregate_row
  aggregate_row-IsAccounted row h =
      let (_, h) = >>-eq-ok (validate_identity suite row) _ h in
      let (aggregate, _) = >>-eq-ok (validate_aggregate suite row) _ h in
      validate_aggregate-IsAccounted suite counted row aggregate.1

  run_row-IsAccountedRun :
      (row : JsonObject) → validate_run_row suite row ≡ ok tt → IsAccountedRun suite row
  unfolding validate_run_row
  run_row-IsAccountedRun row h =
      let (_, h) = >>-eq-ok (validate_identity suite row) _ h in
      let (run, _) = >>-eq-ok (validate_run suite row) _ h in validate_run-IsAccountedRun row run.1

-- In an admitted report of a suite that counts requests every aggregate row and every run is
-- accounted for. The errors of a row are at most its requests times its repeats, and where the
-- suite records successes, successes and errors together are all requests of all repeats. In a
-- run, successes and errors together are the requests. Errors by type sum up to the errors.
pub validate_ordinary_rows-IsAccounted :
    (suite : String) (aggregates runs : List JsonObject)
    → contains suite operation_suites ≡ false
    → validate_ordinary_rows suite aggregates runs ≡ ok tt
    → All (IsAccounted suite) aggregates × All (IsAccountedRun suite) runs
unfolding validate_ordinary_rows
validate_ordinary_rows-IsAccounted suite aggregates runs counted h =
    let (_, h) =
      >>-eq-ok (elim (lookup suite row_fields) [ none ↦ err value_error | some _ ↦ ok tt ]) _ h in
    let (rows, run_rows) = >>-eq-ok (for_each (validate_aggregate_row suite) aggregates) _ h in
    (
      All-imply aggregates (aggregate_row-IsAccounted suite counted)
          (for_each-All (validate_aggregate_row suite) aggregates rows.1),
      All-imply runs (run_row-IsAccountedRun suite counted)
          (for_each-All (validate_run_row suite) runs run_rows),
    )
