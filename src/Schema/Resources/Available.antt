-- ===== src/Schema/Resources/Available.antt =====
-- Theorems about the coverage of one row, of report_schema/resources.py.
use fog_http_benchmark.Prelude.{
  ℕ, ◌≤◌, ◌≡◌, ◌↔◌, Bool, true, false, not, ◌&&◌, String, some, ltb, ◌==◌, nat_eq, All, All-imply,
  All-zip, for_each, for_each-All, ok, >>=-eq-ok, >>-eq-ok, ok-injective, raise_if, raise_if-eq-ok,
  value_error, Option-cases, inl, inr, arith,
}
use fog_http_benchmark.Json.{Json, JsonObject, empty, entry, str, find?, get, has}
use fog_http_benchmark.Schema.Fields.{require_object, require_string, require_integer}
use fog_http_benchmark.Schema.Fields.{is_null}
use fog_http_benchmark.Schema.Resources.{
  ResourceMetricCoverage, ResourceCoverage, resource_coverage_field, validate_resource_coverage,
  coverage_record, coverage_entries, string_list, validate_observation, bool_eq,
}

-- A metric of a row was available in at most the expected observations, and the row has a value
-- for it other than null exactly if it was available in one.
pub record IsCovered (row : JsonObject) (entry : String × ResourceMetricCoverage) : Type 0 where
  pub bounded : (entry.1).available ≤ (entry.1).expected
  pub value : Json
  pub found : find? row entry.0 ≡ some value
  pub measured : (is_null value ≡ true) ↔ ((entry.1).available ≡ 0)

coverage_record-le :
    (v : Json) (c : ResourceMetricCoverage) → coverage_record v ≡ ok c → c.available ≤ c.expected
unfolding coverage_record
coverage_record-le v c h =
    let (value, _, h) = >>=-eq-ok (require_object v) _ h in
    let (available, _, h) = >>=-eq-ok (require_integer (get value "available") 0) _ h in
    let (expected, _, h) = >>=-eq-ok (require_integer (get value "expected") 0) _ h in
    let (bound, h) = >>-eq-ok (raise_if (ltb expected available) value_error) _ h in
    let (reasons, _, h) = >>=-eq-ok (string_list (get value "unavailable_reasons")) _ h in
    let same = ok-injective h in
    rw (← same) (not_above available expected (raise_if-eq-ok _ _ bound.1))
  where
    not_above : (a e : ℕ) → ltb e a ≡ false → a ≤ e
    not_above a e h = ground arith

-- the entries of a coverage are bounded
abbrev AreBounded : ResourceCoverage → Type 0
AreBounded = All (λ (e : String × ResourceMetricCoverage). (e.1).available ≤ (e.1).expected)

coverage_entries-AreBounded :
    (o : JsonObject) (coverage : ResourceCoverage)
    → coverage_entries o ≡ ok coverage
    → AreBounded coverage
unfolding coverage_entries
coverage_entries-AreBounded empty coverage h = rw (← ok-injective h) tt
coverage_entries-AreBounded (entry metric observation rest) coverage h =
    let (_, h) = >>-eq-ok (require_string (str metric)) _ h in
    let (this, read, h) = >>=-eq-ok (coverage_record observation) _ h in
    let (others, found, h) = >>=-eq-ok (coverage_entries rest) _ h in
    let same = ok-injective h in
    rw (← same)
      (coverage_record-le observation this read, coverage_entries-AreBounded rest others found)

resource_coverage_field-AreBounded :
    (row : JsonObject) (coverage : ResourceCoverage)
    → resource_coverage_field row ≡ ok coverage
    → AreBounded coverage
unfolding resource_coverage_field
resource_coverage_field-AreBounded row coverage h =
    elim (Option-cases (find? row "resource_coverage")) [
      | inl missing ↦ let h = rw (missing, resource_coverage_field) at h in rw (← ok-injective h) tt
      | inr found ↦
          let (value, here) = found in
          let h = rw (here, resource_coverage_field) at h in
          let (o, _, h) = >>=-eq-ok (require_object value) _ h in
          coverage_entries-AreBounded o coverage h
    ]

validate_observation-measured :
    (row : JsonObject) (metric : String) (c : ResourceMetricCoverage)
    → validate_observation row (metric, c) ≡ ok tt
    → (value : Json) × (find? row metric ≡ some value)
      × ((is_null value ≡ true) ↔ (c.available ≡ 0))
unfolding validate_observation bool_eq
validate_observation-measured row metric c h = elim (Option-cases (find? row metric)) [
  | inl missing ↦ let h = rw (missing, validate_observation) at h in cc h
  | inr found ↦
      let (value, here) = found in
      let h = rw (here, validate_observation) at h in
      (value, here, agree (is_null value) c.available (raise_if-eq-ok _ _ h))
]
  where
    agree :
        (null : Bool) (available : ℕ)
        → not (bool_eq null (available == 0)) ≡ false
        → (null ≡ true) ↔ (available ≡ 0)
    agree true available h = ground arith
    agree false available h = ground arith

-- An accepted coverage of a row bounds what it counts: each metric was available in at most the
-- expected observations, and the row has a value for the metric other than null exactly if it was
-- available in at least one.
pub validate_resource_coverage-IsCovered :
    (row : JsonObject) (current : Bool) (coverage : ResourceCoverage)
    → validate_resource_coverage row current ≡ ok coverage
    → All (IsCovered row) coverage
unfolding validate_resource_coverage
validate_resource_coverage-IsCovered row current coverage h =
    let (_, h) =
      >>-eq-ok (raise_if (current && not (has row "resource_coverage")) value_error) _ h in
    let (found, read, h) = >>=-eq-ok (resource_coverage_field row) _ h in
    let (checked, h) = >>-eq-ok (for_each (validate_observation row) found) _ h in
    let same = ok-injective h in
    rw (← same) (covered found (resource_coverage_field-AreBounded row found read) checked.1)
  where
    covered :
        (found : ResourceCoverage)
        → AreBounded found
        → for_each (validate_observation row) found ≡ ok tt
        → All (IsCovered row) found
    covered found bounded h =
        All-imply found
          (λ e f.
            let seen = validate_observation-measured row e.0 e.1 f.1 in
            record { bounded = f.0; value = seen.0; found = seen.1; measured = seen.2 })
          (All-zip _ _ found bounded (for_each-All (validate_observation row) found h))
