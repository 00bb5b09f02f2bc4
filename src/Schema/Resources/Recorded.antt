-- ===== src/Schema/Resources/Recorded.antt =====
-- Theorems about the coverage of rows beside the runs, of report_schema/resources.py.
use fog_http_benchmark.Prelude.{
  sym, ap, ◌∙◌, true, Bool-cases, err, keep, lookup, ok-injective, ℕ, ◌≡◌, refl, ◌⊎◌, inl, inr,
  Bool, false, not, String, none, List, [], ◌∷◌, length, ◌==◌, nat_eq, string_eq, list_eq, All,
  All-imply, for_each, for_each-All, traverse, ok, ◌>>=◌, ◌>>◌, >>=-eq-ok, >>-eq-ok, raise_if,
  raise_if-eq-ok, value_error, if◌then◌else◌, arith,
}
use fog_http_benchmark.Json.{JsonObject, get}
use fog_http_benchmark.Runtime.{Runtime}
use fog_http_benchmark.Schema.Fields.{require_integer}
use fog_http_benchmark.Schema.Tables.{raw_resource_fields, client_stat_fields}
use fog_http_benchmark.Schema.Fields.Reads.{Holds, require_integer_iff}
use fog_http_benchmark.Schema.Identity.{Identity, aggregate_identity}
use fog_http_benchmark.Schema.Resources.Counted.{records_metric, recorded_observations_lem}
use fog_http_benchmark.Schema.Resources.{
  ResourceMetricCoverage, ResourceCoverage, validate_resource_coverage, recorded_observations,
  matches_recorded, validate_recorded, validate_resource_observations, runs_of, run_group_entry,
  is_empty, validate_row_coverage, validate_ordinary_resource_coverage,
}

-- The metric is none that runs record, or as many of the runs recorded it as its coverage says.
abbrev pub IsCounted : List JsonObject → String × ResourceMetricCoverage → Type 0
IsCounted runs entry =
    ((lookup (entry.0) raw_resource_fields ≡ none) × (lookup (entry.0) client_stat_fields ≡ none))
    ⊎ ((entry.1).available ≡ length (keep (records_metric (entry.0)) runs))

module _ ⦃r : Runtime⦄ where
  -- the run has this identity
  abbrev pub has_identity : String → Identity → JsonObject → Bool
  has_identity suite identity run = elim (aggregate_identity suite run) [
    | err e ↦ false
    | ok i ↦ identity == i
  ]

  -- Where there are runs, those of the identity of the row are as many as its repeats, and they
  -- recorded what is covered.
  abbrev pub IsBacked : String → List JsonObject → JsonObject → ℕ → ResourceCoverage → Type 0
  IsBacked suite runs row repeats coverage =
      (runs ≡ [])
      ⊎ ((identity : Identity) × (aggregate_identity suite row ≡ ok identity)
          × (length (keep (has_identity suite identity) runs) ≡ repeats)
          × All (IsCounted (keep (has_identity suite identity) runs)) coverage)

  -- A row without coverage, or one whose metrics are expected once for each repeat.
  pub record IsObserved (suite : String) (runs : List JsonObject) (current : Bool)
      (row : JsonObject) : Type 0 where
    pub coverage : ResourceCoverage
    pub read : validate_resource_coverage row current ≡ ok coverage
    pub observed :
        (coverage ≡ [])
        ⊎ ((repeats : ℕ) × Holds (get row "repeats") repeats
            × All (λ (c : String × ResourceMetricCoverage). (c.1).expected ≡ repeats) coverage
            × IsBacked suite runs row repeats coverage)

  -- The groups of runs that the code builds hold the runs of each identity.
  runs_of-keep :
      (suite : String) (identity : Identity) (runs : List JsonObject)
      (groups : List (Identity × JsonObject))
      → traverse (run_group_entry suite) runs ≡ ok groups
      → runs_of identity groups ≡ keep (has_identity suite identity) runs
  unfolding traverse run_group_entry runs_of keep
  runs_of-keep suite identity [] groups h = rw (← ok-injective h) refl
  runs_of-keep suite identity (run ∷ runs) groups h =
      let (g, grouped, h) = >>=-eq-ok (run_group_entry suite run) _ h in
      let (i, named, grouped) = >>=-eq-ok (aggregate_identity suite run) _ grouped in
      let (rest, others, h) = >>=-eq-ok (traverse (run_group_entry suite) runs) _ h in
      let later = runs_of-keep suite identity runs rest others in
      elim (Bool-cases (identity == i)) [
        | inl same ↦
            let kept : has_identity suite identity run ≡ true = rw (named, has_identity) same in
            rw (← ok-injective h, ← ok-injective grouped, same, kept, runs_of, keep)
              (ap (λ rest. run ∷ rest) later)
        | inr other ↦
            let dropped : has_identity suite identity run ≡ false =
              rw (named, has_identity) other in
            rw (← ok-injective h, ← ok-injective grouped, other, dropped, runs_of, keep) later
      ]

  no_groups :
      (suite : String) (runs : List JsonObject)
      → traverse (run_group_entry suite) runs ≡ ok []
      → runs ≡ []
  unfolding traverse
  no_groups suite [] h = refl
  no_groups suite (run ∷ runs) h =
      let (g, _, h) = >>=-eq-ok (run_group_entry suite run) _ h in
      let (rest, _, h) = >>=-eq-ok (traverse (run_group_entry suite) runs) _ h in cc h

  validate_recorded-IsCounted :
      (runs : List JsonObject) (entry : String × ResourceMetricCoverage)
      → validate_recorded runs entry ≡ ok tt
      → IsCounted runs entry
  unfolding validate_recorded matches_recorded
  validate_recorded-IsCounted runs (metric, c) h =
      let (found, read, h) = >>=-eq-ok (recorded_observations metric runs) _ h in
      elim (recorded_observations_lem metric runs found read) [
        | inl (not_raw, unknown, _) ↦ inl (not_raw, unknown)
        | inr counted ↦ let h = rw counted at h in inr (ground (arith, raise_if-eq-ok _ _ h))
      ]

  backed :
      (suite : String) (runs : List JsonObject) (groups : List (Identity × JsonObject))
      (row : JsonObject) (repeats : ℕ) (coverage : ResourceCoverage)
      → traverse (run_group_entry suite) runs ≡ ok groups
      → (if is_empty groups
          then ok tt
          else (aggregate_identity suite row >>= λ identity.
              raise_if (not (length (runs_of identity groups) == repeats)) value_error
              >> validate_resource_observations coverage (runs_of identity groups)))
        ≡ ok tt
      → IsBacked suite runs row repeats coverage
  unfolding is_empty validate_resource_observations
  backed suite runs [] row repeats coverage grouped h = inl (no_groups suite runs grouped)
  backed suite runs (g ∷ groups) row repeats coverage grouped h =
      let (identity, named, h) = >>=-eq-ok (aggregate_identity suite row) _ h in
      let (enough, h) =
        >>-eq-ok (raise_if (not (length (runs_of identity (g ∷ groups)) == repeats)) value_error) _
          h in
      let counted = for_each-All (validate_recorded (runs_of identity (g ∷ groups))) coverage h in
      let own = runs_of-keep suite identity runs (g ∷ groups) grouped in
      let many : length (runs_of identity (g ∷ groups)) ≡ repeats =
        ground (arith, raise_if-eq-ok _ _ enough.1) in
      inr (
        identity,
        named,
        sym (ap length own) ∙ many,
        rw (← own) (
            All-imply coverage (validate_recorded-IsCounted (runs_of identity (g ∷ groups)))
              counted),
      )

  All-expected :
      (repeats : ℕ) (coverage : ResourceCoverage)
      → for_each
          (λ (c : String × ResourceMetricCoverage).
            raise_if (not ((c.1).expected == repeats)) value_error)
          coverage
        ≡ ok tt
      → All (λ (c : String × ResourceMetricCoverage). (c.1).expected ≡ repeats) coverage
  All-expected repeats coverage h =
      All-imply coverage
        (λ c e. ground (arith, raise_if-eq-ok (not ((c.1).expected == repeats)) value_error e))
        (for_each-All
          (λ (c : String × ResourceMetricCoverage).
            raise_if (not ((c.1).expected == repeats)) value_error)
          coverage h)

  row_coverage-IsObserved :
      (suite : String) (runs : List JsonObject) (groups : List (Identity × JsonObject))
      (current : Bool) (row : JsonObject)
      → traverse (run_group_entry suite) runs ≡ ok groups
      → validate_row_coverage suite groups current row ≡ ok tt
      → IsObserved suite runs current row
  unfolding validate_row_coverage is_empty
  row_coverage-IsObserved suite runs groups current row grouped h =
      let (coverage, read, h) = >>=-eq-ok (validate_resource_coverage row current) _ h in
      record { coverage = coverage; read = read; observed = seen coverage h }
    where
      seen :
          (coverage : ResourceCoverage)
          → (if is_empty coverage
              then ok tt
              else (require_integer (get row "repeats") 1 >>= λ repeats.
                  for_each (λ c. raise_if (not (c.1.expected == repeats)) value_error) coverage
                  >> (if is_empty groups
                      then ok tt
                      else (aggregate_identity suite row >>= λ identity.
                          raise_if (not (length (runs_of identity groups) == repeats)) value_error
                          >> validate_resource_observations coverage (runs_of identity groups)))))
            ≡ ok tt
          → (coverage ≡ [])
            ⊎ ((repeats : ℕ) × Holds (get row "repeats") repeats
                × All (λ (c : String × ResourceMetricCoverage). (c.1).expected ≡ repeats) coverage
                × IsBacked suite runs row repeats coverage)
      seen [] h = inl refl
      seen (entry ∷ rest) h =
          let (repeats, held, h) = >>=-eq-ok (require_integer (get row "repeats") 1) _ h in
          let (expected, h) =
            >>-eq-ok
              (for_each
                (λ (c : String × ResourceMetricCoverage).
                  raise_if (not ((c.1).expected == repeats)) value_error)
                (entry ∷ rest))
              _ h in
          inr (
            repeats,
            ((require_integer_iff _ 1 repeats).0 held).0,
            All-expected repeats (entry ∷ rest) expected.1,
            backed suite runs groups row repeats (entry ∷ rest) grouped h,
          )

  -- the run has an identity
  abbrev pub IsIdentified : String → JsonObject → Type 0
  IsIdentified suite run = (identity : Identity) × (aggregate_identity suite run ≡ ok identity)

  runs-IsIdentified :
      (suite : String) (runs : List JsonObject) (groups : List (Identity × JsonObject))
      → traverse (run_group_entry suite) runs ≡ ok groups
      → All (IsIdentified suite) runs
  unfolding traverse run_group_entry
  runs-IsIdentified suite [] groups h = tt
  runs-IsIdentified suite (run ∷ runs) groups h =
      let (g, grouped, h) = >>=-eq-ok (run_group_entry suite run) _ h in
      let (identity, named, _) = >>=-eq-ok (aggregate_identity suite run) _ grouped in
      let (rest, others, h) = >>=-eq-ok (traverse (run_group_entry suite) runs) _ h in
      ((identity, named), runs-IsIdentified suite runs rest others)

  -- An accepted coverage of resource metrics agrees with the runs, each of which has an identity: a
  -- row with covered metrics expects one observation of each for each of its repeats; and if the
  -- report has runs, as many of them have the identity of the row as it has repeats, and as many of
  -- these recorded a covered metric, if runs record it at all, as the coverage says.
  pub validate_ordinary_resource_coverage-IsObserved :
      (suite : String) (aggregates runs : List JsonObject) (current : Bool)
      → validate_ordinary_resource_coverage suite aggregates runs current ≡ ok tt
      → All (IsIdentified suite) runs × All (IsObserved suite runs current) aggregates
  unfolding validate_ordinary_resource_coverage
  validate_ordinary_resource_coverage-IsObserved suite aggregates runs current h =
      let (groups, grouped, h) = >>=-eq-ok (traverse (run_group_entry suite) runs) _ h in
      let rows = for_each-All (validate_row_coverage suite groups current) aggregates h in
      (
        runs-IsIdentified suite runs groups grouped,
        All-imply aggregates (λ row. row_coverage-IsObserved suite runs groups current row grouped)
            rows,
      )
