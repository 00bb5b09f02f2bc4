-- ===== src/Isolation/Finalized.antt =====
-- Theorems about the checks of merged reports in isolation/reports.py.
use fog_http_benchmark.Prelude.{
  ◌≡◌, sym, ap, ◌∙◌, Bool, true, false, not, ◌||◌, String, none, List, [], ◌∷◌, map, arith, ◌==◌,
  string_eq, list_eq, list_beq_iff, Result, ok, value_error, >>=-eq-ok, >>-eq-ok, ok-injective,
  raise_if, raise_if-eq-ok, any, all, contains, traverse, traverse-map, All, All-imply, all-All,
  IsDistinct,
}
use fog_http_benchmark.Json.{JsonObject, has}
use fog_http_benchmark.Runtime.{Runtime}
use fog_http_benchmark.Schema.Identity.{
  Identity, aggregate_identity, validate_unique_aggregate_rows,
}
use fog_http_benchmark.Schema.Identity.Unique.{validate_unique_aggregate_rows_iff}
use fog_http_benchmark.Timing.{TimingScope, scope_eq, scope_text}
use fog_http_benchmark.Timing.Agreement.{scope_eq_iff}
use fog_http_benchmark.Compare.Loaded.{map_ok-injective}
use fog_http_benchmark.Isolation.{
  MergedSuiteReport, reserved_metadata, object_keys, is_reserved, report_metadata,
  finalize_merged_data, child_timing_scope, the_scope, merged_timing_scope,
}

true_of_not : (b : Bool) → not b ≡ false → b ≡ true
true_of_not b h = ground arith

equal_scopes :
    {A : Type 0} (f : A → Result TimingScope) (xs : List A) (scopes : List TimingScope)
    (scope : TimingScope)
    → traverse f xs ≡ ok scopes
    → All (λ s. s ≡ scope) scopes
    → All (λ x. f x ≡ ok scope) xs
unfolding traverse
equal_scopes f [] scopes scope h same = tt
equal_scopes f (x ∷ xs) scopes scope h same =
    let (s, this, h) = >>=-eq-ok (f x) _ h in
    let (rest, others, h) = >>=-eq-ok (traverse f xs) _ h in
    let both = rw (← ok-injective h) at same in
    (this ∙ ap ok both.0, equal_scopes f xs rest scope others both.1)

the_scope-All :
    (scopes : List TimingScope) {scope : TimingScope}
    → the_scope scopes ≡ ok scope
    → All (λ s. s ≡ scope) scopes
unfolding the_scope
the_scope-All [] h = tt
the_scope-All (first ∷ scopes) h =
    let (alike, h) =
      >>-eq-ok (raise_if (not (all (λ s. scope_eq s first) scopes)) value_error) _ h in
    let same = ok-injective h in
    (
      same,
      All-imply scopes (λ s e. (scope_eq_iff s first).0 e ∙ same)
          (all-All (λ s. scope_eq s first) scopes (true_of_not _ (raise_if-eq-ok _ _ alike.1))),
    )

any_none-All :
    {A : Type 0} (p : A → Bool) (xs : List A) → any p xs ≡ false → All (λ x. p x ≡ false) xs
unfolding any
any_none-All p [] h = tt
any_none-All p (x ∷ xs) h = (ground arith, any_none-All p xs (ground arith))

either_false : (a b : Bool) → (a || b) ≡ false → (a ≡ false) × (b ≡ false)
either_false a b h = ground arith

reserved_parts :
    (metadata : JsonObject) (keys : List String)
    → All (λ key. is_reserved metadata key ≡ false) keys
    → All (λ key. (has metadata key ≡ false) × (contains key reserved_metadata ≡ false)) keys
unfolding is_reserved
reserved_parts metadata [] h = tt
reserved_parts metadata (key ∷ keys) h =
    (either_false (has metadata key) _ h.0, reserved_parts metadata keys h.1)

module _ ⦃r : Runtime⦄ where
  -- The rows of a finalized report are those that were merged, by their identities in order, and its
  -- metadata replaces nothing.
  pub record IsFinalized (suite : String) (metadata : JsonObject) (rows : List JsonObject)
      (result : MergedSuiteReport) : Type 0 where
    pub identities : List Identity
    pub merged : traverse (aggregate_identity suite) rows ≡ ok identities
    pub finalized : traverse (aggregate_identity suite) result.aggregate_rows ≡ ok identities
    pub distinct : IsDistinct identities
    pub adds_only :
        All
          (λ key. (has metadata key ≡ false) × (contains key reserved_metadata ≡ false))
          (object_keys result.metadata)

  -- Whatever the finalizer of a suite does, a report that is accepted after it has the merged rows'
  -- identities in their order, each once, and adds no metadata under a key that the common metadata
  -- has or that is reserved.
  pub finalize_merged_data-IsFinalized :
      (suite : String) (metadata : JsonObject) (rows child_payloads : List JsonObject)
      (finalizer : List JsonObject → List JsonObject → Result MergedSuiteReport)
      (result : MergedSuiteReport)
      → finalize_merged_data suite metadata rows child_payloads finalizer ≡ ok result
      → IsFinalized suite metadata rows result
  unfolding finalize_merged_data
  finalize_merged_data-IsFinalized suite metadata rows child_payloads finalizer result h =
      let (ids, merged, h) = >>=-eq-ok (traverse (aggregate_identity suite) rows) _ h in
      let (report, returned, h) =
        >>=-eq-ok (finalizer rows (map report_metadata child_payloads)) _ h in
      let (unique, h) =
        >>-eq-ok (validate_unique_aggregate_rows suite report.aggregate_rows none) _ h in
      let (others, finalized, h) =
        >>=-eq-ok (traverse (aggregate_identity suite) report.aggregate_rows) _ h in
      let (same, h) = >>-eq-ok (raise_if (not (others == ids)) value_error) _ h in
      let (free, h) =
        >>-eq-ok (raise_if (any (is_reserved metadata) (object_keys report.metadata)) value_error) _
          h in
      let equal = (list_beq_iff others ids).0 (true_of_not _ (raise_if-eq-ok _ _ same.1)) in
      let (found, identified, distinct) =
        (validate_unique_aggregate_rows_iff suite report.aggregate_rows).0 unique.1 in
      let same_ids = map_ok-injective found others (
        sym identified
        ∙ traverse-map (aggregate_identity suite) report.aggregate_rows others finalized) in
      rw (← ok-injective h) (record {
        identities = ids;
        merged = merged;
        finalized = finalized ∙ ap ok equal;
        distinct = rw (← equal, ← same_ids) distinct;
        adds_only = reserved_parts metadata (object_keys report.metadata) (
            any_none-All (is_reserved metadata) (object_keys report.metadata)
              (raise_if-eq-ok _ _ free.1));
      })

  -- The children of a merged report have one timing scope, whose text is the merged one.
  pub merged_timing_scope-All :
      (suite : String) (child_payloads : List JsonObject) (text : String)
      → merged_timing_scope suite child_payloads ≡ ok text
      → (scope : TimingScope) × (scope_text scope ≡ text)
        × All (λ payload. child_timing_scope suite payload ≡ ok scope) child_payloads
  unfolding merged_timing_scope
  merged_timing_scope-All suite child_payloads text h =
      let (scopes, found, h) = >>=-eq-ok (traverse (child_timing_scope suite) child_payloads) _ h in
      let (scope, shared, h) = >>=-eq-ok (the_scope scopes) _ h in
      (
        scope,
        ok-injective h,
        equal_scopes (child_timing_scope suite) child_payloads scopes scope found
            (the_scope-All scopes shared),
      )
