-- ===== src/Compare/Comparable.antt =====
-- Theorems about the checks before a comparison, of compare/analysis.py.
use fog_http_benchmark.Prelude.{
  ◌≡◌, refl, sym, ap, ◌∙◌, ◌⊎◌, inl, inr, Bool, true, false, not, ◌&&◌, ◌||◌, String, Option, none,
  some, ◌==◌, string_eq, eq_iff, ok, value_error, >>=-eq-ok, >>-eq-ok, raise_if, raise_if-eq-ok,
  Bool-cases, arith, if◌then◌else◌,
}
use fog_http_benchmark.Json.{Json, null, bool, int, float, str, arr, obj, json_eq, number_of}
use fog_http_benchmark.Schema.Fields.{is_null}
use fog_http_benchmark.Runtime.{Runtime}
use fog_http_benchmark.Evidence.{harness_fingerprint}
use fog_http_benchmark.Timing.{TimingScope, report_timing_scope}
use fog_http_benchmark.Timing.Agreement.{validate_timing_compatibility_iff}
use fog_http_benchmark.Compare.{
  BenchmarkReport, foghttp_source, fingerprint_eq, measures_bytes, is_known_axis, is_source_axis,
  validate_provenance, validate_comparable_reports,
}

module _ ⦃r : Runtime⦄ where
  -- Both reports have one harness fingerprint, or neither has one, which is what a manifest that is
  -- missing or malformed has.
  abbrev pub SameHarness : BenchmarkReport → BenchmarkReport → Type 0
  SameHarness old_report new_report =
      ((fingerprint : String) × (harness_fingerprint old_report.metadata ≡ ok (some fingerprint))
        × (harness_fingerprint new_report.metadata ≡ ok (some fingerprint)))
      ⊎ ((harness_fingerprint old_report.metadata ≡ ok none)
          × (harness_fingerprint new_report.metadata ≡ ok none))

  -- Both reports record one source revision of FogHTTP, or neither records one.
  abbrev pub SameSource : BenchmarkReport → BenchmarkReport → Type 0
  SameSource old_report new_report =
      ((foghttp_source old_report ≡ null) × (foghttp_source new_report ≡ null))
      ⊎ ((is_null (foghttp_source old_report) ≡ false)
          × (is_null (foghttp_source new_report) ≡ false)
          × (json_eq (foghttp_source old_report) (foghttp_source new_report) ≡ true))

  pub record SameProvenance (old_report new_report : BenchmarkReport) (axis : Option String)
      : Type 0 where
    pub harness : SameHarness old_report new_report
    pub source : SameSource old_report new_report ⊎ (axis ≡ some "foghttp-source")

  -- One suite, one timing scope, and for reports that measure bytes one provenance.
  pub record AreComparable (old_report new_report : BenchmarkReport) (axis : Option String)
      : Type 0 where
    pub known : (old_report.suite == "unknown") ≡ false
    pub suites : old_report.suite ≡ new_report.suite
    pub scope : TimingScope
    pub old_scope :
        report_timing_scope old_report.suite old_report.metadata old_report.aggregate_rows
          (some old_report.run_rows)
        ≡ ok scope
    pub new_scope :
        report_timing_scope old_report.suite new_report.metadata new_report.aggregate_rows
          (some new_report.run_rows)
        ≡ ok scope
    pub provenance :
        ((measures_bytes old_report || measures_bytes new_report) ≡ false)
        ⊎ SameProvenance old_report new_report axis

  fingerprint_eq_lem : (a b : Option String) → fingerprint_eq a b ≡ true → a ≡ b
  fingerprint_eq_lem none none h = refl
  fingerprint_eq_lem none (some b) h = cc h
  fingerprint_eq_lem (some a) none h = cc h
  fingerprint_eq_lem (some a) (some b) h = cc ((eq_iff a b).0 h)

  same_harness :
      (old_report new_report : BenchmarkReport) (a b : Option String)
      → harness_fingerprint old_report.metadata ≡ ok a
      → harness_fingerprint new_report.metadata ≡ ok b
      → a ≡ b
      → SameHarness old_report new_report
  same_harness old_report new_report none b old new same = inr (old, new ∙ ap ok (sym same))
  same_harness old_report new_report (some a) b old new same = inl (a, old, new ∙ ap ok (sym same))

  same_values :
      (v w : Json)
      → json_eq v w ≡ true
      → ((v ≡ null) × (w ≡ null))
        ⊎ ((is_null v ≡ false) × (is_null w ≡ false) × (json_eq v w ≡ true))
  unfolding json_eq is_null number_of
  same_values null null h = inl (refl, refl)
  same_values null w h = cc h
  same_values (bool true) null h = cc h
  same_values (bool false) null h = cc h
  same_values (int n) null h = cc h
  same_values (float x) null h = cc h
  same_values (str a) null h = cc h
  same_values (arr a) null h = cc h
  same_values (obj a) null h = cc h
  same_values v w h = inr (refl, refl, h)

  is_source_axis_lem :
      (axis : Option String) → is_source_axis axis ≡ true → axis ≡ some "foghttp-source"
  unfolding is_source_axis
  is_source_axis_lem none h = cc h
  is_source_axis_lem (some a) h = cc ((eq_iff a "foghttp-source").0 h)

  validate_provenance-SameProvenance :
      (old_report new_report : BenchmarkReport) (axis : Option String)
      → validate_provenance old_report new_report axis ≡ ok tt
      → SameProvenance old_report new_report axis
  unfolding validate_provenance
  validate_provenance-SameProvenance old_report new_report axis h =
      let (old_harness, old, h) = >>=-eq-ok (harness_fingerprint old_report.metadata) _ h in
      let (new_harness, new, h) = >>=-eq-ok (harness_fingerprint new_report.metadata) _ h in
      let (same, h) =
        >>-eq-ok (raise_if (not (fingerprint_eq old_harness new_harness)) value_error) _ h in
      agreed old_harness new_harness old new (raise_if-eq-ok _ _ same.1) (raise_if-eq-ok _ _ h)
    where
      agreed :
          (a b : Option String)
          → harness_fingerprint old_report.metadata ≡ ok a
          → harness_fingerprint new_report.metadata ≡ ok b
          → not (fingerprint_eq a b) ≡ false
          → (not (json_eq (foghttp_source old_report) (foghttp_source new_report))
              && not (is_source_axis axis))
            ≡ false
          → SameProvenance old_report new_report axis
      agreed a b old new same sources = record {
        harness =
            same_harness old_report new_report a b old new
              (fingerprint_eq_lem a b (ground (arith, same)));
        source = elim (Bool-cases (is_source_axis axis)) [
          | inl compared ↦ inr (is_source_axis_lem axis compared)
          | inr fixed ↦ inl (same_values _ _ (ground (arith, fixed, sources)))
        ];
      }

  -- Two reports that are accepted for a comparison have one known suite and one timing scope; and if
  -- either measures bytes, both have one harness fingerprint or neither has any, and, unless the
  -- source is the axis of the comparison, both record one source revision of FogHTTP or neither any.
  pub validate_comparable_reports-AreComparable :
      (old_report new_report : BenchmarkReport) (axis : Option String)
      → validate_comparable_reports old_report new_report axis ≡ ok tt
      → AreComparable old_report new_report axis
  unfolding validate_comparable_reports
  validate_comparable_reports-AreComparable old_report new_report axis h =
      let (known, h) =
        >>-eq-ok
          (raise_if (old_report.suite == "unknown" || new_report.suite == "unknown") value_error) _
          h in
      let (same, h) =
        >>-eq-ok (raise_if (not (old_report.suite == new_report.suite)) value_error) _ h in
      let (_, h) = >>-eq-ok (raise_if (not (is_known_axis axis)) value_error) _ h in
      let (traced, h) =
        >>-eq-ok
          (if measures_bytes old_report || measures_bytes new_report
            then validate_provenance old_report new_report axis
            else ok tt)
          _ h in
      let (scope, old, new) =
        (validate_timing_compatibility_iff old_report.suite old_report.metadata
            old_report.aggregate_rows new_report.metadata new_report.aggregate_rows
            (some old_report.run_rows) (some new_report.run_rows)).0
          h in
      record {
        known = ground (arith, raise_if-eq-ok _ _ known.1);
        suites =
            (eq_iff old_report.suite new_report.suite).0
              (ground (arith, raise_if-eq-ok _ _ same.1));
        scope = scope;
        old_scope = old;
        new_scope = new;
        provenance = traceable _ refl traced.1;
      }
    where
      traceable :
          (b : Bool)
          → (measures_bytes old_report || measures_bytes new_report) ≡ b
          → (if b then validate_provenance old_report new_report axis else ok tt) ≡ ok tt
          → ((measures_bytes old_report || measures_bytes new_report) ≡ false)
            ⊎ SameProvenance old_report new_report axis
      traceable false other h = inl other
      traceable true either h =
          inr (validate_provenance-SameProvenance old_report new_report axis h)
