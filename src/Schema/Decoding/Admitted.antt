-- ===== src/Schema/Decoding/Admitted.antt =====
-- Theorems about the reports that `decode_report_payload` accepts.
use fog_http_benchmark.Prelude.{
  ◌≡◌, refl, true, false, not, ◌&&◌, String, Option, none, some, List, map, contains, string_eq,
  All, ok, >>=-eq-ok, >>-eq-ok, ok-injective, raise_if, raise_if-eq-ok, value_error, IsDistinct,
  arith, if◌then◌else◌,
}
use fog_http_benchmark.Json.{Json, str, obj, JsonObject, find?, find?-set, get, has, set}
use fog_http_benchmark.Runtime.{Runtime}
use fog_http_benchmark.Schema.Fields.{require_object, require_rows, validate_finite_json}
use fog_http_benchmark.Schema.Identity.{
  Identity, aggregate_identity, validate_unique_aggregate_rows,
}
use fog_http_benchmark.Schema.Identity.Unique.{validate_unique_aggregate_rows_iff}
use fog_http_benchmark.Schema.Tables.{operation_suites}
use fog_http_benchmark.Schema.Ordinary.{validate_ordinary_rows}
use fog_http_benchmark.Schema.Ordinary.Rows.{
  IsAccounted, IsAccountedRun, validate_ordinary_rows-IsAccounted,
}
use fog_http_benchmark.Schema.Decoding.{
  DecodedReport, decode_report_payload, decode_rows, is_research_report, expected_matches, migrated,
  validate_ordinary_report,
}
use fog_http_benchmark.Schema.Layouts.{report_suite, validate_layout_markers}
use fog_http_benchmark.Schema.Metadata.{
  validate_metadata, validate_isolation_metadata, validate_research_rows, check_present,
  validate_recorded_validity,
}

module _ ⦃r : Runtime⦄ where
  -- The suite is recorded in the metadata, and the aggregate rows have distinct identities.
  pub record IsAdmitted (report : DecodedReport) : Type 0 where
    pub recorded : find? report.metadata "suite" ≡ some (str report.suite)
    pub distinct :
        (ids : List Identity) × (map (aggregate_identity report.suite) report.aggregate_rows
          ≡ map ok ids)
        × IsDistinct ids

  -- The rows and the runs of a report are accounted for, where its suite counts requests and it has
  -- no research profile.
  abbrev pub Accounted : DecodedReport → Type 0
  Accounted report =
      contains report.suite operation_suites ≡ false
      → is_research_report report.suite report.metadata report.aggregate_rows ≡ false
      → All (IsAccounted report.suite) report.aggregate_rows
        × All (IsAccountedRun report.suite) report.run_rows

  ordinary_report-IsAccounted :
      (suite : String) (metadata : JsonObject) (aggregate runs : List JsonObject)
      → contains suite operation_suites ≡ false
      → validate_ordinary_report suite metadata aggregate runs ≡ ok tt
      → All (IsAccounted suite) aggregate × All (IsAccountedRun suite) runs
  unfolding validate_ordinary_report
  ordinary_report-IsAccounted suite metadata aggregate runs counted h =
      let (_, h) = >>-eq-ok (validate_layout_markers suite aggregate false) _ h in
      let (_, h) = >>-eq-ok (validate_layout_markers suite runs true) _ h in
      let (rows, _) = >>-eq-ok (validate_ordinary_rows suite aggregate runs) _ h in
      validate_ordinary_rows-IsAccounted suite aggregate runs counted rows.1

  rows-IsAccounted :
      (suite : String) (metadata : JsonObject) (aggregate runs : List JsonObject)
      → (if is_research_report suite metadata aggregate
          then validate_research_rows aggregate
          else validate_ordinary_report suite metadata aggregate runs)
        ≡ ok tt
      → contains suite operation_suites ≡ false
      → is_research_report suite metadata aggregate ≡ false
      → All (IsAccounted suite) aggregate × All (IsAccountedRun suite) runs
  rows-IsAccounted suite metadata aggregate runs h counted ordinary =
      ordinary_report-IsAccounted suite metadata aggregate runs counted (rw ordinary at h)

  decode_rows_lem :
      (suite : String) (metadata : JsonObject) (raw_aggregate raw_runs : List JsonObject)
      (report : DecodedReport)
      → find? metadata "suite" ≡ some (str suite)
      → decode_rows suite metadata raw_aggregate raw_runs ≡ ok report
      → IsAdmitted report × Accounted report × (report.suite ≡ suite)
  unfolding decode_rows
  decode_rows_lem suite metadata raw_aggregate raw_runs report named h =
      let (_, h) = >>-eq-ok (validate_metadata metadata suite) _ h in
      let (_, h) = >>-eq-ok (validate_isolation_metadata metadata) _ h in
      let (aggregate, _, h) =
        >>=-eq-ok (migrated (has metadata "report_schema_version") suite raw_aggregate) _ h in
      let (runs, _, h) =
        >>=-eq-ok (migrated (has metadata "report_schema_version") suite raw_runs) _ h in
      let (rows, h) =
        >>-eq-ok
          (if is_research_report suite metadata aggregate
            then validate_research_rows aggregate
            else validate_ordinary_report suite metadata aggregate runs)
          _ h in
      let (_, h) = >>-eq-ok (check_present metadata "validity" validate_recorded_validity) _ h in
      let (unique, h) = >>-eq-ok (validate_unique_aggregate_rows suite aggregate none) _ h in
      let same = ok-injective h in
      rw (← same) (
        record {
          recorded = named;
          distinct = (validate_unique_aggregate_rows_iff suite aggregate).0 unique.1;
        },
        rows-IsAccounted suite metadata aggregate runs rows.1,
        refl,
      )

  decode_report_payload_lem :
      (value : Json) (expected_suite : Option String) (report : DecodedReport)
      → decode_report_payload value expected_suite ≡ ok report
      → IsAdmitted report × Accounted report × (expected_matches expected_suite report.suite ≡ true)
  unfolding decode_report_payload
  decode_report_payload_lem value expected_suite report h =
      let (payload, _, h) = >>=-eq-ok (require_object value) _ h in
      let (_, h) = >>-eq-ok (validate_finite_json (obj payload)) _ h in
      let (metadata, _, h) = >>=-eq-ok (require_object (get payload "metadata")) _ h in
      let (aggregate, _, h) = >>=-eq-ok (require_rows (get payload "aggregate")) _ h in
      let (runs, _, h) = >>=-eq-ok (require_rows (get payload "runs")) _ h in
      let (_, h) =
        >>-eq-ok
          (raise_if (has metadata "report_schema_version" && not (has metadata "suite"))
            value_error)
          _ h in
      let (suite, _, h) = >>=-eq-ok (report_suite metadata aggregate) _ h in
      let (matched, h) =
        >>-eq-ok (raise_if (not (expected_matches expected_suite suite)) value_error) _ h in
      let named = find?-set metadata "suite" "suite" (str suite) in
      let (admitted, accounted, same) =
        decode_rows_lem suite (set metadata "suite" (str suite)) aggregate runs report named h in
      (admitted, accounted, rw same (ground (arith, raise_if-eq-ok _ _ matched.1)))

  -- A report that the decoder accepts records its suite in its metadata, which is the suite that
  -- was asked for if one was, and its aggregate rows have distinct identities.
  pub decode_report_payload-IsAdmitted :
      (value : Json) (expected_suite : Option String) (report : DecodedReport)
      → decode_report_payload value expected_suite ≡ ok report
      → IsAdmitted report × (expected_matches expected_suite report.suite ≡ true)
  decode_report_payload-IsAdmitted value expected_suite report h =
      let (admitted, _, matched) = decode_report_payload_lem value expected_suite report h in
      (admitted, matched)

  -- In a report that the decoder accepts, whose suite counts requests and which has no research
  -- profile, every aggregate row and every run is accounted for.
  pub decode_report_payload-IsAccounted :
      (value : Json) (expected_suite : Option String) (report : DecodedReport)
      → decode_report_payload value expected_suite ≡ ok report
      → contains report.suite operation_suites ≡ false
      → is_research_report report.suite report.metadata report.aggregate_rows ≡ false
      → All (IsAccounted report.suite) report.aggregate_rows
        × All (IsAccountedRun report.suite) report.run_rows
  decode_report_payload-IsAccounted value expected_suite report h counted ordinary =
      (decode_report_payload_lem value expected_suite report h).1 counted ordinary
