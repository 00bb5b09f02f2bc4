-- ===== src/Validity/Attribution.antt =====
-- The evidence behind an async-bytes report: validity/attribution.py.
use fog_http_benchmark.Prelude.{
  ℕ, ◌*◌, Bool, true, false, not, ◌&&◌, ◌||◌, String, Option, none, some, List, [], ◌∷◌, ◌++◌, ltb,
  leb, ◌==◌, nat_eq, string_eq, if◌then◌else◌, Result, ok, err, ◌>>=◌,
}
use fog_http_benchmark.Prelude.Int.{pos, ℤ_eq}
use fog_http_benchmark.Prelude.Text.{concat}
use fog_http_benchmark.Json.{
  Json, null, int, float, obj, JsonObject, empty, get, json_eq, Float, is_finite, float_lt,
  float_le, float_of_int, whole,
}
use fog_http_benchmark.Runtime.{Runtime, is_text}
use fog_http_benchmark.Evidence.{hex_digest, condition_fingerprint, harness_fingerprint}
use fog_http_benchmark.Validity.Summary.{ValidityReason, ValidityStatus, invalid, needs_rerun}
use fog_http_benchmark.Validity.Helpers.{row_reference, validity_reason}
use fog_http_benchmark.Validity.Profiles.{uses_streaming_profile}
use fog_http_benchmark.Validity.Lifecycle.{
  variation_limit, is_truthy, is_true, aggregate_reasons, plan_case_reasons,
}

unfoldable pub object_value : Json → JsonObject
object_value (obj o) = o
object_value _ = empty

at_least : Float → Bool → Bool
at_least x allow_zero = float_le (whole 0) x && (allow_zero || float_lt (whole 0) x)

checked_number : Float → Bool → Option Float
unfolding at_least
checked_number x allow_zero = if is_finite x && at_least x allow_zero then some x else none

-- `math.isfinite` raises for an int beyond the largest float.
unfoldable pub positive_number : Json → Bool → Result (Option Float)
unfolding checked_number
positive_number (int n) allow_zero = float_of_int n >>= λ x. ok (checked_number x allow_zero)
positive_number (float x) allow_zero = ok (checked_number x allow_zero)
positive_number _ allow_zero = ok none

is_some_value {ℓ} : {A : Type ℓ} → Option A → Bool
is_some_value none = false
is_some_value (some a) = true

-- every key holds a number that is not negative; the first that does not ends the search
all_measured : JsonObject → List String → Result Bool
unfolding is_some_value
all_measured o [] = ok true
all_measured o (key ∷ keys) =
    let rest = all_measured o keys in
    positive_number (get o key) true >>= λ value. if is_some_value value then rest else ok false

integer_at_least : Json → ℕ → Bool
integer_at_least (int (pos n)) minimum = leb minimum n
integer_at_least _ minimum = false

-- `verified == expected * payload`, all ints and the last two positive
byte_product : Json → Json → Json → Bool
byte_product (int (pos expected)) (int (pos payload)) (int (pos verified)) =
    ltb 0 expected && ltb 0 payload && verified == expected * payload
byte_product _ _ _ = false

when {ℓ} : {A : Type ℓ} → Bool → A → List A
when true a = a ∷ []
when false a = []

-- The digest of the conditions is the recorded fingerprint.
matches_fingerprint : Result String → Json → Bool
matches_fingerprint (ok fingerprint) v = is_text v fingerprint
matches_fingerprint (err e) v = false

module _ ⦃r : Runtime⦄ where
  reason : ValidityStatus → String → String → JsonObject → ValidityReason
  reason status code message row = validity_reason status code message (row_reference row)

  valid_fingerprint : JsonObject → Bool
  unfolding matches_fingerprint
  valid_fingerprint value = elim (get value "conditions") [
    | obj conditions ↦
        matches_fingerprint (condition_fingerprint conditions) (get value "condition_fingerprint")
    | _ ↦ false
  ]

  unfoldable pub fingerprint_reasons : JsonObject → List ValidityReason
  unfolding valid_fingerprint reason when
  fingerprint_reasons value = when (not (valid_fingerprint value)) (
      reason invalid "attribution_conditions_invalid"
        "Measurement conditions or their canonical fingerprint are missing or inconsistent." value)

  cpu_reason : String → JsonObject → ValidityReason
  unfolding reason
  cpu_reason role row =
      reason needs_rerun "attribution_cpu_incomplete"
        (concat (
          "Separate " ∷ role
          ∷ " load CPU evidence is unavailable; retained reasons do not replace measurement." ∷ []))
        row

  cpu_reasons : JsonObject → String → Result (List ValidityReason)
  unfolding cpu_reason when
  cpu_reasons row role =
      let cpu = object_value (get (object_value (get row "cpu")) role) in
      if not (is_true (get cpu "complete"))
      then ok (cpu_reason role row ∷ [])
      else (all_measured cpu (
            "user_s_median" ∷ "system_s_median" ∷ "total_s_median"
            ∷ "cpu_seconds_per_verified_byte_median" ∷ "cpu_seconds_per_wall_second_median" ∷ [])
          >>= λ measured. ok (when (not measured) (cpu_reason role row)))

  overhead_reason : JsonObject → ValidityReason
  unfolding reason
  overhead_reason row =
      reason needs_rerun "attribution_overhead_incomplete"
        "Bounded replay did not qualify hashing/scalar overhead on the complete observed distribution."
        row

  unfoldable pub resource_evidence_reasons : JsonObject → Result (List ValidityReason)
  unfolding cpu_reasons overhead_reason all_measured when
  resource_evidence_reasons row = do
    client ← cpu_reasons row "client"
    server ← cpu_reasons row "server"
    let overhead = object_value (get row "overhead")
    let complete =
        is_true (get overhead "complete") && is_true (get overhead "distribution_complete")
    measured ←
        if complete
        then all_measured overhead
            ("scalar_only_s_median" ∷ "sha256_only_s_median" ∷ "combined_s_median" ∷ [])
        else ok false
    ok (client ++ server ++ when (not measured) (overhead_reason row))

  integrity_complete : JsonObject → Bool
  unfolding byte_product
  integrity_complete row =
      let configuration = object_value (get row "configuration") in
      let expected = get row "expected_streams_total" in
      byte_product expected (get configuration "body_bytes") (get row "verified_bytes_total")
      && json_eq (get row "complete_streams_total") expected
      && json_eq (get row "stream_samples_total") expected
      && json_eq (get row "integrity_failures_total") (int (pos 0))
      && json_eq (get row "successful_repeats") (get row "repeats")
      && is_true (get row "stream_measurement_evidence_complete")
      && is_true (get row "declared_workload_complete")
      && is_true (get row "gc_configuration_matches")
      && json_eq (obj configuration)
          (obj (object_value (get (object_value (get row "conditions")) "configuration")))

  is_none : Json → Bool
  is_none null = true
  is_none _ = false

  variation_reasons_of : JsonObject → Option Float → List ValidityReason
  unfolding reason when variation_limit
  variation_reasons_of row variation =
      when (elim variation [ none ↦ true | some value ↦ float_lt variation_limit value ])
        (reason needs_rerun "attribution_variation_unqualified"
          "Verified byte throughput variation is missing or exceeds the predeclared 10% criterion."
          row)

  unfoldable pub attribution_row_reasons : JsonObject → Result (List ValidityReason)
  unfolding integrity_complete is_none variation_reasons_of is_some_value integer_at_least reason
      when
  attribution_row_reasons row = do
    let attribution = object_value (get (object_value (get row "configuration")) "attribution")
    primary ← positive_number (get row "verified_bytes_s_median") false
    variation ← positive_number (get row "verified_bytes_s_cv_percent") true
    resources ← resource_evidence_reasons row
    ok (
        fingerprint_reasons row
        ++ when
            (is_truthy (get attribution "minimum_duration_s")
              && not (is_true (get row "duration_window_complete")))
            (reason needs_rerun "attribution_duration_short"
              "A duration window reached its hard stream cap before the declared minimum load time."
              row)
        ++ when (not (integrity_complete row)) (
            reason invalid "attribution_integrity_incomplete"
              "Every expected stream must have complete EOF, framing, byte count and digest evidence before contributing verified bytes."
              row)
        ++ when (not (is_some_value primary)) (
            reason invalid "attribution_primary_missing"
              "Verified byte throughput is missing or nonpositive." row)
        ++ when
            (not (is_text (get row "instrumentation") "control")
              || not (is_none (get row "profiler_label")))
            (reason needs_rerun "attribution_diagnostic_only"
              "Diagnostic tracing/profiler runs cannot serve as control measurements." row)
        ++ when
            (is_text (get attribution "profiler") "cprofile"
              && not (is_true (get row "python_profile_thread_scope_qualified")))
            (reason needs_rerun "attribution_python_profile_unqualified"
              "Interpreter monitoring cannot provide thread-scoped timing or caller attribution."
              row)
        ++ when (not (is_true (get row "server_health_complete"))) (
            reason invalid "attribution_server_health_incomplete"
              "Server health/EOF evidence is missing or failed." row)
        ++ when (not (is_true (get row "cpu_pid_identity_valid"))) (
            reason invalid "attribution_cpu_pid_mismatch"
              "CPU observations do not match the owned client and server PIDs." row)
        ++ when (not (integer_at_least (get row "variation_sample_count") 3)) (
            reason needs_rerun "attribution_repetitions_insufficient"
              "At least three fresh complete repetitions are required to assess variation." row)
        ++ variation_reasons_of row variation
        ++ resources)

  provenance_complete : JsonObject → Bool
  provenance_complete metadata =
      let provenance = object_value (get metadata "research_provenance") in
      let manifest = object_value (get provenance "manifest") in
      let source = object_value (get manifest "source") in
      let installation = object_value (get provenance "installation") in
      hex_digest (get provenance "manifest_sha256") 64
      && hex_digest (get installation "native_sha256") 64
      && hex_digest (get source "sha") 40
      && is_text (get source "ref") "refs/heads/release/0.4.2"
      && is_text (get (object_value (get manifest "build")) "profile") "release"

  raw_evidence_valid : JsonObject → JsonObject → Bool
  raw_evidence_valid metadata lifecycle =
      let evidence = object_value (get metadata "raw_evidence_validation") in
      is_text (get evidence "status") "ok"
      && json_eq (get evidence "checked") (get lifecycle "expected_cases")
      && is_true (get evidence "aggregates_match")

  rows_from : List JsonObject → Result (List ValidityReason)
  rows_from [] = ok []
  rows_from (row ∷ rows) = do
    these ← attribution_row_reasons row
    others ← rows_from rows
    ok (these ++ others)

  has_rows : List JsonObject → Bool
  has_rows [] = false
  has_rows (row ∷ rows) = true

  unfoldable pub attribution_report_reasons :
      JsonObject → List JsonObject → Result (List ValidityReason)
  unfolding raw_evidence_valid provenance_complete rows_from has_rows is_some_value reason when
  attribution_report_reasons metadata rows =
      if not (uses_streaming_profile metadata rows "async-bytes") then ok [] else (do
        let lifecycle = object_value (get metadata "lifecycle")
        planned ← plan_case_reasons lifecycle
        varied ← aggregate_reasons rows
        harness ← harness_fingerprint metadata
        measured ← rows_from rows
        ok (
            when
              (not (json_eq (get metadata "schema_version") (int (pos 3)))
                || not (is_text (get metadata "policy_version") "async-bytes-v2"))
              (reason invalid "attribution_schema_missing"
                "Attribution schema/policy evidence is missing." empty)
            ++ fingerprint_reasons metadata
            ++ planned
            ++ varied
            ++ when (not (raw_evidence_valid metadata lifecycle)) (
                reason invalid "attribution_raw_evidence_invalid"
                  "Raw sidecars are missing, changed or not verified from disk." empty)
            ++ when (not (provenance_complete metadata)) (
                reason needs_rerun "attribution_provenance_missing"
                  "A verified release-wheel research manifest is mandatory for a performance conclusion."
                  empty)
            ++ when (not (has_rows rows)) (
                reason invalid "attribution_rows_missing"
                  "No measured attribution cells are present." empty)
            ++ when (not (is_some_value harness)) (
                reason needs_rerun "attribution_harness_provenance_missing"
                  "Harness commit, tracked diff and complete file fingerprints are required for a performance conclusion."
                  empty)
            ++ measured))
