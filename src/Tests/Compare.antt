-- ===== src/Tests/Compare.antt =====
-- Runs of the checks before a comparison.
use fog_http_benchmark.Prelude.Int.{◌*ℤ◌}
use fog_http_benchmark.Timing.{
  validate_row_scopes, scope_text, is_supported, declared_scope, scope_of, report_profile,
  current_timing_scope, report_timing_scope, validate_timing_compatibility,
}
use fog_http_benchmark.Evidence.{hex_digest, condition_fingerprint, member_of, harness_fingerprint}
use fog_http_benchmark.Runtime.{is_text}
use fog_http_benchmark.Validity.Profiles.{research_envelope_profile, uses_streaming_profile}
use fog_http_benchmark.Prelude.{any, all, lookup, ◌≡◌, refl, true, String, some, [], ◌∷◌, ok}
use fog_http_benchmark.Json.{has, find?, one, size, number_of, json_eq, get, str, JsonObject}
use fog_http_benchmark.Validity.Summary.{valid, ValiditySummary}
use fog_http_benchmark.Compare.{
  foghttp_source, validate_provenance, measures_bytes, BenchmarkReport, validate_comparable_reports,
}
use fog_http_benchmark.Compare.Comparable.{AreComparable, validate_comparable_reports-AreComparable}
use fog_http_benchmark.Tests.{plain_runtime, fields}

abbrev bytes_metadata : JsonObject
bytes_metadata =
    fields (
      ("profile", str "async-bytes") ∷ ("timing_scope", str "load-only-incremental-sha256-v1") ∷ [])

abbrev no_reasons : ValiditySummary
no_reasons = record {
  status = valid;
  is_valid = true;
  can_compare = true;
  reason_count = 0;
  reason_counts = [];
  reasons = [];
}

abbrev bytes_report : String → BenchmarkReport
bytes_report path = record {
  path = path;
  suite = "response-streaming";
  timestamp = "2026-01-01T00:00:00+00:00";
  package_versions = ("foghttp", "0.4.0") ∷ [];
  rows = [];
  aggregate_rows = [];
  metadata = bytes_metadata;
  validity = no_reasons;
  run_rows = [];
}

bytes_reports_pass :
    validate_comparable_reports
      (bytes_report "old.json")
      (bytes_report "new.json")
      (some "foghttp-source")
    ≡ ok tt
unfolding validate_comparable_reports measures_bytes uses_streaming_profile is_text get
    validate_provenance harness_fingerprint member_of json_eq foghttp_source
    validate_timing_compatibility report_timing_scope current_timing_scope report_profile lookup
    scope_of declared_scope condition_fingerprint hex_digest number_of size one find? has ◌*ℤ◌ all
    any is_supported scope_text validate_row_scopes research_envelope_profile
bytes_reports_pass = refl

validate_comparable_reports-AreComparable_example :
    AreComparable (bytes_report "old.json") (bytes_report "new.json") (some "foghttp-source")
validate_comparable_reports-AreComparable_example =
    validate_comparable_reports-AreComparable (bytes_report "old.json") (bytes_report "new.json")
      (some "foghttp-source") bytes_reports_pass
