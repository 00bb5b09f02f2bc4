-- ===== src/Compare.antt =====
-- Which reports may be compared: the checks of foghttp_benchmark/compare/analysis.py, and the
-- reports and rows of compare/models.py.
pub mod Comparable
pub mod Analysis
pub mod Counted
pub mod Described
pub mod Fields
pub mod Focus
pub mod Loaded
pub mod Loading
pub mod Order
pub mod Outcome
pub mod Ratios
pub mod Reports
pub mod Rows
pub mod Sorted
pub mod Matched
pub mod Streaming
pub mod Wins
use fog_http_benchmark.Prelude.{
  Bool, true, false, not, ◌&&◌, ◌||◌, String, Option, none, some, List, ◌==◌, string_eq,
  if◌then◌else◌, Result, ok, value_error, ◌>>=◌, ◌>>◌, raise_if,
}
use fog_http_benchmark.Prelude.Int.{ℤ}
use fog_http_benchmark.Json.{Json, JsonObject, Float, get, json_eq}
use fog_http_benchmark.Runtime.{Runtime}
use fog_http_benchmark.Schema.Identity.{Identity}
use fog_http_benchmark.Schema.Resources.{ResourceCoverage}
use fog_http_benchmark.Validity.Summary.{ValiditySummary}
use fog_http_benchmark.Validity.Profiles.{uses_streaming_profile}
use fog_http_benchmark.Evidence.{member_of, harness_fingerprint}
use fog_http_benchmark.Timing.{validate_timing_compatibility}

pub record BenchmarkRow : Type 0 where
  pub suite : String
  pub identity : Identity
  pub group : Identity
  pub label : String
  pub mode : String
  pub client : String
  pub scenario : String
  pub primary_value : Option Float
  pub p95_ms : Option Float
  pub p99_ms : Option Float
  pub errors_total : ℤ
  pub warmup_errors_total : ℤ
  pub error_rate_percent : Option Float
  pub rss_mb : Option Float
  pub threads : Option ℤ
  pub fds : Option ℤ
  pub resource_coverage : ResourceCoverage
  pub resource_unavailable_reasons : List (String × List String)

pub record BenchmarkReport : Type 0 where
  pub path : String
  pub suite : String
  pub timestamp : String
  pub package_versions : List (String × String)
  pub rows : List BenchmarkRow
  pub aggregate_rows : List JsonObject
  pub metadata : JsonObject
  pub validity : ValiditySummary
  pub run_rows : List JsonObject

unfoldable pub foghttp_source : BenchmarkReport → Json
foghttp_source report =
    let manifest = member_of (get report.metadata "research_provenance") "manifest" in
    member_of (member_of manifest "source") "sha"

unfoldable pub blocks_strong_conclusions : BenchmarkReport → BenchmarkReport → Bool
blocks_strong_conclusions old_report new_report =
    not old_report.validity.can_compare || not new_report.validity.can_compare

-- `comparison_axis in {None, "foghttp-source"}`
is_known_axis : Option String → Bool
is_known_axis none = true
is_known_axis (some axis) = axis == "foghttp-source"

is_source_axis : Option String → Bool
is_source_axis none = false
is_source_axis (some axis) = axis == "foghttp-source"

-- `==` of two fingerprints, either of which may be None
abbrev pub fingerprint_eq : Option String → Option String → Bool
fingerprint_eq none none = true
fingerprint_eq (some a) (some b) = a == b
fingerprint_eq _ _ = false

-- whether a report has the profile that measures bytes
unfoldable pub measures_bytes : BenchmarkReport → Bool
measures_bytes report = uses_streaming_profile report.metadata report.aggregate_rows "async-bytes"

module _ ⦃r : Runtime⦄ where
  unfoldable pub validate_provenance :
      BenchmarkReport → BenchmarkReport → Option String → Result (Unit {0})
  unfolding is_source_axis
  validate_provenance old_report new_report comparison_axis = do
    old_harness ← harness_fingerprint old_report.metadata
    new_harness ← harness_fingerprint new_report.metadata
    raise_if (not (fingerprint_eq old_harness new_harness)) value_error
    let same_source = json_eq (foghttp_source old_report) (foghttp_source new_report)
    raise_if (not same_source && not (is_source_axis comparison_axis)) value_error

  unfoldable pub validate_comparable_reports :
      BenchmarkReport → BenchmarkReport → Option String → Result (Unit {0})
  unfolding is_known_axis
  validate_comparable_reports old_report new_report comparison_axis = do
    raise_if (old_report.suite == "unknown" || new_report.suite == "unknown") value_error
    raise_if (not (old_report.suite == new_report.suite)) value_error
    raise_if (not (is_known_axis comparison_axis)) value_error
    if measures_bytes old_report || measures_bytes new_report
        then validate_provenance old_report new_report comparison_axis
        else ok tt
    validate_timing_compatibility old_report.suite old_report.metadata old_report.aggregate_rows
        new_report.metadata new_report.aggregate_rows (some old_report.run_rows)
        (some new_report.run_rows)
