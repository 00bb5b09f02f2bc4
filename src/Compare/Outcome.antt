-- ===== src/Compare/Outcome.antt =====
-- What a comparison returns: the records of foghttp_benchmark/compare/models.py.
use fog_http_benchmark.Prelude.{ℕ, Bool, String, Option, List}
use fog_http_benchmark.Prelude.Int.{ℤ}
use fog_http_benchmark.Json.{Float}
use fog_http_benchmark.Schema.Resources.{ResourceCoverage}
use fog_http_benchmark.Validity.Summary.{ValidityStatus}
use fog_http_benchmark.Compare.{BenchmarkRow}

pub record ComparisonMetadata : Type 0 where
  pub old_path : String
  pub new_path : String
  pub suite : String
  pub focus_client : String
  pub old_timestamp : String
  pub new_timestamp : String
  pub old_focus_version : String
  pub new_focus_version : String
  pub comparison_axis : Option String

pub record ComparisonValidity : Type 0 where
  pub old_status : ValidityStatus
  pub new_status : ValidityStatus
  pub is_blocked : Bool
  pub old_reason_count : ℕ
  pub new_reason_count : ℕ
  pub old_reasons : List String
  pub new_reasons : List String

pub record SegmentSummary : Type 0 where
  pub name : String
  pub rows : ℕ
  pub primary_geomean_ratio : Option Float
  pub primary_median_ratio : Option Float
  pub p95_geomean_ratio : Option Float
  pub p99_geomean_ratio : Option Float

pub record RowComparison : Type 0 where
  pub row : BenchmarkRow
  pub old_primary : Float
  pub new_primary : Float
  pub primary_ratio : Float
  pub old_p95_ms : Option Float
  pub new_p95_ms : Option Float
  pub p95_ratio : Option Float
  pub old_p99_ms : Option Float
  pub new_p99_ms : Option Float
  pub p99_ratio : Option Float
  pub old_errors_total : ℤ
  pub new_errors_total : ℤ
  pub old_error_rate_percent : Option Float
  pub new_error_rate_percent : Option Float

pub record ErrorRow : Type 0 where
  pub label : String
  pub mode : String
  pub client : String
  pub scenario : String
  pub errors_total : ℤ
  pub warmup_errors_total : ℤ
  pub error_rate_percent : Option Float

pub record WinsComparison : Type 0 where
  pub old_wins : ℕ
  pub new_wins : ℕ
  pub comparable_groups : ℕ
  pub old_geomean_to_winner : Option Float
  pub new_geomean_to_winner : Option Float
  pub old_average_rank : Option Float
  pub new_average_rank : Option Float

-- `incomparable_reason` is a fixed text exactly where `comparable` is false, and is left out.
pub record ResourceSummary : Type 0 where
  pub old_rss_mb_max : Option Float
  pub new_rss_mb_max : Option Float
  pub old_threads_max : Option ℤ
  pub new_threads_max : Option ℤ
  pub old_fds_max : Option ℤ
  pub new_fds_max : Option ℤ
  pub old_errors_total : ℤ
  pub new_errors_total : ℤ
  pub comparable : Bool
  pub old_measurement_scope : String
  pub new_measurement_scope : String

pub record ResourceCoverageComparison : Type 0 where
  pub label : String
  pub old_coverage : ResourceCoverage
  pub new_coverage : ResourceCoverage
  pub old_unavailable_reasons : List (String × List String)
  pub new_unavailable_reasons : List (String × List String)

pub record ComparisonResult : Type 0 where
  pub metadata : ComparisonMetadata
  pub validity : ComparisonValidity
  pub overall : SegmentSummary
  pub by_mode : List SegmentSummary
  pub by_scenario : List SegmentSummary
  pub wins : Option WinsComparison
  pub top_improvements : List RowComparison
  pub top_regressions : List RowComparison
  pub new_error_rows : List ErrorRow
  pub resource_summary : ResourceSummary
  pub unmatched_old_rows : ℕ
  pub unmatched_new_rows : ℕ
  pub resource_coverage : List ResourceCoverageComparison
