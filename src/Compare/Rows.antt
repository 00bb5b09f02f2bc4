-- ===== src/Compare/Rows.antt =====
-- The builders of rows in foghttp_benchmark/compare/loading.py, for the suites without profiles.
use fog_http_benchmark.Prelude.{
  ℕ, Bool, true, false, String, Option, none, some, List, [], ◌∷◌, string_eq, if◌then◌else◌, Result,
  ok, ◌>>=◌,
}
use fog_http_benchmark.Prelude.Int.{pos}
use fog_http_benchmark.Prelude.Text.{str_nat, concat}
use fog_http_benchmark.Json.{JsonObject, Float}
use fog_http_benchmark.Runtime.{Runtime}
use fog_http_benchmark.Schema.Identity.{Identity, aggregate_identity, comparison_group}
use fog_http_benchmark.Compare.{BenchmarkRow}
use fog_http_benchmark.Compare.Fields.{
  str_field, text_field, int_field, optional_int_field, float_field, optional_float_field,
  resource_float_field, resource_int_field,
}

-- The names of the fields that a row's measurements come from.
pub record Measured : Type 0 where
  pub has_warmup : Bool
  pub rss_key : String
  pub threads_key : String
  pub fds_key : String

abbrev pub plain_keys : Measured
plain_keys = record {
  has_warmup = true;
  rss_key = "rss_mb_max";
  threads_key = "threads_max";
  fds_key = "fds_max";
}

abbrev pub creation_keys : Measured
creation_keys = record {
  has_warmup = false;
  rss_key = "peak_rss_delta_mb_max";
  threads_key = "peak_threads_delta_max";
  fds_key = "peak_fds_delta_max";
}

abbrev pub builder_keys : Measured
builder_keys = record plain_keys { has_warmup = false }

abbrev pub slashed : List String → String
slashed [] = ""
slashed (part ∷ []) = part
slashed (part ∷ parts) = concat (part ∷ " / " ∷ slashed parts ∷ [])

abbrev pub named : String → ℕ → String
named name n = concat (name ∷ "=" ∷ str_nat n ∷ [])

module _ ⦃r : Runtime⦄ where
  -- The end of a builder: the measurements of the row, in the order in which they are read.
  unfoldable pub measured_row :
      String
      → Identity
      → String
      → String
      → String
      → String
      → Result (Option Float)
      → JsonObject
      → Measured
      → Result BenchmarkRow
  measured_row suite identity label mode client scenario primary row keys = do
    primary_value ← primary
    p95_ms ← optional_float_field row "p95_ms_median"
    p99_ms ← optional_float_field row "p99_ms_median"
    errors_total ← int_field row "errors_total"
    warmup ← if keys.has_warmup then int_field row "warmup_errors_total" else ok 0
    error_rate ← if keys.has_warmup then optional_float_field row "error_rate_percent" else ok none
    rss_mb ← resource_float_field row keys.rss_key
    threads ← resource_int_field row keys.threads_key
    fds ← resource_int_field row keys.fds_key
    ok (record {
      suite = suite;
      identity = identity;
      group = comparison_group identity;
      label = label;
      mode = mode;
      client = client;
      scenario = scenario;
      primary_value = primary_value;
      p95_ms = p95_ms;
      p99_ms = p99_ms;
      errors_total = pos errors_total;
      warmup_errors_total = pos warmup;
      error_rate_percent = error_rate;
      rss_mb = rss_mb;
      threads = threads;
      fds = fds;
      resource_coverage = [];
      resource_unavailable_reasons = [];
    })

  unfoldable pub present_float : JsonObject → String → Result (Option Float)
  present_float row key = float_field row key >>= λ x. ok (some x)

  unfoldable pub request_row : JsonObject → String → Result BenchmarkRow
  unfolding measured_row present_float
  request_row row suite = do
    identity ← aggregate_identity suite row
    mode ← text_field row "mode"
    client ← text_field row "client"
    scenario ← text_field row "scenario"
    concurrency ← int_field row "concurrency"
    request_limit ← int_field row "request_limit"
    let label =
        slashed
          (mode ∷ client ∷ scenario ∷ named "conc" concurrency ∷ named "limit" request_limit ∷ [])
    measured_row suite identity label mode client scenario (present_float row "ok_req_s_median") row
        plain_keys

  unfoldable pub client_creation_row : JsonObject → Result BenchmarkRow
  unfolding measured_row present_float
  client_creation_row row = do
    identity ← aggregate_identity "client-creation" row
    mode ← text_field row "mode"
    client ← text_field row "client"
    scenario ← text_field row "scenario"
    client_count ← int_field row "client_count"
    iterations ← int_field row "iterations"
    let label =
        slashed
          (mode ∷ client ∷ scenario ∷ named "clients" client_count ∷ named "iters" iterations ∷ [])
    measured_row "client-creation" identity label mode client scenario
        (present_float row "ops_s_median") row creation_keys

  origin_label : Option ℕ → String
  origin_label none = "-"
  origin_label (some limit) = str_nat limit

  unfoldable pub resource_row : JsonObject → Result BenchmarkRow
  unfolding measured_row present_float origin_label
  resource_row row = do
    identity ← aggregate_identity "resource-backpressure" row
    mode ← text_field row "mode"
    client ← str_field row "client" (some "foghttp")
    scenario ← text_field row "scenario"
    concurrency ← int_field row "concurrency"
    request_limit ← int_field row "request_limit"
    origin_limit ← optional_int_field row "per_origin_request_limit"
    pending_limit ← int_field row "max_pending_requests"
    let label = slashed (
        mode
        ∷ client
        ∷ scenario
        ∷ named "conc" concurrency
        ∷ named "active" request_limit
        ∷ concat ("origin=" ∷ origin_label origin_limit ∷ [])
        ∷ named "pending" pending_limit
        ∷ [])
    measured_row "resource-backpressure" identity label mode client scenario
        (present_float row "ok_requests_total") row plain_keys

  unfoldable pub one_upstream_row : JsonObject → Result BenchmarkRow
  unfolding measured_row present_float
  one_upstream_row row = do
    identity ← aggregate_identity "one-upstream" row
    mode ← text_field row "mode"
    client ← text_field row "client"
    case ← text_field row "case"
    group ← text_field row "group"
    profile ← text_field row "profile"
    concurrency ← int_field row "concurrency"
    let label = slashed (mode ∷ client ∷ group ∷ case ∷ profile ∷ named "conc" concurrency ∷ [])
    measured_row "one-upstream" identity label mode client case
        (present_float row "ok_req_s_median") row plain_keys

  unfoldable pub request_builder_row : JsonObject → Result BenchmarkRow
  unfolding measured_row present_float
  request_builder_row row = do
    identity ← aggregate_identity "request-builder" row
    mode ← text_field row "mode"
    client ← text_field row "client"
    case ← text_field row "case"
    group ← text_field row "group"
    kind ← text_field row "kind"
    profile ← text_field row "profile"
    let label = slashed (mode ∷ client ∷ kind ∷ group ∷ case ∷ profile ∷ [])
    measured_row "request-builder" identity label mode client case
        (present_float row "ops_s_median") row builder_keys

  unfoldable pub proxy_connect_row : JsonObject → Result BenchmarkRow
  unfolding measured_row present_float
  proxy_connect_row row = do
    identity ← aggregate_identity "proxy-connect" row
    mode ← text_field row "mode"
    client ← text_field row "client"
    case ← text_field row "case"
    target_scheme ← text_field row "target_scheme"
    config ← text_field row "config"
    lifecycle ← text_field row "lifecycle"
    concurrency ← int_field row "concurrency"
    request_limit ← int_field row "request_limit"
    let label = slashed (
        mode
        ∷ client
        ∷ case
        ∷ target_scheme
        ∷ config
        ∷ lifecycle
        ∷ named "conc" concurrency
        ∷ named "limit" request_limit
        ∷ [])
    measured_row "proxy-connect" identity label mode client case
        (present_float row "ok_req_s_median") row plain_keys
