-- ===== src/Compare/Streaming.antt =====
-- The rows of the response-streaming suite in foghttp_benchmark/compare/loading.py.
use fog_http_benchmark.Prelude.{Option, none, some, [], ◌∷◌, if◌then◌else◌, Result, ok, ◌>>=◌}
use fog_http_benchmark.Prelude.Int.{pos}
use fog_http_benchmark.Json.{JsonObject, get, Float}
use fog_http_benchmark.Runtime.{Runtime, is_text}
use fog_http_benchmark.Schema.Identity.{aggregate_identity, comparison_group}
use fog_http_benchmark.Compare.{BenchmarkRow}
use fog_http_benchmark.Compare.Fields.{
  object_field, str_field, text_field, int_field, optional_float_field, resource_float_field,
  resource_int_field, per_1024, is_measured_profile,
}
use fog_http_benchmark.Compare.Rows.{slashed, named, present_float}

abbrev pub client_resources : JsonObject → JsonObject
client_resources row = object_field (object_field row "resources") "client"

module _ ⦃r : Runtime⦄ where
  streaming_primary : JsonObject → Result (Option Float)
  streaming_primary row =
      if is_text (get row "profile") "async-bytes"
      then optional_float_field row "verified_bytes_s_median"
      else if is_text (get row "profile") "lifecycle"
      then optional_float_field row "ok_streams_s_median"
      else present_float row "ok_streams_s_median"

  -- `value / 1024 / 1024` of bytes, if there are any
  megabytes : Option Float → Option Float
  megabytes none = none
  megabytes (some x) = some (per_1024 (per_1024 x))

  unfoldable pub response_streaming_row : JsonObject → Result BenchmarkRow
  unfolding streaming_primary megabytes
  response_streaming_row row = do
    identity ← aggregate_identity "response-streaming" row
    mode ← text_field row "mode"
    client ← text_field row "client"
    case ← text_field row "case"
    read ← str_field row "read" (some "bytes")
    consume ← text_field row "consume"
    concurrency ← int_field row "concurrency"
    request_limit ← int_field row "request_limit"
    let resources = client_resources row
    is_lifecycle ← is_measured_profile (get row "profile")
    lifecycle_rss ←
        if is_lifecycle
        then resource_float_field resources "sampled_peak_rss_bytes_max"
        else ok none
    let label = slashed (
        mode
        ∷ client
        ∷ case
        ∷ read
        ∷ consume
        ∷ named "conc" concurrency
        ∷ named "limit" request_limit
        ∷ [])
    primary_value ← streaming_primary row
    p95_ms ← optional_float_field row "p95_ms_median"
    p99_ms ← optional_float_field row "p99_ms_median"
    errors_total ← int_field row "errors_total"
    warmup_errors_total ← int_field row "warmup_errors_total"
    error_rate_percent ← optional_float_field row "error_rate_percent"
    rss_mb ←
        if is_lifecycle then ok (megabytes lifecycle_rss) else resource_float_field row "rss_mb_max"
    threads ←
        if is_lifecycle
        then resource_int_field resources "sampled_peak_threads_max"
        else resource_int_field row "threads_max"
    fds ←
        if is_lifecycle
        then resource_int_field resources "sampled_peak_fds_max"
        else resource_int_field row "fds_max"
    ok (record {
      suite = "response-streaming";
      identity = identity;
      group = comparison_group identity;
      label = label;
      mode = mode;
      client = client;
      scenario = case;
      primary_value = primary_value;
      p95_ms = p95_ms;
      p99_ms = p99_ms;
      errors_total = pos errors_total;
      warmup_errors_total = pos warmup_errors_total;
      error_rate_percent = error_rate_percent;
      rss_mb = rss_mb;
      threads = threads;
      fds = fds;
      resource_coverage = [];
      resource_unavailable_reasons = [];
    })
