-- ===== src/Schema/Tables.antt =====
-- The constant tables of report_schema/ordinary.py and resources.py, and of models.py.
use fog_http_benchmark.Prelude.{ℕ, String, List, [], ◌∷◌}

abbrev pub report_suites : List String
report_suites =
    "requests" ∷ "client-creation" ∷ "resource-backpressure" ∷ "one-upstream" ∷ "request-builder"
    ∷ "compressed-response" ∷ "response-streaming" ∷ "proxy-connect" ∷ []

abbrev pub row_fields : List (String × List String)
row_fields =
    ("requests", "scenario" ∷ [])
    ∷ ("compressed-response", "scenario" ∷ [])
    ∷ ("client-creation", "scenario" ∷ [])
    ∷ ("resource-backpressure", "scenario" ∷ [])
    ∷ ("one-upstream", "case" ∷ "group" ∷ "profile" ∷ [])
    ∷ ("request-builder", "case" ∷ "group" ∷ "kind" ∷ "profile" ∷ [])
    ∷ ("response-streaming", "case" ∷ "read" ∷ "consume" ∷ [])
    ∷ ("proxy-connect", "case" ∷ "group" ∷ "target_scheme" ∷ "config" ∷ "lifecycle" ∷ [])
    ∷ []

abbrev pub aggregate_primary_fields : List (String × String)
aggregate_primary_fields =
    ("requests", "ok_req_s_median")
    ∷ ("compressed-response", "ok_req_s_median")
    ∷ ("client-creation", "ops_s_median")
    ∷ ("resource-backpressure", "ok_requests_total")
    ∷ ("one-upstream", "ok_req_s_median")
    ∷ ("request-builder", "ops_s_median")
    ∷ ("response-streaming", "ok_streams_s_median")
    ∷ ("proxy-connect", "ok_req_s_median")
    ∷ []

abbrev pub run_primary_fields : List (String × String)
run_primary_fields =
    ("requests", "ok_requests_per_second")
    ∷ ("compressed-response", "ok_requests_per_second")
    ∷ ("client-creation", "operations_per_second")
    ∷ ("resource-backpressure", "ok_requests")
    ∷ ("one-upstream", "ok_requests_per_second")
    ∷ ("request-builder", "operations_per_second")
    ∷ ("response-streaming", "ok_streams_per_second")
    ∷ ("proxy-connect", "ok_requests_per_second")
    ∷ []

abbrev pub success_counts : List (String × String)
success_counts =
    ("resource-backpressure", "ok_requests_total")
    ∷ ("one-upstream", "ok_requests_total")
    ∷ ("proxy-connect", "ok_requests_total")
    ∷ ("response-streaming", "ok_streams_total")
    ∷ []

abbrev pub operation_suites : List String
operation_suites = "client-creation" ∷ "request-builder" ∷ []

abbrev pub identity_choices : List (String × List String)
identity_choices =
    ("mode", "async" ∷ "sync" ∷ [])
    ∷ ("read", "bytes" ∷ "text" ∷ "lines" ∷ [])
    ∷ ("consume", "all" ∷ "first-chunk" ∷ "first-line" ∷ [])
    ∷ ("kind", "build" ∷ "send-prepared" ∷ [])
    ∷ ("target_scheme", "http" ∷ "https" ∷ [])
    ∷ ("config", "direct" ∷ "explicit" ∷ "trust-env" ∷ [])
    ∷ ("lifecycle", "reused-client" ∷ "cold-client" ∷ [])
    ∷ []

abbrev pub numeric_fields : List String
numeric_fields =
    "req_s_median" ∷ "req_s_cv_percent" ∷ "ops_s_cv_percent" ∷ "streams_s_median"
    ∷ "streams_s_cv_percent" ∷ "duration_ms_median" ∷ "duration_s_median" ∷ "duration_s_cv_percent"
    ∷ "mb_s_median" ∷ "lines_s_median" ∷ "p50_ms_median" ∷ "p95_ms_median" ∷ "p99_ms_median"
    ∷ "duration_s" ∷ "requests_per_second" ∷ "streams_per_second" ∷ "mb_per_second"
    ∷ "lines_per_second" ∷ "p50_ms" ∷ "p90_ms" ∷ "p95_ms" ∷ "p99_ms" ∷ "min_ms" ∷ "max_ms"
    ∷ "process_cpu_s" ∷ "pool_timeout_s" ∷ []

abbrev pub nullable_numeric_fields : List String
nullable_numeric_fields =
    "first_chunk_p50_ms_median" ∷ "first_chunk_p95_ms_median" ∷ "first_chunk_p50_ms"
    ∷ "first_chunk_p95_ms" ∷ "close_p50_ms_median" ∷ "close_p95_ms_median" ∷ "close_p50_ms"
    ∷ "close_p95_ms" ∷ "baseline_ratio" ∷ "direct_ratio" ∷ "rss_mb_max" ∷ "peak_rss_mb" ∷ []

abbrev pub count_fields : List String
count_fields =
    "ok_requests_total" ∷ "ok_streams_total" ∷ "ok_requests" ∷ "ok_streams" ∷ "bytes_read_total"
    ∷ "chunks_read_total" ∷ "text_chars_read_total" ∷ "lines_read_total"
    ∷ "verified_eof_bytes_total" ∷ "verified_eof_chunks_total" ∷ "recovery_failures"
    ∷ "measured_proxy_http_requests_max" ∷ "measured_proxy_connect_requests_max"
    ∷ "total_proxy_http_requests_max" ∷ "total_proxy_connect_requests_max"
    ∷ "proxy_authorization_headers_max" ∷ "warmup" ∷ []

abbrev pub nullable_count_fields : List String
nullable_count_fields =
    "threads_max" ∷ "fds_max" ∷ "peak_threads" ∷ "peak_fds" ∷ "max_buffered_response_bytes"
    ∷ "max_response_body_size" ∷ "peak_active_requests_max" ∷ "peak_pending_requests_max"
    ∷ "peak_buffered_response_bytes_max" ∷ "peak_active_requests" ∷ "peak_pending_requests"
    ∷ "peak_buffered_response_bytes" ∷ "final_failed_requests_max" ∷ "final_pool_timeouts_max"
    ∷ "final_buffered_response_bytes_max" ∷ "final_buffered_response_budget_rejections_max"
    ∷ "final_active_requests_max" ∷ "final_response_body_closed_max"
    ∷ "final_response_body_reuse_eligible_max" ∷ "final_response_body_aborted_max"
    ∷ "final_connections_opened_max" ∷ "final_connections_reused_max"
    ∷ "final_connections_closed_max" ∷ "final_connections_aborted_max"
    ∷ "final_idle_connections_max" ∷ []

abbrev pub signed_numeric_fields : List String
signed_numeric_fields =
    "peak_rss_delta_mb_max" ∷ "end_rss_delta_mb_max" ∷ "peak_rss_delta_mb" ∷ "end_rss_delta_mb" ∷ []

abbrev pub signed_count_fields : List String
signed_count_fields =
    "peak_threads_delta_max" ∷ "end_threads_delta_max" ∷ "peak_fds_delta_max" ∷ "end_fds_delta_max"
    ∷ "peak_threads_delta" ∷ "end_threads_delta" ∷ "peak_fds_delta" ∷ "end_fds_delta" ∷ []

abbrev pub raw_resource_fields : List (String × String)
raw_resource_fields =
    ("rss_mb_max", "peak_rss_mb")
    ∷ ("threads_max", "peak_threads")
    ∷ ("fds_max", "peak_fds")
    ∷ ("peak_active_requests_max", "peak_active_requests")
    ∷ ("peak_pending_requests_max", "peak_pending_requests")
    ∷ ("peak_buffered_response_bytes_max", "peak_buffered_response_bytes")
    ∷ ("peak_rss_delta_mb_max", "peak_rss_delta_mb")
    ∷ ("peak_threads_delta_max", "peak_threads_delta")
    ∷ ("peak_fds_delta_max", "peak_fds_delta")
    ∷ ("end_rss_delta_mb_max", "end_rss_delta_mb")
    ∷ ("end_threads_delta_max", "end_threads_delta")
    ∷ ("end_fds_delta_max", "end_fds_delta")
    ∷ []

abbrev pub client_stat_fields : List (String × String)
client_stat_fields =
    ("final_failed_requests_max", "failed_requests")
    ∷ ("final_buffered_response_bytes_max", "buffered_response_bytes")
    ∷ ("final_buffered_response_budget_rejections_max", "buffered_response_budget_rejections")
    ∷ ("final_active_requests_max", "active_requests")
    ∷ ("final_response_body_closed_max", "response_body_closed")
    ∷ ("final_response_body_reuse_eligible_max", "response_body_reuse_eligible")
    ∷ ("final_response_body_aborted_max", "response_body_aborted")
    ∷ ("final_connections_opened_max", "connections_opened")
    ∷ ("final_connections_reused_max", "connections_reused")
    ∷ ("final_connections_closed_max", "connections_closed")
    ∷ ("final_connections_aborted_max", "connections_aborted")
    ∷ ("final_idle_connections_max", "idle_connections")
    ∷ ("final_pool_timeouts_max", "pool_acquire_timeouts")
    ∷ []

abbrev pub report_schema_version : ℕ
report_schema_version = 1

abbrev pub resource_metric_schema_version : ℕ
resource_metric_schema_version = 2

abbrev pub max_error_rate_percent : ℕ
max_error_rate_percent = 100
