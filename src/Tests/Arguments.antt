-- ===== src/Tests/Arguments.antt =====
-- Runs of the checks of arguments and of the configuration of pauses.
use fog_http_benchmark.Prelude.Text.{is_blank, parse_int, concat}
use fog_http_benchmark.Prelude.{
  lookup, contains, keep, any, ◌≡◌, ◌↔◌, refl, false, none, List, [], ◌∷◌, ok, err, value_error,
}
use fog_http_benchmark.Prelude.Int.{ℤ, pos, negsuc, ◌≤ℤ◌}
use fog_http_benchmark.Json.{whole}
use fog_http_benchmark.Arguments.{
  unknown_names, level_errors, load_errors, BenchmarkArgs, validate_resource_backpressure_args,
  validate_one_upstream_args, validate_proxy_connect_args, validate_streaming_args,
  request_benchmark_errors, validate_request_benchmark_args,
}
use fog_http_benchmark.Arguments.Accepted.{IsLoad, concurrent_args_iff}
use fog_http_benchmark.Settling.{
  positive_float, RunSettlingConfig, Environment, run_settling_config, settle_after_run,
  positive_int,
}
use fog_http_benchmark.Settling.Positive.{IsSettled, run_settling_config-IsSettled}
use fog_http_benchmark.Tests.{plain_runtime}

abbrev usual_args : BenchmarkArgs
usual_args = record {
  suite = "one-upstream";
  clients = "foghttp";
  modes = "async";
  concurrency = "8,32";
  requests = pos 100;
  warmup = pos 0;
  repeats = pos 3;
  max_redirects = pos 5;
  seed = pos 1;
  no_shuffle = false;
  output_dir = "results";
  scenarios = "get";
  iterations = pos 10;
  client_counts = "1";
  isolation = "per-client-scenario";
  streaming_profile = "default";
  streaming_payload_bytes = pos 1048576;
  streaming_server_write_bytes = pos 65536;
  streaming_server_delay_s = whole 0;
  streaming_read_bytes = none;
  streaming_consumer_delay_s = whole 0;
  streaming_instrumentation = "control";
  streaming_profiler_label = none;
  streaming_profiler = "none";
  streaming_perf_sample_frequency_hz = pos 499;
  streaming_chunk_sample_cap = pos 128;
  streaming_minimum_duration_s = whole 0;
  streaming_max_window_streams = pos 2048;
  streaming_server_observations = false;
}

abbrev levels : List ℤ
levels = pos 8 ∷ pos 32 ∷ []

usual_args_pass :
    validate_one_upstream_args usual_args ("get" ∷ []) ("get" ∷ "post" ∷ []) levels ≡ ok tt
unfolding validate_one_upstream_args load_errors level_errors any unknown_names keep contains
usual_args_pass = refl

wrong_args_listed :
    request_benchmark_errors
      (record usual_args { warmup = negsuc 0 })
      ("a" ∷ "get" ∷ "b" ∷ [])
      ("get" ∷ [])
      (pos 0 ∷ [])
    ≡ "--warmup must be >= 0" ∷ "--concurrency values must be >= 1" ∷ "unknown scenarios: a, b" ∷ []
unfolding request_benchmark_errors concat level_errors any unknown_names keep contains
wrong_args_listed = refl

concurrent_args_iff_example :
    ((validate_resource_backpressure_args usual_args ("get" ∷ []) ("get" ∷ []) levels ≡ ok tt)
      ↔ IsLoad (pos 100) usual_args ("get" ∷ []) ("get" ∷ []) levels)
    × ((validate_one_upstream_args usual_args ("get" ∷ []) ("get" ∷ []) levels ≡ ok tt)
        ↔ IsLoad (pos 100) usual_args ("get" ∷ []) ("get" ∷ []) levels)
    × ((validate_proxy_connect_args usual_args ("get" ∷ []) ("get" ∷ []) levels ≡ ok tt)
        ↔ IsLoad (pos 100) usual_args ("get" ∷ []) ("get" ∷ []) levels)
    × ((validate_streaming_args usual_args ("get" ∷ []) ("get" ∷ []) levels (pos 64) ≡ ok tt)
        ↔ IsLoad (pos 64) usual_args ("get" ∷ []) ("get" ∷ []) levels)
    × ((validate_request_benchmark_args usual_args ("get" ∷ []) ("get" ∷ []) levels ≡ ok tt)
        ↔ (IsLoad (pos 100) usual_args ("get" ∷ []) ("get" ∷ []) levels × (pos 1 ≤ℤ pos 5)))
concurrent_args_iff_example =
    concurrent_args_iff usual_args (pos 64) ("get" ∷ []) ("get" ∷ []) levels

abbrev threshold_set : Environment
threshold_set = ("FOGHTTP_BENCHMARK_RUN_COOLDOWN_OPENED_THRESHOLD", " 64 ") ∷ []

abbrev low_threshold : RunSettlingConfig
low_threshold = record { cooldown_s = whole 3; opened_connection_threshold = pos 64 }

threshold_reads : run_settling_config threshold_set ≡ ok low_threshold
unfolding run_settling_config positive_float lookup positive_int parse_int is_blank
threshold_reads = refl

zero_refused : positive_int (("N", "0") ∷ []) "N" (pos 1) ≡ err value_error
unfolding positive_int lookup parse_int
zero_refused = refl

run_settling_config-IsSettled_example :
    IsSettled threshold_set low_threshold × (settle_after_run none low_threshold ≡ none)
run_settling_config-IsSettled_example =
    run_settling_config-IsSettled threshold_set low_threshold threshold_reads
