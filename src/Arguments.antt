-- ===== src/Arguments.antt =====
-- The arguments of a benchmark and their checks: foghttp_benchmark/validation.py, with
-- `BenchmarkArgs` of foghttp_benchmark/models.py. An error is kept as its line of the message.
pub mod Accepted
use fog_http_benchmark.Prelude.{
  ℕ, Bool, true, false, not, ◌&&◌, ◌||◌, String, Option, none, some, List, [], ◌∷◌, ◌++◌, ◌==◌,
  string_eq, if◌then◌else◌, Result, ok, err, value_error, keep, any, contains,
}
use fog_http_benchmark.Prelude.Int.{ℤ, pos, ltb_ℤ}
use fog_http_benchmark.Prelude.Text.{concat}
use fog_http_benchmark.Json.{Float}

pub record BenchmarkArgs : Type 0 where
  pub suite : String
  pub clients : String
  pub modes : String
  pub concurrency : String
  pub requests : ℤ
  pub warmup : ℤ
  pub repeats : ℤ
  pub max_redirects : ℤ
  pub seed : ℤ
  pub no_shuffle : Bool
  pub output_dir : String
  pub scenarios : String
  pub iterations : ℤ
  pub client_counts : String
  pub isolation : String
  pub streaming_profile : String
  pub streaming_payload_bytes : ℤ
  pub streaming_server_write_bytes : ℤ
  pub streaming_server_delay_s : Float
  pub streaming_read_bytes : Option ℤ
  pub streaming_consumer_delay_s : Float
  pub streaming_instrumentation : String
  pub streaming_profiler_label : Option String
  pub streaming_profiler : String
  pub streaming_perf_sample_frequency_hz : ℤ
  pub streaming_chunk_sample_cap : ℤ
  pub streaming_minimum_duration_s : Float
  pub streaming_max_window_streams : ℤ
  pub streaming_server_observations : Bool

-- `if wrong: errors.append(line)`
abbrev pub error_if : Bool → String → List String
error_if true line = line ∷ []
error_if false line = []

abbrev pub at_least_one : ℤ → String → List String
at_least_one value name = error_if (ltb_ℤ value (pos 1)) (concat (name ∷ " must be >= 1" ∷ []))

abbrev pub not_negative : ℤ → String → List String
not_negative value name = error_if (ltb_ℤ value (pos 0)) (concat (name ∷ " must be >= 0" ∷ []))

abbrev pub is_none_of : List ℤ → Bool
is_none_of [] = true
is_none_of (value ∷ values) = false

-- the two checks of a list of levels or counts
unfoldable pub level_errors : List ℤ → String → List String
level_errors values name =
    error_if (is_none_of values) (concat (name ∷ " must contain at least one value" ∷ []))
    ++ error_if (any (λ value. ltb_ℤ value (pos 1)) values)
        (concat (name ∷ " values must be >= 1" ∷ []))

abbrev pub comma_joined : List String → String
comma_joined [] = ""
comma_joined (name ∷ []) = name
comma_joined (name ∷ names) = concat (name ∷ ", " ∷ comma_joined names ∷ [])

-- the names that are not keys of the table
unfoldable pub unknown_names : List String → List String → List String
unknown_names table names = keep (λ name. not (contains name table)) names

abbrev pub unknown_line : List String → String → List String
unknown_line [] what = []
unknown_line (name ∷ names) what =
    concat ("unknown " ∷ what ∷ ": " ∷ comma_joined (name ∷ names) ∷ []) ∷ []

-- `if errors: raise ValueError`
abbrev pub raise_errors : List String → Result (Unit {0})
raise_errors [] = ok tt
raise_errors (line ∷ lines) = err value_error

unfoldable pub request_benchmark_errors :
    BenchmarkArgs → List String → List String → List ℤ → List String
request_benchmark_errors args requested_scenarios scenario_map concurrency_levels =
    at_least_one args.requests "--requests"
    ++ not_negative args.warmup "--warmup"
    ++ at_least_one args.repeats "--repeats"
    ++ at_least_one args.max_redirects "--max-redirects"
    ++ level_errors concurrency_levels "--concurrency"
    ++ unknown_line (unknown_names scenario_map requested_scenarios) "scenarios"

unfoldable pub validate_request_benchmark_args :
    BenchmarkArgs → List String → List String → List ℤ → Result (Unit {0})
validate_request_benchmark_args args requested_scenarios scenario_map concurrency_levels =
    raise_errors (request_benchmark_errors args requested_scenarios scenario_map concurrency_levels)

unfoldable pub validate_client_creation_args : BenchmarkArgs → List ℤ → Result (Unit {0})
validate_client_creation_args args client_counts = raise_errors (
    at_least_one args.iterations "--iterations"
    ++ at_least_one args.repeats "--repeats"
    ++ at_least_one args.max_redirects "--max-redirects"
    ++ level_errors client_counts "--client-counts")

-- the checks that the suites with concurrent load share
unfoldable pub load_errors :
    ℤ → BenchmarkArgs → List String → List String → List ℤ → String → List String
load_errors requests args requested_cases case_map concurrency_levels what =
    at_least_one requests "--requests"
    ++ not_negative args.warmup "--warmup"
    ++ at_least_one args.repeats "--repeats"
    ++ level_errors concurrency_levels "--concurrency"
    ++ unknown_line (unknown_names case_map requested_cases) what

unfoldable pub validate_resource_backpressure_args :
    BenchmarkArgs → List String → List String → List ℤ → Result (Unit {0})
validate_resource_backpressure_args args requested_cases case_map concurrency_levels =
    raise_errors
      (load_errors args.requests args requested_cases case_map concurrency_levels "resource cases")

unfoldable pub validate_one_upstream_args :
    BenchmarkArgs → List String → List String → List ℤ → Result (Unit {0})
validate_one_upstream_args args requested_cases case_map concurrency_levels = raise_errors (
    load_errors args.requests args requested_cases case_map concurrency_levels "one-upstream cases")

unfoldable pub validate_proxy_connect_args :
    BenchmarkArgs → List String → List String → List ℤ → Result (Unit {0})
validate_proxy_connect_args args requested_cases case_map concurrency_levels = raise_errors (
    load_errors args.requests args requested_cases case_map concurrency_levels
      "proxy-connect cases")

unfoldable pub validate_request_builder_args :
    BenchmarkArgs → List String → List String → Result (Unit {0})
validate_request_builder_args args requested_cases case_map = raise_errors (
    at_least_one args.iterations "--iterations"
    ++ not_negative args.warmup "--warmup"
    ++ at_least_one args.repeats "--repeats"
    ++ unknown_line (unknown_names case_map requested_cases) "request-builder cases")

-- The requests come from the streaming profile.
unfoldable pub validate_streaming_args :
    BenchmarkArgs → List String → List String → List ℤ → ℤ → Result (Unit {0})
validate_streaming_args args requested_cases case_map concurrency_levels requests = raise_errors (
    load_errors requests args requested_cases case_map concurrency_levels
      "response-streaming cases")
