-- ===== src/Tests.antt =====
-- Runs of the modelled code at concrete inputs. This module has the inputs.
mod Isolation
mod Windows
mod Arguments
mod Comparison
mod Load
mod Schema
mod Validity
mod Reports
mod Compare
mod Lifecycle
mod Resources
use fog_http_benchmark.Prelude.{String, List, [], ◌∷◌, none}
use fog_http_benchmark.Prelude.Int.{ℤ, pos}
use fog_http_benchmark.Json.{
  Json, null, bool, int, str, arr, obj, Items, nil, cons, JsonObject, empty, entry,
}
use fog_http_benchmark.Runtime.{Runtime}

-- a runtime whose texts and digests are all alike
instance abbrev pub plain_runtime : Runtime
plain_runtime = record {
  repr = λ v. "value";
  dumps = λ v. "{}";
  float_of = λ s. none;
  digest_of = λ v. none;
}

abbrev pub fields : List (String × Json) → JsonObject
fields [] = empty
fields ((k, v) ∷ rest) = entry k v (fields rest)

-- one failed request of twenty
abbrev pub upstream_row : JsonObject
upstream_row = fields (
    ("mode", str "async")
    ∷ ("client", str "foghttp")
    ∷ ("case", str "get")
    ∷ ("group", str "latency")
    ∷ ("profile", str "small")
    ∷ ("concurrency", int (pos 4))
    ∷ ("request_limit", int (pos 8))
    ∷ ("repeats", int (pos 2))
    ∷ ("requests", int (pos 10))
    ∷ ("errors_total", int (pos 1))
    ∷ ("error_types", obj (fields (("PoolTimeout", int (pos 1)) ∷ [])))
    ∷ ("warmup_errors_total", int (pos 0))
    ∷ ("ok_requests_total", int (pos 19))
    ∷ ("ok_req_s_median", int (pos 950))
    ∷ [])

abbrev pub upstream_run : JsonObject
upstream_run = fields (
    ("mode", str "async")
    ∷ ("client", str "foghttp")
    ∷ ("case", str "get")
    ∷ ("group", str "latency")
    ∷ ("profile", str "small")
    ∷ ("concurrency", int (pos 4))
    ∷ ("request_limit", int (pos 8))
    ∷ ("repeat", int (pos 0))
    ∷ ("duration_s", int (pos 1))
    ∷ ("requests", int (pos 10))
    ∷ ("errors", int (pos 1))
    ∷ ("warmup_errors", int (pos 0))
    ∷ ("ok_requests", int (pos 9))
    ∷ ("ok_requests_per_second", int (pos 9))
    ∷ [])

abbrev pub upstream_report : Json
upstream_report = obj (
    fields (
      ("metadata", obj (fields (("suite", str "one-upstream") ∷ [])))
      ∷ ("aggregate", arr (cons (obj upstream_row) nil))
      ∷ ("runs", arr (cons (obj upstream_run) nil))
      ∷ []))

-- errors that the scenario is there to provoke
abbrev pub pressure_row : JsonObject
pressure_row = fields (
    ("mode", str "async")
    ∷ ("client", str "foghttp")
    ∷ ("scenario", str "pending-queue-full")
    ∷ ("errors_total", int (pos 3))
    ∷ ("error_types", obj (fields (("PoolTimeout", int (pos 3)) ∷ [])))
    ∷ ("warmup_errors_total", int (pos 0))
    ∷ ("recovery_failures", int (pos 0))
    ∷ ("ok_requests_total", int (pos 7))
    ∷ [])

-- twenty requests without an error
abbrev pub clean_row : JsonObject
clean_row = fields (
    ("mode", str "async")
    ∷ ("client", str "foghttp")
    ∷ ("case", str "get")
    ∷ ("group", str "latency")
    ∷ ("profile", str "small")
    ∷ ("concurrency", int (pos 4))
    ∷ ("request_limit", int (pos 8))
    ∷ ("repeats", int (pos 2))
    ∷ ("requests", int (pos 10))
    ∷ ("errors_total", int (pos 0))
    ∷ ("warmup_errors_total", int (pos 0))
    ∷ ("ok_requests_total", int (pos 20))
    ∷ ("ok_req_s_median", int (pos 950))
    ∷ [])

abbrev pub clean_metadata : JsonObject
clean_metadata =
    fields (("suite", str "one-upstream") ∷ ("timing_scope", str "one-upstream-load-only-v2") ∷ [])

abbrev pub clean_report : Json
clean_report = obj (
    fields (
      ("metadata", obj clean_metadata)
      ∷ ("aggregate", arr (cons (obj clean_row) nil))
      ∷ ("runs", arr nil)
      ∷ []))
