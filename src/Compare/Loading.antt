-- ===== src/Compare/Loading.antt =====
-- The rows of a comparison: foghttp_benchmark/compare/loading.py, with `load_report` of
-- report_schema/decoding.py. The files are inputs: the parsed report, and what the validation of
-- the raw evidence beside it returned.
use fog_http_benchmark.Prelude.{
  false, String, Option, none, some, List, [], ◌∷◌, map, ◌==◌, string_eq, if◌then◌else◌, Result, ok,
  err, type_error, value_error, ◌>>=◌, traverse,
}
use fog_http_benchmark.Json.{
  Json, str, obj, arr, Items, nil, cons, JsonObject, empty, entry, get, set,
}
use fog_http_benchmark.Runtime.{Runtime, py_str}
use fog_http_benchmark.Schema.Resources.{resource_coverage_field}
use fog_http_benchmark.Schema.Decoding.{DecodedReport, decode_report_payload}
use fog_http_benchmark.Validity.Classification.{validity_summary_from_metadata}
use fog_http_benchmark.Validity.Profiles.{uses_streaming_profile}
use fog_http_benchmark.Compare.{BenchmarkRow, BenchmarkReport}
use fog_http_benchmark.Compare.Rows.{
  request_row, client_creation_row, resource_row, one_upstream_row, request_builder_row,
  proxy_connect_row,
}
use fog_http_benchmark.Compare.Streaming.{client_resources, response_streaming_row}
use fog_http_benchmark.Compare.Fields.{object_field, str_field, is_measured_profile}

-- `dict.update` of one key
abbrev put {ℓ} : {V : Type ℓ} → String → V → List (String × V) → List (String × V)
put k v [] = (k, v) ∷ []
put k v ((j, w) ∷ m) = let rest = put k v m in if k == j then (j, v) ∷ m else (j, w) ∷ rest

-- the items of a list that is all strings
abbrev texts : Items → Option (List String)
texts nil = some []
texts (cons (str s) vs) = elim (texts vs) [ none ↦ none | some rest ↦ some (s ∷ rest) ]
texts (cons _ vs) = none

abbrev text_list : Json → Option (List String)
text_list (arr vs) = texts vs
text_list _ = none

abbrev pub peak_metrics : List (String × String)
peak_metrics =
    ("rss_bytes", "sampled_peak_rss_bytes_max")
    ∷ ("threads", "sampled_peak_threads_max")
    ∷ ("fds", "sampled_peak_fds_max")
    ∷ []

abbrev package_entries : ⦃r : Runtime⦄ → JsonObject → List (String × String)
package_entries empty = []
package_entries (entry name version rest) = (name, py_str version) ∷ package_entries rest

module _ ⦃r : Runtime⦄ where
  unfoldable pub package_versions : JsonObject → List (String × String)
  package_versions metadata = elim (get metadata "package_versions") [
    | obj versions ↦ package_entries versions
    | _ ↦ []
  ]

  unfoldable pub build_row : String → JsonObject → Result BenchmarkRow
  build_row suite row =
      if suite == "client-creation"
      then client_creation_row row
      else if suite == "resource-backpressure"
      then resource_row row
      else if suite == "one-upstream"
      then one_upstream_row row
      else if suite == "request-builder"
      then request_builder_row row
      else if suite == "response-streaming"
      then response_streaming_row row
      else if suite == "proxy-connect"
      then proxy_connect_row row
      else request_row row suite

  -- the reasons that a resource record gives for a metric without values
  abbrev add_unavailable :
      JsonObject
      → List (String × String)
      → List (String × List String)
      → List (String × List String)
  add_unavailable resources [] unavailable = unavailable
  add_unavailable resources ((metric, output) ∷ metrics) unavailable =
      add_unavailable resources metrics
        (elim (text_list (get (object_field resources "unavailable") metric)) [
          | none ↦ unavailable
          | some reasons ↦ put output reasons unavailable
        ])

  unfoldable pub benchmark_row : String → JsonObject → Result BenchmarkRow
  benchmark_row suite row = do
    benchmark ← build_row suite row
    is_measured ←
        if suite == "response-streaming" then is_measured_profile (get row "profile") else ok false
    let resources = (if is_measured then client_resources row else row)
    coverage ← resource_coverage_field resources
    let unavailable = map (λ e. (e.0, e.1.unavailable_reasons)) coverage
    ok (record benchmark {
      resource_coverage = coverage;
      resource_unavailable_reasons =
          if is_measured then add_unavailable resources peak_metrics unavailable else unavailable;
    })

  -- A TypeError or ValueError comes out as a ValueError.
  unfoldable pub raised_as_value_error : Result DecodedReport → Result DecodedReport
  raised_as_value_error (err type_error) = err value_error
  raised_as_value_error r = r

  unfoldable pub load_report : Json → Result Json → Option String → Result DecodedReport
  unfolding raised_as_value_error
  load_report payload evidence expected_suite = raised_as_value_error (do
    report ← decode_report_payload payload expected_suite
    if uses_streaming_profile report.metadata report.aggregate_rows "async-bytes"
        then (do
          checked ← evidence
          ok (record report { metadata = set report.metadata "raw_evidence_validation" checked }))
        else ok report)

  unfoldable pub load_benchmark_report : String → Json → Result Json → Result BenchmarkReport
  load_benchmark_report path payload evidence = do
    report ← load_report payload evidence none
    rows ← traverse (benchmark_row report.suite) report.aggregate_rows
    validity ← validity_summary_from_metadata report.metadata report.suite report.aggregate_rows
    timestamp ← str_field report.metadata "timestamp" (some "-")
    ok (record {
      path = path;
      suite = report.suite;
      timestamp = timestamp;
      package_versions = package_versions report.metadata;
      rows = rows;
      aggregate_rows = report.aggregate_rows;
      metadata = report.metadata;
      validity = validity;
      run_rows = report.run_rows;
    })
