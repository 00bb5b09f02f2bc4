-- ===== src/Isolation.antt =====
-- The merge of the reports of child processes: foghttp_benchmark/isolation/reports.py without its
-- rendering and files, and the results of children of isolation/models.py.
pub mod Finalized
pub mod Diagnosed
use fog_http_benchmark.Prelude.{
  ℕ, suc, Bool, true, false, not, ◌&&◌, ◌||◌, String, Option, none, some, List, [], ◌∷◌, map, ◌++◌,
  ◌==◌, string_eq, list_eq, if◌then◌else◌, Result, ok, err, type_error, value_error, key_error,
  stop_iteration, ◌>>=◌, ◌>>◌, raise_if, any, all, contains, traverse, length, lookup,
}
use fog_http_benchmark.Prelude.Int.{ℤ, pos, ℤ_eq}
use fog_http_benchmark.Prelude.Text.{concat, str_nat}
use fog_http_benchmark.Json.{
  Json, null, int, float, str, obj, arr, Items, nil, cons, items, JsonObject, empty, entry, find?,
  get, has, set, Float,
}
use fog_http_benchmark.Runtime.{Runtime, py_str}
use fog_http_benchmark.Schema.Identity.{
  Identity, aggregate_identity, validate_unique_aggregate_rows,
}
use fog_http_benchmark.Schema.Decoding.{DecodedReport}
use fog_http_benchmark.Compare.Loading.{load_report}
use fog_http_benchmark.Arguments.{BenchmarkArgs}
use fog_http_benchmark.Timing.{TimingScope, scope_eq, scope_text, report_timing_scope}

pub record ChildResourcePeaks : Type 0 where
  pub rss_mb : Option Float
  pub threads : Option ℤ
  pub fds : Option ℤ

pub record ChildProcessResult : Type 0 where
  pub sequence : ℤ
  pub client : String
  pub scenario : Option String
  pub output_dir : String
  pub report_path : Option String
  pub command : List String
  pub returncode : ℤ
  pub duration_s : Float
  pub peaks : ChildResourcePeaks
  pub stdout_tail : String
  pub stderr_tail : String

-- the parsed reports of the children, and what the validation of their raw evidence returned
pub record ReportFiles : Type 0 where
  pub payload_of : String → Result Json
  pub evidence_of : String → Result Json

abbrev pub object_items : List JsonObject → Items
object_items [] = nil
object_items (o ∷ os) = cons (obj o) (object_items os)

abbrev pub report_payload : DecodedReport → JsonObject
report_payload report = entry "metadata" (obj report.metadata) (
    entry "aggregate" (arr (object_items report.aggregate_rows))
      (entry "runs" (arr (object_items report.run_rows)) empty))

unfoldable pub report_metadata : JsonObject → JsonObject
report_metadata payload = elim (get payload "metadata") [ obj metadata ↦ metadata | _ ↦ empty ]

-- the items of a list that are all objects
unfoldable pub payload_items : List Json → Result (List JsonObject)
payload_items [] = ok []
payload_items (obj o ∷ values) = do rest ← payload_items values; ok (o ∷ rest)
payload_items (_ ∷ values) = err type_error

unfoldable pub payload_list : Json → Result (List JsonObject)
unfolding payload_items
payload_list (arr values) = payload_items (items values)
payload_list _ = err type_error

unfoldable pub merge_payload_lists : List JsonObject → String → Result (List JsonObject)
unfolding payload_list
merge_payload_lists [] key = ok []
merge_payload_lists (payload ∷ payloads) key = do
  this ← payload_list (get payload key)
  others ← merge_payload_lists payloads key
  ok (this ++ others)

-- the report of a child that returned zero and wrote one
unfoldable pub successful_path : ChildProcessResult → Option String
successful_path result = if not (result.returncode == pos 0) then none else result.report_path

row_sources : String → ℕ → List JsonObject → List String
row_sources path index [] = []
row_sources path index (row ∷ rows) =
    concat (path ∷ ":aggregate[" ∷ str_nat index ∷ "]" ∷ []) ∷ row_sources path (suc index) rows

-- what the loop over the children collects
pub record Collected : Type 0 where
  pub payloads : List JsonObject
  pub aggregate_rows : List JsonObject
  pub sources : List String

module _ ⦃r : Runtime⦄ (files : ReportFiles) where
  unfoldable pub collect_child : String → Collected → Option String → Result Collected
  unfolding row_sources
  collect_child expected_suite c none = ok c
  collect_child expected_suite c (some path) = do
    payload ← files.payload_of path
    report ← load_report payload (files.evidence_of path) (some expected_suite)
    ok (record {
      payloads = c.payloads ++ (report_payload report ∷ []);
      aggregate_rows = c.aggregate_rows ++ report.aggregate_rows;
      sources = c.sources ++ row_sources path 0 report.aggregate_rows;
    })

  unfoldable pub collect_children : String → Collected → List ChildProcessResult → Result Collected
  collect_children expected_suite c [] = ok c
  collect_children expected_suite c (result ∷ results) =
      collect_child expected_suite c (successful_path result) >>= λ next.
      collect_children expected_suite next results

  unfoldable pub load_successful_child_payloads :
      List ChildProcessResult → String → Result (List JsonObject)
  load_successful_child_payloads child_results expected_suite = do
    collected ←
        collect_children expected_suite
          (record { payloads = []; aggregate_rows = []; sources = [] }) child_results
    validate_unique_aggregate_rows expected_suite collected.aggregate_rows (some collected.sources)
    ok collected.payloads

-- What the finalizer of a suite returns: the merged rows, and metadata of its own.
pub record MergedSuiteReport : Type 0 where
  pub aggregate_rows : List JsonObject
  pub metadata : JsonObject

abbrev pub reserved_metadata : List String
reserved_metadata =
    "validity" ∷ "report_schema_version" ∷ "research_provenance" ∷ "package_sources"
    ∷ "timing_scope" ∷ "resource_metric_schema_version" ∷ "run_settling" ∷ []

abbrev pub object_keys : JsonObject → List String
object_keys empty = []
object_keys (entry k v o) = k ∷ object_keys o

-- a key that the common metadata has, or that is reserved for it
unfoldable pub is_reserved : JsonObject → String → Bool
is_reserved metadata key = has metadata key || contains key reserved_metadata

module _ ⦃r : Runtime⦄ where
  -- The finalizer is any function; the copies that it is given keep the rows from its changes.
  unfoldable pub finalize_merged_data :
      String
      → JsonObject
      → List JsonObject
      → List JsonObject
      → (List JsonObject → List JsonObject → Result MergedSuiteReport)
      → Result MergedSuiteReport
  finalize_merged_data suite metadata rows child_payloads finalizer = do
    identities ← traverse (aggregate_identity suite) rows
    result ← finalizer rows (map report_metadata child_payloads)
    validate_unique_aggregate_rows suite result.aggregate_rows none
    finalized ← traverse (aggregate_identity suite) result.aggregate_rows
    raise_if (not (finalized == identities)) value_error
    raise_if (any (is_reserved metadata) (object_keys result.metadata)) value_error
    ok result

  unfoldable pub child_timing_scope : String → JsonObject → Result TimingScope
  child_timing_scope suite payload = do
    aggregate ← merge_payload_lists (payload ∷ []) "aggregate"
    runs ← merge_payload_lists (payload ∷ []) "runs"
    report_timing_scope suite (report_metadata payload) aggregate (some runs)

-- `scopes[0]` of scopes that are all equal
unfoldable pub the_scope : List TimingScope → Result TimingScope
the_scope [] = err key_error
the_scope (scope ∷ scopes) = do
  raise_if (not (all (λ s. scope_eq s scope) scopes)) value_error
  ok scope

unfoldable pub merged_timing_scope : ⦃r : Runtime⦄ → String → List JsonObject → Result String
merged_timing_scope suite child_payloads = do
  scopes ← traverse (child_timing_scope suite) child_payloads
  scope ← the_scope scopes
  ok (scope_text scope)

unfoldable pub isolation_unit : BenchmarkArgs → String
isolation_unit args =
    if args.isolation == "per-client-scenario" then "client-scenario" else "client"

-- `merged.setdefault(str(key), str(value))` for each entry
unfoldable pub add_skipped :
    ⦃r : Runtime⦄ → List (String × String) → JsonObject → List (String × String)
add_skipped merged empty = merged
add_skipped merged (entry key value rest) =
    add_skipped
      (elim (lookup key merged) [ none ↦ merged ++ ((key, py_str value) ∷ []) | some v ↦ merged ])
      rest

skipped_of : JsonObject → JsonObject
skipped_of metadata = elim (get metadata "skipped") [ obj skipped ↦ skipped | _ ↦ empty ]

unfoldable pub merge_skipped :
    ⦃r : Runtime⦄ → List (String × String) → List JsonObject → List (String × String)
unfolding skipped_of
merge_skipped merged [] = merged
merge_skipped merged (payload ∷ payloads) =
    merge_skipped (add_skipped merged (skipped_of (report_metadata payload))) payloads

-- `asdict(result)`
optional_json : {A : Type 0} → (A → Json) → Option A → Json
optional_json f none = null
optional_json f (some x) = f x

text_items : List String → Items
text_items [] = nil
text_items (s ∷ ss) = cons (str s) (text_items ss)

unfoldable pub child_result_payload : ChildProcessResult → JsonObject
unfolding optional_json text_items
child_result_payload result = entry "sequence" (int result.sequence) (
    entry "client" (str result.client) (
      entry "scenario" (optional_json str result.scenario) (
        entry "output_dir" (str result.output_dir) (
          entry "report_path" (optional_json str result.report_path) (
            entry "command" (arr (text_items result.command)) (
              entry "returncode" (int result.returncode) (
                entry "duration_s" (float result.duration_s) (
                  entry "peaks"
                    (obj (
                      entry "rss_mb" (optional_json float result.peaks.rss_mb) (
                        entry "threads" (optional_json int result.peaks.threads)
                          (entry "fds" (optional_json int result.peaks.fds) empty))))
                    (entry "stdout_tail" (str result.stdout_tail)
                      (entry "stderr_tail" (str result.stderr_tail) empty))))))))))

-- `if key in child_metadata: payload[key] = child_metadata[key]`
copy_keys : List String → JsonObject → JsonObject → JsonObject
copy_keys [] child_metadata payload = payload
copy_keys (key ∷ keys) child_metadata payload =
    copy_keys keys child_metadata
      (elim (find? child_metadata key) [ none ↦ payload | some v ↦ set payload key v ])

abbrev pub diagnostic_keys : List String
diagnostic_keys =
    "package_sources" ∷ "research_provenance" ∷ "resource_metric_schema_version" ∷ "validity" ∷ []

unfoldable pub diagnose : ChildProcessResult → JsonObject → JsonObject
unfolding copy_keys
diagnose result successful =
    copy_keys diagnostic_keys (report_metadata successful) (child_result_payload result)

-- The diagnostics of one child, and the payloads that are left; `next(successful_payloads)` raises
-- where they run out.
abbrev pub diagnose_one :
    ChildProcessResult → Option String → List JsonObject → Result (JsonObject × List JsonObject)
diagnose_one result none payloads = ok (child_result_payload result, payloads)
diagnose_one result (some path) [] = err stop_iteration
diagnose_one result (some path) (payload ∷ payloads) = ok (diagnose result payload, payloads)

unfoldable pub diagnose_from : List ChildProcessResult → List JsonObject → Result (List JsonObject)
diagnose_from [] payloads = ok []
diagnose_from (result ∷ results) payloads =
    diagnose_one result (successful_path result) payloads >>= λ (this, others).
    diagnose_from results others >>= λ rest. ok (this ∷ rest)

unfoldable pub child_diagnostics :
    List ChildProcessResult → List JsonObject → Result (List JsonObject)
child_diagnostics child_results child_payloads = diagnose_from child_results child_payloads
