-- ===== src/Tests/Isolation.antt =====
-- Runs of the merge of the reports of child processes.
use fog_http_benchmark.Schema.Resources.{
  resource_coverage_field, validate_resource_coverage, validate_ordinary_resource_coverage,
}
use fog_http_benchmark.Schema.Optional.{validate_optional_fields}
use fog_http_benchmark.Schema.Ordinary.{
  validate_aggregate, validate_identity, validate_ordinary_rows,
}
use fog_http_benchmark.Schema.Metadata.{
  validate_isolation_metadata, validate_metadata_objects, validate_versions, validate_metadata,
}
use fog_http_benchmark.Schema.Layouts.{
  row_layouts, foreign_layouts, validate_layout_markers, migrate_legacy_row, migrate_legacy_rows,
  report_suite,
}
use fog_http_benchmark.Compare.Loading.{load_report}
use fog_http_benchmark.Validity.Profiles.{uses_streaming_profile, research_envelope_profile}
use fog_http_benchmark.Runtime.{is_text, py_str}
use fog_http_benchmark.Prelude.Text.{str_int, is_blank}
use fog_http_benchmark.Schema.Fields.{
  require_number, require_integer, require_rows, validate_finite_json, require_object,
  require_string,
}
use fog_http_benchmark.Schema.Identity.{
  identity_text, validate_unique_identities, validate_unique_aggregate_rows, aggregate_identity,
}
use fog_http_benchmark.Prelude.{
  keep, for_each, all, any, contains, lookup, traverse, ◌≡◌, refl, none, some, List, [], ◌∷◌, All,
  ok, err, value_error, length,
}
use fog_http_benchmark.Prelude.Int.{◌*ℤ◌, pos}
use fog_http_benchmark.Json.{
  float_of_int, get_or, set, find?, one, size, number_of, json_eq, items, has, get, JsonObject, str,
  whole,
}
use fog_http_benchmark.Schema.Decoding.{is_research_report, decode_report_payload, DecodedReport}
use fog_http_benchmark.Timing.{
  report_profile, validate_row_scopes, scope_text, is_supported, declared_scope, scope_of,
  current_timing_scope, report_timing_scope, TimingScope, scope_text,
}
use fog_http_benchmark.Isolation.{
  successful_path, collect_child, collect_children, payload_list, payload_items, the_scope,
  report_metadata, merge_payload_lists, is_reserved, ChildProcessResult, ReportFiles,
  MergedSuiteReport, report_payload, finalize_merged_data, merged_timing_scope, child_timing_scope,
  load_successful_child_payloads, child_diagnostics,
}
use fog_http_benchmark.Isolation.Finalized.{
  IsFinalized, finalize_merged_data-IsFinalized, merged_timing_scope-All,
}
use fog_http_benchmark.Isolation.Diagnosed.{child_diagnostics-total}
use fog_http_benchmark.Tests.{plain_runtime, fields, clean_row, clean_metadata, clean_report}

abbrev clean_decoded : DecodedReport
clean_decoded = record {
  suite = "one-upstream";
  metadata = clean_metadata;
  aggregate_rows = clean_row ∷ [];
  run_rows = [];
}

abbrev clean_payload : JsonObject
clean_payload = report_payload clean_decoded

-- a finalizer that adds a field of its own
abbrev marked : MergedSuiteReport
marked = record {
  aggregate_rows = clean_row ∷ [];
  metadata = fields (("finalized_by", str "suite") ∷ []);
}

finalize_passes :
    finalize_merged_data "one-upstream" clean_metadata
      (clean_row ∷ [])
      (clean_payload ∷ [])
      (λ rows metadata. ok marked)
    ≡ ok marked
unfolding finalize_merged_data traverse aggregate_identity lookup require_string get is_blank
    validate_unique_aggregate_rows validate_unique_identities contains identity_text py_str str_int
    any is_reserved has
finalize_passes = refl

finalize_merged_data-IsFinalized_example :
    IsFinalized "one-upstream" clean_metadata (clean_row ∷ []) marked
finalize_merged_data-IsFinalized_example =
    finalize_merged_data-IsFinalized "one-upstream" clean_metadata (clean_row ∷ [])
      (clean_payload ∷ []) (λ rows metadata. ok marked) marked finalize_passes

scopes_merge :
    merged_timing_scope "one-upstream" (clean_payload ∷ clean_payload ∷ [])
    ≡ ok "one-upstream-load-only-v2"
unfolding merged_timing_scope traverse merge_payload_lists get items report_timing_scope
    current_timing_scope lookup scope_of declared_scope report_metadata is_supported scope_text
    validate_row_scopes any has the_scope all child_timing_scope payload_items payload_list json_eq
    number_of size one find? ◌*ℤ◌ is_text report_profile research_envelope_profile
    uses_streaming_profile
scopes_merge = refl

merged_timing_scope-All_example :
    (scope : TimingScope) × (scope_text scope ≡ "one-upstream-load-only-v2")
    × All
        (λ payload. child_timing_scope "one-upstream" payload ≡ ok scope)
        (clean_payload ∷ clean_payload ∷ [])
merged_timing_scope-All_example =
    merged_timing_scope-All "one-upstream" (clean_payload ∷ clean_payload ∷ [])
      "one-upstream-load-only-v2" scopes_merge

abbrev one_file : ReportFiles
one_file = record { payload_of = λ path. ok clean_report; evidence_of = λ path. err value_error }

abbrev good_child : ChildProcessResult
good_child = record {
  sequence = pos 1;
  client = "foghttp";
  scenario = some "get";
  output_dir = "results/1";
  report_path = some "results/1/report.json";
  command = "python" ∷ "-m" ∷ "foghttp_benchmark" ∷ [];
  returncode = pos 0;
  duration_s = whole 2;
  peaks = record { rss_mb = none; threads = some (pos 4); fds = none };
  stdout_tail = "";
  stderr_tail = "";
}

abbrev failed_child : ChildProcessResult
failed_child = record good_child { sequence = pos 2; report_path = none; returncode = pos 1 }

children_load :
    load_successful_child_payloads one_file (failed_child ∷ good_child ∷ []) "one-upstream"
    ≡ ok (clean_payload ∷ [])
unfolding load_successful_child_payloads collect_children collect_child successful_path load_report
    decode_report_payload require_object validate_finite_json get require_rows has report_suite
    require_string is_blank contains validate_metadata validate_versions set
    validate_metadata_objects for_each get_or validate_isolation_metadata migrate_legacy_rows
    migrate_legacy_row is_research_report validate_layout_markers foreign_layouts keep row_layouts
    validate_ordinary_rows lookup validate_identity require_integer validate_aggregate
    require_number float_of_int whole validate_optional_fields validate_row_scopes any
    validate_ordinary_resource_coverage validate_resource_coverage json_eq resource_coverage_field
    validate_unique_aggregate_rows validate_unique_identities aggregate_identity
    uses_streaming_profile is_text research_envelope_profile
children_load = refl

child_diagnostics-total_example :
    (diagnostics : List JsonObject) × (child_diagnostics
        (failed_child ∷ good_child ∷ [])
        (clean_payload ∷ [])
      ≡ ok diagnostics)
    × (length diagnostics ≡ length (failed_child ∷ good_child ∷ []))
child_diagnostics-total_example =
    child_diagnostics-total one_file (failed_child ∷ good_child ∷ []) "one-upstream"
      (clean_payload ∷ []) children_load
