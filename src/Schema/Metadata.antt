-- ===== src/Schema/Metadata.antt =====
-- The checks of metadata, of child diagnostics and of research rows, of report_schema/decoding.py.
pub mod Diagnosed
use fog_http_benchmark.Prelude.{
  ℕ, Bool, true, false, not, ◌&&◌, ◌||◌, String, none, some, List, [], ◌∷◌, length, ◌==◌, string_eq,
  nat_eq, if◌then◌else◌, Result, ok, type_error, value_error, ◌>>=◌, ◌>>◌, raise_if, for_each,
}
use fog_http_benchmark.Json.{Json, int, obj, JsonObject, empty, entry, find?, get, get_or, has}
use fog_http_benchmark.Runtime.{is_text}
use fog_http_benchmark.Validity.Profiles.{uses_streaming_profile}
use fog_http_benchmark.Validity.Serialization.{validity_summary_from_payload}
use fog_http_benchmark.Schema.Fields.{
  require_integer, require_number, require_object, require_rows, require_string,
}
use fog_http_benchmark.Schema.Fields.{nonnegative, is_null}
use fog_http_benchmark.Schema.Resources.{validate_resource_coverage}
use fog_http_benchmark.Schema.Tables.{report_schema_version, resource_metric_schema_version}

validate_schema_version : JsonObject → Result (Unit {0})
validate_schema_version metadata = elim (find? metadata "report_schema_version") [
  | none ↦ ok tt
  | some value ↦
      (require_integer value 1 >>= λ version.
      raise_if (not (version == report_schema_version)) value_error)
]

validate_metric_version : JsonObject → String → ℕ → Bool → Result (Unit {0})
validate_metric_version metadata key supported allowed = elim (find? metadata key) [
  | none ↦ ok tt
  | some value ↦
      (require_integer value 1 >>= λ version.
      raise_if (not (version == supported) || not allowed) value_error)
]

unfoldable pub validate_versions : JsonObject → String → Result (Unit {0})
unfolding validate_schema_version validate_metric_version
validate_versions metadata suite = do
  validate_schema_version metadata
  validate_metric_version metadata "resource_metric_schema_version" resource_metric_schema_version
      true
  validate_metric_version metadata "streaming_metric_schema_version" 2
      (suite == "response-streaming")
  raise_if
      (has metadata "schema_version"
        && (not (suite == "response-streaming")
            || not (uses_streaming_profile metadata [] "async-bytes")))
      value_error

validate_text_key : JsonObject → String → Result (Unit {0})
validate_text_key metadata key = elim (find? metadata key) [
  | none ↦ ok tt
  | some value ↦ require_string value >> ok tt
]

validate_texts : JsonObject → Result (Unit {0})
validate_texts empty = ok tt
validate_texts (entry name version rest) = require_string version >> validate_texts rest

validate_object_key : JsonObject → String → Result (Unit {0})
unfolding validate_texts
validate_object_key metadata key = elim (find? metadata key) [
  | none ↦ ok tt
  | some value ↦
      (require_object value >>= λ held.
      if key == "package_versions" then validate_texts held else ok tt)
]

unfoldable pub validate_metadata_objects : JsonObject → Result (Unit {0})
unfolding validate_text_key validate_object_key
validate_metadata_objects metadata = do
  for_each (validate_text_key metadata) ("timestamp" ∷ "python" ∷ "platform" ∷ [])
  for_each (validate_object_key metadata)
      ("args" ∷ "package_versions" ∷ "package_sources" ∷ "skipped" ∷ [])

unfoldable pub validate_metadata : JsonObject → String → Result (Unit {0})
validate_metadata metadata suite = do
  validate_versions metadata suite
  validate_metadata_objects metadata
  args ← require_object (get_or metadata "args" (obj empty))
  raise_if (has args "suite" && not (is_text (get args "suite") suite)) value_error
  raise_if (not (suite == "response-streaming") && has metadata "profile") value_error

is_int_value : Json → Bool
is_int_value (int n) = true
is_int_value _ = false

validate_returncode : JsonObject → Bool → String → Result (Unit {0})
unfolding is_int_value
validate_returncode child research field =
    if research && is_null (get child field)
    then ok tt
    else raise_if (not (is_int_value (get child field))) type_error

unfoldable pub check_present : JsonObject → String → (Json → Result (Unit {0})) → Result (Unit {0})
check_present o key check = elim (find? o key) [ none ↦ ok tt | some value ↦ check value ]

unfoldable pub validate_recorded_validity : Json → Result (Unit {0})
validate_recorded_validity value =
    require_object value >>= λ o. validity_summary_from_payload o >> ok tt

unfoldable pub validate_child_diagnostic : Bool → JsonObject → Result (Unit {0})
unfolding validate_returncode check_present validate_recorded_validity
validate_child_diagnostic research child = do
  validate_returncode child research "returncode"
  if has child "server_returncode"
      then validate_returncode child research "server_returncode"
      else ok tt
  if is_null (get child "report_path")
      then ok tt
      else require_string (get child "report_path") >> ok tt
  check_present child "sequence" (λ v. require_integer v 1 >> ok tt)
  check_present child "duration_s" (λ v. require_number v nonnegative >> ok tt)
  check_present child "validity" validate_recorded_validity

validate_children : JsonObject → Json → Result (Unit {0})
unfolding check_present
validate_children isolation value = do
  children ← require_rows value
  check_present isolation "child_count"
      (λ v. require_integer v 0 >>= λ n. raise_if (not (n == length children)) value_error)
  for_each (validate_child_diagnostic (is_text (get isolation "mode") "per-lifecycle-case"))
      children

unfoldable pub validate_isolation_metadata : JsonObject → Result (Unit {0})
unfolding check_present validate_children
validate_isolation_metadata metadata = check_present metadata "isolation" (λ v.
    require_object v >>= λ isolation.
    check_present isolation "children" (validate_children isolation))

validate_research_row : JsonObject → Result (Unit {0})
unfolding check_present
validate_research_row row = do
  for_each (λ key. require_string (get row key) >> ok tt)
      ("mode" ∷ "client" ∷ "case" ∷ "read" ∷ "consume" ∷ [])
  for_each (λ key. require_integer (get row key) 1 >> ok tt) ("concurrency" ∷ "request_limit" ∷ [])
  for_each (λ key. require_integer (get row key) 0 >> ok tt)
      ("errors_total" ∷ "warmup_errors_total" ∷ [])
  for_each
      (λ key.
        if is_null (get row key) then ok tt else require_number (get row key) nonnegative >> ok tt)
      ("verified_bytes_s_median" ∷ "ok_streams_s_median" ∷ "p95_ms_median" ∷ "p99_ms_median" ∷ [])
  resources ← require_object (get_or row "resources" (obj empty))
  for_each
      (λ role. check_present resources role (λ v.
        require_object v >>= λ observation. validate_resource_coverage observation false >> ok tt))
      ("client" ∷ "server" ∷ [])

unfoldable pub validate_research_rows : List JsonObject → Result (Unit {0})
unfolding validate_research_row
validate_research_rows = for_each validate_research_row
