-- ===== src/Timing.antt =====
-- Which interval a report's durations measure: foghttp_benchmark/measurement_timing.py.
pub mod Agreement
use fog_http_benchmark.Prelude.{
  Bool, true, false, not, ◌&&◌, ◌||◌, String, Option, none, some, List, [], ◌∷◌, any, all, keep,
  lookup, ◌==◌, string_eq, if◌then◌else◌, Result, ok, err, value_error, ◌>>=◌, ◌>>◌, raise_if, Eq,
  ◌≡◌, ◌↔◌, arith,
}
use fog_http_benchmark.Json.{Json, null, str, arr, nil, cons, JsonObject, get, has, find?, json_eq}
use fog_http_benchmark.Runtime.{is_text}
use fog_http_benchmark.Validity.Profiles.{uses_streaming_profile}

pub data TimingScope : Type 0 where
  requests one_upstream proxy_connect resource_backpressure client_creation : TimingScope
  request_builder streaming lifecycle async_bytes : TimingScope
  legacy_requests legacy_one_upstream legacy_proxy_connect : TimingScope
  legacy_resource_backpressure legacy_streaming : TimingScope

-- the members in order, with their values
abbrev pub timing_scopes : List (String × TimingScope)
timing_scopes =
    ("requests-load-only-v2", requests)
    ∷ ("one-upstream-load-only-v2", one_upstream)
    ∷ ("proxy-connect-load-only-v2", proxy_connect)
    ∷ ("resource-backpressure-load-only-v2", resource_backpressure)
    ∷ ("client-creation-operation-v1", client_creation)
    ∷ ("request-builder-load-only-v1", request_builder)
    ∷ ("load-only-v2", streaming)
    ∷ ("lifecycle-round-load-v1", lifecycle)
    ∷ ("load-only-incremental-sha256-v1", async_bytes)
    ∷ ("requests-sampler-inclusive-v1", legacy_requests)
    ∷ ("one-upstream-sampler-inclusive-v1", legacy_one_upstream)
    ∷ ("proxy-connect-sampler-inclusive-v1", legacy_proxy_connect)
    ∷ ("resource-backpressure-sampler-inclusive-v1", legacy_resource_backpressure)
    ∷ ("legacy-sampler-v1", legacy_streaming)
    ∷ []

unfoldable pub scope_text : TimingScope → String
scope_text requests = "requests-load-only-v2"
scope_text one_upstream = "one-upstream-load-only-v2"
scope_text proxy_connect = "proxy-connect-load-only-v2"
scope_text resource_backpressure = "resource-backpressure-load-only-v2"
scope_text client_creation = "client-creation-operation-v1"
scope_text request_builder = "request-builder-load-only-v1"
scope_text streaming = "load-only-v2"
scope_text lifecycle = "lifecycle-round-load-v1"
scope_text async_bytes = "load-only-incremental-sha256-v1"
scope_text legacy_requests = "requests-sampler-inclusive-v1"
scope_text legacy_one_upstream = "one-upstream-sampler-inclusive-v1"
scope_text legacy_proxy_connect = "proxy-connect-sampler-inclusive-v1"
scope_text legacy_resource_backpressure = "resource-backpressure-sampler-inclusive-v1"
scope_text legacy_streaming = "legacy-sampler-v1"

-- members of an enum are equal if their values are
abbrev pub scope_eq : TimingScope → TimingScope → Bool
scope_eq a b = scope_text a == scope_text b

abbrev pub current_scopes : List (String × TimingScope)
current_scopes =
    ("requests", requests)
    ∷ ("compressed-response", requests)
    ∷ ("one-upstream", one_upstream)
    ∷ ("proxy-connect", proxy_connect)
    ∷ ("resource-backpressure", resource_backpressure)
    ∷ ("client-creation", client_creation)
    ∷ ("request-builder", request_builder)
    ∷ ("response-streaming", streaming)
    ∷ []

abbrev pub legacy_scopes : List (String × TimingScope)
legacy_scopes =
    ("requests", legacy_requests)
    ∷ ("compressed-response", legacy_requests)
    ∷ ("one-upstream", legacy_one_upstream)
    ∷ ("proxy-connect", legacy_proxy_connect)
    ∷ ("resource-backpressure", legacy_resource_backpressure)
    ∷ ("response-streaming", legacy_streaming)
    ∷ []

abbrev pub streaming_profiles : List (String × TimingScope)
streaming_profiles = ("lifecycle", lifecycle) ∷ ("async-bytes", async_bytes) ∷ []

known_scope : Option TimingScope → Result TimingScope
known_scope none = err value_error
known_scope (some scope) = ok scope

unfoldable pub current_timing_scope : String → String → Result TimingScope
unfolding known_scope
current_timing_scope suite profile =
    if suite == "response-streaming" && not (profile == "default")
    then known_scope (lookup profile streaming_profiles)
    else known_scope (lookup suite current_scopes)

unfoldable pub validate_row_scopes : String → List JsonObject → Result (Unit {0})
validate_row_scopes scope rows =
    raise_if
      (any (λ row. has row "timing_scope") rows
        && not (all (λ row. is_text (get row "timing_scope") scope) rows))
      value_error

unfoldable pub report_profile : String → JsonObject → List JsonObject → String
report_profile suite metadata rows =
    if suite == "response-streaming"
    then if uses_streaming_profile metadata rows "async-bytes"
      then "async-bytes"
      else if uses_streaming_profile metadata rows "lifecycle"
      then "lifecycle"
      else "default"
    else "default"

unfoldable pub is_supported : String → String → TimingScope → TimingScope → Bool
is_supported suite profile current scope =
    scope_eq scope current
    || (profile == "default"
        && elim (lookup suite legacy_scopes) [ none ↦ false | some legacy ↦ scope_eq scope legacy ])

-- A streaming report of the default profile may declare its scope on every row instead.
declared_by_rows : List JsonObject → Json
declared_by_rows [] = null
declared_by_rows (row ∷ rows) =
    if all (λ r. has r "timing_scope") (row ∷ rows) then get row "timing_scope" else null

unfoldable pub declared_scope : String → String → JsonObject → List JsonObject → Json
unfolding declared_by_rows
declared_scope suite profile metadata rows = elim (get metadata "timing_scope") [
  | null ↦
      if suite == "response-streaming" && profile == "default" then declared_by_rows rows else null
  | v ↦ get metadata "timing_scope"
]

-- `TimingScope(declared)`
unfoldable pub scope_of : Json → Option TimingScope
scope_of (str s) = lookup s timing_scopes
scope_of _ = none

no_rows : List JsonObject → Bool
no_rows [] = true
no_rows (row ∷ rows) = false

scopes_disagree : JsonObject → TimingScope → List JsonObject → Bool
unfolding no_rows
scopes_disagree metadata scope rows = elim (find? metadata "timing_scopes") [
  | none ↦ false
  | some scopes ↦
      not (json_eq scopes (arr (cons (str (scope_text scope)) nil)))
      && not (no_rows rows && json_eq scopes (arr nil))
]

supported_scope : String → String → TimingScope → Option TimingScope → Result TimingScope
supported_scope suite profile current none = err value_error
supported_scope suite profile current (some scope) =
    if is_supported suite profile current scope then ok scope else err value_error

unfoldable pub report_timing_scope :
    String → JsonObject → List JsonObject → Option (List JsonObject) → Result TimingScope
unfolding supported_scope scopes_disagree
report_timing_scope suite metadata rows runs = do
  let profile = report_profile suite metadata rows
  current ← current_timing_scope suite profile
  scope ←
      supported_scope suite profile current (scope_of (declared_scope suite profile metadata rows))
  validate_row_scopes (scope_text scope) rows
  elim runs [ none ↦ ok tt | some run_rows ↦ validate_row_scopes (scope_text scope) run_rows ]
  raise_if (suite == "response-streaming" && scopes_disagree metadata scope rows) value_error
  ok scope

unfoldable pub validate_timing_compatibility :
    String
    → JsonObject
    → List JsonObject
    → JsonObject
    → List JsonObject
    → Option (List JsonObject)
    → Option (List JsonObject)
    → Result (Unit {0})
validate_timing_compatibility suite old_metadata old_rows new_metadata new_rows old_runs new_runs =
    do
      old_scope ← report_timing_scope suite old_metadata old_rows old_runs
      new_scope ← report_timing_scope suite new_metadata new_rows new_runs
      raise_if (not (scope_eq old_scope new_scope)) value_error
