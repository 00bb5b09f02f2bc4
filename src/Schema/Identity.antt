-- ===== src/Schema/Identity.antt =====
-- The keys of aggregate rows: report_schema/identity.py.
pub mod Unique
use fog_http_benchmark.Prelude.{
  Bool, true, false, String, Option, none, some, List, [], ◌∷◌, ◌++◌, map, ◌||◌, ◌==◌, string_eq,
  list_eq, contains, lookup, if◌then◌else◌, Result, ok, err, value_error, ◌>>=◌, ◌>>◌, raise_if,
}
use fog_http_benchmark.Json.{Json, null, str, obj, JsonObject, empty, get, get_or, has}
use fog_http_benchmark.Runtime.{Runtime, py_str, is_text}
use fog_http_benchmark.Schema.Fields.{require_string}

abbrev pub Identity : Type 0
Identity = List String

abbrev pub identity_fields : List (String × List String)
identity_fields =
    ("requests", "scenario" ∷ "concurrency" ∷ "request_limit" ∷ [])
    ∷ ("compressed-response", "scenario" ∷ "concurrency" ∷ "request_limit" ∷ [])
    ∷ ("client-creation", "scenario" ∷ "client_count" ∷ "iterations" ∷ [])
    ∷ (
      "resource-backpressure",
      "scenario" ∷ "concurrency" ∷ "request_limit" ∷ "per_origin_request_limit"
          ∷ "max_pending_requests" ∷ "max_buffered_response_bytes" ∷ [],
    )
    ∷ ("one-upstream", "group" ∷ "case" ∷ "profile" ∷ "concurrency" ∷ "request_limit" ∷ [])
    ∷ ("request-builder", "kind" ∷ "group" ∷ "case" ∷ "profile" ∷ "iterations" ∷ [])
    ∷ ("response-streaming", "case" ∷ "read" ∷ "consume" ∷ "concurrency" ∷ "request_limit" ∷ [])
    ∷ (
      "proxy-connect",
      "case" ∷ "group" ∷ "target_scheme" ∷ "config" ∷ "lifecycle" ∷ "concurrency" ∷ "request_limit"
          ∷ [],
    )
    ∷ []

unfoldable pub or_raise {ℓ} : {A : Type ℓ} → Option A → Result A
or_raise none = err value_error
or_raise (some a) = ok a

module _ ⦃r : Runtime⦄ where
  -- `"-" if row.get(field) is None else str(row[field])`
  unfoldable pub identity_text : Json → String
  identity_text null = "-"
  identity_text v = py_str v

  scopes_of : JsonObject → Result (List String)
  scopes_of row = do
    throughput ← require_string (get_or row "throughput_scope" (str "legacy-observed-v1"))
    timing ← require_string (get_or row "timing_scope" (str "legacy-sampler-v1"))
    ok (throughput ∷ timing ∷ [])

  profile_dimensions : JsonObject → Result (List String)
  profile_dimensions row =
      if is_text (get row "profile") "lifecycle"
      then ok ("lifecycle" ∷ r.dumps (get_or row "configuration" (obj empty)) ∷ [])
      else if is_text (get row "profile") "async-bytes"
      then (do
        conditions ← require_string (get row "condition_fingerprint")
        primary ← require_string (get row "primary_metric")
        ok ("async-bytes" ∷ conditions ∷ primary ∷ []))
      else ok []

  unfoldable pub streaming_dimensions : JsonObject → Result (List String)
  unfolding scopes_of profile_dimensions
  streaming_dimensions row = do
    dimensions ← profile_dimensions row
    if has row "throughput_scope" || has row "timing_scope"
        then (do scopes ← scopes_of row; ok (dimensions ++ scopes))
        else ok dimensions

  unfoldable pub aggregate_identity : String → JsonObject → Result Identity
  unfolding or_raise
  aggregate_identity suite row = do
    fields ← or_raise (lookup suite identity_fields)
    mode ← require_string (get row "mode")
    client ← require_string (get row "client")
    let identity = mode ∷ client ∷ map (λ field. identity_text (get row field)) fields
    if suite == "response-streaming"
        then (do dimensions ← streaming_dimensions row; ok (identity ++ dimensions))
        else ok identity

-- The workload without the client, which stands at position one.
unfoldable pub comparison_group : Identity → Identity
comparison_group [] = []
comparison_group (mode ∷ []) = mode ∷ []
comparison_group (mode ∷ client ∷ rest) = mode ∷ rest

-- The identities come from a generator, so computing one may raise when its turn comes. `seen`
-- holds the identities so far; the sources serve the message alone, apart from their number.
unfoldable pub unique_from : List Identity → List (Result Identity) → Result (Unit {0})
unique_from seen [] = ok tt
unique_from seen (identity ∷ rest) = do
  this ← identity
  raise_if (contains this seen) value_error
  unique_from (this ∷ seen) rest

-- `zip(identities, sources, strict=True)`
unfoldable pub unique_zip : List Identity → List (Result Identity) → List String → Result (Unit {0})
unique_zip seen [] [] = ok tt
unique_zip seen (identity ∷ rest) (source ∷ sources) = do
  this ← identity
  raise_if (contains this seen) value_error
  unique_zip (this ∷ seen) rest sources
unique_zip seen (identity ∷ rest) [] = identity >> err value_error
unique_zip seen [] (source ∷ sources) = err value_error

unfoldable pub validate_unique_identities :
    List (Result Identity) → Option (List String) → Result (Unit {0})
unfolding unique_from unique_zip
validate_unique_identities identities none = unique_from [] identities
validate_unique_identities identities (some sources) = unique_zip [] identities sources

module _ ⦃r : Runtime⦄ where
  unfoldable pub validate_unique_aggregate_rows :
      String → List JsonObject → Option (List String) → Result (Unit {0})
  validate_unique_aggregate_rows suite rows sources =
      validate_unique_identities (map (aggregate_identity suite) rows) sources
