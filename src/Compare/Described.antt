-- ===== src/Compare/Described.antt =====
-- Theorems about the rows that compare/loading.py builds.
use fog_http_benchmark.Prelude.{
  ◌≡◌, String, none, some, arith, if◌then◌else◌, Bool-cases, Option-cases, eq_iff, inl, inr, ◌==◌,
  string_eq, Result, ok, >>=-eq-ok,
}
use fog_http_benchmark.Json.{JsonObject, get, has, find?}
use fog_http_benchmark.Runtime.{Runtime}
use fog_http_benchmark.Schema.Fields.{require_string}
use fog_http_benchmark.Schema.Identity.{Identity, aggregate_identity, comparison_group}
use fog_http_benchmark.Compare.{BenchmarkRow}
use fog_http_benchmark.Compare.Fields.{str_field}
use fog_http_benchmark.Compare.Rows.{
  measured_row, request_row, client_creation_row, resource_row, one_upstream_row,
  request_builder_row, proxy_connect_row,
}
use fog_http_benchmark.Compare.Streaming.{response_streaming_row}
use fog_http_benchmark.Compare.Loading.{build_row, benchmark_row}

-- What a built row says of itself: its suite, its identity and group, its mode and its client.
pub record IsBuilt ⦃r : Runtime⦄ (suite : String) (row : JsonObject) (built : BenchmarkRow)
    : Type 0 where
  pub same_suite : built.suite ≡ suite
  pub same_identity : aggregate_identity suite row ≡ ok built.identity
  pub same_group : built.group ≡ comparison_group built.identity
  pub same_mode : str_field row "mode" none ≡ ok built.mode
  pub same_client : str_field row "client" none ≡ ok built.client

module _ ⦃r : Runtime⦄ where
  request_row-IsBuilt :
      (suite : String) (row : JsonObject) {built : BenchmarkRow}
      → request_row row suite ≡ ok built
      → IsBuilt suite row built
  unfolding request_row measured_row
  request_row-IsBuilt suite row h = ground arith

  client_creation_row-IsBuilt :
      (row : JsonObject) {built : BenchmarkRow}
      → client_creation_row row ≡ ok built
      → IsBuilt "client-creation" row built
  unfolding client_creation_row measured_row
  client_creation_row-IsBuilt row h = ground arith

  one_upstream_row-IsBuilt :
      (row : JsonObject) {built : BenchmarkRow}
      → one_upstream_row row ≡ ok built
      → IsBuilt "one-upstream" row built
  unfolding one_upstream_row measured_row
  one_upstream_row-IsBuilt row h = ground arith

  request_builder_row-IsBuilt :
      (row : JsonObject) {built : BenchmarkRow}
      → request_builder_row row ≡ ok built
      → IsBuilt "request-builder" row built
  unfolding request_builder_row measured_row
  request_builder_row-IsBuilt row h = ground arith

  proxy_connect_row-IsBuilt :
      (row : JsonObject) {built : BenchmarkRow}
      → proxy_connect_row row ≡ ok built
      → IsBuilt "proxy-connect" row built
  unfolding proxy_connect_row measured_row
  proxy_connect_row-IsBuilt row h = ground arith

  response_streaming_row-IsBuilt :
      (row : JsonObject) {built : BenchmarkRow}
      → response_streaming_row row ≡ ok built
      → IsBuilt "response-streaming" row built
  unfolding response_streaming_row
  response_streaming_row-IsBuilt row h = ground arith

  resource_row_reads :
      (row : JsonObject) {built : BenchmarkRow}
      → resource_row row ≡ ok built
      → (built.suite ≡ "resource-backpressure")
        × (aggregate_identity "resource-backpressure" row ≡ ok built.identity)
        × (built.group ≡ comparison_group built.identity)
        × (str_field row "mode" none ≡ ok built.mode)
        × (str_field row "client" (some "foghttp") ≡ ok built.client)
  unfolding resource_row measured_row
  resource_row_reads row h = ground arith

  -- A row with an identity has a client, so the default of a resource row is not used.
  identified-client :
      (suite : String) (row : JsonObject) {identity : Identity} {client : String}
      → aggregate_identity suite row ≡ ok identity
      → str_field row "client" (some "foghttp") ≡ ok client
      → str_field row "client" none ≡ ok client
  unfolding aggregate_identity str_field has get require_string
  identified-client suite row identified has_client = elim (Option-cases (find? row "client")) [
    | inl missing ↦ ground (arith, missing)
    | inr (v, found) ↦ ground (arith, found)
  ]

  resource_row-IsBuilt :
      (row : JsonObject) {built : BenchmarkRow}
      → resource_row row ≡ ok built
      → IsBuilt "resource-backpressure" row built
  unfolding resource_row
  resource_row-IsBuilt row {built} h =
      let facts = resource_row_reads row h in
      record {
        same_suite = facts.0;
        same_identity = facts.1;
        same_group = facts.2;
        same_mode = facts.3;
        same_client = identified-client "resource-backpressure" row facts.1 facts.4;
      }

  -- one choice of the builder by the suite
  chosen-IsBuilt :
      (suite name : String) (row : JsonObject) (this other : Result BenchmarkRow)
      {built : BenchmarkRow}
      → (this ≡ ok built → IsBuilt name row built)
      → (other ≡ ok built → IsBuilt suite row built)
      → (if suite == name then this else other) ≡ ok built
      → IsBuilt suite row built
  chosen-IsBuilt suite name row this other f g h = elim (Bool-cases (suite == name)) [
    | inl same ↦ rw ((eq_iff suite name).0 same) (f (rw same at h))
    | inr different ↦ g (rw different at h)
  ]

  build_row-IsBuilt :
      (suite : String) (row : JsonObject) {built : BenchmarkRow}
      → build_row suite row ≡ ok built
      → IsBuilt suite row built
  unfolding build_row
  build_row-IsBuilt suite row =
      chosen-IsBuilt suite "client-creation" row _ _ (client_creation_row-IsBuilt row) (
        chosen-IsBuilt suite "resource-backpressure" row _ _ (resource_row-IsBuilt row) (
          chosen-IsBuilt suite "one-upstream" row _ _ (one_upstream_row-IsBuilt row) (
            chosen-IsBuilt suite "request-builder" row _ _ (request_builder_row-IsBuilt row) (
              chosen-IsBuilt suite "response-streaming" row _ _ (response_streaming_row-IsBuilt row)
                (chosen-IsBuilt suite "proxy-connect" row _ _ (proxy_connect_row-IsBuilt row)
                  (request_row-IsBuilt suite row))))))

  -- A row that is built for a comparison has the suite, the identity and the client of the row it
  -- is built from, and the group of that identity.
  pub benchmark_row-IsBuilt :
      (suite : String) (row : JsonObject) {built : BenchmarkRow}
      → benchmark_row suite row ≡ ok built
      → IsBuilt suite row built
  unfolding benchmark_row
  benchmark_row-IsBuilt suite row h =
      let (benchmark, built, rest) = >>=-eq-ok (build_row suite row) _ h in
      ground (arith, rest, build_row-IsBuilt suite row built)
