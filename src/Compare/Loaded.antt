-- ===== src/Compare/Loaded.antt =====
-- Theorems about the reports that compare/loading.py loads.
use fog_http_benchmark.Prelude.{
  ◌≡◌, ◌≢◌, refl, sym, ap, ◌∙◌, String, none, some, List, [], ◌∷◌, map, arith, Result, ok,
  >>=-eq-ok, ok-injective, traverse, All, IsDistinct, Result-cases, inl, inr, string_eq,
}
use fog_http_benchmark.Json.{Json, JsonObject}
use fog_http_benchmark.Runtime.{Runtime}
use fog_http_benchmark.Schema.Identity.{Identity, aggregate_identity, comparison_group}
use fog_http_benchmark.Schema.Decoding.{DecodedReport, decode_report_payload}
use fog_http_benchmark.Schema.Decoding.Admitted.{decode_report_payload-IsAdmitted}
use fog_http_benchmark.Validity.Classification.{validity_summary_from_metadata}
use fog_http_benchmark.Compare.{BenchmarkRow, BenchmarkReport}
use fog_http_benchmark.Compare.Fields.{str_field}
use fog_http_benchmark.Compare.Loading.{
  benchmark_row, raised_as_value_error, load_report, load_benchmark_report,
}
use fog_http_benchmark.Compare.Described.{IsBuilt, benchmark_row-IsBuilt}

-- The identity starts with the mode and the client, and the group is the identity without the
-- client.
pub record IsGrouped (row : BenchmarkRow) : Type 0 where
  pub workload : List String
  pub identified : row.identity ≡ row.mode ∷ row.client ∷ workload
  pub grouped : row.group ≡ row.mode ∷ workload

abbrev pub client_in_group : BenchmarkRow → List String
client_in_group row = row.client ∷ row.group

abbrev after_two : List String → List String
after_two (x ∷ y ∷ rest) = rest
after_two _ = []

grouped-injective :
    (a b : BenchmarkRow)
    → IsGrouped a
    → IsGrouped b
    → client_in_group a ≡ client_in_group b
    → a.identity ≡ b.identity
grouped-injective a b ga gb same =
    ground (arith, ga.identified, ga.grouped, gb.identified, gb.grouped, same)

module _ {ℓ κ} {A : Type ℓ} {P : A → Type κ} (f g : A → Identity)
    (determined : (x y : A) → P x → P y → g x ≡ g y → f x ≡ f y) where
  others_distinct :
      (x : A) (xs : List A)
      → P x
      → All P xs
      → All (λ y. f x ≢ y) (map f xs)
      → All (λ y. g x ≢ y) (map g xs)
  others_distinct x [] p ps h = tt
  others_distinct x (y ∷ ys) p ps h =
      (λ same. h.0 (determined x y p ps.0 same), others_distinct x ys p ps.1 h.1)

  map-IsDistinct : (xs : List A) → All P xs → IsDistinct (map f xs) → IsDistinct (map g xs)
  map-IsDistinct [] ps h = tt
  map-IsDistinct (x ∷ xs) ps h = (others_distinct x xs ps.0 ps.1 h.0, map-IsDistinct xs ps.1 h.1)

pub map_ok-injective : (xs ys : List Identity) → map ok xs ≡ map ok ys → xs ≡ ys
map_ok-injective [] [] h = refl
map_ok-injective [] (y ∷ ys) h = cc
map_ok-injective (x ∷ xs) [] h = cc
map_ok-injective (x ∷ xs) (y ∷ ys) h =
    let tails : map ok xs ≡ map ok ys = cc h in cc (h, map_ok-injective xs ys tails)

module _ ⦃r : Runtime⦄ where
  -- what an identity consists of
  identity_parts :
      (suite : String) (row : JsonObject) {identity : Identity} {mode client : String}
      → aggregate_identity suite row ≡ ok identity
      → str_field row "mode" none ≡ ok mode
      → str_field row "client" none ≡ ok client
      → identity ≡ mode ∷ client ∷ after_two identity
  unfolding aggregate_identity str_field
  identity_parts suite row h has_mode has_client = ground arith

  IsBuilt-IsGrouped :
      (suite : String) (row : JsonObject) (built : BenchmarkRow)
      → IsBuilt suite row built
      → IsGrouped built
  unfolding comparison_group
  IsBuilt-IsGrouped suite row built h =
      let e = identity_parts suite row h.same_identity h.same_mode h.same_client in
      record {
        workload = after_two built.identity;
        identified = e;
        grouped = h.same_group ∙ ap comparison_group e;
      }

  built_rows :
      (suite : String) (rows : List JsonObject) (built : List BenchmarkRow)
      → traverse (benchmark_row suite) rows ≡ ok built
      → (map (aggregate_identity suite) rows ≡ map ok (map (λ b. b.identity) built))
        × All IsGrouped built
  unfolding traverse
  built_rows suite [] built h = rw (← ok-injective h) (refl, tt)
  built_rows suite (row ∷ rows) built h =
      let (b, this, h) = >>=-eq-ok (benchmark_row suite row) _ h in
      let (bs, others, h) = >>=-eq-ok (traverse (benchmark_row suite) rows) _ h in
      let facts = benchmark_row-IsBuilt suite row this in
      let (same, grouped) = built_rows suite rows bs others in
      rw (← ok-injective h)
        (cc (facts.same_identity, same), (IsBuilt-IsGrouped suite row b facts, grouped))

  load_report-decoded :
      (payload : Json) (evidence : Result Json) (report : DecodedReport)
      → load_report payload evidence none ≡ ok report
      → (decoded : DecodedReport) × (decode_report_payload payload none ≡ ok decoded)
        × (decoded.suite ≡ report.suite)
        × (decoded.aggregate_rows ≡ report.aggregate_rows)
  unfolding load_report raised_as_value_error
  load_report-decoded payload evidence report h =
      elim (Result-cases (decode_report_payload payload none)) [
        | inl (e, failed) ↦ ground (arith, failed)
        | inr (decoded, passed) ↦ (decoded, passed, ground (arith, passed), ground (arith, passed))
      ]

  built-IsDistinct :
      (payload : Json) (evidence : Result Json) (report : DecodedReport)
      → load_report payload evidence none ≡ ok report
      → (rows : List BenchmarkRow)
      → map (aggregate_identity report.suite) report.aggregate_rows
        ≡ map ok (map (λ b. b.identity) rows)
      → IsDistinct (map (λ b. b.identity) rows)
  built-IsDistinct payload evidence report h rows same =
      let (decoded, passed, suite, aggregate) = load_report-decoded payload evidence report h in
      let (ids, identified, distinct) =
        (decode_report_payload-IsAdmitted payload none decoded passed).0.distinct in
      let found = rw (suite, aggregate) at identified in
      let ids_same = map_ok-injective ids (map (λ b. b.identity) rows) (sym found ∙ same) in
      rw (← ids_same) distinct

  -- Every row belongs to the group of its identity, no two rows have the same identity, no two
  -- have the same client and group, and the validity is the one of the report's rows and metadata.
  pub record IsLoaded (report : BenchmarkReport) : Type 0 where
    pub identities :
        map (aggregate_identity report.suite) report.aggregate_rows
        ≡ map ok (map (λ b. b.identity) report.rows)
    pub distinct : IsDistinct (map (λ b. b.identity) report.rows)
    pub grouped : All IsGrouped report.rows
    pub one_per_group : IsDistinct (map client_in_group report.rows)
    pub classified :
        validity_summary_from_metadata report.metadata report.suite report.aggregate_rows
        ≡ ok report.validity

  -- In a report that is loaded each row has the identity of the aggregate row that it is built from
  -- and the group of that identity, no two rows have one identity or one client and group, and the
  -- validity is that of the report's rows and metadata.
  pub load_benchmark_report-IsLoaded :
      (path : String) (payload : Json) (evidence : Result Json) (report : BenchmarkReport)
      → load_benchmark_report path payload evidence ≡ ok report
      → IsLoaded report
  unfolding load_benchmark_report
  load_benchmark_report-IsLoaded path payload evidence report h =
      let (decoded, loaded, h) = >>=-eq-ok (load_report payload evidence none) _ h in
      let (rows, built, h) =
        >>=-eq-ok (traverse (benchmark_row decoded.suite) decoded.aggregate_rows) _ h in
      let (validity, classified, h) =
        >>=-eq-ok
          (validity_summary_from_metadata decoded.metadata decoded.suite decoded.aggregate_rows) _
          h in
      let (timestamp, stamped, h) =
        >>=-eq-ok (str_field decoded.metadata "timestamp" (some "-")) _ h in
      let (same, grouped) = built_rows decoded.suite decoded.aggregate_rows rows built in
      let distinct = built-IsDistinct payload evidence decoded loaded rows same in
      rw (← ok-injective h) (record {
        identities = same;
        distinct = distinct;
        grouped = grouped;
        one_per_group =
            map-IsDistinct (λ b. b.identity) client_in_group grouped-injective rows grouped
              distinct;
        classified = classified;
      })
