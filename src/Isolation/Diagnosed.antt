-- ===== src/Isolation/Diagnosed.antt =====
-- Theorems about the diagnostics of child processes in isolation/reports.py.
use fog_http_benchmark.Prelude.{
  ℕ, suc, ◌+◌, ◌≡◌, refl, ap, String, Option, none, some, List, [], ◌∷◌, arith, Result, ok,
  >>=-eq-ok, >>-eq-ok, ok-injective, length, length-append,
}
use fog_http_benchmark.Json.{JsonObject}
use fog_http_benchmark.Runtime.{Runtime}
use fog_http_benchmark.Schema.Identity.{validate_unique_aggregate_rows}
use fog_http_benchmark.Compare.Loading.{load_report}
use fog_http_benchmark.Isolation.{
  ChildProcessResult, ReportFiles, Collected, successful_path, collect_child, collect_children,
  load_successful_child_payloads, child_result_payload, diagnose, diagnose_one, diagnose_from,
  child_diagnostics, report_payload,
}

abbrev counted : Option String → ℕ
counted none = 0
counted (some path) = 1

-- the children that returned zero and wrote a report
abbrev successes : List ChildProcessResult → ℕ
successes [] = 0
successes (result ∷ results) = counted (successful_path result) + successes results

Diagnosed : List ChildProcessResult → Result (List JsonObject) → Type 0
Diagnosed results found =
    (diagnostics : List JsonObject) × (found ≡ ok diagnostics)
    × (length diagnostics ≡ length results)

diagnose_one-ok :
    (result : ChildProcessResult) (path : Option String) (payloads : List JsonObject) (n : ℕ)
    → length payloads ≡ counted path + n
    → (this : JsonObject) × (others : List JsonObject) × (diagnose_one result path payloads
        ≡ ok (this, others))
      × (length others ≡ n)
diagnose_one-ok result none payloads n h =
    (child_result_payload result, payloads, refl, omega (arith, h))
diagnose_one-ok result (some path) [] n h = absurd (omega (arith, h))
diagnose_one-ok result (some path) (payload ∷ payloads) n h =
    (diagnose result payload, payloads, refl, omega (arith, h))

diagnose_from-Diagnosed :
    (results : List ChildProcessResult) (payloads : List JsonObject)
    → length payloads ≡ successes results
    → Diagnosed results (diagnose_from results payloads)
unfolding Diagnosed diagnose_from
diagnose_from-Diagnosed [] payloads h = ([], refl, refl)
diagnose_from-Diagnosed (result ∷ results) payloads h =
    let (this, others, first, left) =
      diagnose_one-ok result (successful_path result) payloads (successes results) h in
    let (rest, found, same) = diagnose_from-Diagnosed results others left in
    (this ∷ rest, rw (first, found) refl, ap suc same)

module _ ⦃r : Runtime⦄ (files : ReportFiles) where
  collect_child-length :
      (suite : String) (c : Collected) (path : Option String) {next : Collected}
      → collect_child files suite c path ≡ ok next
      → length next.payloads ≡ length c.payloads + counted path
  unfolding collect_child
  collect_child-length suite c none h = rw (← ok-injective h) (omega arith)
  collect_child-length suite c (some path) h =
      let (payload, _, h) = >>=-eq-ok (files.payload_of path) _ h in
      let (report, _, h) =
        >>=-eq-ok (load_report payload (files.evidence_of path) (some suite)) _ h in
      rw (← ok-injective h) (length-append c.payloads (report_payload report ∷ []))

  collect_children-length :
      (suite : String) (c : Collected) (results : List ChildProcessResult) {last : Collected}
      → collect_children files suite c results ≡ ok last
      → length last.payloads ≡ length c.payloads + successes results
  unfolding collect_children
  collect_children-length suite c [] h = rw (← ok-injective h) (omega arith)
  collect_children-length suite c (result ∷ results) h =
      let (next, collected, h) =
        >>=-eq-ok (collect_child files suite c (successful_path result)) _ h in
      omega (
        arith,
        collect_child-length suite c (successful_path result) collected,
        collect_children-length suite next results h,
      )

  -- Once the reports of the successful children are loaded, the diagnostics of all children are
  -- found, one for each: the loaded payloads never run out.
  pub child_diagnostics-total :
      (results : List ChildProcessResult) (suite : String) (payloads : List JsonObject)
      → load_successful_child_payloads files results suite ≡ ok payloads
      → (diagnostics : List JsonObject) × (child_diagnostics results payloads ≡ ok diagnostics)
        × (length diagnostics ≡ length results)
  unfolding load_successful_child_payloads child_diagnostics Diagnosed
  child_diagnostics-total results suite payloads h =
      let (collected, gathered, h) =
        >>=-eq-ok
          (collect_children files suite
            (record { payloads = []; aggregate_rows = []; sources = [] }) results)
          _ h in
      let (_, h) =
        >>-eq-ok
          (validate_unique_aggregate_rows suite collected.aggregate_rows (some collected.sources)) _
          h in
      let counts =
        collect_children-length suite (record { payloads = []; aggregate_rows = []; sources = [] })
          results gathered in
      diagnose_from-Diagnosed results payloads (rw (← ok-injective h) (omega (arith, counts)))
