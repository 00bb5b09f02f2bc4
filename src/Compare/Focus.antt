-- ===== src/Compare/Focus.antt =====
-- Theorems about `focus_rows_by_identity` of compare/analysis.py.
use fog_http_benchmark.Prelude.{
  ◌+◌, ◌≡◌, ◌≢◌, refl, sym, ap, map, ◌++◌, All-imply, All-zip, All-map, length-append, ◌&&◌, String,
  some, Bool, List, [], ◌∷◌, arith, length, keep, All, IsDistinct, ◌==◌, string_eq, list_eq,
  list_beq_iff, nat_eq, Bool-cases, inl, inr, ok, >>=-eq-ok, >>-eq-ok, ok-injective,
}
use fog_http_benchmark.Schema.Identity.{Identity, validate_unique_identities}
use fog_http_benchmark.Schema.Identity.Unique.{validate_unique_identities_sources_iff}
use fog_http_benchmark.Compare.{BenchmarkRow, BenchmarkReport}
use fog_http_benchmark.Compare.Order.{put_key, texts_lt, sort_by}
use fog_http_benchmark.Compare.Analysis.{
  FocusRows, keys, focus_from, focus_rows_by_identity, canonical_rows, has_primary, row_sources,
}
use fog_http_benchmark.Compare.Sorted.{keep-sort_by, sort_by-IsDistinct}

put_key-keys :
    (new k : Identity) (row : BenchmarkRow) (table : FocusRows)
    → new ≢ k
    → All (λ y. new ≢ y) (keys table)
    → All (λ y. new ≢ y) (keys (put_key k row table))
unfolding put_key
put_key-keys new k row [] other h = (other, tt)
put_key-keys new k row ((j, w) ∷ table) other h = elim (Bool-cases (k == j)) [
  | inl same ↦ rw same h
  | inr different ↦ rw different (h.0, put_key-keys new k row table other h.1)
]

put_key-IsDistinct :
    (k : Identity) (row : BenchmarkRow) (table : FocusRows)
    → IsDistinct (keys table)
    → IsDistinct (keys (put_key k row table))
unfolding put_key
put_key-IsDistinct k row [] h = (tt, tt)
put_key-IsDistinct k row ((j, w) ∷ table) h = elim (Bool-cases (k == j)) [
  | inl same ↦ rw same h
  | inr different ↦ rw different (
    put_key-keys j k row table (λ e. ground (arith, e, different, list_beq_iff k j)) h.0,
    put_key-IsDistinct k row table h.1,
  )
]

focus_from-IsDistinct :
    (client : String) (found : FocusRows) (rows : List BenchmarkRow)
    → IsDistinct (keys found)
    → IsDistinct (keys (focus_from client found rows))
unfolding focus_from
focus_from-IsDistinct client found [] h = h
focus_from-IsDistinct client found (row ∷ rows) h =
    elim (Bool-cases (row.client == client && has_primary row)) [
      | inl focus ↦ rw focus (
          focus_from-IsDistinct client (put_key row.identity row found) rows
            (put_key-IsDistinct row.identity row found h))
      | inr other ↦ rw other (focus_from-IsDistinct client found rows h)
    ]

pub focus_rows-IsDistinct :
    (report : BenchmarkReport) (client : String) {found : FocusRows}
    → focus_rows_by_identity report client ≡ ok found
    → IsDistinct (keys found)
unfolding focus_rows_by_identity
focus_rows-IsDistinct report client h =
    let (rows, sorted, h) = >>=-eq-ok (canonical_rows report) _ h in
    rw (← ok-injective h) (focus_from-IsDistinct client [] rows tt)

-- The rows of the client that have a primary value.
abbrev pub measured_rows : String → List BenchmarkRow → List BenchmarkRow
measured_rows client = keep (λ row. row.client == client && has_primary row)

put_key_new :
    (k : Identity) (row : BenchmarkRow) (table : FocusRows)
    → All (λ j. k ≢ j) (keys table)
    → put_key k row table ≡ table ++ (k, row) ∷ []
unfolding put_key
put_key_new k row [] new = refl
put_key_new k row ((j, w) ∷ table) new = elim (Bool-cases (k == j)) [
  | inl same ↦ absurd (new.0 ((list_beq_iff k j).0 same))
  | inr different ↦ rw different (ap (λ rest. (j, w) ∷ rest) (put_key_new k row table new.1))
]

keys_snoc :
    (P : Identity → Type 0) (found : FocusRows) (k : Identity) (row : BenchmarkRow)
    → All P (keys found)
    → P k
    → All P (keys (found ++ (k, row) ∷ []))
keys_snoc P [] k row h p = (p, tt)
keys_snoc P (e ∷ found) k row h p = (h.0, keys_snoc P found k row h.1 p)

-- Of rows with distinct identities the loop keeps each measured one of the client.
length-focus_from :
    (client : String) (found : FocusRows) (rows : List BenchmarkRow)
    → All (λ row. All (λ j. row.identity ≢ j) (keys found)) rows
    → IsDistinct (map (λ row. row.identity) rows)
    → length (focus_from client found rows) ≡ length found + length (measured_rows client rows)
unfolding focus_from keep
length-focus_from client found [] new h = omega arith
length-focus_from client found (row ∷ rows) new h =
    elim (Bool-cases (row.client == client && has_primary row)) [
      | inl focus ↦
          let apart = put_key_new row.identity row found new.0 in
          let others =
            All-imply rows
              (λ other (before, this).
                keys_snoc (λ j. other.identity ≢ j) found row.identity row before
                  (λ e. this (sym e)))
              (All-zip _ _ rows new.1
                (All-map (λ j. row.identity ≢ j) (λ row. row.identity) rows h.0)) in
          rw (focus, apart)
            (omega (
              arith,
              length-focus_from client (found ++ (row.identity, row) ∷ []) rows others h.1,
              length-append found ((row.identity, row) ∷ []),
            ))
      | inr other ↦ rw other (length-focus_from client found rows new.1 h.1)
    ]

none_before : (rows : List BenchmarkRow) → All (λ row. All (λ j. row.identity ≢ j) (keys [])) rows
none_before [] = tt
none_before (row ∷ rows) = (tt, none_before rows)

-- The rows that are matched are the measured rows of the client.
pub focus_rows-length :
    (report : BenchmarkReport) (client : String) {found : FocusRows}
    → focus_rows_by_identity report client ≡ ok found
    → length found ≡ length (measured_rows client report.rows)
unfolding focus_rows_by_identity canonical_rows
focus_rows-length report client h =
    let (rows, sorted, h) = >>=-eq-ok (canonical_rows report) _ h in
    let (passed, sorted) =
      >>-eq-ok
        (validate_unique_identities (map ok (map (λ row. row.identity) report.rows))
          (some (row_sources report.path 0 report.rows)))
        _ sorted in
    let (_, distinct) =
      (validate_unique_identities_sources_iff (map (λ row. row.identity) report.rows)
          (row_sources report.path 0 report.rows)).0
        passed.1 in
    let by_identity : BenchmarkRow → BenchmarkRow → Bool = λ a b. texts_lt a.identity b.identity in
    let apart = sort_by-IsDistinct by_identity (λ row. row.identity) report.rows distinct in
    let counted =
      length-focus_from client [] (sort_by by_identity report.rows)
        (none_before (sort_by by_identity report.rows)) apart in
    let kept =
      keep-sort_by by_identity (λ row. row.client == client && has_primary row) report.rows in
    rw (← ok-injective h, ← ok-injective sorted) (omega (arith, counted, kept))
