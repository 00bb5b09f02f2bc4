-- ===== src/Compare/Counted.antt =====
-- Theorems about `wins_for_report` of compare/analysis.py.
use fog_http_benchmark.Prelude.{
  ℕ, suc, ◌≡◌, ◌≢◌, ◌≤◌, refl, sym, ap, ◌∙◌, Bool, true, String, Option, none, some, List, [], ◌∷◌,
  map, arith, length, length-append, keep, any, All, IsDistinct, ◌==◌, string_eq, list_eq,
  Bool-cases, Option-cases, inl, inr, Result, ok,
}
use fog_http_benchmark.Json.{Float, whole, float_lt}
use fog_http_benchmark.Schema.Identity.{Identity}
use fog_http_benchmark.Schema.Identity.Unique.{validate_unique_identities_sources_iff}
use fog_http_benchmark.Compare.{BenchmarkRow, BenchmarkReport}
use fog_http_benchmark.Compare.Order.{sort_by, group_by, first_of, rank_of, texts_lt}
use fog_http_benchmark.Compare.Ratios.{FloatMath, safe_ratio}
use fog_http_benchmark.Compare.Analysis.{canonical_rows, row_sources, has_primary}
use fog_http_benchmark.Compare.Wins.{
  WinsSnapshot, rank_key, ranked_rows, add_rank, count_group, place_focus, group_wins, groups_wins,
  no_wins, wins_for_report, has_no_winners,
}
use fog_http_benchmark.Compare.Sorted.{any-sort_by, All-sort_by, keep-All, length-map}

length-row_sources :
    (path : String) (n : ℕ) (rows : List BenchmarkRow)
    → length (row_sources path n rows) ≡ length rows
unfolding row_sources
length-row_sources path n [] = refl
length-row_sources path n (row ∷ rows) = ap suc (length-row_sources path (suc n) rows)

-- The rows of a report are put in order unless two of them have one identity.
pub canonical_rows-ok :
    (report : BenchmarkReport)
    → IsDistinct (map (λ b. b.identity) report.rows)
    → canonical_rows report ≡ ok (sort_by (λ a b. texts_lt a.identity b.identity) report.rows)
unfolding canonical_rows
canonical_rows-ok report distinct =
    let passed =
      (validate_unique_identities_sources_iff (map (λ b. b.identity) report.rows)
          (row_sources report.path 0 report.rows)).1
        (
          length-map (λ b. b.identity) report.rows
              ∙ sym (length-row_sources report.path 0 report.rows),
          distinct,
        ) in
    rw passed refl

-- an element of a list, found by a test
rank_found :
    {A : Type 0} (p : A → Bool) (n : ℕ) (xs : List A)
    → any p xs ≡ true
    → (k : ℕ) × (rank_of p n xs ≡ some k)
unfolding rank_of any
rank_found p n [] h = cc
rank_found p n (x ∷ xs) h = elim (Bool-cases (p x)) [
  | inl this ↦ (n, rw this refl)
  | inr other ↦
      let (k, found) = rank_found p (suc n) xs (ground (arith, h, other)) in
      (k, rw (other, found) refl)
]

-- the first focus row, where it is measured, is among the measured rows
first_of-any_kept :
    {A : Type 0} (p q : A → Bool) (xs : List A) {x : A}
    → first_of p xs ≡ some x
    → q x ≡ true
    → any p (keep q xs) ≡ true
unfolding first_of any keep
first_of-any_kept p q [] h measured = cc
first_of-any_kept p q (y ∷ ys) {x} h measured = elim (Bool-cases (p y)) [
  | inl this ↦ ground (arith, h, this, measured)
  | inr other ↦
      let rest : first_of p ys ≡ some x = ground (arith, h, other) in
      ground (arith, other, first_of-any_kept p q ys rest measured)
]

-- Each group adds at most one win, and a ratio and a rank exactly if it is counted.
pub record IsCounted (s : WinsSnapshot) : Type 0 where
  pub wins_bounded : s.wins ≤ s.groups
  pub one_ratio_each : length s.ratios_to_winner ≡ s.groups
  pub one_rank_each : length s.ranks ≡ s.groups

abbrev Counts : Result WinsSnapshot → Type 0
Counts result = (s : WinsSnapshot) × (result ≡ ok s) × IsCounted s

module _ ⦃m : FloatMath⦄ where
  add_rank-Counts :
      (client : String) (value : Float) (best : Option Float) (rank : Option ℕ)
      (winner : BenchmarkRow) (s : WinsSnapshot)
      → best ≢ none
      → rank ≢ none
      → IsCounted s
      → Counts (add_rank value best rank (count_group client winner s))
  add_rank-Counts client value none rank winner s measured found counted = absurd (measured refl)
  add_rank-Counts client value (some best) none winner s measured found counted =
      absurd (found refl)
  add_rank-Counts client value (some best) (some rank) winner s measured found counted = (
    _,
    refl,
    record {
      wins_bounded = ground (arith, counted.wins_bounded);
      one_ratio_each = omega (
        arith,
        counted.one_ratio_each,
        length-append s.ratios_to_winner (safe_ratio value best ∷ []),
      );
      one_rank_each = omega (arith, counted.one_rank_each, length-append s.ranks (whole rank ∷ []));
    },
  )

  place_focus-Counts :
      (client : String) (value : Option Float) (ranked : List BenchmarkRow) (s : WinsSnapshot)
      → All (λ row. has_primary row ≡ true) ranked
      → (value ≢ none → any (λ row. row.client == client) ranked ≡ true)
      → IsCounted s
      → Counts (place_focus client value ranked s)
  place_focus-Counts client none ranked s measured found counted = (s, refl, counted)
  place_focus-Counts client (some value) [] s measured found counted = (s, refl, counted)
  place_focus-Counts client (some value) (winner ∷ others) s measured found counted =
      let (rank, ranks_it) =
        rank_found (λ row. row.client == client) 1 (winner ∷ others) (found (λ e. cc)) in
      add_rank-Counts client value winner.primary_value
        (rank_of (λ row. row.client == client) 1 (winner ∷ others)) winner s
        (λ e. ground (arith, e, measured.0)) (λ e. cc) counted

  abbrev by_value : BenchmarkRow → BenchmarkRow → Bool
  by_value a b = float_lt (rank_key b) (rank_key a)

  measured_has : (row : BenchmarkRow) → row.primary_value ≢ none → has_primary row ≡ true
  measured_has row measured = elim (Option-cases row.primary_value) [
    | inl missing ↦ absurd (measured missing)
    | inr (x, has) ↦ rw has refl
  ]

  group_wins-Counts :
      (client : String) (rows : List BenchmarkRow) (s : WinsSnapshot)
      → IsCounted s
      → Counts (group_wins client rows s)
  unfolding group_wins ranked_rows
  group_wins-Counts client rows s counted =
      elim (Option-cases (first_of (λ row. row.client == client) rows)) [
        | inl absent ↦ rw (absent, group_wins) (s, refl, counted)
        | inr (focus, is_first) ↦
            rw (is_first, group_wins)
              (place_focus-Counts client focus.primary_value (ranked_rows rows) s
                (All-sort_by by_value (λ row. has_primary row ≡ true) (keep has_primary rows)
                  (keep-All has_primary rows))
                (λ measured.
                  any-sort_by by_value (λ row. row.client == client) (keep has_primary rows)
                  ∙ first_of-any_kept (λ row. row.client == client) has_primary rows is_first
                      (measured_has focus measured))
                counted)
      ]

  groups_wins-Counts :
      (client : String) (grouped : List (Identity × List BenchmarkRow)) (s : WinsSnapshot)
      → IsCounted s
      → Counts (groups_wins client grouped s)
  unfolding groups_wins
  groups_wins-Counts client [] s counted = (s, refl, counted)
  groups_wins-Counts client ((group, rows) ∷ grouped) s counted =
      let (t, this, once) = group_wins-Counts client rows s counted in
      let (u, others, all_counted) = groups_wins-Counts client grouped t once in
      (u, rw (this, others) refl, all_counted)

  -- the snapshot of a report, unless its profile has no winners
  abbrev pub IsCountedIfAny : Option WinsSnapshot → Type 0
  IsCountedIfAny none = Unit
  IsCountedIfAny (some s) = IsCounted s

  -- For a report whose rows have distinct identities the wins are always found: no more than the
  -- groups that are counted, with one ratio to the winner and one rank for each of them.
  pub wins_for_report-total :
      (report : BenchmarkReport) (client : String)
      → IsDistinct (map (λ b. b.identity) report.rows)
      → (found : Option WinsSnapshot) × (wins_for_report report client ≡ ok found)
        × IsCountedIfAny found
  unfolding wins_for_report
  wins_for_report-total report client distinct =
      let ordered = canonical_rows-ok report distinct in
      let rows = sort_by (λ a b. texts_lt a.identity b.identity) report.rows in
      let (s, found, counted) =
        groups_wins-Counts client (group_by (λ row. row.group) [] rows) no_wins
          (record { wins_bounded = omega arith; one_ratio_each = refl; one_rank_each = refl }) in
      elim (Bool-cases (has_no_winners report)) [
        | inl none_wanted ↦ (none, rw (ordered, wins_for_report) (rw none_wanted refl), tt)
        | inr wanted ↦ (some s, rw (ordered, wins_for_report) (rw (wanted, found) refl), counted)
      ]
