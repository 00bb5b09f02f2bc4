-- ===== src/Compare/Wins.antt =====
-- The wins of a client over the others in foghttp_benchmark/compare/analysis.py.
use fog_http_benchmark.Prelude.{
  ℕ, ◌+◌, Bool, ◌||◌, String, Option, none, some, List, [], ◌∷◌, ◌++◌, ◌==◌, string_eq, list_eq,
  leb, if◌then◌else◌, Result, ok, err, stop_iteration, ◌>>=◌, keep,
}
use fog_http_benchmark.Json.{Float, float_lt, whole}
use fog_http_benchmark.Schema.Identity.{Identity}
use fog_http_benchmark.Validity.Profiles.{uses_streaming_profile}
use fog_http_benchmark.Compare.{BenchmarkRow, BenchmarkReport}
use fog_http_benchmark.Compare.Order.{sort_by, group_by, first_of, rank_of}
use fog_http_benchmark.Compare.Outcome.{WinsComparison}
use fog_http_benchmark.Compare.Ratios.{FloatMath, safe_ratio, geomean, mean}
use fog_http_benchmark.Compare.Analysis.{canonical_rows, has_primary}

pub record WinsSnapshot : Type 0 where
  pub wins : ℕ
  pub groups : ℕ
  pub ratios_to_winner : List Float
  pub ranks : List Float

-- `row.primary_value or 0`
abbrev pub rank_key : BenchmarkRow → Float
rank_key row = elim row.primary_value [ none ↦ whole 0 | some x ↦ x ]

-- the measured rows, the largest value first
unfoldable pub ranked_rows : List BenchmarkRow → List BenchmarkRow
ranked_rows rows = sort_by (λ a b. float_lt (rank_key b) (rank_key a)) (keep has_primary rows)

module _ ⦃m : FloatMath⦄ where
  -- the ratio to the winner's value and the rank, if there is a value
  abbrev pub add_rank : Float → Option Float → Option ℕ → WinsSnapshot → Result WinsSnapshot
  add_rank focus_value none rank counted = ok counted
  add_rank focus_value (some winner_value) none counted = err stop_iteration
  add_rank focus_value (some winner_value) (some rank) counted = ok (record counted {
    ratios_to_winner = counted.ratios_to_winner ++ (safe_ratio focus_value winner_value ∷ []);
    ranks = counted.ranks ++ (whole rank ∷ []);
  })

  abbrev pub count_group : String → BenchmarkRow → WinsSnapshot → WinsSnapshot
  count_group focus_client winner s = record s {
    groups = s.groups + 1;
    wins = if winner.client == focus_client then s.wins + 1 else s.wins;
  }

  abbrev pub place_focus :
      String → Option Float → List BenchmarkRow → WinsSnapshot → Result WinsSnapshot
  place_focus focus_client none ranked s = ok s
  place_focus focus_client (some focus_value) [] s = ok s
  place_focus focus_client (some focus_value) (winner ∷ others) s =
      add_rank focus_value winner.primary_value
        (rank_of (λ row. row.client == focus_client) 1 (winner ∷ others))
        (count_group focus_client winner s)

  abbrev pub focus_wins :
      String → Option BenchmarkRow → List BenchmarkRow → WinsSnapshot → Result WinsSnapshot
  focus_wins focus_client none ranked s = ok s
  focus_wins focus_client (some focus_row) ranked s =
      place_focus focus_client focus_row.primary_value ranked s

  -- the body of the loop
  unfoldable pub group_wins : String → List BenchmarkRow → WinsSnapshot → Result WinsSnapshot
  group_wins focus_client rows s =
      focus_wins focus_client (first_of (λ row. row.client == focus_client) rows) (ranked_rows rows)
        s

  unfoldable pub groups_wins :
      String → List (Identity × List BenchmarkRow) → WinsSnapshot → Result WinsSnapshot
  groups_wins focus_client [] s = ok s
  groups_wins focus_client ((group, rows) ∷ grouped) s =
      group_wins focus_client rows s >>= groups_wins focus_client grouped

  abbrev pub no_wins : WinsSnapshot
  no_wins = record { wins = 0; groups = 0; ratios_to_winner = []; ranks = [] }

  -- a suite or a profile in which clients are not ranked
  unfoldable pub has_no_winners : BenchmarkReport → Bool
  has_no_winners report =
      report.suite == "resource-backpressure"
      || uses_streaming_profile report.metadata report.aggregate_rows "lifecycle"
      || uses_streaming_profile report.metadata report.aggregate_rows "async-bytes"

  unfoldable pub wins_for_report : BenchmarkReport → String → Result (Option WinsSnapshot)
  wins_for_report report focus_client = do
    ordered_rows ← canonical_rows report
    if has_no_winners report then ok none else (do
      snapshot ← groups_wins focus_client (group_by (λ row. row.group) [] ordered_rows) no_wins
      ok (some snapshot))

  wins_comparison : Option WinsSnapshot → Option WinsSnapshot → Option WinsComparison
  wins_comparison (some old) (some new) = some (record {
    old_wins = old.wins;
    new_wins = new.wins;
    comparable_groups = if leb old.groups new.groups then old.groups else new.groups;
    old_geomean_to_winner = geomean old.ratios_to_winner;
    new_geomean_to_winner = geomean new.ratios_to_winner;
    old_average_rank = mean old.ranks;
    new_average_rank = mean new.ranks;
  })
  wins_comparison _ _ = none

  unfoldable pub compare_wins :
      BenchmarkReport → BenchmarkReport → String → Result (Option WinsComparison)
  unfolding wins_comparison
  compare_wins old_report new_report focus_client = do
    old ← wins_for_report old_report focus_client
    new ← wins_for_report new_report focus_client
    ok (wins_comparison old new)
