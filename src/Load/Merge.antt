-- ===== src/Load/Merge.antt =====
-- Theorems about `merge_load_results` of load.py.
use fog_http_benchmark.Prelude.{
  ◌+◌, ◌≡◌, String, List, [], ◌∷◌, map, ◌++◌, arith, length, length-append, IsDistinct,
}
use fog_http_benchmark.Json.{Float}
use fog_http_benchmark.Statistics.{ErrorCounts, add_count, add_counts}
use fog_http_benchmark.Statistics.Conserves.{
  count_of, names, add_counts-count_of, add_counts-IsDistinct,
}
use fog_http_benchmark.Load.{Worker, sum_values, merge_load_from, merge_load_results, worker_result}
use fog_http_benchmark.Load.Turns.{total}
use fog_http_benchmark.Load.Conserves.{noted, noted_all, samples, add_count-sum_values}

add_counts-sum_values :
    (merged counts : ErrorCounts)
    → sum_values (add_counts merged counts) ≡ sum_values merged + sum_values counts
unfolding add_counts
add_counts-sum_values merged [] = omega arith
add_counts-sum_values merged ((name, n) ∷ rest) = omega (
  arith,
  add_counts-sum_values (add_count name n merged) rest,
  add_count-sum_values name n merged,
)

merge_load_from-totals :
    (latencies : List Float) (merged : ErrorCounts) (ws : List Worker)
    → let result = merge_load_from latencies merged (map worker_result ws) in
      (length result.latencies_ms ≡ length latencies + total samples ws)
      × (result.errors ≡ sum_values merged + total noted_all ws)
      × ((name : String)
          → count_of name result.error_types ≡ count_of name merged + total (noted name) ws)
unfolding merge_load_from
merge_load_from-totals latencies merged [] = (omega arith, omega arith, λ name. omega arith)
merge_load_from-totals latencies merged (w ∷ ws) =
    let (timed, failed, named) =
      merge_load_from-totals (latencies ++ w.latencies) (add_counts merged w.worker_errors) ws in
    (
      omega (arith, timed, length-append latencies w.latencies),
      omega (arith, failed, add_counts-sum_values merged w.worker_errors),
      λ name. omega (arith, named name, add_counts-count_of name merged w.worker_errors),
    )

merge_load_from-IsDistinct :
    (latencies : List Float) (merged : ErrorCounts) (ws : List Worker)
    → IsDistinct (names merged)
    → IsDistinct (names (merge_load_from latencies merged (map worker_result ws)).error_types)
unfolding merge_load_from
merge_load_from-IsDistinct latencies merged [] h = h
merge_load_from-IsDistinct latencies merged (w ∷ ws) h =
    merge_load_from-IsDistinct (latencies ++ w.latencies) (add_counts merged w.worker_errors) ws
      (add_counts-IsDistinct merged w.worker_errors h)

-- The merged result of workers has all their latencies and errors, and each error name once with
-- the sum of its counts.
pub merge_load_results-totals :
    (ws : List Worker)
    → let result = merge_load_results (map worker_result ws) in
      (length result.latencies_ms ≡ total samples ws)
      × (result.errors ≡ total noted_all ws)
      × ((name : String) → count_of name result.error_types ≡ total (noted name) ws)
      × IsDistinct (names result.error_types)
unfolding merge_load_results
merge_load_results-totals ws =
    let (timed, failed, named) = merge_load_from-totals [] [] ws in
    (
      omega (arith, timed),
      omega (arith, failed),
      (λ name. omega (arith, named name)),
      merge_load_from-IsDistinct [] [] ws tt,
    )
