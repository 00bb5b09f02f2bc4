-- ===== src/Load/Complete.antt =====
-- Theorems about the result of `run_load` of load.py, under every order of the workers' moves.
use fog_http_benchmark.Prelude.{
  ℕ, ◌≡◌, ◌≤◌, ◌<◌, ◌⊎◌, refl, inl, inr, Option-cases, Bool, true, nat_eq, String, some, List, [],
  ◌∷◌, map, arith, length, IsDistinct, ok,
}
use fog_http_benchmark.Statistics.Conserves.{count_of, names}
use fog_http_benchmark.Models.{Scenario, LoadResult}
use fog_http_benchmark.Load.{
  LoadState, Move, Event, get_nowait, answer, failure, run_events, start, worker_result,
  merge_load_results, finish_async, finish_sync, run_async_load, run_sync_load, run_load,
}
use fog_http_benchmark.Load.Conserves.{
  answers, answers_of, errors_of, errors_in, failures_in, failures_of, noted, noted_all, samples,
  run_events-IsTally, noted-IsTally, noted_all-IsTally, samples-IsTally,
}
use fog_http_benchmark.Load.Backlog.{IsBalanced, run_events-IsBalanced}
use fog_http_benchmark.Load.Start.{
  start-IsBalanced, start-unfinished, start-total, all_stopped-total,
}
use fog_http_benchmark.Load.Merge.{merge_load_results-totals}

pub record IsComplete (scenario : Scenario) (collect : Bool) (requests : ℕ) (events : List Event)
    (result : LoadResult) : Type 0 where
  one_answer_each : answers events ≡ requests
  one_sample_each : collect ≡ true → length result.latencies_ms ≡ requests
  errors_exact : result.errors ≡ errors_in scenario events
  errors_bounded : result.errors ≤ requests
  by_name : (name : String) → count_of name result.error_types ≡ failures_in scenario name events
  names_once : IsDistinct (names result.error_types)

errors_of-le : (scenario : Scenario) (move : Move) → errors_of scenario move ≤ answers_of move
errors_of-le scenario get_nowait = omega arith
errors_of-le scenario (answer reply ms) = elim (Option-cases (failure scenario reply)) [
  | inl passed ↦ rw passed (omega arith)
  | inr (name, failed) ↦ rw failed (omega arith)
]

errors_in-le : (scenario : Scenario) (es : List Event) → errors_in scenario es ≤ answers es
errors_in-le scenario [] = omega arith
errors_in-le scenario (e ∷ es) =
    omega (arith, errors_of-le scenario e.move, errors_in-le scenario es)

module _ (scenario : Scenario) (collect progress : Bool) where
  -- The state in which a run has ended, and its result.
  record HasEnded (concurrency requests : ℕ) (events : List Event) (result : LoadResult)
      : Type 0 where
    last : LoadState
    reached : run_events scenario collect progress (start concurrency requests) events ≡ some last
    joined : last.unfinished ≡ 0
    merged : result ≡ merge_load_results (map worker_result last.workers)

  module _ {concurrency requests : ℕ} {events : List Event} {result : LoadResult}
      (ended : HasEnded concurrency requests events result) where
    HasEnded-answers : answers events ≡ requests
    HasEnded-answers =
        let (_, answered) =
          run_events-IsBalanced scenario collect progress (start concurrency requests) events
            (start-IsBalanced concurrency requests) ended.reached in
        omega (arith, answered, ended.joined, start-unfinished concurrency requests)

    HasEnded-errors : result.errors ≡ errors_in scenario events
    HasEnded-errors = rw ended.merged (
        omega (
          arith,
          (merge_load_results-totals ended.last.workers).1,
          start-total noted_all concurrency requests refl,
          run_events-IsTally scenario collect progress noted_all (errors_of scenario)
              (start concurrency requests) events (noted_all-IsTally scenario collect progress)
              ended.reached,
        ))

    HasEnded-by_name :
        (name : String) → count_of name result.error_types ≡ failures_in scenario name events
    HasEnded-by_name name = rw ended.merged (
        omega (
          arith,
          (merge_load_results-totals ended.last.workers).2 name,
          start-total (noted name) concurrency requests refl,
          run_events-IsTally scenario collect progress (noted name) (failures_of scenario name)
              (start concurrency requests) events (noted-IsTally scenario collect progress name)
              ended.reached,
        ))

    HasEnded-samples : collect ≡ true → length result.latencies_ms ≡ requests
    HasEnded-samples collects = rw ended.merged (
        omega (
          arith,
          HasEnded-answers,
          (merge_load_results-totals ended.last.workers).0,
          start-total samples concurrency requests refl,
          run_events-IsTally scenario collect progress samples answers_of
              (start concurrency requests) events
              (samples-IsTally scenario collect progress collects) ended.reached,
        ))

  finish_async-joined :
      (s : LoadState) {result : LoadResult}
      → finish_async scenario collect progress s ≡ some (ok result)
      → (s.unfinished ≡ 0) × (result ≡ merge_load_results (map worker_result s.workers))
  unfolding finish_async
  finish_async-joined s h = ground arith

  finish_sync-joined :
      (s : LoadState) {result : LoadResult}
      → IsBalanced s
      → finish_sync scenario collect progress s ≡ some (ok result)
      → (s.unfinished ≡ 0) × (result ≡ merge_load_results (map worker_result s.workers))
  unfolding finish_sync
  finish_sync-joined s inv h = ground (arith, inv, all_stopped-total s.workers)

  finished-joined :
      (s : LoadState) {result : LoadResult}
      → IsBalanced s
      → (finish_async scenario collect progress s ≡ some (ok result))
        ⊎ (finish_sync scenario collect progress s ≡ some (ok result))
      → (s.unfinished ≡ 0) × (result ≡ merge_load_results (map worker_result s.workers))
  finished-joined s inv (inl f) = finish_async-joined s f
  finished-joined s inv (inr f) = finish_sync-joined s inv f

  run_load-runs :
      (is_async : Bool) (concurrency requests : ℕ) (events : List Event) {result : LoadResult}
      → 0 < requests
      → run_load scenario collect progress is_async concurrency requests events ≡ some (ok result)
      → (s : LoadState) × (run_events scenario collect progress (start concurrency requests) events
          ≡ some s)
        × ((finish_async scenario collect progress s ≡ some (ok result))
            ⊎ (finish_sync scenario collect progress s ≡ some (ok result)))
  unfolding run_load run_async_load run_sync_load
  run_load-runs is_async concurrency requests events some_requests h =
      elim (Option-cases
        (run_events scenario collect progress (start concurrency requests) events)) [
          | inl stuck ↦ ground (arith, stuck)
          | inr (s, reached) ↦ (s, reached, ground (arith, reached))
        ]

  run_load-HasEnded :
      (is_async : Bool) (concurrency requests : ℕ) (events : List Event) {result : LoadResult}
      → 0 < requests
      → run_load scenario collect progress is_async concurrency requests events ≡ some (ok result)
      → HasEnded concurrency requests events result
  run_load-HasEnded is_async concurrency requests events some_requests h =
      let (s, reached, finished) =
        run_load-runs is_async concurrency requests events some_requests h in
      let (inv, _) =
        run_events-IsBalanced scenario collect progress (start concurrency requests) events
          (start-IsBalanced concurrency requests) reached in
      let (joined, merged) = finished-joined s inv finished in
      record { last = s; reached = reached; joined = joined; merged = merged }

  -- A load of at least one request that returns has received one answer for each of them, whatever
  -- the order in which its workers moved: if it collects latencies there is one for each, the
  -- errors are the answers that raised or failed the scenario's check and no more than the
  -- requests, and each error name stands once with the number of its answers.
  pub run_load-IsComplete :
      (is_async : Bool) (concurrency requests : ℕ) (events : List Event) {result : LoadResult}
      → 0 < requests
      → run_load scenario collect progress is_async concurrency requests events ≡ some (ok result)
      → IsComplete scenario collect requests events result
  run_load-IsComplete is_async concurrency requests events some_requests h =
      let ended = run_load-HasEnded is_async concurrency requests events some_requests h in
      record {
        one_answer_each = HasEnded-answers ended;
        one_sample_each = HasEnded-samples ended;
        errors_exact = HasEnded-errors ended;
        errors_bounded =
            omega
              (arith, HasEnded-answers ended, HasEnded-errors ended, errors_in-le scenario events);
        by_name = HasEnded-by_name ended;
        names_once = rw ended.merged (merge_load_results-totals ended.last.workers).3;
      }
