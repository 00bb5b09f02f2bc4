-- ===== src/Load/Moves.antt =====
-- Theorems about how many moves the workers of load.py make.
use fog_http_benchmark.Prelude.{
  ℕ, zero, suc, ◌+◌, ◌*◌, ◌≡◌, ◌≤◌, ◌<◌, refl, Bool, true, some, List, [], ◌∷◌, arith, length, all,
}
use fog_http_benchmark.Models.{Scenario}
use fog_http_benchmark.Load.{LoadState, Event, Worker, run_events, start, min_nat, is_stopped}
use fog_http_benchmark.Load.Turns.{total}
use fog_http_benchmark.Load.Conserves.{IsTally, run_events-IsTally, sum_moves}
use fog_http_benchmark.Load.Backlog.{measure, run_events-IsBalanced, run_events-measure}
use fog_http_benchmark.Load.Start.{start-measure, start-IsBalanced, start-length, all_stopped-total}

sum_moves-zero : (es : List Event) → sum_moves (λ m. 0) es ≡ 0
sum_moves-zero [] = refl
sum_moves-zero (e ∷ es) = omega (arith, sum_moves-zero es)

total-one : (ws : List Worker) → total (λ w. 1) ws ≡ length ws
total-one [] = refl
total-one (w ∷ ws) = omega (arith, total-one ws)

workers-IsTally :
    (scenario : Scenario) (collect progress : Bool)
    → IsTally scenario collect progress (λ w. 1) (λ m. 0)
workers-IsTally scenario collect progress = record {
  ignores_phase = λ w p. refl;
  asks_nothing = refl;
  gains = λ w reply ms. refl;
}

module _ (scenario : Scenario) (collect progress : Bool) where
  -- the workers that stand at the end are those of the start, and nothing is unfinished
  pub ended-joined :
      (concurrency requests : ℕ) (es : List Event) {t : LoadState}
      → 0 < min_nat concurrency requests
      → run_events scenario collect progress (start concurrency requests) es ≡ some t
      → all is_stopped t.workers ≡ true
      → (t.unfinished ≡ 0) × (0 < length t.workers)
  ended-joined concurrency requests es {t} some_workers run stand =
      let (inv, _) =
        run_events-IsBalanced scenario collect progress (start concurrency requests) es
          (start-IsBalanced concurrency requests) run in
      let (held, _, stops) = all_stopped-total t.workers stand in
      let kept =
        run_events-IsTally scenario collect progress (λ w. 1) (λ m. 0) (start concurrency requests)
          es (workers-IsTally scenario collect progress) run in
      ground (
        arith,
        inv,
        held,
        stops,
        kept,
        sum_moves-zero es,
        total-one t.workers,
        start-length concurrency requests,
      )

  run_events-empties :
      (concurrency requests : ℕ) (events : List Event) {s : LoadState}
      → 0 < concurrency
      → run_events scenario collect progress (start concurrency requests) events ≡ some s
      → all is_stopped s.workers ≡ true
      → length events + measure s ≡ length events
  unfolding measure
  run_events-empties concurrency zero events {s} some_workers h stand = ground (
    arith,
    run_events-measure scenario collect progress (start concurrency 0) events h,
    start-measure concurrency 0,
  )
  run_events-empties concurrency (suc n) events {s} some_workers h stand =
      let (inv, _) =
        run_events-IsBalanced scenario collect progress (start concurrency (suc n)) events
          (start-IsBalanced concurrency (suc n)) h in
      ground (
        arith,
        inv,
        all_stopped-total s.workers stand,
        ended-joined concurrency (suc n) events (ground arith) h stand,
      )

  -- No run of at least one worker makes more than two moves for each request and one for each
  -- worker, and a run in which all workers have stopped has made exactly as many.
  pub run_events-length :
      (concurrency requests : ℕ) (events : List Event) {s : LoadState}
      → 0 < concurrency
      → run_events scenario collect progress (start concurrency requests) events ≡ some s
      → (length events ≤ 2 * requests + min_nat concurrency requests)
        × (all is_stopped s.workers ≡ true
            → length events ≡ 2 * requests + min_nat concurrency requests)
  run_events-length concurrency requests events some_workers h =
      let measured =
        run_events-measure scenario collect progress (start concurrency requests) events h in
      let begun = start-measure concurrency requests in
      (
        omega (arith, measured, begun),
        λ stand. omega (
          arith,
          measured,
          begun,
          run_events-empties concurrency requests events some_workers h stand,
        ),
      )
