-- ===== src/Load/Conserves.antt =====
-- Theorems about the requests of one run of load.py: what its events leave in the workers.
use fog_http_benchmark.Prelude.{
  ℕ, ◌+◌, ◌≡◌, refl, some-injective, Bool, true, String, Option, none, some, List, [], ◌∷◌, arith,
  if◌then◌else◌, ◌==◌, string_eq, length, length-append,
}
use fog_http_benchmark.Json.{Float}
use fog_http_benchmark.Statistics.{ErrorCounts, add_count}
use fog_http_benchmark.Statistics.Conserves.{count_of, add_count-count_of}
use fog_http_benchmark.Models.{Scenario}
use fog_http_benchmark.Load.{
  Reply, Phase, Worker, Move, LoadState, Event, requesting, stopped, get_nowait, answer, answered,
  run_events, failure, record_failure, increment, sum_values,
}
use fog_http_benchmark.Load.Turns.{
  Turn, handed, emptied, served, step-Turn, run_events-first, total, set_worker-total,
}

abbrev pub sum_moves : (Move → ℕ) → List Event → ℕ
sum_moves g [] = 0
sum_moves g (e ∷ es) = g e.move + sum_moves g es

abbrev pub counted : Option String → ℕ
counted none = 0
counted (some name) = 1

abbrev pub counted_as : String → Option String → ℕ
counted_as name none = 0
counted_as name (some other) = if name == other then 1 else 0

abbrev pub answers_of : Move → ℕ
answers_of get_nowait = 0
answers_of (answer reply ms) = 1

abbrev pub errors_of : Scenario → Move → ℕ
errors_of scenario get_nowait = 0
errors_of scenario (answer reply ms) = counted (failure scenario reply)

abbrev pub failures_of : Scenario → String → Move → ℕ
failures_of scenario name get_nowait = 0
failures_of scenario name (answer reply ms) = counted_as name (failure scenario reply)

-- the answers among the events, those that count as errors, and those of one name
abbrev pub answers : List Event → ℕ
answers = sum_moves answers_of

abbrev pub errors_in : Scenario → List Event → ℕ
errors_in scenario = sum_moves (errors_of scenario)

abbrev pub failures_in : Scenario → String → List Event → ℕ
failures_in scenario name = sum_moves (failures_of scenario name)

-- what a worker has noted
abbrev pub noted : String → Worker → ℕ
noted name w = count_of name w.worker_errors

abbrev pub noted_all : Worker → ℕ
noted_all w = sum_values w.worker_errors

abbrev pub samples : Worker → ℕ
samples w = length w.latencies

module _ (scenario : Scenario) (collect progress : Bool) where
  -- A count that a worker keeps, which grows with the moves as `g` says.
  pub record IsTally (f : Worker → ℕ) (g : Move → ℕ) : Type 0 where
    pub ignores_phase : (w : Worker) (p : Phase) → f (record w { phase = p }) ≡ f w
    pub asks_nothing : g get_nowait ≡ 0
    pub gains :
        (w : Worker) (reply : Reply) (ms : Float)
        → f (answered scenario collect progress w reply ms) ≡ f w + g (answer reply ms)

  step-IsTally :
      (f : Worker → ℕ) (g : Move → ℕ) (s : LoadState) (e : Event) {t : LoadState}
      → IsTally f g
      → Turn scenario collect progress s e t
      → total f t.workers ≡ total f s.workers + g e.move
  step-IsTally f g s e tally (handed w index rest at free asks queued moved) =
      rw (moved, asks)
        (omega (
          arith,
          set_worker-total f e.worker w (record w { phase = requesting }) s.workers at,
          tally.ignores_phase w requesting,
          tally.asks_nothing,
        ))
  step-IsTally f g s e tally (emptied w at free asks queued moved) =
      rw (moved, asks)
        (omega (
          arith,
          set_worker-total f e.worker w (record w { phase = stopped }) s.workers at,
          tally.ignores_phase w stopped,
          tally.asks_nothing,
        ))
  step-IsTally f g s e tally (served w reply ms at free asks moved) =
      rw (moved, asks)
        (omega (
          arith,
          set_worker-total f e.worker w (answered scenario collect progress w reply ms) s.workers
              at,
          tally.gains w reply ms,
        ))

  pub run_events-IsTally :
      (f : Worker → ℕ) (g : Move → ℕ) (s : LoadState) (es : List Event) {t : LoadState}
      → IsTally f g
      → run_events scenario collect progress s es ≡ some t
      → total f t.workers ≡ total f s.workers + sum_moves g es
  unfolding run_events
  run_events-IsTally f g s [] tally h = rw (← some-injective h) (omega arith)
  run_events-IsTally f g s (e ∷ es) tally h =
      let (u, stepped, rest) = run_events-first scenario collect progress s e es h in
      omega (
        arith,
        step-IsTally f g s e tally (step-Turn scenario collect progress s e stepped),
        run_events-IsTally f g u es tally rest,
      )

record_failure-count_of :
    (name : String) (counts : ErrorCounts) (failed : Option String)
    → count_of name (record_failure counts failed) ≡ count_of name counts + counted_as name failed
unfolding increment
record_failure-count_of name counts none = omega arith
record_failure-count_of name counts (some other) = add_count-count_of name other 1 counts

pub add_count-sum_values :
    (name : String) (n : ℕ) (counts : ErrorCounts)
    → sum_values (add_count name n counts) ≡ sum_values counts + n
unfolding add_count
add_count-sum_values name n [] = omega arith
add_count-sum_values name n ((other, m) ∷ counts) =
    ground (arith, add_count-sum_values name n counts)

record_failure-sum_values :
    (counts : ErrorCounts) (failed : Option String)
    → sum_values (record_failure counts failed) ≡ sum_values counts + counted failed
unfolding increment
record_failure-sum_values counts none = omega arith
record_failure-sum_values counts (some other) = add_count-sum_values other 1 counts

pub noted-IsTally :
    (scenario : Scenario) (collect progress : Bool) (name : String)
    → IsTally scenario collect progress (noted name) (failures_of scenario name)
unfolding answered
noted-IsTally scenario collect progress name = record {
  ignores_phase = λ w p. refl;
  asks_nothing = refl;
  gains = λ w reply ms. record_failure-count_of name w.worker_errors (failure scenario reply);
}

pub noted_all-IsTally :
    (scenario : Scenario) (collect progress : Bool)
    → IsTally scenario collect progress noted_all (errors_of scenario)
unfolding answered
noted_all-IsTally scenario collect progress = record {
  ignores_phase = λ w p. refl;
  asks_nothing = refl;
  gains = λ w reply ms. record_failure-sum_values w.worker_errors (failure scenario reply);
}

pub samples-IsTally :
    (scenario : Scenario) (collect progress : Bool)
    → collect ≡ true
    → IsTally scenario collect progress samples answers_of
unfolding answered
samples-IsTally scenario collect progress collects = record {
  ignores_phase = λ w p. refl;
  asks_nothing = refl;
  gains = λ w reply ms. rw collects (length-append w.latencies (ms ∷ []));
}
