-- ===== src/Load/Ends.antt =====
-- Theorems about the progress of the workers of load.py.
use fog_http_benchmark.Prelude.{
  ℕ, zero, suc, ◌≡◌, ◌≤◌, ◌<◌, ◌⊎◌, refl, inl, inr, Bool-cases, Bool, true, false, some, List, [],
  ◌∷◌, arith, length, all, ok, map,
}
use fog_http_benchmark.Json.{Float}
use fog_http_benchmark.Models.{Scenario, LoadResult}
use fog_http_benchmark.Load.{
  answered, Reply, Move, Phase, idle, requesting, stopped, LoadState, Event, Worker, get_nowait,
  answer, merge_load_results, worker_result, run_load, run_async_load, run_sync_load, finish_async,
  finish_sync, step, run_events, start, is_stopped, worker_at, move_worker,
}
use fog_http_benchmark.Load.Turns.{step-Turn}
use fog_http_benchmark.Load.Backlog.{measure, step-measure}
use fog_http_benchmark.Load.Moves.{ended-joined}

-- the first worker that has not stopped
running_worker :
    (ws : List Worker)
    → (all is_stopped ws ≡ true)
      ⊎ ((i : ℕ) × (w : Worker) × (worker_at i ws ≡ some w) × (is_stopped w ≡ false))
unfolding all
running_worker [] = inl refl
running_worker (w ∷ ws) = elim (Bool-cases (is_stopped w)) [
  | inr runs ↦ inr (0, w, refl, runs)
  | inl stands ↦ elim (running_worker ws) [
    | inl rest ↦ inl (rw (stands, rest) refl)
    | inr (i, v, at, runs) ↦ inr (suc i, v, at, runs)
  ]
]

-- the k-th answer of the events, and each after it, is what the client gives
abbrev pub AreAnswersOf : (ℕ → Reply × Float) → ℕ → List Event → Type 0
AreAnswersOf client k [] = Unit
AreAnswersOf client k (e ∷ es) =
    ((e.move ≡ get_nowait) × AreAnswersOf client k es)
    ⊎ ((e.move ≡ answer (client k).0 (client k).1) × AreAnswersOf client (suc k) es)

module _ (scenario : Scenario) (collect progress : Bool) where
  CanMove : LoadState → Move → Type 0
  CanMove s move =
      (e : Event) × (t : LoadState) × (e.move ≡ move)
      × (step scenario collect progress s e ≡ some t)

  move_worker-CanMove :
      (s : LoadState) (i : ℕ) (w : Worker) (phase : Phase) (move : Move) {t : LoadState}
      → worker_at i s.workers ≡ some w
      → w.phase ≡ phase
      → move_worker scenario collect progress s i w phase move ≡ some t
      → CanMove s move
  unfolding step CanMove answered
  move_worker-CanMove s i w phase move {t} at stands moves =
      (record { worker = i; move = move }, t, refl, rw (at, step) (rw stands moves))

  enabled :
      (s : LoadState) (i : ℕ) (w : Worker) (reply : Reply) (ms : Float) (phase : Phase)
      → w.phase ≡ phase
      → worker_at i s.workers ≡ some w
      → is_stopped w ≡ false
      → CanMove s get_nowait ⊎ CanMove s (answer reply ms)
  enabled s i w reply ms idle free at runs =
      inl (move_worker-CanMove s i w idle get_nowait at free refl)
  enabled s i w reply ms requesting free at runs =
      inr (move_worker-CanMove s i w requesting (answer reply ms) at free refl)
  enabled s i w reply ms stopped free at runs = ground (arith, free)

  -- a run from the state to its end, whose answers from the k-th on are the client's
  Ending : LoadState → (ℕ → Reply × Float) → ℕ → Type 0
  Ending s client k =
      (es : List Event) × (t : LoadState) × (run_events scenario collect progress s es ≡ some t)
      × (all is_stopped t.workers ≡ true)
      × AreAnswersOf client k es

  prepend-asks :
      (s : LoadState) (client : ℕ → Reply × Float) (k : ℕ) (e : Event) {t : LoadState}
      → e.move ≡ get_nowait
      → step scenario collect progress s e ≡ some t
      → Ending t client k
      → Ending s client k
  unfolding run_events Ending
  prepend-asks s client k e asks stepped (es, last, run, stand, answers) =
      (e ∷ es, last, rw (stepped, run_events) run, stand, inl (asks, answers))

  prepend-answered :
      (s : LoadState) (client : ℕ → Reply × Float) (k : ℕ) (e : Event) {t : LoadState}
      → e.move ≡ answer (client k).0 (client k).1
      → step scenario collect progress s e ≡ some t
      → Ending t client (suc k)
      → Ending s client k
  unfolding run_events Ending
  prepend-answered s client k e answers_this stepped (es, last, run, stand, answers) =
      (e ∷ es, last, rw (stepped, run_events) run, stand, inr (answers_this, answers))

  step-fewer :
      (s : LoadState) (e : Event) {t : LoadState}
      → step scenario collect progress s e ≡ some t
      → suc (measure t) ≤ measure s
  step-fewer s e stepped = omega (
    arith,
    step-measure scenario collect progress s e (step-Turn scenario collect progress s e stepped),
  )

  -- a run that has ended, or one move after which fewer are left
  proceed :
      (s : LoadState) (client : ℕ → Reply × Float) (k : ℕ)
      → Ending s client k
        ⊎ ((t : LoadState) × (j : ℕ) × (suc (measure t) ≤ measure s)
            × (Ending t client j → Ending s client k))
  unfolding run_events CanMove Ending
  proceed s client k = elim (running_worker s.workers) [
    | inl stand ↦ inl ([], s, refl, stand, tt)
    | inr (i, w, at, runs) ↦ elim (enabled s i w (client k).0 (client k).1 w.phase refl at runs) [
      | inl (e, t, asks, stepped) ↦
          inr (t, k, step-fewer s e stepped, prepend-asks s client k e asks stepped)
      | inr (e, t, answers, stepped) ↦
          inr (t, suc k, step-fewer s e stepped, prepend-answered s client k e answers stepped)
    ]
  ]

  ends_within :
      (n : ℕ) (s : LoadState) (client : ℕ → Reply × Float) (k : ℕ)
      → measure s ≤ n
      → Ending s client k
  ends_within zero s client k h = elim (proceed s client k) [
    | inl ends ↦ ends
    | inr (t, j, fewer, more) ↦ absurd (omega (arith, fewer))
  ]
  ends_within (suc n) s client k h = elim (proceed s client k) [
    | inl ends ↦ ends
    | inr (t, j, fewer, more) ↦ more (ends_within n t client j (omega (arith, fewer)))
  ]

  run_load-returns :
      (is_async : Bool) (concurrency requests : ℕ) (es : List Event) {t : LoadState}
      → 0 < requests
      → (t.unfinished ≡ 0) × (0 < length t.workers)
      → run_events scenario collect progress (start concurrency requests) es ≡ some t
      → all is_stopped t.workers ≡ true
      → run_load scenario collect progress is_async concurrency requests es
        ≡ some (ok (merge_load_results (map worker_result t.workers)))
  unfolding run_load run_async_load run_sync_load finish_sync finish_async
  run_load-returns is_async concurrency requests es some_requests joined run stand =
      ground (arith, run, stand, joined)

  -- Whatever a client answers, a load with at least one worker can run to a result, in which the
  -- client's answers are met in order.
  pub run_load-can_end :
      (is_async : Bool) (concurrency requests : ℕ) (client : ℕ → Reply × Float)
      → 0 < concurrency
      → (events : List Event) × (result : LoadResult) × (run_load scenario collect progress is_async
            concurrency requests events
          ≡ some (ok result))
        × AreAnswersOf client 0 events
  unfolding run_load Ending
  run_load-can_end is_async concurrency zero client some_workers = ([], _, refl, tt)
  run_load-can_end is_async concurrency (suc n) client some_workers =
      let begun = start concurrency (suc n) in
      let (es, t, run, stand, answers) = ends_within (measure begun) begun client 0 (omega arith) in
      let joined =
        ended-joined scenario collect progress concurrency (suc n) es (ground arith) run stand in
      (
        es,
        merge_load_results (map worker_result t.workers),
        run_load-returns is_async concurrency (suc n) es (omega arith) joined run stand,
        answers,
      )
