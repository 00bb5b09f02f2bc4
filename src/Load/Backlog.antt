-- ===== src/Load/Backlog.antt =====
-- Theorems about what the queue of load.py still has to do.
use fog_http_benchmark.Prelude.{
  ℕ, suc, ◌+◌, ◌*◌, ◌≡◌, ◌<◌, refl, ap, some-injective, Bool, some, List, [], ◌∷◌, arith,
  if◌then◌else◌, length,
}
use fog_http_benchmark.Models.{Scenario}
use fog_http_benchmark.Load.{
  Phase, Worker, LoadState, Event, idle, requesting, stopped, answered, run_events,
}
use fog_http_benchmark.Load.Turns.{
  Turn, handed, emptied, served, step-Turn, run_events-first, total, set_worker-total,
}
use fog_http_benchmark.Load.Conserves.{answers_of, answers}

abbrev pub in_flight : Worker → ℕ
in_flight w = elim w.phase [ requesting ↦ 1 | _ ↦ 0 ]

-- the moves that a worker makes at least before it has stopped
abbrev pub moves_left : Worker → ℕ
moves_left w = elim w.phase [ idle ↦ 1 | requesting ↦ 2 | stopped ↦ 0 ]

abbrev pub left_queue : Worker → ℕ
left_queue w = elim w.phase [ stopped ↦ 1 | _ ↦ 0 ]

-- What `queue.join` counts down is what stands in the queue and what the workers hold, and a worker
-- has stopped only at an empty queue.
pub record IsBalanced (s : LoadState) : Type 0 where
  pub unfinished_exact : s.unfinished ≡ length s.queue + total in_flight s.workers
  pub stops_empty : 0 < total left_queue s.workers → length s.queue ≡ 0

-- the moves that all workers together still make
unfoldable pub measure : LoadState → ℕ
measure s = 2 * length s.queue + total moves_left s.workers

module _ (scenario : Scenario) (collect progress : Bool) where
  abbrev before : Phase → Worker → Worker
  before phase w = record w { phase = phase }

  phase-in_flight :
      (w : Worker) {p : Phase}
      → w.phase ≡ p
      → (in_flight w ≡ in_flight (before p w))
        × (moves_left w ≡ moves_left (before p w))
        × (left_queue w ≡ left_queue (before p w))
  phase-in_flight w e = rw e (refl, refl, refl)

  pub step-measure :
      (s : LoadState) (e : Event) {t : LoadState}
      → Turn scenario collect progress s e t
      → suc (measure t) ≡ measure s
  unfolding measure answered
  step-measure s e (handed w index rest at free asks queued moved) =
      rw (moved, queued)
        (omega (
          arith,
          set_worker-total moves_left e.worker w (before requesting w) s.workers at,
          phase-in_flight w free,
        ))
  step-measure s e (emptied w at free asks queued moved) =
      rw (moved, queued)
        (omega (
          arith,
          set_worker-total moves_left e.worker w (before stopped w) s.workers at,
          phase-in_flight w free,
        ))
  step-measure s e (served w reply ms at free asks moved) = rw (moved) (
      omega (
        arith,
        set_worker-total moves_left e.worker w (answered scenario collect progress w reply ms)
            s.workers at,
        phase-in_flight w free,
      ))

  pub run_events-measure :
      (s : LoadState) (es : List Event) {t : LoadState}
      → run_events scenario collect progress s es ≡ some t
      → length es + measure t ≡ measure s
  unfolding run_events
  run_events-measure s [] h = rw (← some-injective h) (omega arith)
  run_events-measure s (e ∷ es) h =
      let (u, stepped, rest) = run_events-first scenario collect progress s e es h in
      omega (
        arith,
        step-measure s e (step-Turn scenario collect progress s e stepped),
        run_events-measure u es rest,
      )

  step-IsBalanced :
      (s : LoadState) (e : Event) {t : LoadState}
      → IsBalanced s
      → Turn scenario collect progress s e t
      → IsBalanced t × (t.unfinished + answers_of e.move ≡ s.unfinished)
  unfolding answered
  step-IsBalanced s e inv (handed w index rest at free asks queued moved) =
      rw (moved, asks)
        (
          record {
            unfinished_exact = ground (
              arith,
              inv,
              ap length queued,
              set_worker-total in_flight e.worker w (before requesting w) s.workers at,
              phase-in_flight w free,
            );
            stops_empty = ground (
              arith,
              inv,
              ap length queued,
              set_worker-total left_queue e.worker w (before requesting w) s.workers at,
              phase-in_flight w free,
            );
          },
          ground (
            arith,
            inv,
            set_worker-total in_flight e.worker w (before requesting w) s.workers at,
            phase-in_flight w free,
          ),
        )
  step-IsBalanced s e inv (emptied w at free asks queued moved) =
      rw (moved, asks)
        (
          record {
            unfinished_exact = ground (
              arith,
              inv,
              ap length queued,
              set_worker-total in_flight e.worker w (before stopped w) s.workers at,
              phase-in_flight w free,
            );
            stops_empty = ground (
              arith,
              inv,
              ap length queued,
              set_worker-total left_queue e.worker w (before stopped w) s.workers at,
              phase-in_flight w free,
            );
          },
          ground (
            arith,
            inv,
            set_worker-total in_flight e.worker w (before stopped w) s.workers at,
            phase-in_flight w free,
          ),
        )
  step-IsBalanced s e inv (served w reply ms at free asks moved) =
      rw (moved, asks)
        (
          record {
            unfinished_exact = ground (
              arith,
              inv,
              set_worker-total in_flight e.worker w (answered scenario collect progress w reply ms)
                  s.workers at,
              phase-in_flight w free,
            );
            stops_empty = ground (
              arith,
              inv,
              set_worker-total left_queue e.worker w (answered scenario collect progress w reply ms)
                  s.workers at,
              phase-in_flight w free,
            );
          },
          ground (
            arith,
            inv,
            set_worker-total in_flight e.worker w (answered scenario collect progress w reply ms)
                s.workers at,
            phase-in_flight w free,
          ),
        )

  step-advanced :
      (s : LoadState) (e : Event) {t : LoadState}
      → Turn scenario collect progress s e t
      → t.advanced ≡ s.advanced + (if progress then answers_of e.move else 0)
  step-advanced s e (handed w index rest at free asks queued moved) =
      rw (moved, asks) (ground arith)
  step-advanced s e (emptied w at free asks queued moved) = rw (moved, asks) (ground arith)
  step-advanced s e (served w reply ms at free asks moved) = rw (moved, asks) (ground arith)

  pub run_events-advanced :
      (s : LoadState) (es : List Event) {t : LoadState}
      → run_events scenario collect progress s es ≡ some t
      → t.advanced ≡ s.advanced + (if progress then answers es else 0)
  unfolding run_events
  run_events-advanced s [] h = rw (← some-injective h) (ground arith)
  run_events-advanced s (e ∷ es) h =
      let (u, stepped, rest) = run_events-first scenario collect progress s e es h in
      ground (
        arith,
        step-advanced s e (step-Turn scenario collect progress s e stepped),
        run_events-advanced u es rest,
      )

  pub run_events-IsBalanced :
      (s : LoadState) (es : List Event) {t : LoadState}
      → IsBalanced s
      → run_events scenario collect progress s es ≡ some t
      → IsBalanced t × (t.unfinished + answers es ≡ s.unfinished)
  unfolding run_events
  run_events-IsBalanced s [] inv h = rw (← some-injective h) (inv, omega arith)
  run_events-IsBalanced s (e ∷ es) inv h =
      let (u, stepped, rest) = run_events-first scenario collect progress s e es h in
      let (kept, counted) =
        step-IsBalanced s e inv (step-Turn scenario collect progress s e stepped) in
      let (balanced, rest_counted) = run_events-IsBalanced u es kept rest in
      (balanced, omega (arith, counted, rest_counted))
