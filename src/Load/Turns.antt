-- ===== src/Load/Turns.antt =====
-- The three ways a worker of the load generator moves, and what a move of one worker changes in a
-- sum over all of them.
use fog_http_benchmark.Prelude.{
  ℕ, zero, suc, ◌+◌, ◌-◌, ◌≡◌, refl, sym, inl, inr, Option-cases, some-injective, Bool, some, List,
  [], ◌∷◌, arith, if◌then◌else◌,
}
use fog_http_benchmark.Json.{Float}
use fog_http_benchmark.Models.{Scenario}
use fog_http_benchmark.Load.{
  Reply, Worker, Move, LoadState, Event, idle, requesting, stopped, get_nowait, answer, Phase,
  worker_at, set_worker, answered, fetch, move_worker, step, run_events,
}

abbrev pub total : (Worker → ℕ) → List Worker → ℕ
total f [] = 0
total f (w ∷ ws) = f w + total f ws

pub set_worker-total :
    (f : Worker → ℕ) (i : ℕ) (w v : Worker) (ws : List Worker)
    → worker_at i ws ≡ some w
    → total f (set_worker i v ws) + f w ≡ total f ws + f v
set_worker-total f i w v [] h = cc
set_worker-total f zero w v (u ∷ us) h = ground (arith, h)
set_worker-total f (suc i) w v (u ∷ us) h = omega (arith, set_worker-total f i w v us h)

module _ (scenario : Scenario) (collect progress : Bool) where
  pub data Turn (s : LoadState) (e : Event) (t : LoadState) : Type 0 where
    handed :
        (w : Worker) (index : ℕ) (rest : List ℕ)
        → worker_at e.worker s.workers ≡ some w
        → w.phase ≡ idle
        → e.move ≡ get_nowait
        → s.queue ≡ index ∷ rest
        → t ≡ record s {
          queue = rest;
          workers = set_worker e.worker (record w { phase = requesting }) s.workers;
        }
        → Turn s e t
    emptied :
        (w : Worker)
        → worker_at e.worker s.workers ≡ some w
        → w.phase ≡ idle
        → e.move ≡ get_nowait
        → s.queue ≡ []
        → t ≡ record s { workers = set_worker e.worker (record w { phase = stopped }) s.workers }
        → Turn s e t
    served :
        (w : Worker) (reply : Reply) (ms : Float)
        → worker_at e.worker s.workers ≡ some w
        → w.phase ≡ requesting
        → e.move ≡ answer reply ms
        → t ≡ record s {
          unfinished = s.unfinished - 1;
          advanced = if progress then suc s.advanced else s.advanced;
          workers = set_worker e.worker (answered scenario collect progress w reply ms) s.workers;
        }
        → Turn s e t

  fetch-Turn :
      (s : LoadState) (e : Event) (w : Worker) (q : List ℕ) {t : LoadState}
      → s.queue ≡ q
      → worker_at e.worker s.workers ≡ some w
      → w.phase ≡ idle
      → e.move ≡ get_nowait
      → t ≡ fetch scenario collect progress s e.worker w q
      → Turn s e t
  fetch-Turn s e w [] queued at free asks moved = emptied w at free asks queued moved
  fetch-Turn s e w (index ∷ rest) queued at free asks moved =
      handed w index rest at free asks queued moved

  move_worker-Turn :
      (s : LoadState) (e : Event) (w : Worker) (phase : Phase) (move : Move) {t : LoadState}
      → worker_at e.worker s.workers ≡ some w
      → w.phase ≡ phase
      → e.move ≡ move
      → move_worker scenario collect progress s e.worker w phase move ≡ some t
      → Turn s e t
  move_worker-Turn s e w idle get_nowait at free asks h =
      fetch-Turn s e w s.queue refl at free asks (sym (some-injective h))
  move_worker-Turn s e w idle (answer reply ms) at free asks h = cc
  move_worker-Turn s e w requesting get_nowait at free asks h = cc
  move_worker-Turn s e w requesting (answer reply ms) at free asks h =
      served w reply ms at free asks (sym (some-injective h))
  move_worker-Turn s e w stopped get_nowait at free asks h = cc
  move_worker-Turn s e w stopped (answer reply ms) at free asks h = cc

  pub step-Turn :
      (s : LoadState) (e : Event) {t : LoadState}
      → step scenario collect progress s e ≡ some t
      → Turn s e t
  unfolding step
  step-Turn s e h = elim (Option-cases (worker_at e.worker s.workers)) [
    | inl gone ↦ (let k = rw (gone, step) at h in cc)
    | inr (w, at) ↦ move_worker-Turn s e w w.phase e.move at refl refl (rw (at, step) at h)
  ]

  -- the state after the first event of a run
  pub run_events-first :
      (s : LoadState) (e : Event) (es : List Event) {t : LoadState}
      → run_events scenario collect progress s (e ∷ es) ≡ some t
      → (u : LoadState) × (step scenario collect progress s e ≡ some u)
        × (run_events scenario collect progress u es ≡ some t)
  unfolding run_events
  run_events-first s e es h = elim (Option-cases (step scenario collect progress s e)) [
    | inl stuck ↦ (let k = rw (stuck, run_events) at h in cc)
    | inr (u, stepped) ↦ (u, stepped, (rw (stepped, run_events) at h))
  ]
