-- ===== src/Load/Start.antt =====
-- Theorems about the state in which load.py starts its workers, and about stopped workers.
use fog_http_benchmark.Prelude.{
  ℕ, zero, suc, ◌+◌, ◌*◌, ◌≡◌, refl, ap, true, List, [], ◌∷◌, arith, length, all,
}
use fog_http_benchmark.Load.{Worker, indices, new_worker, new_workers, min_nat, start, is_stopped}
use fog_http_benchmark.Load.Turns.{total}
use fog_http_benchmark.Load.Backlog.{in_flight, moves_left, left_queue, IsBalanced, measure}

length-indices : (i n : ℕ) → length (indices i n) ≡ n
unfolding indices
length-indices i zero = refl
length-indices i (suc n) = ap suc (length-indices (suc i) n)

pub total-new_workers :
    (f : Worker → ℕ) (n k : ℕ) → f new_worker ≡ k → total f (new_workers n) ≡ n * k
unfolding new_workers
total-new_workers f zero k h = omega arith
total-new_workers f (suc n) k h = omega (arith, h, total-new_workers f n k h)

pub start-measure :
    (concurrency requests : ℕ)
    → measure (start concurrency requests) ≡ 2 * requests + min_nat concurrency requests
unfolding start measure
start-measure concurrency requests = omega (
  arith,
  length-indices 0 requests,
  total-new_workers moves_left (min_nat concurrency requests) 1 refl,
)

pub start-IsBalanced : (concurrency requests : ℕ) → IsBalanced (start concurrency requests)
unfolding start
start-IsBalanced concurrency requests = record {
  unfinished_exact = omega (
    arith,
    length-indices 0 requests,
    total-new_workers in_flight (min_nat concurrency requests) 0 refl,
  );
  stops_empty = ground (arith, total-new_workers left_queue (min_nat concurrency requests) 0 refl);
}

pub start-unfinished :
    (concurrency requests : ℕ) → (start concurrency requests).unfinished ≡ requests
unfolding start
start-unfinished concurrency requests = refl

pub start-length :
    (concurrency requests : ℕ)
    → total (λ w. 1) (start concurrency requests).workers ≡ min_nat concurrency requests
unfolding start
start-length concurrency requests =
    omega (arith, total-new_workers (λ w. 1) (min_nat concurrency requests) 1 refl)

pub start-total :
    (f : Worker → ℕ) (concurrency requests : ℕ)
    → f new_worker ≡ 0
    → total f (start concurrency requests).workers ≡ 0
unfolding start
start-total f concurrency requests h =
    omega (arith, total-new_workers f (min_nat concurrency requests) 0 h)

-- a stopped worker holds nothing and makes no move
pub all_stopped-total :
    (ws : List Worker)
    → all is_stopped ws ≡ true
    → (total in_flight ws ≡ 0) × (total moves_left ws ≡ 0) × (total left_queue ws ≡ length ws)
unfolding all
all_stopped-total [] h = (refl, refl, refl)
all_stopped-total (w ∷ ws) h = ground (arith, all_stopped-total ws)
