-- ===== src/Load.antt =====
-- The load generator of foghttp_benchmark/load.py: workers that share a queue of requests, and the merge of their
-- results. The scheduler and the client are the environment: a run is given the events, each the
-- next move of one worker, and an answer with it where the worker awaits one.
pub mod Backlog
pub mod Complete
pub mod Conserves
pub mod Ends
pub mod Merge
pub mod Moves
pub mod Outcomes
pub mod Start
pub mod Turns
use fog_http_benchmark.Prelude.{
  ℕ, zero, suc, ◌+◌, ◌-◌, Bool, true, false, not, ◌&&◌, ◌||◌, String, Option, none, some, List, [],
  ◌∷◌, map, ◌++◌, ◌==◌, string_eq, nat_eq, leb, if◌then◌else◌, all, length, Result, ok, err,
  value_error,
}
use fog_http_benchmark.Prelude.Int.{ℤ, ℤ_eq}
use fog_http_benchmark.Json.{Float}
use fog_http_benchmark.Models.{Scenario, ResponseOutcome, LoadResult}
use fog_http_benchmark.Statistics.{ErrorCounts, add_count, add_counts}
use Prim.Native.String

-- `text.endswith(suffix)`
unfoldable pub ends_with : String → String → Bool
ends_with String.[] suffix = String.[] == suffix
ends_with (String.◌∷◌ c s) suffix = String.◌∷◌ c s == suffix || ends_with s suffix

-- `expected is not None and actual != expected`
abbrev pub differs : Option ℤ → Option ℤ → Bool
differs none actual = false
differs (some expected) none = true
differs (some expected) (some actual) = not (actual == expected)

-- The same where a missing actual value passes.
abbrev pub differs_if_known : Option ℤ → Option ℤ → Bool
differs_if_known (some expected) (some actual) = not (actual == expected)
differs_if_known _ _ = false

abbrev pub final_path_matches : Option String → Option String → Bool
final_path_matches (some path) (some url) = ends_with url path
final_path_matches _ _ = true

unfoldable pub outcome_matches : Scenario → ResponseOutcome → Bool
outcome_matches scenario outcome =
    if not (outcome.status_code == scenario.expected_status)
    then false
    else if not outcome.json_ok
    then false
    else if differs scenario.expected_content_length outcome.content_length
    then false
    else if differs_if_known scenario.expected_redirects outcome.history_count
    then false
    else final_path_matches scenario.expected_final_path outcome.final_url

unfoldable pub increment : ErrorCounts → String → ErrorCounts
increment values key = add_count key 1 values

-- `sum(error_types.values())`
abbrev pub sum_values : ErrorCounts → ℕ
sum_values [] = 0
sum_values ((name, n) ∷ counts) = n + sum_values counts

-- the loop over the results
unfoldable pub merge_load_from : List Float → ErrorCounts → List LoadResult → LoadResult
merge_load_from latencies error_types [] = record {
  latencies_ms = latencies;
  errors = sum_values error_types;
  error_types = error_types;
}
merge_load_from latencies error_types (result ∷ results) =
    merge_load_from (latencies ++ result.latencies_ms) (add_counts error_types result.error_types)
      results

unfoldable pub merge_load_results : List LoadResult → LoadResult
merge_load_results = merge_load_from [] []

-- What `client.request` does: it returns, or it raises an exception of the named class.
pub data Reply : Type 0 where
  returned : ResponseOutcome → Reply
  raised : String → Reply

-- Where a worker stands in its loop.
pub data Phase : Type 0 where
  idle requesting stopped : Phase

pub record Worker : Type 0 where
  pub phase : Phase
  pub latencies : List Float
  pub worker_errors : ErrorCounts

-- The next move of a worker: it asks the queue, or the client answers it after so many ms.
pub data Move : Type 0 where
  get_nowait : Move
  answer : Reply → Float → Move

pub record LoadState : Type 0 where
  pub queue : List ℕ
  -- what `queue.join` waits for, and how often the progress was advanced
  pub unfinished : ℕ
  pub advanced : ℕ
  pub workers : List Worker

pub record Event : Type 0 where
  pub worker : ℕ
  pub move : Move

-- the numbers from `i` on, as many as the second argument says
unfoldable pub indices : ℕ → ℕ → List ℕ
indices i zero = []
indices i (suc n) = i ∷ indices (suc i) n

abbrev pub new_worker : Worker
new_worker = record { phase = idle; latencies = []; worker_errors = [] }

unfoldable pub new_workers : ℕ → List Worker
new_workers zero = []
new_workers (suc n) = new_worker ∷ new_workers n

abbrev pub min_nat : ℕ → ℕ → ℕ
min_nat a b = if leb a b then a else b

-- the queue and the workers before the first of them runs
unfoldable pub start : ℕ → ℕ → LoadState
start concurrency requests = record {
  queue = indices 0 requests;
  unfinished = requests;
  advanced = 0;
  workers = new_workers (min_nat concurrency requests);
}

abbrev pub worker_at : ℕ → List Worker → Option Worker
worker_at _ [] = none
worker_at zero (w ∷ ws) = some w
worker_at (suc i) (w ∷ ws) = worker_at i ws

abbrev pub set_worker : ℕ → Worker → List Worker → List Worker
set_worker _ v [] = []
set_worker zero v (w ∷ ws) = v ∷ ws
set_worker (suc i) v (w ∷ ws) = w ∷ set_worker i v ws

-- the error that an answer counts as, if it is one
unfoldable pub failure : Scenario → Reply → Option String
failure scenario (returned outcome) =
    if not (outcome_matches scenario outcome) then some "check_failed" else none
failure scenario (raised name) = some name

abbrev pub record_failure : ErrorCounts → Option String → ErrorCounts
record_failure error_types none = error_types
record_failure error_types (some name) = increment error_types name

abbrev pub worker_result : Worker → LoadResult
worker_result w = record {
  latencies_ms = w.latencies;
  errors = sum_values w.worker_errors;
  error_types = w.worker_errors;
}

abbrev pub is_stopped : Worker → Bool
is_stopped w = elim w.phase [ stopped ↦ true | _ ↦ false ]

module _ (scenario : Scenario) (collect progress : Bool) where
  -- The worker after an answer: the `try` and the `finally` of the loop's body.
  unfoldable pub answered : Worker → Reply → Float → Worker
  answered w reply ms = record {
    phase = idle;
    latencies = if collect then w.latencies ++ (ms ∷ []) else w.latencies;
    worker_errors = record_failure w.worker_errors (failure scenario reply);
  }

  -- `queue.get_nowait`, which hands out a request or stops the worker
  abbrev pub fetch : LoadState → ℕ → Worker → List ℕ → LoadState
  fetch s i w [] = record s { workers = set_worker i (record w { phase = stopped }) s.workers }
  fetch s i w (index ∷ rest) = record s {
    queue = rest;
    workers = set_worker i (record w { phase = requesting }) s.workers;
  }

  -- one move of worker `i`; `none` if it is not the worker's turn for such a move
  abbrev pub move_worker : LoadState → ℕ → Worker → Phase → Move → Option LoadState
  move_worker s i w idle get_nowait = some (fetch s i w s.queue)
  move_worker s i w requesting (answer reply ms) = some (record s {
    unfinished = s.unfinished - 1;
    advanced = if progress then suc s.advanced else s.advanced;
    workers = set_worker i (answered w reply ms) s.workers;
  })
  move_worker s i w _ _ = none

  unfoldable pub step : LoadState → Event → Option LoadState
  step s e = elim (worker_at e.worker s.workers) [
    | none ↦ none
    | some w ↦ move_worker s e.worker w w.phase e.move
  ]

  unfoldable pub run_events : LoadState → List Event → Option LoadState
  run_events s [] = some s
  run_events s (e ∷ es) = elim (step s e) [ none ↦ none | some t ↦ run_events t es ]

  -- after `await queue.join()` and `asyncio.gather`, the merged results of the workers
  unfoldable pub finish_async : LoadState → Option (Result LoadResult)
  finish_async s =
      if s.unfinished == 0 && all is_stopped s.workers
      then some (ok (merge_load_results (map worker_result s.workers)))
      else none

  -- The same after the threads of the pool, which refuses to have none.
  unfoldable pub finish_sync : LoadState → Option (Result LoadResult)
  finish_sync s =
      if length s.workers == 0
      then some (err value_error)
      else if all is_stopped s.workers
      then some (ok (merge_load_results (map worker_result s.workers)))
      else none

  unfoldable pub run_async_load : ℕ → ℕ → List Event → Option (Result LoadResult)
  run_async_load concurrency requests events =
      elim (run_events (start concurrency requests) events) [
        | none ↦ none
        | some s ↦ finish_async s
      ]

  unfoldable pub run_sync_load : ℕ → ℕ → List Event → Option (Result LoadResult)
  run_sync_load concurrency requests events =
      elim (run_events (start concurrency requests) events) [ none ↦ none | some s ↦ finish_sync s ]

  -- What the load has returned after the events; `none` while it runs.
  unfoldable pub run_load : Bool → ℕ → ℕ → List Event → Option (Result LoadResult)
  run_load is_async concurrency requests events =
      if requests == 0
      then some (ok (record { latencies_ms = []; errors = 0; error_types = [] }))
      else if is_async
      then run_async_load concurrency requests events
      else run_sync_load concurrency requests events
