-- ===== src/Tests/Load.antt =====
-- Runs of the load generator.
use fog_http_benchmark.Statistics.{add_count, add_counts}
use fog_http_benchmark.Prelude.{
  all, ℕ, ◌+◌, ◌*◌, ◌≤◌, ◌≡◌, ◌↔◌, refl, arith, true, false, none, some, List, [], ◌∷◌, all, ok,
  length,
}
use fog_http_benchmark.Prelude.Int.{pos}
use fog_http_benchmark.Json.{Float, whole}
use fog_http_benchmark.Models.{Scenario, ResponseOutcome, LoadResult}
use fog_http_benchmark.Load.{
  increment, failure, merge_load_from, merge_load_results, finish_async, answered, indices,
  new_workers, step, run_async_load, LoadState, Event, Reply, returned, raised, get_nowait, answer,
  start, run_events, stopped, is_stopped, run_load, outcome_matches, ends_with, min_nat,
}
use fog_http_benchmark.Load.Complete.{IsComplete, run_load-IsComplete}
use fog_http_benchmark.Load.Ends.{AreAnswersOf, run_load-can_end}
use fog_http_benchmark.Load.Moves.{run_events-length}
use fog_http_benchmark.Load.Outcomes.{IsExpected, outcome_matches_iff}

abbrev redirected : Scenario
redirected = record {
  name = "redirect";
  method = "GET";
  path = "/redirect";
  body = none;
  json_body = none;
  expected_status = pos 200;
  expected_json_keys = [];
  expected_content_length = some (pos 12);
  expected_redirects = some (pos 1);
  expected_final_path = some "/end";
  follow_redirects = true;
  request_limit = none;
  description = "";
}

abbrev good : ResponseOutcome
good = record {
  status_code = pos 200;
  json_ok = true;
  content_length = some (pos 12);
  history_count = none;
  final_url = some "http://host/end";
}

abbrev bad : ResponseOutcome
bad = record good { content_length = none }

ends_with_runs : ends_with "http://host/end" "/end" ≡ true
unfolding ends_with
ends_with_runs = refl

ends_with_fails : ends_with "http://host/end/" "/end" ≡ false
unfolding ends_with
ends_with_fails = refl

good_matches : outcome_matches redirected good ≡ true
unfolding outcome_matches ends_with
good_matches = refl

bad_fails : outcome_matches redirected bad ≡ false
unfolding outcome_matches
bad_fails = refl

outcome_matches_iff_example : (outcome_matches redirected good ≡ true) ↔ IsExpected redirected good
outcome_matches_iff_example = outcome_matches_iff redirected good

abbrev asks : ℕ → Event
asks i = record { worker = i; move = get_nowait }

abbrev gets : ℕ → Reply → Float → Event
gets i reply ms = record { worker = i; move = answer reply ms }

-- Two workers take three requests; the second gets its first answer before the first does.
abbrev three_requests : List Event
three_requests =
    asks 0
    ∷ asks 1
    ∷ gets 1 (raised "ReadTimeout") (whole 30)
    ∷ asks 1
    ∷ gets 0 (returned good) (whole 2)
    ∷ asks 0
    ∷ gets 1 (returned bad) (whole 4)
    ∷ asks 1
    ∷ []

abbrev three_result : LoadResult
three_result = record {
  latencies_ms = whole 2 ∷ whole 30 ∷ whole 4 ∷ [];
  errors = 2;
  error_types = ("ReadTimeout", 1) ∷ ("check_failed", 1) ∷ [];
}

three_requests_run : run_load redirected true true true 2 3 three_requests ≡ some (ok three_result)
unfolding run_load run_async_load run_events step start new_workers indices answered finish_async
    all merge_load_results merge_load_from add_counts failure outcome_matches increment ends_with
three_requests_run = refl

run_load-IsComplete_example : IsComplete redirected true 3 three_requests three_result
run_load-IsComplete_example =
    run_load-IsComplete redirected true true true 2 3 three_requests (omega arith)
      three_requests_run

abbrev three_last : LoadState
three_last = record {
  queue = [];
  unfinished = 0;
  advanced = 3;
  workers =
      record { phase = stopped; latencies = []; worker_errors = [] }
      ∷ record { phase = stopped; latencies = []; worker_errors = three_result.error_types }
      ∷ [];
}

three_requests_stopping :
    run_events redirected false true (start 2 3) (three_requests) ≡ some three_last
unfolding run_events step start new_workers indices answered failure outcome_matches ends_with
    increment add_count
three_requests_stopping = refl

run_events-length_example :
    (length three_requests ≤ 2 * 3 + min_nat 2 3)
    × (all is_stopped three_last.workers ≡ true → length three_requests ≡ 2 * 3 + min_nat 2 3)
run_events-length_example =
    run_events-length redirected false true 2 3 three_requests (omega arith) three_requests_stopping

-- a client that answers each request alike
abbrev steady : ℕ → Reply × Float
steady k = (returned good, whole 1)

run_load-can_end_example :
    (events : List Event) × (result : LoadResult) × (run_load redirected true true false 2 3 events
      ≡ some (ok result))
    × AreAnswersOf steady 0 events
run_load-can_end_example = run_load-can_end redirected true true false 2 3 steady (omega arith)
