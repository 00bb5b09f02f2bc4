-- ===== src/Windows/Bounded.antt =====
-- Theorems about the workload of a window.
use fog_http_benchmark.Prelude.{
  ◌≡◌, refl, ℕ, suc, ◌*◌, ◌/◌, ◌≤◌, ◌<◌, true, Option, none, some, ok, arith, >>=-eq-ok, Bool-cases,
  inl, inr, ◌⊎◌,
}
use native.Mathlib.Nat.{mul-le-mul_right, div-mul-le_self, div-lt_iff_lt-mul, le_trans}
use fog_http_benchmark.Prelude.Int.{ℤ, pos, pos_part, negsuc, ◌≤ℤ◌, ◌*ℤ◌}
use fog_http_benchmark.Json.{JsonObject, get, json_eq, int, Float, float_le}
use fog_http_benchmark.Runtime.{is_text}
use fog_http_benchmark.Validity.Attribution.{object_value}
use fog_http_benchmark.Windows.{
  number, plain_int, stop_matches, streams_match, rounds_match, limits_match,
  window_workload_matches, max_window_streams,
}

-- What an accepted window has run.
pub record IsWindow (batch configuration : JsonObject) (concurrency : ℕ) : Type 0 where
  pub duration : Float
  pub target : Float
  pub rounds : ℤ
  pub minimum : ℤ
  pub limit : ℕ
  pub has_duration : number (get batch "duration_s") ≡ ok (some duration)
  pub has_target :
      number (get (object_value (get configuration "attribution")) "minimum_duration_s")
      ≡ ok (some target)
  pub has_limit :
      plain_int (get (object_value (get configuration "attribution")) "max_window_streams")
      ≡ some (pos limit)
  pub has_rounds : plain_int (get batch "rounds") ≡ some rounds
  pub has_minimum : plain_int (get configuration "rounds_per_batch") ≡ some minimum
  pub some_concurrency : 0 < concurrency
  pub are_enough : minimum ≤ℤ rounds
  pub are_requests : json_eq (get batch "requests") (int (rounds *ℤ pos concurrency)) ≡ true
  pub are_bounded : pos_part rounds * concurrency ≤ limit
  pub is_bounded : limit ≤ max_window_streams
  pub stopped :
      ((float_le target duration ≡ true)
        × (is_text (get (object_value (get batch "window")) "stop_reason") "duration-reached"
            ≡ true))
      ⊎ (limit < suc (pos_part rounds) * concurrency)

under_quotient : (n limit c : ℕ) → n ≤ limit / c → n * c ≤ limit
under_quotient n limit c h = le_trans (mul-le-mul_right c h) (div-mul-le_self limit c)

pos_part_le : (a : ℤ) (n : ℕ) → a ≤ℤ pos n → pos_part a ≤ n
pos_part_le (pos m) n h = omega arith
pos_part_le (negsuc m) n h = omega arith

above_quotient : (limit c : ℕ) → 0 < c → limit < suc (limit / c) * c
above_quotient limit c h = (div-lt_iff_lt-mul h).0 (omega arith)

limits_match-inverts :
    (batch window : JsonObject) (concurrency : ℕ) (d t : Option Float) (l r m : Option ℤ)
    → limits_match batch window concurrency d t l r m ≡ ok true
    → (duration : Float) × (target : Float) × (limit : ℕ) × (rounds : ℤ) × (minimum : ℤ) × (d
        ≡ some duration)
      × (t ≡ some target)
      × (l ≡ some (pos limit))
      × (r ≡ some rounds)
      × (m ≡ some minimum)
      × (limit ≤ max_window_streams)
      × (rounds_match batch window concurrency duration target limit rounds minimum ≡ ok true)
unfolding limits_match
limits_match-inverts batch window concurrency (some d) (some t) (some (pos l)) (some r) (some m) h =
    (d, t, l, r, m, refl, refl, refl, refl, refl, ground arith, ground arith)
limits_match-inverts batch window concurrency none t l r m h = cc
limits_match-inverts batch window concurrency (some d) none l r m h = cc
limits_match-inverts batch window concurrency (some d) (some t) none r m h = cc
limits_match-inverts batch window concurrency (some d) (some t) (some (negsuc l)) r m h = cc
limits_match-inverts batch window concurrency (some d) (some t) (some (pos l)) none m h = cc
limits_match-inverts batch window concurrency (some d) (some t) (some (pos l)) (some r) none h = cc

full_quotient :
    {P : Type 0} (rounds : ℤ) (limit c : ℕ)
    → 0 < c
    → P ⊎ (rounds ≡ pos (limit / c))
    → P ⊎ (limit < suc (pos_part rounds) * c)
full_quotient rounds limit c h (inl p) = inl p
full_quotient rounds limit c h (inr full) = inr (rw full (above_quotient limit c h))

rounds_match-inverts :
    (batch window : JsonObject) (concurrency : ℕ) (duration target : Float) (limit : ℕ)
    (rounds minimum : ℤ)
    → rounds_match batch window concurrency duration target limit rounds minimum ≡ ok true
    → (minimum ≤ℤ rounds)
      × (0 < concurrency)
      × (streams_match batch window concurrency duration target limit rounds minimum ≡ true)
unfolding rounds_match
rounds_match-inverts batch window concurrency duration target limit rounds minimum h =
    (ground arith, ground arith, ground arith)

streams_match-inverts :
    (batch window : JsonObject) (concurrency : ℕ) (duration target : Float) (limit : ℕ)
    (rounds minimum : ℤ)
    → streams_match batch window concurrency duration target limit rounds minimum ≡ true
    → (rounds ≤ℤ pos (limit / concurrency))
      × (json_eq (get batch "requests") (int (rounds *ℤ pos concurrency)) ≡ true)
      × (((float_le target duration ≡ true)
            × (is_text (get window "stop_reason") "duration-reached" ≡ true))
          ⊎ (rounds ≡ pos (limit / concurrency)))
unfolding streams_match stop_matches
streams_match-inverts batch window concurrency duration target limit rounds minimum h =
    elim (Bool-cases (float_le target duration)) [
      | inl reached ↦ (ground arith, ground arith, inl (reached, ground (arith, h, reached)))
      | inr missed ↦ (ground arith, ground arith, inr (ground (arith, h, missed)))
    ]

-- An accepted window has run at least the declared number of rounds, each of `concurrency` streams,
-- no more streams than its limit, and has stopped because its duration was reached or because one
-- more round would have passed the limit.
pub window_workload_matches-IsWindow :
    (batch configuration : JsonObject) (concurrency : ℕ)
    → window_workload_matches batch configuration concurrency ≡ ok true
    → IsWindow batch configuration concurrency
unfolding window_workload_matches
window_workload_matches-IsWindow batch configuration concurrency h =
    let (d, has_d, h) = >>=-eq-ok (number (get batch "duration_s")) _ h in
    let (t, has_t, h) =
      >>=-eq-ok (number (get (object_value (get configuration "attribution")) "minimum_duration_s"))
        _ h in
    let (duration, target, limit, rounds, minimum, dd, dt, dl, dr, dm, most, h) =
      limits_match-inverts _ _ _ _ _ _ _ _ h in
    let (enough, some_concurrency, h) = rounds_match-inverts _ _ _ _ _ _ _ _ h in
    let (few, requests, stop) = streams_match-inverts _ _ _ _ _ _ _ _ h in
    record {
      duration = duration;
      target = target;
      rounds = rounds;
      minimum = minimum;
      limit = limit;
      has_duration = cc (has_d, dd);
      has_target = cc (has_t, dt);
      has_limit = dl;
      has_rounds = dr;
      has_minimum = dm;
      some_concurrency = some_concurrency;
      are_enough = enough;
      are_requests = requests;
      are_bounded =
          under_quotient (pos_part rounds) limit concurrency
            (pos_part_le rounds (limit / concurrency) few);
      is_bounded = most;
      stopped = full_quotient rounds limit concurrency some_concurrency stop;
    }
