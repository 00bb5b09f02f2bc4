-- ===== src/Windows.antt =====
-- The workload of a timed window of streams: streaming/attribution_window.py and
-- streaming/report_values.py.
pub mod Histogram
pub mod Bounded
pub mod Distinct
use fog_http_benchmark.Prelude.{
  ℕ, ◌/◌, ◌*◌, Bool, true, false, not, ◌&&◌, Option, none, some, List, [], ◌∷◌, leb, ◌==◌, nat_eq,
  string_eq, if◌then◌else◌, Result, ok, err, ◌>>=◌, zero_division_error,
}
use fog_http_benchmark.Prelude.Int.{ℤ, pos, leb_ℤ, ℤ_eq, ◌*ℤ◌}
use fog_http_benchmark.Json.{
  Json, bool, int, float, str, JsonObject, get, json_eq, Float, whole, is_finite, float_le,
  float_of_int,
}
use fog_http_benchmark.Runtime.{is_text}
use fog_http_benchmark.Validity.Attribution.{object_value}

abbrev pub min_window_streams : ℕ
min_window_streams = 20

abbrev pub max_window_streams : ℕ
max_window_streams = 2048

abbrev pub max_window_duration_s : ℕ
max_window_duration_s = 5

-- `math.isfinite` raises for an int beyond the largest float.
unfoldable pub number : Json → Result (Option Float)
number (int n) = float_of_int n >>= λ x. ok (some x)
number (float x) = ok (if is_finite x then some x else none)
number _ = ok none

-- the value, if `type(value) is int`
unfoldable pub plain_int : Json → Option ℤ
plain_int (int n) = some n
plain_int _ = none

-- `value is expected`, for a bool
unfoldable pub is_bool : Json → Bool → Bool
is_bool (bool true) expected = expected
is_bool (bool false) expected = not expected
is_bool _ expected = false

unfoldable pub stop_matches : JsonObject → Bool → Bool → Bool
stop_matches window reached filled =
    is_bool (get window "target_reached") reached
    && (if reached
        then is_text (get window "stop_reason") "duration-reached"
        else is_text (get window "stop_reason") "stream-limit" && filled)

module _ (batch window : JsonObject) (concurrency : ℕ) where
  -- the checks after the division
  unfoldable pub streams_match : Float → Float → ℕ → ℤ → ℤ → Bool
  unfolding stop_matches
  streams_match duration target limit rounds minimum =
      leb_ℤ rounds (pos (limit / concurrency))
      && json_eq (get window "minimum_duration_s") (float target)
      && json_eq (get window "minimum_rounds") (int minimum)
      && json_eq (get window "max_streams") (int (pos limit))
      && json_eq (get batch "requests") (int (rounds *ℤ pos concurrency))
      && stop_matches window (float_le target duration) (rounds == pos (limit / concurrency))

  unfoldable pub rounds_match : Float → Float → ℕ → ℤ → ℤ → Result Bool
  rounds_match duration target limit rounds minimum =
      if leb_ℤ minimum rounds
      then (if concurrency == 0
          then err zero_division_error
          else ok (streams_match duration target limit rounds minimum))
      else ok false

  unfoldable pub limits_match :
      Option Float → Option Float → Option ℤ → Option ℤ → Option ℤ → Result Bool
  limits_match (some duration) (some target) (some (pos limit)) (some rounds) (some minimum) =
      if float_le (whole 1) target
        && float_le target (whole max_window_duration_s)
        && leb min_window_streams limit
        && leb limit max_window_streams
      then rounds_match duration target limit rounds minimum
      else ok false
  limits_match _ _ _ _ _ = ok false

-- The caller has checked that the concurrency is a positive int.
unfoldable pub window_workload_matches : JsonObject → JsonObject → ℕ → Result Bool
unfolding object_value number plain_int
window_workload_matches batch configuration concurrency =
    let declared = object_value (get configuration "attribution") in
    number (get batch "duration_s") >>= λ duration.
    number (get declared "minimum_duration_s") >>= λ target.
    limits_match batch (object_value (get batch "window")) concurrency duration target
      (plain_int (get declared "max_window_streams")) (plain_int (get batch "rounds"))
      (plain_int (get configuration "rounds_per_batch"))
