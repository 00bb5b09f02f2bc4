-- ===== src/Settling.antt =====
-- The pause after a run: foghttp_benchmark/run_settling.py. `asyncio.sleep` is the returned number
-- of seconds, and the progress line the returned text.
pub mod Positive
use fog_http_benchmark.Prelude.{
  ℕ, Bool, true, false, not, ◌&&◌, ◌||◌, String, Option, none, some, List, [], ◌∷◌, lookup,
  if◌then◌else◌, Result, ok, err, value_error, ◌>>=◌,
}
use fog_http_benchmark.Prelude.Int.{ℤ, pos, ltb_ℤ, leb_ℤ}
use fog_http_benchmark.Prelude.Text.{parse_int, concat, str_int}
use fog_http_benchmark.Json.{Json, bool, int, JsonObject, get, Float, whole, float_le, fixed_1}
use fog_http_benchmark.Runtime.{Runtime}

pub record RunSettlingConfig : Type 0 where
  pub cooldown_s : Float
  pub opened_connection_threshold : ℤ

-- the variables of the environment
abbrev pub Environment : Type 0
Environment = List (String × String)

abbrev pub run_cooldown_env : String
run_cooldown_env = "FOGHTTP_BENCHMARK_RUN_COOLDOWN_S"

abbrev pub run_cooldown_opened_threshold_env : String
run_cooldown_opened_threshold_env = "FOGHTTP_BENCHMARK_RUN_COOLDOWN_OPENED_THRESHOLD"

abbrev pub default_run_cooldown_s : Float
default_run_cooldown_s = whole 3

abbrev pub default_run_cooldown_opened_threshold : ℤ
default_run_cooldown_opened_threshold = pos 256

unfoldable pub positive_float : ⦃r : Runtime⦄ → Environment → String → Float → Result Float
positive_float ⦃r⦄ env name default = elim (lookup name env) [
  | none ↦ ok default
  | some raw_value ↦ elim (r.float_of raw_value) [
    | none ↦ err value_error
    | some value ↦ if float_le value (whole 0) then err value_error else ok value
  ]
]

unfoldable pub positive_int : Environment → String → ℤ → Result ℤ
positive_int env name default = elim (lookup name env) [
  | none ↦ ok default
  | some raw_value ↦ elim (parse_int raw_value) [
    | none ↦ err value_error
    | some value ↦ if leb_ℤ value (pos 0) then err value_error else ok value
  ]
]

unfoldable pub run_settling_config : ⦃r : Runtime⦄ → Environment → Result RunSettlingConfig
run_settling_config env = do
  cooldown_s ← positive_float env run_cooldown_env default_run_cooldown_s
  threshold ←
      positive_int env run_cooldown_opened_threshold_env default_run_cooldown_opened_threshold
  ok (record { cooldown_s = cooldown_s; opened_connection_threshold = threshold })

-- a value that is an int, which a bool is too
unfoldable pub int_or_zero : Json → ℤ
int_or_zero (int n) = n
int_or_zero (bool true) = pos 1
int_or_zero _ = pos 0

unfoldable pub int_stat : Option JsonObject → String → ℤ
unfolding int_or_zero
int_stat none key = pos 0
int_stat (some stats) key = int_or_zero (get stats key)

unfoldable pub should_settle_after_run : Option JsonObject → RunSettlingConfig → Bool
should_settle_after_run stats config =
    let opened_connections = int_stat stats "connections_opened" in
    let failed_connections = int_stat stats "connections_open_failed" in
    ltb_ℤ (pos 0) failed_connections || leb_ℤ config.opened_connection_threshold opened_connections

pub record Pause : Type 0 where
  pub message : String
  pub seconds : Float

unfoldable pub settle_after_run : Option JsonObject → RunSettlingConfig → Option Pause
settle_after_run stats config =
    if not (should_settle_after_run stats config)
    then none
    else some (record {
      message = concat (
          "Waiting "
          ∷ fixed_1 config.cooldown_s
          ∷ "s after TCP churn (opened="
          ∷ str_int (int_stat stats "connections_opened")
          ∷ ", open_failed="
          ∷ str_int (int_stat stats "connections_open_failed")
          ∷ ")"
          ∷ []);
      seconds = config.cooldown_s;
    })
