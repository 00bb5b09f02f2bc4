-- ===== src/Settling/Positive.antt =====
-- Theorems about the configuration of run_settling.py.
use fog_http_benchmark.Prelude.{
  ◌≡◌, ◌⊎◌, refl, sym, ap, ◌∙◌, inl, inr, true, false, String, Option, none, some, lookup, arith,
  Option-cases, ok, ok-injective, >>=-eq-ok,
}
use fog_http_benchmark.Prelude.Int.{ℤ, pos, ◌<ℤ◌}
use fog_http_benchmark.Prelude.Text.{parse_int}
use fog_http_benchmark.Json.{Float, whole, one, float_le, float_lt, nan}
use fog_http_benchmark.Runtime.{Runtime}
use fog_http_benchmark.Settling.{
  RunSettlingConfig, Environment, positive_float, positive_int, run_cooldown_env,
  run_cooldown_opened_threshold_env, default_run_cooldown_s, default_run_cooldown_opened_threshold,
  run_settling_config, int_stat, should_settle_after_run, settle_after_run,
}

-- A variable that is not set, or whose text reads as a value.
abbrev pub Reads {ℓ} : {A : Type ℓ} → Environment → String → A → (String → Option A) → A → Type ℓ
Reads env name default read value =
    ((lookup name env ≡ none) × (value ≡ default))
    ⊎ ((raw : String) × (lookup name env ≡ some raw) × (read raw ≡ some value))

positive_unless_nan :
    (x : Float) → float_le x (whole 0) ≡ false → (float_lt (whole 0) x ≡ true) ⊎ (x ≡ nan)
unfolding whole one
positive_unless_nan x h = ground arith

default_positive : float_lt (whole 0) default_run_cooldown_s ≡ true
unfolding whole one
default_positive = refl

module _ ⦃r : Runtime⦄ where
  -- Both settings are the defaults or read from the environment, the threshold is positive, and the
  -- cooldown is positive or not a number.
  pub record IsSettled (env : Environment) (config : RunSettlingConfig) : Type 0 where
    pub cooldown_read :
        Reads env run_cooldown_env default_run_cooldown_s r.float_of config.cooldown_s
    pub threshold_read :
        Reads env run_cooldown_opened_threshold_env default_run_cooldown_opened_threshold parse_int
          config.opened_connection_threshold
    pub cooldown_positive :
        (float_lt (whole 0) config.cooldown_s ≡ true) ⊎ (config.cooldown_s ≡ nan)
    pub threshold_positive : pos 0 <ℤ config.opened_connection_threshold

  positive_float-cases :
      (env : Environment) (name : String) (default value : Float)
      → float_lt (whole 0) default ≡ true
      → positive_float env name default ≡ ok value
      → Reads env name default r.float_of value
        × ((float_lt (whole 0) value ≡ true) ⊎ (value ≡ nan))
  unfolding positive_float
  positive_float-cases env name default value good h = elim (Option-cases (lookup name env)) [
    | inl unset ↦
        let same : default ≡ value = ground (arith, unset, h) in
        (inl (unset, sym same), inl (rw (← same) good))
    | inr (raw, set) ↦ elim (Option-cases (r.float_of raw)) [
      | inl unreadable ↦ ground (arith, set, unreadable, h)
      | inr (x, reads) ↦
          let same : x ≡ value = ground (arith, set, reads, h) in
          (
            inr (raw, set, reads ∙ ap some same),
            rw (← same) (positive_unless_nan x (ground (arith, set, reads, h))),
          )
    ]
  ]

  positive_int-cases :
      (env : Environment) (name : String) (default value : ℤ)
      → pos 0 <ℤ default
      → positive_int env name default ≡ ok value
      → Reads env name default parse_int value × (pos 0 <ℤ value)
  unfolding positive_int
  positive_int-cases env name default value good h = elim (Option-cases (lookup name env)) [
    | inl unset ↦
        let same : default ≡ value = ground (arith, unset, h) in
        (inl (unset, sym same), rw (← same) good)
    | inr (raw, set) ↦ elim (Option-cases (parse_int raw)) [
      | inl unreadable ↦ ground (arith, set, unreadable, h)
      | inr (x, reads) ↦
          let same : x ≡ value = ground (arith, set, reads, h) in
          (inr (raw, set, reads ∙ ap some same), rw (← same) (ground (arith, set, reads, h)))
    ]
  ]

  -- An accepted configuration has a positive threshold and a cooldown that is positive or NaN, both
  -- the defaults or read from the environment, and never pauses after a run without statistics.
  pub run_settling_config-IsSettled :
      (env : Environment) (config : RunSettlingConfig)
      → run_settling_config env ≡ ok config
      → IsSettled env config × (settle_after_run none config ≡ none)
  unfolding run_settling_config settle_after_run should_settle_after_run int_stat
  run_settling_config-IsSettled env config h =
      let (cooldown, cooled, h) =
        >>=-eq-ok (positive_float env run_cooldown_env default_run_cooldown_s) _ h in
      let (threshold, limited, h) =
        >>=-eq-ok
          (positive_int env run_cooldown_opened_threshold_env default_run_cooldown_opened_threshold)
          _ h in
      let (cooldown_read, cooldown_positive) =
        positive_float-cases env run_cooldown_env default_run_cooldown_s cooldown default_positive
          cooled in
      let (threshold_read, threshold_positive) =
        positive_int-cases env run_cooldown_opened_threshold_env
          default_run_cooldown_opened_threshold threshold (omega arith) limited in
      rw (← ok-injective h) (
        record {
          cooldown_read = cooldown_read;
          threshold_read = threshold_read;
          cooldown_positive = cooldown_positive;
          threshold_positive = threshold_positive;
        },
        ground (arith, threshold_positive),
      )
