-- ===== src/Arguments/Accepted.antt =====
-- Theorems about the checks of arguments of validation.py.
use fog_http_benchmark.Prelude.{
  ◌≡◌, ◌≢◌, ◌↔◌, refl, true, false, String, List, [], ◌∷◌, ◌++◌, arith, string_eq, ok, keep, any,
  contains, All,
}
use fog_http_benchmark.Prelude.Int.{ℤ, pos, ltb_ℤ, ◌≤ℤ◌}
use fog_http_benchmark.Arguments.{
  BenchmarkArgs, at_least_one, not_negative, level_errors, unknown_names, unknown_line,
  raise_errors, load_errors, validate_resource_backpressure_args, validate_one_upstream_args,
  validate_proxy_connect_args, validate_streaming_args, validate_request_benchmark_args,
  request_benchmark_errors,
}

append_empty_iff : (xs ys : List String) → (xs ++ ys ≡ []) ↔ ((xs ≡ []) × (ys ≡ []))
append_empty_iff [] ys = (λ h. (refl, h), λ h. h.1)
append_empty_iff (x ∷ xs) ys = ground arith

-- at least one level, and each of them at least one
abbrev pub AreLevels : List ℤ → Type 0
AreLevels levels = (levels ≢ []) × All (λ level. pos 1 ≤ℤ level) levels

any_below_iff :
    (values : List ℤ)
    → (any (λ value. ltb_ℤ value (pos 1)) values ≡ false) ↔ All (λ level. pos 1 ≤ℤ level) values
unfolding any
any_below_iff [] = (λ h. tt, λ h. refl)
any_below_iff (value ∷ values) = ground (arith, any_below_iff values)

level_errors_iff :
    (values : List ℤ) (name : String) → (level_errors values name ≡ []) ↔ AreLevels values
unfolding level_errors
level_errors_iff [] name = ground arith
level_errors_iff (value ∷ values) name = ground (arith, any_below_iff (value ∷ values))

unknown_iff :
    (table names : List String) (what : String)
    → (unknown_line (unknown_names table names) what ≡ [])
      ↔ All (λ name. contains name table ≡ true) names
unfolding unknown_names keep
unknown_iff table [] what = (λ h. tt, λ h. refl)
unknown_iff table (name ∷ names) what = ground (arith, unknown_iff table names what)

-- What the arguments of a load have to be.
pub record IsLoad (requests : ℤ) (args : BenchmarkArgs) (names table : List String)
    (levels : List ℤ) : Type 0 where
  pub some_requests : pos 1 ≤ℤ requests
  pub warmup_counts : pos 0 ≤ℤ args.warmup
  pub some_repeats : pos 1 ≤ℤ args.repeats
  pub are_levels : AreLevels levels
  pub are_known : All (λ name. contains name table ≡ true) names

at_least_one_iff : (value : ℤ) (name : String) → (at_least_one value name ≡ []) ↔ (pos 1 ≤ℤ value)
at_least_one_iff value name = ground arith

not_negative_iff : (value : ℤ) (name : String) → (not_negative value name ≡ []) ↔ (pos 0 ≤ℤ value)
not_negative_iff value name = ground arith

raise_errors_iff : (lines : List String) → (raise_errors lines ≡ ok tt) ↔ (lines ≡ [])
raise_errors_iff [] = (λ h. refl, λ h. refl)
raise_errors_iff (line ∷ lines) = ground arith

append_five_iff :
    (a b c d e : List String)
    → (a ++ b ++ c ++ d ++ e ≡ []) ↔ ((a ≡ []) × (b ≡ []) × (c ≡ []) × (d ≡ []) × (e ≡ []))
append_five_iff a b c d e = ground (
  arith,
  append_empty_iff a b,
  append_empty_iff (a ++ b) c,
  append_empty_iff (a ++ b ++ c) d,
  append_empty_iff (a ++ b ++ c ++ d) e,
)

load_errors_iff :
    (requests : ℤ) (args : BenchmarkArgs) (names table : List String) (levels : List ℤ)
    (what : String)
    → (load_errors requests args names table levels what ≡ [])
      ↔ IsLoad requests args names table levels
unfolding load_errors
load_errors_iff requests args names table levels what =
    let parts =
      append_five_iff (at_least_one requests "--requests") (not_negative args.warmup "--warmup")
        (at_least_one args.repeats "--repeats") (level_errors levels "--concurrency")
        (unknown_line (unknown_names table names) what) in
    (
      λ h.
          let (a, b, c, d, e) = parts.0 h in
          record {
            some_requests = (at_least_one_iff requests "--requests").0 a;
            warmup_counts = (not_negative_iff args.warmup "--warmup").0 b;
            some_repeats = (at_least_one_iff args.repeats "--repeats").0 c;
            are_levels = (level_errors_iff levels "--concurrency").0 d;
            are_known = (unknown_iff table names what).0 e;
          },
      λ l. parts.1 (
        (at_least_one_iff requests "--requests").1 l.some_requests,
        (not_negative_iff args.warmup "--warmup").1 l.warmup_counts,
        (at_least_one_iff args.repeats "--repeats").1 l.some_repeats,
        (level_errors_iff levels "--concurrency").1 l.are_levels,
        (unknown_iff table names what).1 l.are_known,
      ),
    )

both_ways : {P Q R : Type 0} → P ↔ Q → Q ↔ R → P ↔ R
both_ways f g = (λ p. g.0 (f.0 p), λ r. f.1 (g.1 r))

append_redirects_iff :
    (a b c d e f : List String)
    → (a ++ b ++ c ++ d ++ e ++ f ≡ []) ↔ ((a ++ b ++ c ++ e ++ f ≡ []) × (d ≡ []))
append_redirects_iff a b c d e f = ground (
  arith,
  append_empty_iff (a ++ b ++ c ++ d ++ e) f,
  append_empty_iff (a ++ b ++ c ++ d) e,
  append_empty_iff (a ++ b ++ c) d,
  append_empty_iff (a ++ b ++ c) e,
  append_empty_iff (a ++ b ++ c ++ e) f,
)

request_errors_iff :
    (args : BenchmarkArgs) (names table : List String) (levels : List ℤ)
    → (request_benchmark_errors args names table levels ≡ [])
      ↔ (IsLoad args.requests args names table levels × (pos 1 ≤ℤ args.max_redirects))
unfolding request_benchmark_errors load_errors
request_errors_iff args names table levels =
    let parts =
      append_redirects_iff (at_least_one args.requests "--requests")
        (not_negative args.warmup "--warmup") (at_least_one args.repeats "--repeats")
        (at_least_one args.max_redirects "--max-redirects") (level_errors levels "--concurrency")
        (unknown_line (unknown_names table names) "scenarios") in
    let load = load_errors_iff args.requests args names table levels "scenarios" in
    let redirects = at_least_one_iff args.max_redirects "--max-redirects" in
    (
      λ h. let (shared, own) = parts.0 h in (load.0 shared, redirects.0 own),
      λ h. parts.1 (load.1 h.0, redirects.1 h.1),
    )

-- The arguments of the suites that take levels of concurrency are accepted exactly when there are
-- requests and repeats, the warmup is not negative, each of one or more levels is at least one, and
-- every name is known; and, in the suites of requests and of compressed responses, which share one
-- check, when also at least one redirect is allowed. The streaming suite takes its number of requests
-- as an argument of its own.
pub concurrent_args_iff :
    (args : BenchmarkArgs) (requests : ℤ) (names table : List String) (levels : List ℤ)
    → ((validate_resource_backpressure_args args names table levels ≡ ok tt)
        ↔ IsLoad args.requests args names table levels)
      × ((validate_one_upstream_args args names table levels ≡ ok tt)
          ↔ IsLoad args.requests args names table levels)
      × ((validate_proxy_connect_args args names table levels ≡ ok tt)
          ↔ IsLoad args.requests args names table levels)
      × ((validate_streaming_args args names table levels requests ≡ ok tt)
          ↔ IsLoad requests args names table levels)
      × ((validate_request_benchmark_args args names table levels ≡ ok tt)
          ↔ (IsLoad args.requests args names table levels × (pos 1 ≤ℤ args.max_redirects)))
unfolding validate_request_benchmark_args validate_resource_backpressure_args
    validate_one_upstream_args validate_proxy_connect_args validate_streaming_args
concurrent_args_iff args requests names table levels = (
  both_ways (raise_errors_iff _)
      (load_errors_iff args.requests args names table levels "resource cases"),
  both_ways (raise_errors_iff _)
      (load_errors_iff args.requests args names table levels "one-upstream cases"),
  both_ways (raise_errors_iff _)
      (load_errors_iff args.requests args names table levels "proxy-connect cases"),
  both_ways (raise_errors_iff _)
      (load_errors_iff requests args names table levels "response-streaming cases"),
  both_ways (raise_errors_iff _) (request_errors_iff args names table levels),
)
