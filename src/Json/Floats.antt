-- ===== src/Json/Floats.antt =====
-- Python's float, a binary64. Every finite one is a whole multiple of 2 ^ -1074, so it is kept as
-- that integer and comparisons are exact; the sign of a zero is not kept.
use fog_http_benchmark.Prelude.{
  String, ℕ, zero, suc, ◌+◌, ◌*◌, ◌/◌, ◌%◌, ◌^◌, [], ◌∷◌, Bool, true, false, ◌&&◌, ◌||◌, Option,
  none, some, Result, ok, err, value_error, overflow_error, ltb, leb, ◌==◌, nat_eq, if◌then◌else◌,
}
use fog_http_benchmark.Prelude.Text.{str_nat, concat}
use fog_http_benchmark.Prelude.Int.{ℤ, pos, negsuc, ltb_ℤ, leb_ℤ}

pub data Float : Type 0 where
  finite : ℤ → Float
  inf neg_inf nan : Float

-- 1.0
unfoldable pub one : ℕ
one = 2 ^ 1074

-- A natural number as a float.
unfoldable pub whole : ℕ → Float
unfolding one
whole n = finite (pos (n * one))

-- `math.isfinite`
abbrev pub is_finite : Float → Bool
is_finite (finite _) = true
is_finite _ = false

abbrev pub float_lt : Float → Float → Bool
float_lt (finite a) (finite b) = ltb_ℤ a b
float_lt (finite _) inf = true
float_lt neg_inf (finite _) = true
float_lt neg_inf inf = true
float_lt _ _ = false

abbrev pub float_le : Float → Float → Bool
float_le (finite a) (finite b) = leb_ℤ a b
float_le (finite _) inf = true
float_le neg_inf (finite _) = true
float_le neg_inf inf = true
float_le inf inf = true
float_le neg_inf neg_inf = true
float_le _ _ = false

-- The halvings that bring `n` below 2 ^ 53; a number below 2 ^ 1024 takes at most 971.
excess_bits : ℕ → ℕ → ℕ
excess_bits zero n = 0
excess_bits (suc f) n = let rest = suc (excess_bits f (n / 2)) in if ltb n (2 ^ 53) then 0 else rest

-- `n / 2 ^ k` to the nearest whole number, half to even.
round_shift : ℕ → ℕ → ℕ
round_shift n k =
    let q = n / 2 ^ k in
    let twice = 2 * (n % 2 ^ k) in
    if ltb (2 ^ k) twice || (twice == 2 ^ k && q % 2 == 1) then q + 1 else q

-- The nearest float to a natural number, or `none` beyond the largest one.
unfoldable pub round_nat : ℕ → Option ℕ
unfolding excess_bits round_shift
round_nat n =
    if leb (2 ^ 1024) n
    then none
    else let k = excess_bits 1024 n in
      let r = (if k == 0 then n else round_shift n k * 2 ^ k) in
      if leb (2 ^ 1024) r then none else some r

abbrev pub negate : ℕ → ℤ
negate zero = pos zero
negate (suc n) = negsuc n

-- `float(value)` of an int
unfoldable pub float_of_int : ℤ → Result Float
unfolding round_nat one
float_of_int (pos n) = elim (round_nat n) [
  | none ↦ err overflow_error
  | some r ↦ ok (finite (pos (r * one)))
]
float_of_int (negsuc n) = elim (round_nat (suc n)) [
  | none ↦ err overflow_error
  | some r ↦ ok (finite (negate (r * one)))
]

-- `int(value)` of a float, which drops the fraction
unfoldable pub truncate : Float → Result ℤ
unfolding one
truncate (finite (pos n)) = ok (pos (n / one))
truncate (finite (negsuc n)) = ok (negate (suc n / one))
truncate nan = err value_error
truncate _ = err overflow_error

-- `n / d` to the nearest whole number, half to even
unfoldable pub round_half_even : ℕ → ℕ → ℕ
round_half_even n d =
    let q = n / d in if ltb d (2 * (n % d)) || (2 * (n % d) == d && q % 2 == 1) then q + 1 else q

tenths_text : ℕ → String
tenths_text t = concat (str_nat (t / 10) ∷ "." ∷ str_nat (t % 10) ∷ [])

-- `f"{value:.1f}"`
unfoldable pub fixed_1 : Float → String
unfolding round_half_even tenths_text one
fixed_1 (finite (pos n)) = tenths_text (round_half_even (n * 10) one)
fixed_1 (finite (negsuc n)) = concat ("-" ∷ tenths_text (round_half_even (suc n * 10) one) ∷ [])
fixed_1 inf = "inf"
fixed_1 neg_inf = "-inf"
fixed_1 nan = "nan"
