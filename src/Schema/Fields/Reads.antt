-- ===== src/Schema/Fields/Reads.antt =====
-- Theorems about the checked reads of report_schema/fields.py.
use fog_http_benchmark.Prelude.{
  ℕ, ◌≤◌, ◌≡◌, ◌↔◌, refl, ap, Bool, true, false, not, Option, none, some, arith, Result, ok, err,
  ◌>>=◌, >>-eq-ok, ok-injective, raise_if, raise_if-eq-ok, value_error,
}
use fog_http_benchmark.Prelude.Int.{pos}
use fog_http_benchmark.Json.{
  Json, null, int, float, obj, JsonObject, Float, is_finite, float_lt, float_of_int,
}
use fog_http_benchmark.Schema.Fields.{require_integer, require_number, require_object, below}

-- An accepted integer is an int, which a bool is not, of at least the minimum; and any such is
-- accepted.
pub require_integer_iff :
    (v : Json) (minimum n : ℕ)
    → (require_integer v minimum ≡ ok n) ↔ ((v ≡ int (pos n)) × (minimum ≤ n))
unfolding require_integer
require_integer_iff (int (pos m)) minimum n = ground arith
require_integer_iff v minimum n = ground arith

-- the integer that a field holds
abbrev pub Holds : Json → ℕ → Type 0
Holds v n = v ≡ int (pos n)

not-false : (b : Bool) → not b ≡ false → b ≡ true
not-false b h = ground arith

abbrev pub IsMeasurement : Float → Option Float → Type 0
IsMeasurement x none = is_finite x ≡ true
IsMeasurement x (some m) = (is_finite x ≡ true) × (float_lt x m ≡ false)

-- the float that an int or a float stands for; a bool stands for none
abbrev pub IsNumber : Json → Float → Type 0
IsNumber (int n) x = float_of_int n ≡ ok x
IsNumber (float y) x = y ≡ x
IsNumber v x = ⊥

checked_iff :
    (x y : Float) (minimum : Option Float)
    → ((raise_if (not (is_finite x)) value_error >>= λ (_ : Unit {0}).
          raise_if (below x minimum) value_error >>= λ (_ : Unit {0}). ok x)
        ≡ ok y)
      ↔ ((x ≡ y) × IsMeasurement y minimum)
unfolding below
checked_iff x y none = (
  λ h.
      let (sound, h) = >>-eq-ok (raise_if (not (is_finite x)) value_error) _ h in
      let same = ok-injective h in (same, rw (← same) (not-false _ (raise_if-eq-ok _ _ sound.1))),
  λ h. rw h.0 (rw h.1 refl),
)
checked_iff x y (some m) = (
  λ h.
      let (sound, h) = >>-eq-ok (raise_if (not (is_finite x)) value_error) _ h in
      let (enough, h) = >>-eq-ok (raise_if (float_lt x m) value_error) _ h in
      let same = ok-injective h in
      (same, rw (← same) (not-false _ (raise_if-eq-ok _ _ sound.1), raise_if-eq-ok _ _ enough.1)),
  λ h. rw h.0 (rw (h.1).0 (rw (h.1).1 refl)),
)

-- An accepted number is the finite float, not below the minimum, that an int or a float, but no
-- bool, stands for; and any such number is accepted.
pub require_number_iff :
    (v : Json) (minimum : Option Float) (x : Float)
    → (require_number v minimum ≡ ok x) ↔ (IsNumber v x × IsMeasurement x minimum)
unfolding require_number
require_number_iff (float y) minimum x = checked_iff y x minimum
require_number_iff (int n) minimum x = converted (float_of_int n)
  where
    converted :
        (r : Result Float)
        → ((elim r [
          | err e ↦ err value_error
          | ok y ↦ raise_if (not (is_finite y)) value_error >>= λ (_ : Unit {0}).
              raise_if (below y minimum) value_error >>= λ (_ : Unit {0}). ok y
        ])
            ≡ ok x)
          ↔ ((r ≡ ok x) × IsMeasurement x minimum)
    converted (ok y) = (
      λ h. let (same, m) = (checked_iff y x minimum).0 h in (ap ok same, m),
      λ h. (checked_iff y x minimum).1 (ok-injective h.0, h.1),
    )
    converted (err e) = (λ h. cc h, λ h. cc (h.0))
require_number_iff v minimum x = (λ h. cc h, λ h. absurd h.0)

pub require_object-eq-ok : (v : Json) (o : JsonObject) → require_object v ≡ ok o → v ≡ obj o
unfolding require_object
require_object-eq-ok (obj o) p h = cc
require_object-eq-ok null p h = cc
require_object-eq-ok v p h = cc
