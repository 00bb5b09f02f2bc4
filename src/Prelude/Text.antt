-- ===== src/Prelude/Text.antt =====
-- What the source uses of `str`: `strip` as a test for blanks, and the decimal form of an int.
use fog_http_benchmark.Prelude.Tests.{leb, ◌==◌, nat_eq, string_eq, if◌then◌else◌}
use fog_http_benchmark.Prelude.Int.{ℤ, pos, negsuc}
use mathlib.Core.List.{List, [], ◌∷◌}
use mathlib.Core.Option
use mathlib.Core.Option.{Option, none, some}
use Prim.Native.Nat.{◌*◌, ◌-◌, ℕ, zero, suc, ◌+◌, ◌/◌, ◌%◌}
use Prim.Native.String.{String, ◌++◌ as append}
use Prim.Native.Char.{code}
use mathlib.Core.Path.{◌≡◌, refl}
use mathlib.Core.Bool.{Bool, true, false, ◌&&◌, ◌||◌}

-- the code points that `str.strip` removes
is_space : ℕ → Bool
is_space c =
    (leb 9 c && leb c 13)
    || (leb 28 c && leb c 32)
    || c == 0x85
    || c == 0xa0
    || c == 0x1680
    || (leb 0x2000 c && leb c 0x200a)
    || c == 0x2028
    || c == 0x2029
    || c == 0x202f
    || c == 0x205f
    || c == 0x3000

-- `not value.strip()`
unfoldable pub is_blank : String → Bool
unfolding is_space
is_blank String.[] = true
is_blank (String.◌∷◌ c s) = is_space (code c) && is_blank s

digit : ℕ → String
digit d =
    if d == 0
    then "0"
    else if d == 1
    then "1"
    else if d == 2
    then "2"
    else if d == 3
    then "3"
    else if d == 4
    then "4"
    else if d == 5
    then "5"
    else if d == 6
    then "6"
    else if d == 7
    then "7"
    else if d == 8
    then "8"
    else "9"

-- The digits of `n` in front of `rest`; `n + 1` rounds are enough, since `n / 10 < n`.
digits : ℕ → ℕ → String → String
unfolding digit
digits zero n rest = rest
digits (suc f) n rest =
    let low = append (digit (n % 10)) rest in
    let more = digits f (n / 10) low in if n / 10 == 0 then low else more

unfoldable pub str_nat : ℕ → String
unfolding digits
str_nat n = digits (n + 1) n ""

-- `str(value)` of an int
unfoldable pub str_int : ℤ → String
unfolding str_nat
str_int (pos n) = str_nat n
str_int (negsuc n) = append "-" (str_nat (suc n))

str_int_runs : str_int (negsuc 1233) == "-1234" ≡ true
unfolding str_int
str_int_runs = refl

abbrev negate : ℕ → ℤ
negate zero = pos zero
negate (suc n) = negsuc n

-- `int(text)`, for the ASCII digits: blanks around, one sign, single underscores between digits.
parse_digits : ℕ → Bool → String → Option ℕ
parse_digits n digit_before String.[] = if digit_before then some n else none
parse_digits n digit_before (String.◌∷◌ c s) =
    let blank_tail = (if digit_before && is_blank s then some n else none) in
    let next = parse_digits (n * 10 + (code c - 48)) true s in
    let after_underscore = parse_digits n false s in
    if leb 48 (code c) && leb (code c) 57
    then next
    else if code c == 95 && digit_before
    then after_underscore
    else if is_space (code c)
    then blank_tail
    else none

parse_signed : String → Option ℤ
unfolding parse_digits
parse_signed String.[] = none
parse_signed (String.◌∷◌ c s) =
    if code c == 45
    then Option.map negate (parse_digits 0 false s)
    else if code c == 43
    then Option.map pos (parse_digits 0 false s)
    else Option.map pos (parse_digits 0 false (String.◌∷◌ c s))

unfoldable pub parse_int : String → Option ℤ
unfolding parse_signed is_space
parse_int String.[] = none
parse_int (String.◌∷◌ c s) =
    let trimmed = parse_int s in
    if is_space (code c) then trimmed else parse_signed (String.◌∷◌ c s)

parse_int_runs : parse_int " -1_234 " ≡ some (negsuc 1233)
unfolding parse_int is_blank
parse_int_runs = refl

-- The texts one after the other, as an f-string joins them.
unfoldable pub concat : List String → String
concat [] = ""
concat (s ∷ ss) = append s (concat ss)
