-- ===== src/Json/Equality.antt =====
-- Python's `==` on these values: a bool is the number 0 or 1, an int equals the float of the same
-- value, and dicts are compared without their order.
use fog_http_benchmark.Prelude.{
  ℕ, suc, Bool, true, false, ◌&&◌, Option, none, some, ◌==◌, nat_eq, string_eq,
}
use fog_http_benchmark.Prelude.Int.{pos, ℤ_eq, ◌*ℤ◌}
use fog_http_benchmark.Json.Floats.{Float, finite, inf, neg_inf, one}
use fog_http_benchmark.Json.Value.{
  Json, null, bool, int, float, str, arr, obj, Items, nil, cons, JsonObject, empty, entry,
}
use fog_http_benchmark.Json.Object.{find?}

-- A number as the multiple of 2 ^ -1074 that it is.
abbrev Number : Type 0
Number = Option Float

unfoldable pub number_of : Json → Number
unfolding one ◌*ℤ◌
number_of (bool true) = some (finite (pos one))
number_of (bool false) = some (finite (pos 0))
number_of (int n) = some (finite (n *ℤ pos one))
number_of (float x) = some x
number_of _ = none

abbrev float_eq : Float → Float → Bool
float_eq (finite a) (finite b) = a == b
float_eq inf inf = true
float_eq neg_inf neg_inf = true
float_eq _ _ = false

abbrev number_eq : Number → Number → Bool
number_eq (some a) (some b) = float_eq a b
number_eq _ _ = false

unfoldable pub size : JsonObject → ℕ
size empty = 0
size (entry k v o) = suc (size o)

unfoldable mutual
  unfolding number_of find? size

  pub json_eq : Json → Json → Bool
  json_eq null null = true
  json_eq (str a) (str b) = a == b
  json_eq (arr xs) (arr ys) = items_eq xs ys
  json_eq (obj a) (obj b) = size a == size b && entries_in a b
  json_eq (bool a) w = number_eq (number_of (bool a)) (number_of w)
  json_eq (int a) w = number_eq (number_of (int a)) (number_of w)
  json_eq (float a) w = number_eq (number_of (float a)) (number_of w)
  json_eq _ _ = false

  items_eq : Items → Items → Bool
  items_eq nil nil = true
  items_eq (cons v vs) (cons w ws) = json_eq v w && items_eq vs ws
  items_eq _ _ = false

  -- each entry of the first dict is in the second
  entries_in : JsonObject → JsonObject → Bool
  entries_in empty b = true
  entries_in (entry k v a) b =
      elim (find? b k) [ none ↦ false | some w ↦ json_eq v w ] && entries_in a b
