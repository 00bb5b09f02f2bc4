-- ===== src/Prelude/Loops.antt =====
-- What a loop of checks and a fallible map guarantee of their elements.
use mathlib.Core.Path.{◌≡◌, ap}
use mathlib.Core.List.{List, [], ◌∷◌, map}
use fog_http_benchmark.Prelude.Lists.{All}
use fog_http_benchmark.Prelude.Results.{
  Result, ok, for_each, traverse, >>=-eq-ok, >>-eq-ok, ok-injective,
}

module _ {ℓ} {A : Type ℓ} (check : A → Result (Unit {0})) where
  pub for_each-All : (xs : List A) → for_each check xs ≡ ok tt → All (λ x. check x ≡ ok tt) xs
  unfolding for_each
  for_each-All [] h = tt
  for_each-All (x ∷ xs) h = let (first, h) = >>-eq-ok (check x) _ h in (first.1, for_each-All xs h)

module _ {ℓ κ} {A : Type ℓ} {B : Type κ} (f : A → Result B) where
  -- A fallible map that succeeds has a value for each element, in order.
  pub traverse-map : (xs : List A) (ys : List B) → traverse f xs ≡ ok ys → map f xs ≡ map ok ys
  unfolding traverse
  traverse-map [] ys h = ap (map ok) (ok-injective h)
  traverse-map (x ∷ xs) ys h =
      let (y, e, h) = >>=-eq-ok (f x) _ h in
      let (rest, es, h) = >>=-eq-ok (traverse f xs) _ h in
      cc (e, traverse-map xs rest es, ap (map ok) (ok-injective h))
