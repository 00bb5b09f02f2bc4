-- ===== src/Prelude/Results.antt =====
-- A Python call that may raise: its value, or the class of the exception. The texts of exception
-- messages are not modelled.
use mathlib.Core.Path.{◌≡◌, refl}
use mathlib.Core.Bool.{Bool, true, false}
use mathlib.Core.Logic.{◌⊎◌, inl, inr}
use mathlib.Core.Option.{some}
use mathlib.Core.List.{List, [], ◌∷◌}

pub data Error : Type 0 where
  type_error value_error key_error overflow_error stop_iteration zero_division_error : Error

pub data Result {ℓ} (T : Type ℓ) : Type ℓ where
  err : Error → Result T
  ok : T → Result T

module _ {κ} {Y : Type κ} where
  infixl 5 ◌>>=◌ ◌>>◌
  abbrev pub ◌>>=◌ {ℓ} : {X : Type ℓ} → Result X → (X → Result Y) → Result Y
  err raised >>= next = err raised
  ok x >>= next = next x

  abbrev pub ◌>>◌ : {X : Type 0} → Result X → Result Y → Result Y
  first >> next = first >>= λ _. next

-- `if wrong: raise e`
abbrev pub raise_if : Bool → Error → Result (Unit {0})
raise_if true e = err e
raise_if false e = ok tt

-- `for x in xs: check(x)`, which the first failing element ends
unfoldable pub for_each {ℓ} : {A : Type ℓ} → (A → Result (Unit {0})) → List A → Result (Unit {0})
for_each check [] = ok tt
for_each check (x ∷ xs) = check x >> for_each check xs

-- `[f(x) for x in xs]`
unfoldable pub traverse {ℓ κ} :
    {A : Type ℓ} {B : Type κ} → (A → Result B) → List A → Result (List B)
traverse f [] = ok []
traverse f (x ∷ xs) = f x >>= λ y. traverse f xs >>= λ ys. ok (y ∷ ys)

module _ {ℓ} {X : Type ℓ} where
  -- What the first call of a chain returned, where the chain ends in an `ok`.
  pub >>=-eq-ok {κ} :
      {Y : Type κ} (first : Result X) (next : X → Result Y) {y : Y}
      → (first >>= next) ≡ ok y
      → (x : X) × (first ≡ ok x) × (next x ≡ ok y)
  >>=-eq-ok (err raised) next ends = cc
  >>=-eq-ok (ok x) next ends = (x, refl, ends)

pub raise_if-eq-ok : (b : Bool) (e : Error) {u : Unit {0}} → raise_if b e ≡ ok u → b ≡ false
raise_if-eq-ok true e h = cc
raise_if-eq-ok false e h = refl

pub ok-injective {ℓ} : {A : Type ℓ} {a b : A} → ok a ≡ ok b → a ≡ b
ok-injective h = cc

pub some-injective {ℓ} : {A : Type ℓ} {a b : A} → some a ≡ some b → a ≡ b
some-injective h = cc

-- What the last call of a chain returned, where the chain ends in an `ok`.
pub >>-eq-ok {κ} :
    {A : Type 0} {B : Type κ} (m : Result A) (k : Result B) {b : B}
    → (m >> k) ≡ ok b
    → ((a : A) × (m ≡ ok a)) × (k ≡ ok b)
>>-eq-ok (ok a) k h = ((a, refl), h)
>>-eq-ok (err e) k h = cc

pub Result-cases {ℓ} :
    {A : Type ℓ} (m : Result A) → ((e : Error) × (m ≡ err e)) ⊎ ((a : A) × (m ≡ ok a))
Result-cases (err e) = inl (e, refl)
Result-cases (ok a) = inr (a, refl)
