-- ===== src/Prelude/Lists.antt =====
-- Lists measured by native numbers, predicates on all elements, and association lists, which
-- stand for the constant tables of the source.
use Prim.Native.Nat.{ℕ, suc, ◌+◌}
use Prim.Native.String.{String}
use mathlib.Core.Path.{◌≡◌, refl, sym}
use mathlib.Core.Logic.{◌≢◌, ◌↔◌}
use mathlib.Core.List.{List, [], ◌∷◌, ◌++◌, map}
use mathlib.Core.Bool.{Bool, true, false, ◌&&◌, ◌||◌}
use mathlib.Core.Option.{Option, none, some}
use native.Mathlib.Omega.{arith}
use fog_http_benchmark.Prelude.Tests.{Eq, ◌==◌, string_eq, if◌then◌else◌}

module _ {ℓ} {A : Type ℓ} where
  abbrev pub length : List A → ℕ
  length [] = 0
  length (x ∷ xs) = suc (length xs)

  pub length-append : (xs ys : List A) → length (xs ++ ys) ≡ length xs + length ys
  length-append [] ys = omega arith
  length-append (x ∷ xs) ys = omega (arith, length-append xs ys)

  -- `any(p(x) for x in xs)` and `all(p(x) for x in xs)`
  unfoldable pub any : (A → Bool) → List A → Bool
  any p [] = false
  any p (x ∷ xs) = p x || any p xs

  unfoldable pub all : (A → Bool) → List A → Bool
  all p [] = true
  all p (x ∷ xs) = p x && all p xs

  -- `[x for x in xs if p(x)]`
  unfoldable pub keep : (A → Bool) → List A → List A
  keep p [] = []
  keep p (x ∷ xs) = if p x then x ∷ keep p xs else keep p xs

  abbrev pub All {κ} : (A → Type κ) → List A → Type κ
  All P [] = Unit
  All P (x ∷ xs) = P x × All P xs

-- `x in xs`
module _ {ℓ} {A : Type ℓ} ⦃e : Eq A⦄ where
  unfoldable pub contains : A → List A → Bool
  contains a [] = false
  contains a (x ∷ xs) = a == x || contains a xs

module _ {ℓ} {V : Type ℓ} where
  -- `table.get(key)`
  unfoldable pub lookup : String → List (String × V) → Option V
  lookup k [] = none
  lookup k ((j, v) ∷ m) = if k == j then some v else lookup k m

-- Lists and tuples are compared element by element.
module _ {ℓ} {A : Type ℓ} ⦃e : Eq A⦄ where
  abbrev pub list_beq : List A → List A → Bool
  list_beq [] [] = true
  list_beq (x ∷ xs) (y ∷ ys) = x == y && list_beq xs ys
  list_beq _ _ = false

  pub list_beq_iff : (xs ys : List A) → (list_beq xs ys ≡ true) ↔ (xs ≡ ys)
  list_beq_iff [] [] = ground arith
  list_beq_iff [] (y ∷ ys) = ground arith
  list_beq_iff (x ∷ xs) [] = ground arith
  list_beq_iff (x ∷ xs) (y ∷ ys) = ground (arith, e.decides x y, list_beq_iff xs ys)

  instance abbrev pub list_eq : Eq (List A)
  list_eq = record { equals = list_beq; decides = list_beq_iff }

module _ {ℓ} {A : Type ℓ} where
  -- no element stands twice
  abbrev pub IsDistinct : List A → Type ℓ
  IsDistinct [] = Unit
  IsDistinct (x ∷ xs) = All (λ y. x ≢ y) xs × IsDistinct xs

module _ {ℓ} {A : Type ℓ} where
  pub all-append : (p : A → Bool) (xs ys : List A) → all p (xs ++ ys) ≡ (all p xs && all p ys)
  unfolding all
  all-append p [] ys = refl
  all-append p (x ∷ xs) ys = ground (arith, all-append p xs ys)

  pub all-All : (p : A → Bool) (xs : List A) → all p xs ≡ true → All (λ x. p x ≡ true) xs
  unfolding all
  all-All p [] h = tt
  all-All p (x ∷ xs) h = (ground arith, all-All p xs (ground arith))

  pub All-all : (p : A → Bool) (xs : List A) → All (λ x. p x ≡ true) xs → all p xs ≡ true
  unfolding all
  All-all p [] h = refl
  All-all p (x ∷ xs) h = ground (arith, All-all p xs h.1)

  pub All-append {κ} : (P : A → Type κ) (xs ys : List A) → All P (xs ++ ys) → All P xs × All P ys
  All-append P [] ys h = (tt, h)
  All-append P (x ∷ xs) ys h = let rest = All-append P xs ys h.1 in ((h.0, rest.0), rest.1)

  -- the parts of a list that was put together from the left
  pub All-append_three {κ} :
      (P : A → Type κ) (xs ys zs : List A) → All P (xs ++ ys ++ zs) → All P xs × All P ys × All P zs
  All-append_three P xs ys zs h =
      let front = All-append P (xs ++ ys) zs h in
      let parts = All-append P xs ys front.0 in (parts.0, parts.1, front.1)

  pub append-All {κ} : (P : A → Type κ) (xs ys : List A) → All P xs → All P ys → All P (xs ++ ys)
  append-All P [] ys hx hy = hy
  append-All P (x ∷ xs) ys hx hy = (hx.0, append-All P xs ys hx.1 hy)

  pub All-imply {κ ι} :
      {P : A → Type κ} {Q : A → Type ι} (xs : List A) → ((x : A) → P x → Q x) → All P xs → All Q xs
  All-imply [] f h = tt
  All-imply (x ∷ xs) f h = (f x h.0, All-imply xs f h.1)

  pub All-map {κ ι} :
      {B : Type κ} (P : B → Type ι) (f : A → B) (xs : List A)
      → All P (map f xs)
      → All (λ x. P (f x)) xs
  All-map P f [] h = tt
  All-map P f (x ∷ xs) h = (h.0, All-map P f xs h.1)

  pub map-All {κ ι} :
      {B : Type κ} (P : B → Type ι) (f : A → B) (xs : List A)
      → All (λ x. P (f x)) xs
      → All P (map f xs)
  map-All P f [] h = tt
  map-All P f (x ∷ xs) h = (h.0, map-All P f xs h.1)

  pub All-zip {κ ι} :
      (P : A → Type κ) (Q : A → Type ι) (xs : List A)
      → All P xs
      → All Q xs
      → All (λ x. P x × Q x) xs
  All-zip P Q [] h k = tt
  All-zip P Q (x ∷ xs) h k = ((h.0, k.0), All-zip P Q xs h.1 k.1)

  -- what holds of each element under one premise
  pub All-under {κ ι} :
      {H : Type κ} (P : A → Type ι) (xs : List A) → (H → All P xs) → All (λ x. H → P x) xs
  All-under P [] h = tt
  All-under P (x ∷ xs) h = (λ k. (h k).0, All-under P xs (λ k. (h k).1))

module _ {ℓ} {A : Type ℓ} ⦃e : Eq A⦄ where
  pub contains_not : (x : A) (xs : List A) → contains x xs ≡ false → All (λ y. x ≢ y) xs
  unfolding contains
  contains_not x [] h = tt
  contains_not x (y ∷ ys) h =
      ((λ same. ground (arith, e.decides x y, same, h)), contains_not x ys (ground (arith, h)))

  pub new_not-contains : (x : A) (xs : List A) → All (λ y. x ≢ y) xs → contains x xs ≡ false
  unfolding contains
  new_not-contains x [] h = refl
  new_not-contains x (y ∷ ys) h = ground (arith, e.decides x y, h.0, new_not-contains x ys h.1)

module _ {ℓ} {A : Type ℓ} where
  pub snoc-IsDistinct :
      (xs : List A) (x : A) → IsDistinct xs → All (λ y. x ≢ y) xs → IsDistinct (xs ++ x ∷ [])
  snoc-IsDistinct [] x h new = (tt, tt)
  snoc-IsDistinct (y ∷ ys) x h new = (
    append-All _ ys (x ∷ []) h.0 ((λ same. new.0 (sym same)), tt),
    snoc-IsDistinct ys x h.1 new.1,
  )

  -- an element in the middle of a list without repetitions is none of those before it
  pub middle_is_new :
      (xs : List A) (x : A) (ys : List A) → IsDistinct (xs ++ x ∷ ys) → All (λ y. x ≢ y) xs
  middle_is_new [] x ys h = tt
  middle_is_new (z ∷ zs) x ys h =
      ((λ same. (All-append _ zs (x ∷ ys) h.0).1.0 (sym same)), middle_is_new zs x ys h.1)
