-- ===== src/Compare/Sorted.antt =====
-- Theorems about sorting, filtering and dict keys as compare/analysis.py uses them.
use fog_http_benchmark.Prelude.{
  suc, ◌+◌, ◌≡◌, ◌≢◌, refl, ap, Bool, true, false, not, ◌||◌, List, [], ◌∷◌, map, arith,
  if◌then◌else◌, length, keep, any, contains, All, All-map, map-All, All-zip, All-imply, IsDistinct,
  new_not-contains, Eq, ◌==◌, Bool-cases, inl, inr, Result, ok, traverse, >>=-eq-ok, ok-injective,
  sym,
}
use fog_http_benchmark.Compare.Order.{insert_sorted, sort_into, sort_by}

module _ {ℓ} {A : Type ℓ} (lt : A → A → Bool) where
  length-insert_sorted : (x : A) (xs : List A) → length (insert_sorted lt x xs) ≡ suc (length xs)
  unfolding insert_sorted
  length-insert_sorted x [] = refl
  length-insert_sorted x (y ∷ ys) = ground (arith, length-insert_sorted x ys)

  length-sort_into :
      (sorted xs : List A) → length (sort_into lt sorted xs) ≡ length sorted + length xs
  unfolding sort_into
  length-sort_into sorted [] = omega arith
  length-sort_into sorted (x ∷ xs) =
      omega (arith, length-sort_into (insert_sorted lt x sorted) xs, length-insert_sorted x sorted)

  -- sorting keeps the number of elements
  pub length-sort_by : (xs : List A) → length (sort_by lt xs) ≡ length xs
  unfolding sort_by
  length-sort_by xs = omega (arith, length-sort_into [] xs)

  any-insert_sorted :
      (p : A → Bool) (x : A) (xs : List A) → any p (insert_sorted lt x xs) ≡ (p x || any p xs)
  unfolding insert_sorted any
  any-insert_sorted p x [] = refl
  any-insert_sorted p x (y ∷ ys) = ground (arith, any-insert_sorted p x ys)

  any-sort_into :
      (p : A → Bool) (sorted xs : List A)
      → any p (sort_into lt sorted xs) ≡ (any p sorted || any p xs)
  unfolding sort_into any
  any-sort_into p sorted [] = ground arith
  any-sort_into p sorted (x ∷ xs) =
      ground (arith, any-sort_into p (insert_sorted lt x sorted) xs, any-insert_sorted p x sorted)

  -- sorting keeps which elements there are
  pub any-sort_by : (p : A → Bool) (xs : List A) → any p (sort_by lt xs) ≡ any p xs
  unfolding sort_by any
  any-sort_by p xs = any-sort_into p [] xs

  All-insert_sorted {κ} :
      (P : A → Type κ) (x : A) (xs : List A) → P x → All P xs → All P (insert_sorted lt x xs)
  unfolding insert_sorted
  All-insert_sorted P x [] px h = (px, tt)
  All-insert_sorted P x (y ∷ ys) px h = elim (Bool-cases (lt x y)) [
    | inl before ↦ rw before (px, h)
    | inr after ↦ rw after (h.0, All-insert_sorted P x ys px h.1)
  ]

  All-sort_into {κ} :
      (P : A → Type κ) (sorted xs : List A)
      → All P sorted
      → All P xs
      → All P (sort_into lt sorted xs)
  unfolding sort_into
  All-sort_into P sorted [] hs h = hs
  All-sort_into P sorted (x ∷ xs) hs h =
      All-sort_into P (insert_sorted lt x sorted) xs (All-insert_sorted P x sorted h.0 hs) h.1

  -- what holds of all elements holds of them in order
  pub All-sort_by {κ} : (P : A → Type κ) (xs : List A) → All P xs → All P (sort_by lt xs)
  unfolding sort_by
  All-sort_by P xs h = All-sort_into P [] xs tt h

  keep-insert_sorted :
      (p : A → Bool) (x : A) (xs : List A)
      → length (keep p (insert_sorted lt x xs)) ≡ length (keep p (x ∷ xs))
  unfolding insert_sorted keep
  keep-insert_sorted p x [] = refl
  keep-insert_sorted p x (y ∷ ys) = ground (arith, keep-insert_sorted p x ys)

  keep-sort_into :
      (p : A → Bool) (sorted xs : List A)
      → length (keep p (sort_into lt sorted xs)) ≡ length (keep p sorted) + length (keep p xs)
  unfolding sort_into keep
  keep-sort_into p sorted [] = omega arith
  keep-sort_into p sorted (x ∷ xs) =
      ground (arith, keep-sort_into p (insert_sorted lt x sorted) xs, keep-insert_sorted p x sorted)

  -- sorting keeps how many elements pass a test
  pub keep-sort_by :
      (p : A → Bool) (xs : List A) → length (keep p (sort_by lt xs)) ≡ length (keep p xs)
  unfolding sort_by keep
  keep-sort_by p xs = omega (arith, keep-sort_into p [] xs)

  module _ {κ} {B : Type κ} (f : A → B) where
    insert_sorted-IsDistinct :
        (x : A) (xs : List A)
        → All (λ y. f x ≢ f y) xs
        → IsDistinct (map f xs)
        → IsDistinct (map f (insert_sorted lt x xs))
    unfolding insert_sorted
    insert_sorted-IsDistinct x [] new h = (tt, tt)
    insert_sorted-IsDistinct x (y ∷ ys) new h = elim (Bool-cases (lt x y)) [
      | inl before ↦ rw before (map-All (λ k. f x ≢ k) f (y ∷ ys) new, h)
      | inr after ↦ rw after (
        map-All (λ k. f y ≢ k) f (insert_sorted lt x ys)
            (All-insert_sorted (λ z. f y ≢ f z) x ys (λ e. new.0 (sym e))
              (All-map (λ k. f y ≢ k) f ys h.0)),
        insert_sorted-IsDistinct x ys new.1 h.1,
      )
    ]

    sort_into-IsDistinct :
        (sorted xs : List A)
        → All (λ x. All (λ y. f x ≢ f y) sorted) xs
        → IsDistinct (map f sorted)
        → IsDistinct (map f xs)
        → IsDistinct (map f (sort_into lt sorted xs))
    unfolding sort_into
    sort_into-IsDistinct sorted [] new hs h = hs
    sort_into-IsDistinct sorted (x ∷ xs) new hs h =
        sort_into-IsDistinct (insert_sorted lt x sorted) xs
          (All-imply xs
            (λ z (others, this).
              All-insert_sorted (λ y. f z ≢ f y) x sorted (λ e. this (sym e)) others)
            (All-zip _ _ xs new.1 (All-map (λ k. f x ≢ k) f xs h.0)))
          (insert_sorted-IsDistinct x sorted new.0 hs) h.1

    nothing_before : (xs : List A) → All (λ x. All (λ y. f x ≢ f y) []) xs
    nothing_before [] = tt
    nothing_before (x ∷ xs) = (tt, nothing_before xs)

    -- sorting keeps values apart
    pub sort_by-IsDistinct :
        (xs : List A) → IsDistinct (map f xs) → IsDistinct (map f (sort_by lt xs))
    unfolding sort_by
    sort_by-IsDistinct xs h = sort_into-IsDistinct [] xs (nothing_before xs) tt h

module _ {ℓ} {A : Type ℓ} where
  pub keep-All : (p : A → Bool) (xs : List A) → All (λ x. p x ≡ true) (keep p xs)
  unfolding keep
  keep-All p [] = tt
  keep-All p (x ∷ xs) = elim (Bool-cases (p x)) [
    | inl kept ↦ rw kept (kept, keep-All p xs)
    | inr dropped ↦ rw dropped (keep-All p xs)
  ]

  -- the elements that a filter keeps and those that it drops
  pub length_of_split :
      (p : A → Bool) (xs : List A)
      → length (keep p xs) + length (keep (λ x. not (p x)) xs) ≡ length xs
  unfolding keep
  length_of_split p [] = omega arith
  length_of_split p (x ∷ xs) = ground (arith, length_of_split p xs)

  pub length-map {κ} : {B : Type κ} (f : A → B) (xs : List A) → length (map f xs) ≡ length xs
  length-map f [] = refl
  length-map f (x ∷ xs) = ap suc (length-map f xs)

  pub length-traverse {κ} :
      {B : Type κ} (f : A → Result B) (xs : List A) {ys : List B}
      → traverse f xs ≡ ok ys
      → length ys ≡ length xs
  unfolding traverse
  length-traverse f [] h = rw (← ok-injective h) refl
  length-traverse f (x ∷ xs) h =
      let (y, e, h) = >>=-eq-ok (f x) _ h in
      let (rest, es, h) = >>=-eq-ok (traverse f xs) _ h in
      rw (← ok-injective h) (ap suc (length-traverse f xs es))

module _ {ℓ} {A : Type ℓ} ⦃e : Eq A⦄ where
  count_equal :
      (x : A) (ys : List A)
      → IsDistinct ys
      → length (keep (λ y. y == x) ys) ≡ (if contains x ys then 1 else 0)
  unfolding keep contains
  count_equal x [] h = refl
  count_equal x (y ∷ ys) h =
      ground (arith, e.decides x y, e.decides y x, new_not-contains y ys h.0, count_equal x ys h.1)

  split_equal :
      (x : A) (xs ys : List A)
      → contains x xs ≡ false
      → length (keep (λ y. contains y (x ∷ xs)) ys)
        ≡ length (keep (λ y. y == x) ys) + length (keep (λ y. contains y xs) ys)
  unfolding keep contains
  split_equal x xs [] h = omega arith
  split_equal x xs (y ∷ ys) h = ground (arith, e.decides y x, h, split_equal x xs ys h)

  length-keep_none : (ys : List A) → length (keep (λ y. contains y []) ys) ≡ 0
  unfolding keep contains
  length-keep_none [] = refl
  length-keep_none (y ∷ ys) = length-keep_none ys

  -- Two lists without repetitions have as many elements of the one in the other as the other way.
  pub length_of_common :
      (xs ys : List A)
      → IsDistinct xs
      → IsDistinct ys
      → length (keep (λ x. contains x ys) xs) ≡ length (keep (λ y. contains y xs) ys)
  unfolding keep contains
  length_of_common [] ys hx hy = sym (length-keep_none ys)
  length_of_common (x ∷ xs) ys hx hy = ground (
    arith,
    length_of_common xs ys hx.1 hy,
    split_equal x xs ys (new_not-contains x xs hx.0),
    count_equal x ys hy,
  )
