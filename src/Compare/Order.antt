-- ===== src/Compare/Order.antt =====
-- Sorting and grouping as foghttp_benchmark/compare/analysis.py uses them: `sorted`, which is
-- stable, the order of texts and of tuples of texts, and dicts under keys of any type.
use fog_http_benchmark.Prelude.{
  ℕ, zero, suc, Bool, true, false, ◌&&◌, ◌||◌, String, Option, none, some, List, [], ◌∷◌, ◌++◌, Eq,
  ◌==◌, nat_eq, string_eq, ltb, if◌then◌else◌,
}
use Prim.Native.Char.{code}

-- `a < b` of texts, by code points
unfoldable pub text_lt : String → String → Bool
text_lt String.[] String.[] = false
text_lt String.[] (String.◌∷◌ d t) = true
text_lt (String.◌∷◌ c s) String.[] = false
text_lt (String.◌∷◌ c s) (String.◌∷◌ d t) =
    ltb (code c) (code d) || (code c == code d && text_lt s t)

-- `a < b` of tuples of texts
unfoldable pub texts_lt : List String → List String → Bool
texts_lt [] [] = false
texts_lt [] (b ∷ bs) = true
texts_lt (a ∷ more) [] = false
texts_lt (a ∷ more) (b ∷ bs) = text_lt a b || (a == b && texts_lt more bs)

module _ {ℓ} {A : Type ℓ} (lt : A → A → Bool) where
  -- The element goes behind those that are not greater.
  unfoldable pub insert_sorted : A → List A → List A
  insert_sorted x [] = x ∷ []
  insert_sorted x (y ∷ ys) =
      let rest = insert_sorted x ys in if lt x y then x ∷ y ∷ ys else y ∷ rest

  unfoldable pub sort_into : List A → List A → List A
  sort_into sorted [] = sorted
  sort_into sorted (x ∷ xs) = sort_into (insert_sorted x sorted) xs

  -- `sorted(xs, key=…)`
  unfoldable pub sort_by : List A → List A
  sort_by = sort_into []

module _ {ℓ κ} {K : Type ℓ} {V : Type κ} ⦃e : Eq K⦄ where
  -- `table[key] = value`
  unfoldable pub put_key : K → V → List (K × V) → List (K × V)
  put_key k v [] = (k, v) ∷ []
  put_key k v ((j, w) ∷ table) =
      let rest = put_key k v table in if k == j then (j, v) ∷ table else (j, w) ∷ rest

  -- `table.get(key)`
  unfoldable pub find_key : K → List (K × V) → Option V
  find_key k [] = none
  find_key k ((j, v) ∷ table) = let rest = find_key k table in if k == j then some v else rest

  -- `grouped[key].append(value)` of a defaultdict
  unfoldable pub append_to : K → V → List (K × List V) → List (K × List V)
  append_to k v [] = (k, v ∷ []) ∷ []
  append_to k v ((j, vs) ∷ grouped) =
      let rest = append_to k v grouped in
      if k == j then (j, vs ++ (v ∷ [])) ∷ grouped else (j, vs) ∷ rest

  unfoldable pub group_by : (V → K) → List (K × List V) → List V → List (K × List V)
  group_by key grouped [] = grouped
  group_by key grouped (v ∷ vs) = group_by key (append_to (key v) v grouped) vs

-- `xs[:n]`
unfoldable pub take_first {ℓ} : {A : Type ℓ} → ℕ → List A → List A
take_first zero xs = []
take_first (suc n) [] = []
take_first (suc n) (x ∷ xs) = x ∷ take_first n xs

-- `next(x for x in xs if p(x))`, if there is one
unfoldable pub first_of {ℓ} : {A : Type ℓ} → (A → Bool) → List A → Option A
first_of p [] = none
first_of p (x ∷ xs) = let rest = first_of p xs in if p x then some x else rest

-- the number of the first such element, from one on
unfoldable pub rank_of {ℓ} : {A : Type ℓ} → (A → Bool) → ℕ → List A → Option ℕ
rank_of p n [] = none
rank_of p n (x ∷ xs) = let rest = rank_of p (suc n) xs in if p x then some n else rest
