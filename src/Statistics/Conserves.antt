-- ===== src/Statistics/Conserves.antt =====
-- Theorems about `merge_error_types` of statistics.py.
use fog_http_benchmark.Prelude.{
  ℕ, ◌+◌, ◌≡◌, ◌≢◌, String, List, [], ◌∷◌, map, ◌==◌, string_eq, eq_iff, All, IsDistinct,
  Bool-cases, inl, inr, arith, if◌then◌else◌,
}
use fog_http_benchmark.Statistics.{
  ErrorCounts, add_count, add_counts, merge_from, merge_error_types,
}

-- what the entries of one name come to
abbrev pub count_of : String → ErrorCounts → ℕ
count_of name [] = 0
count_of name ((other, n) ∷ counts) = (if name == other then n else 0) + count_of name counts

abbrev pub counts_of : String → List ErrorCounts → ℕ
counts_of name [] = 0
counts_of name (error_types ∷ values) = count_of name error_types + counts_of name values

abbrev pub names : ErrorCounts → List String
names = map (λ e. e.0)

pub add_count-count_of :
    (name added : String) (count : ℕ) (merged : ErrorCounts)
    → count_of name (add_count added count merged)
      ≡ count_of name merged + (if name == added then count else 0)
unfolding add_count
add_count-count_of name added count [] = ground arith
add_count-count_of name added count ((other, n) ∷ merged) = ground (
  arith,
  eq_iff added other,
  eq_iff name other,
  eq_iff name added,
  add_count-count_of name added count merged,
)

pub add_counts-count_of :
    (name : String) (merged counts : ErrorCounts)
    → count_of name (add_counts merged counts) ≡ count_of name merged + count_of name counts
unfolding add_counts
add_counts-count_of name merged [] = omega arith
add_counts-count_of name merged ((added, count) ∷ rest) = ground (
  arith,
  add_counts-count_of name (add_count added count merged) rest,
  add_count-count_of name added count merged,
)

merge_from-count_of :
    (name : String) (merged : ErrorCounts) (values : List ErrorCounts)
    → count_of name (merge_from merged values) ≡ count_of name merged + counts_of name values
unfolding merge_from
merge_from-count_of name merged [] = omega arith
merge_from-count_of name merged (counts ∷ values) = omega (
  arith,
  merge_from-count_of name (add_counts merged counts) values,
  add_counts-count_of name merged counts,
)

-- Adding a count leaves a name new that is another one.
add_count-names :
    (new added : String) (count : ℕ) (merged : ErrorCounts)
    → new ≢ added
    → All (λ y. new ≢ y) (names merged)
    → All (λ y. new ≢ y) (names (add_count added count merged))
unfolding add_count
add_count-names new added count [] other h = (other, tt)
add_count-names new added count ((name, n) ∷ merged) other h = elim (Bool-cases (added == name)) [
  | inl same ↦ rw same h
  | inr different ↦ rw different (h.0, add_count-names new added count merged other h.1)
]

add_count-IsDistinct :
    (added : String) (count : ℕ) (merged : ErrorCounts)
    → IsDistinct (names merged)
    → IsDistinct (names (add_count added count merged))
unfolding add_count
add_count-IsDistinct added count [] h = (tt, tt)
add_count-IsDistinct added count ((name, n) ∷ merged) h = elim (Bool-cases (added == name)) [
  | inl same ↦ rw same h
  | inr different ↦ rw different (
    add_count-names name added count merged (λ e. ground (arith, e, different, eq_iff added name))
        h.0,
    add_count-IsDistinct added count merged h.1,
  )
]

pub add_counts-IsDistinct :
    (merged counts : ErrorCounts)
    → IsDistinct (names merged)
    → IsDistinct (names (add_counts merged counts))
unfolding add_counts
add_counts-IsDistinct merged [] h = h
add_counts-IsDistinct merged ((name, count) ∷ rest) h =
    add_counts-IsDistinct (add_count name count merged) rest
      (add_count-IsDistinct name count merged h)

merge_from-IsDistinct :
    (merged : ErrorCounts) (values : List ErrorCounts)
    → IsDistinct (names merged)
    → IsDistinct (names (merge_from merged values))
unfolding merge_from
merge_from-IsDistinct merged [] h = h
merge_from-IsDistinct merged (counts ∷ values) h =
    merge_from-IsDistinct (add_counts merged counts) values (add_counts-IsDistinct merged counts h)

-- Merged error counts have each name once, with the sum of its counts in all of the merged dicts.
pub merge_error_types-conserves :
    (values : List ErrorCounts)
    → IsDistinct (names (merge_error_types values))
      × ((name : String) → count_of name (merge_error_types values) ≡ counts_of name values)
unfolding merge_error_types
merge_error_types-conserves values =
    (merge_from-IsDistinct [] values tt, λ name. omega (arith, merge_from-count_of name [] values))
