-- ===== src/Windows/Distinct.antt =====
-- Theorems about the histograms of a window.
use fog_http_benchmark.Prelude.{
  ◌≡◌, ◌≢◌, refl, sym, ap, ◌∙◌, ℕ, zero, suc, ◌<◌, true, false, none, some, List, [], ◌∷◌, ◌++◌,
  map, arith, All, contains, IsDistinct, nat_eq, Bool-cases, inl, inr, Option, Option-cases,
  some-injective, contains_not, new_not-contains, snoc-IsDistinct, middle_is_new,
}
use mathlib.Core.List.{append_assoc, append-nil}
use fog_http_benchmark.Prelude.Int.{pos, negsuc}
use fog_http_benchmark.Json.{
  Json, null, bool, int, float, str, arr, obj, nil, cons, Items, JsonObject, get, find?, items,
}
use fog_http_benchmark.Windows.Histogram.{
  Bins, sizes, positive, bin_of, read_bins, histogram, bin_json, bins_json,
}

-- What the bins of a histogram are: at least one, of distinct sizes, none of them empty.
pub record IsHistogram (bins : Bins) : Type 0 where
  pub some_bins : bins ≢ []
  pub are_positive : All (λ bin. (0 < bin.0) × (0 < bin.1)) bins
  pub are_distinct : IsDistinct (sizes bins)

sizes-append : (xs ys : Bins) → sizes (xs ++ ys) ≡ sizes xs ++ sizes ys
sizes-append [] ys = refl
sizes-append (x ∷ xs) ys = ap (λ rest. x.0 ∷ rest) (sizes-append xs ys)

positive_found : (v : Json) (n : ℕ) → positive v ≡ some n → 0 < n
unfolding positive
positive_found (int (pos (suc m))) n h = rw (← some-injective h) (omega arith)
positive_found (int (pos zero)) n h = cc
positive_found (int (negsuc m)) n h = cc
positive_found null n h = cc
positive_found (bool b) n h = cc
positive_found (float x) n h = cc
positive_found (str s) n h = cc
positive_found (arr vs) n h = cc
positive_found (obj o) n h = cc

module _ (o : JsonObject) where
  bin_no_size : positive (get o "size_bytes") ≡ none → bin_of (obj o) ≡ none
  bin_no_size missing = rw (missing, bin_of) refl

  bin_no_count :
      {size : ℕ}
      → positive (get o "count") ≡ none
      → positive (get o "size_bytes") ≡ some size
      → bin_of (obj o) ≡ none
  bin_no_count missing hs = rw (hs, missing, bin_of) refl

  bin_pair :
      {size count : ℕ}
      → positive (get o "size_bytes") ≡ some size
      → positive (get o "count") ≡ some count
      → bin_of (obj o) ≡ some (size, count)
  bin_pair hs hc = rw (hs, hc, bin_of) refl

bin_found : (v : Json) (bin : ℕ × ℕ) → bin_of v ≡ some bin → (0 < bin.0) × (0 < bin.1)
bin_found (obj o) bin h = elim (Option-cases (positive (get o "size_bytes"))) [
  | inl missing ↦ cc (h, bin_no_size o missing)
  | inr (size, hs) ↦ elim (Option-cases (positive (get o "count"))) [
    | inl missing ↦ cc (h, bin_no_count o missing hs)
    | inr (count, hc) ↦
        rw (← some-injective (sym (bin_pair o hs hc) ∙ h))
          (positive_found _ _ hs, positive_found _ _ hc)
  ]
]
bin_found null bin h = cc
bin_found (int n) bin h = cc
bin_found (bool b) bin h = cc
bin_found (float x) bin h = cc
bin_found (str s) bin h = cc
bin_found (arr vs) bin h = cc

module _ (v : Json) (vs : List Json) (result : Bins) where
  read_missing : bin_of v ≡ none → read_bins (v ∷ vs) result ≡ none
  unfolding read_bins
  read_missing missing = rw (missing, read_bins) refl

  read_old :
      {bin : ℕ × ℕ}
      → bin_of v ≡ some bin
      → contains bin.0 (sizes result) ≡ true
      → read_bins (v ∷ vs) result ≡ none
  unfolding read_bins
  read_old found old = rw (found, old, read_bins) refl

  read_new :
      {bin : ℕ × ℕ}
      → bin_of v ≡ some bin
      → contains bin.0 (sizes result) ≡ false
      → read_bins (v ∷ vs) result ≡ read_bins vs (result ++ bin ∷ [])
  unfolding read_bins
  read_new found new = rw (found, new, read_bins) refl

-- What the loop adds to the bins it has.
read_bins-adds :
    (vs : List Json) (result bins : Bins)
    → IsDistinct (sizes result)
    → read_bins vs result ≡ some bins
    → (added : Bins) × (bins ≡ result ++ added)
      × (map bin_of vs ≡ map some added)
      × All (λ bin. (0 < bin.0) × (0 < bin.1)) added
      × IsDistinct (sizes bins)
unfolding read_bins
read_bins-adds [] result bins distinct h = (
  [],
  sym (some-injective h) ∙ sym (append-nil result),
  refl,
  tt,
  rw (← some-injective h) distinct,
)
read_bins-adds (v ∷ vs) result bins distinct h = elim (Option-cases (bin_of v)) [
  | inl missing ↦ cc (h, read_missing v vs result missing)
  | inr (bin, found) ↦ elim (Bool-cases (contains bin.0 (sizes result))) [
    | inl old ↦ cc (h, read_old v vs result found old)
    | inr new ↦
        let known : IsDistinct (sizes (result ++ bin ∷ [])) =
          rw (sizes-append result (bin ∷ [])) (
            snoc-IsDistinct (sizes result) bin.0 distinct
              (contains_not bin.0 (sizes result) new)) in
        let (added, whole_bins, are_bins, are_positive, distinct_bins) =
          read_bins-adds vs (result ++ bin ∷ []) bins known
            (sym (read_new v vs result found new) ∙ h) in
        (
          bin ∷ added,
          whole_bins ∙ append_assoc result (bin ∷ []) added,
          rw (← are_bins) (ap (λ first. first ∷ map bin_of vs) found),
          (bin_found v bin found, are_positive),
          distinct_bins,
        )
  ]
]

bins-IsRead :
    (bins result : Bins)
    → All (λ bin. (0 < bin.0) × (0 < bin.1)) bins
    → IsDistinct (sizes (result ++ bins))
    → read_bins (items (bins_json bins)) result ≡ some (result ++ bins)
unfolding read_bins bins_json items positive get find?
bins-IsRead [] result h d = ap some (sym (append-nil result))
bins-IsRead ((suc size, suc count) ∷ bins) result h d =
    let bin : ℕ × ℕ = (suc size, suc count) in
    let apart =
      middle_is_new (sizes result) (suc size) (sizes bins)
        (rw (← sizes-append result (bin ∷ bins)) d) in
    read_new (bin_json (suc size) (suc count)) (items (bins_json bins)) result {bin = bin} refl
      (new_not-contains (suc size) (sizes result) apart)
    ∙ bins-IsRead bins (result ++ bin ∷ []) h.1 (rw (append_assoc result (bin ∷ []) bins) d)
    ∙ ap some (append_assoc result (bin ∷ []) bins)
bins-IsRead ((zero, count) ∷ bins) result h d = ground arith
bins-IsRead ((suc size, zero) ∷ bins) result h d = ground arith

some_added :
    (first : Option (ℕ × ℕ)) (rest : List (Option (ℕ × ℕ))) (added : Bins)
    → first ∷ rest ≡ map some added
    → added ≢ []
some_added first rest [] h = λ e. cc
some_added first rest (bin ∷ added) h = λ e. cc

-- A histogram that is read has at least one bin, bins of distinct sizes that hold chunks, and one bin
-- for each item of the list, in order.
pub histogram-IsHistogram :
    (v : Json) (bins : Bins)
    → histogram v ≡ some bins
    → IsHistogram bins × ((vs : Items) × (v ≡ arr vs) × (map bin_of (items vs) ≡ map some bins))
unfolding histogram items
histogram-IsHistogram (arr (cons item rest)) bins h =
    let vs = item ∷ items rest in
    let (added, same, are_bins, are_positive, distinct_bins) = read_bins-adds vs [] bins tt h in
    (
      record {
        some_bins = rw same (some_added (bin_of item) (map bin_of (items rest)) added are_bins);
        are_positive = rw same are_positive;
        are_distinct = distinct_bins;
      },
      (cons item rest, refl, rw same are_bins),
    )
histogram-IsHistogram (arr nil) bins h = cc
histogram-IsHistogram null bins h = cc
histogram-IsHistogram (bool b) bins h = cc
histogram-IsHistogram (int n) bins h = cc
histogram-IsHistogram (float x) bins h = cc
histogram-IsHistogram (str s) bins h = cc
histogram-IsHistogram (obj o) bins h = cc

-- The bins that a measurement writes are read back.
pub histogram-bins_json :
    (bins : Bins) → IsHistogram bins → histogram (arr (bins_json bins)) ≡ some bins
unfolding histogram bins_json
histogram-bins_json [] h = ground (arith, h.some_bins refl)
histogram-bins_json (bin ∷ bins) h = bins-IsRead (bin ∷ bins) [] h.are_positive h.are_distinct
