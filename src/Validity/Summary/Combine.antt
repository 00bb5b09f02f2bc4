-- ===== src/Validity/Summary/Combine.antt =====
-- Theorems about `combine_validity_summaries`.
use fog_http_benchmark.Prelude.{
  ◌≤◌, ◌≡◌, refl, ◌⊎◌, inl, inr, true, List, [], ◌∷◌, ◌++◌, map, All, all, all-All, All-append,
  All-imply, All-map, Bool-cases, arith, any, eq_iff, if◌then◌else◌, All-zip, All-under,
}
use fog_http_benchmark.Validity.Summary.{
  severity, ValidityReason, ValiditySummary, allows_comparison, reasons_allow_comparison, reason_eq,
  has_reason, extend_new, merged_reasons, combine_validity_summaries,
}
use fog_http_benchmark.Validity.Summary.Status.{combined_status-IsWorse, severity-injective}

-- A reason is in the list, or one that Python finds equal to it.
abbrev pub IsKept : ValidityReason → List ValidityReason → Type 0
IsKept reason [] = ⊥
IsKept reason (r ∷ rs) = (r ≡ reason) ⊎ (reason_eq r reason ≡ true) ⊎ IsKept reason rs

IsKept-of_has :
    (r : ValidityReason) (rs : List ValidityReason) → has_reason r rs ≡ true → IsKept r rs
unfolding has_reason any
IsKept-of_has r [] h = cc
IsKept-of_has r (x ∷ xs) h = elim (Bool-cases (reason_eq x r)) [
  | inl same ↦ inr (inl same)
  | inr other ↦ inr (inr (IsKept-of_has r xs (ground arith)))
]

IsKept-append :
    (r : ValidityReason) (rs new : List ValidityReason) → IsKept r rs → IsKept r (rs ++ new)
IsKept-append r [] new h = absurd h
IsKept-append r (x ∷ xs) new (inl e) = inl e
IsKept-append r (x ∷ xs) new (inr (inl e)) = inr (inl e)
IsKept-append r (x ∷ xs) new (inr (inr h)) = inr (inr (IsKept-append r xs new h))

IsKept-snoc : (r : ValidityReason) (rs : List ValidityReason) → IsKept r (rs ++ r ∷ [])
IsKept-snoc r [] = inl refl
IsKept-snoc r (x ∷ xs) = inr (inr (IsKept-snoc r xs))

-- one step of the loop: the list with the reason, unless an equal one is in it
abbrev add_new : List ValidityReason → ValidityReason → List ValidityReason
add_new rs r = if has_reason r rs then rs else rs ++ r ∷ []

add_new-IsKept : (rs : List ValidityReason) (r : ValidityReason) → IsKept r (add_new rs r)
add_new-IsKept rs r = elim (Bool-cases (has_reason r rs)) [
  | inl old ↦ rw old (IsKept-of_has r rs old)
  | inr new ↦ rw new (IsKept-snoc r rs)
]

add_new_keeps :
    (rs : List ValidityReason) (r q : ValidityReason) → IsKept q rs → IsKept q (add_new rs r)
add_new_keeps rs r q h = elim (Bool-cases (has_reason r rs)) [
  | inl old ↦ rw old h
  | inr new ↦ rw new (IsKept-append q rs (r ∷ []) h)
]

extend_new_keeps :
    (rs new : List ValidityReason) (q : ValidityReason) → IsKept q rs → IsKept q (extend_new rs new)
unfolding extend_new
extend_new_keeps rs [] q h = h
extend_new_keeps rs (r ∷ new) q h = extend_new_keeps (add_new rs r) new q (add_new_keeps rs r q h)

extend_new-IsKept : (rs new : List ValidityReason) → All (λ r. IsKept r (extend_new rs new)) new
unfolding extend_new
extend_new-IsKept rs [] = tt
extend_new-IsKept rs (r ∷ new) = (
  extend_new_keeps (add_new rs r) new r (add_new-IsKept rs r),
  extend_new-IsKept (add_new rs r) new,
)

merged_reasons_keeps :
    (rs : List ValidityReason) (items : List ValiditySummary) (q : ValidityReason)
    → IsKept q rs
    → IsKept q (merged_reasons rs items)
unfolding merged_reasons
merged_reasons_keeps rs [] q h = h
merged_reasons_keeps rs (s ∷ items) q h =
    merged_reasons_keeps (extend_new rs s.reasons) items q (extend_new_keeps rs s.reasons q h)

merged_reasons-IsKept :
    (rs : List ValidityReason) (items : List ValiditySummary)
    → All (λ (s : ValiditySummary). All (λ r. IsKept r (merged_reasons rs items)) s.reasons) items
unfolding merged_reasons
merged_reasons-IsKept rs [] = tt
merged_reasons-IsKept rs (s ∷ items) = (
  All-imply s.reasons (merged_reasons_keeps (extend_new rs s.reasons) items)
      (extend_new-IsKept rs s.reasons),
  merged_reasons-IsKept (extend_new rs s.reasons) items,
)

-- Equal reasons have one status and one code, so they allow or block a comparison alike.
reason_eq-allows_comparison :
    (a b : ValidityReason)
    → reason_eq a b ≡ true
    → allows_comparison a ≡ true
    → allows_comparison b ≡ true
unfolding reason_eq allows_comparison
reason_eq-allows_comparison a b h allowed =
    ground (arith, eq_iff a.code b.code, severity-injective a.status b.status)

IsKept-allows_comparison :
    (rs : List ValidityReason) (r : ValidityReason)
    → reasons_allow_comparison rs ≡ true
    → IsKept r rs
    → allows_comparison r ≡ true
unfolding reasons_allow_comparison all
IsKept-allows_comparison [] r h k = absurd k
IsKept-allows_comparison (x ∷ xs) r h (inl e) = rw (← e) (ground arith)
IsKept-allows_comparison (x ∷ xs) r h (inr (inl e)) =
    reason_eq-allows_comparison x r e (ground arith)
IsKept-allows_comparison (x ∷ xs) r h (inr (inr k)) = IsKept-allows_comparison xs r (ground arith) k

-- What the combination owes to one of the combined summaries.
pub record Retains (combined s : ValiditySummary) : Type 0 where
  pub status : severity s.status ≤ severity combined.status
  pub is_valid : combined.is_valid ≡ true → s.is_valid ≡ true
  pub can_compare : combined.can_compare ≡ true → s.can_compare ≡ true
  pub reasons : All (λ r. IsKept r combined.reasons) s.reasons
  pub unblocked : combined.can_compare ≡ true → All (λ r. allows_comparison r ≡ true) s.reasons

module _ (items : List ValiditySummary) where
  abbrev combined : ValiditySummary
  combined = combine_validity_summaries items

  combine-status : All (λ (s : ValiditySummary). severity s.status ≤ severity combined.status) items
  unfolding combine_validity_summaries
  combine-status =
      All-map (λ t. severity t ≤ severity combined.status) (λ (s : ValiditySummary). s.status) items
        (All-append _ (map (λ (s : ValiditySummary). s.status) items) _
          (combined_status-IsWorse _)).0

  combine-is_valid :
      combined.is_valid ≡ true → All (λ (s : ValiditySummary). s.is_valid ≡ true) items
  unfolding combine_validity_summaries
  combine-is_valid h = all-All (λ (s : ValiditySummary). s.is_valid) items (ground arith)

  combine-can_compare :
      combined.can_compare ≡ true → All (λ (s : ValiditySummary). s.can_compare ≡ true) items
  unfolding combine_validity_summaries
  combine-can_compare h = all-All (λ (s : ValiditySummary). s.can_compare) items (ground arith)

  combine-reasons :
      All (λ (s : ValiditySummary). All (λ r. IsKept r combined.reasons) s.reasons) items
  unfolding combine_validity_summaries
  combine-reasons = merged_reasons-IsKept [] items

  combine-allows : combined.can_compare ≡ true → reasons_allow_comparison combined.reasons ≡ true
  unfolding combine_validity_summaries
  combine-allows h = ground arith

  combine-unblocked :
      (s : ValiditySummary)
      → All (λ r. IsKept r combined.reasons) s.reasons
      → combined.can_compare ≡ true
      → All (λ r. allows_comparison r ≡ true) s.reasons
  combine-unblocked s kept h =
      All-imply s.reasons (λ r. IsKept-allows_comparison combined.reasons r (combine-allows h)) kept

-- Combining loses no restriction. The combination is at least as bad as each summary; it is valid,
-- or comparable, only if each of them is; it keeps each reason of each of them, or an equal one;
-- and if it is comparable, no reason of any of them blocks a comparison.
pub combine-Retains :
    (items : List ValiditySummary) → All (Retains (combine_validity_summaries items)) items
combine-Retains items =
    let valids =
      All-under (λ (s : ValiditySummary). s.is_valid ≡ true) items (combine-is_valid items) in
    let compares =
      All-under (λ (s : ValiditySummary). s.can_compare ≡ true) items (combine-can_compare items) in
    All-imply items
      (λ s f. record {
        status = f.0;
        is_valid = f.1.0;
        can_compare = f.1.1.0;
        reasons = f.1.1.1;
        unblocked = combine-unblocked items s f.1.1.1;
      })
      (All-zip _ _ items (combine-status items)
        (All-zip _ _ items valids (All-zip _ _ items compares (combine-reasons items))))
