-- ===== src/Validity/Summary/Status.antt =====
-- Theorems about the order of the statuses and `combined_status`.
use fog_http_benchmark.Prelude.{◌≤◌, ◌≡◌, ◌↔◌, List, [], ◌∷◌, All, arith}
use fog_http_benchmark.Validity.Summary.{
  ValidityStatus, valid, severity, worse, worst_from, combined_status,
}

pub severity-injective : (a b : ValidityStatus) → severity a ≡ severity b → a ≡ b
severity-injective a b h = ground arith

-- `status` is at least as bad as each of the others.
abbrev pub IsWorse : ValidityStatus → List ValidityStatus → Type 0
IsWorse status statuses = All (λ s. severity s ≤ severity status) statuses

worse_bounds :
    (s x : ValidityStatus)
    → (severity s ≤ severity (worse s x)) × (severity x ≤ severity (worse s x))
unfolding worse
worse_bounds s x = ground arith

worse-le :
    (s x b : ValidityStatus)
    → severity s ≤ severity b
    → severity x ≤ severity b
    → severity (worse s x) ≤ severity b
unfolding worse
worse-le s x b h k = ground arith

worst_from-ge :
    (s : ValidityStatus) (items : List ValidityStatus) → severity s ≤ severity (worst_from s items)
unfolding worst_from
worst_from-ge s [] = omega arith
worst_from-ge s (x ∷ xs) = omega (arith, worse_bounds s x, worst_from-ge (worse s x) xs)

worst_from-IsWorse :
    (s : ValidityStatus) (items : List ValidityStatus) → IsWorse (worst_from s items) items
unfolding worst_from
worst_from-IsWorse s [] = tt
worst_from-IsWorse s (x ∷ xs) = (
  omega (arith, worse_bounds s x, worst_from-ge (worse s x) xs),
  worst_from-IsWorse (worse s x) xs,
)

worst_from-le :
    (s : ValidityStatus) (items : List ValidityStatus) (b : ValidityStatus)
    → severity s ≤ severity b
    → IsWorse b items
    → severity (worst_from s items) ≤ severity b
unfolding worst_from
worst_from-le s [] b h hs = h
worst_from-le s (x ∷ xs) b h hs = worst_from-le (worse s x) xs b (worse-le s x b h hs.0) hs.1

pub IsWorse-le :
    (items : List ValidityStatus) (a b : ValidityStatus)
    → severity a ≤ severity b
    → IsWorse a items
    → IsWorse b items
IsWorse-le [] a b h hs = tt
IsWorse-le (x ∷ xs) a b h hs = (omega arith, IsWorse-le xs a b h hs.1)

pub combined_status-IsWorse : (items : List ValidityStatus) → IsWorse (combined_status items) items
unfolding combined_status
combined_status-IsWorse items = worst_from-IsWorse valid items

-- The combined status is the least one that is at least as bad as each item: a status is as bad as
-- it exactly when it is as bad as every item.
pub combined_status-le_iff :
    (items : List ValidityStatus) (b : ValidityStatus)
    → (severity (combined_status items) ≤ severity b) ↔ IsWorse b items
unfolding combined_status
combined_status-le_iff items b = (
  λ h. IsWorse-le items _ b h (worst_from-IsWorse valid items),
  λ h. worst_from-le valid items b (omega arith) h,
)

-- A status that is as bad as each of a list leads that list to itself.
pub combined_status_of_worse :
    (s : ValidityStatus) (items : List ValidityStatus)
    → IsWorse s items
    → combined_status (s ∷ items) ≡ s
combined_status_of_worse s items h = severity-injective _ _ (
    omega (
      arith,
      (combined_status-le_iff (s ∷ items) s).1 (omega arith, h),
      (combined_status-IsWorse (s ∷ items)).0,
    ))
