-- ===== src/Statistics/Coverage.antt =====
-- Theorems about the coverage and the largest observation that resource_metrics.py computes.
use fog_http_benchmark.Prelude.{
  ℕ, ◌<◌, ◌≡◌, refl, sym, ap, ◌∙◌, ◌⊎◌, inl, inr, Bool, true, false, not, Option, none, some, List,
  [], ◌∷◌, length, keep, All, ok, >>=-eq-ok, ok-injective, Bool-cases, arith,
}
use fog_http_benchmark.Prelude.Int.{ℤ, ◌≤ℤ◌, ltb_ℤ}
use fog_http_benchmark.Json.{
  Json, Float, null, int, float, is_finite, finite, inf, neg_inf, nan, number_of,
}
use fog_http_benchmark.Schema.Fields.{is_null}
use fog_http_benchmark.Schema.Resources.{ResourceMetricCoverage}
use fog_http_benchmark.Statistics.{
  resource_values, max_from, max_of, optional_resource_max, metric_coverage,
}

-- the amount of a number, as a multiple of 2 ^ -1074
abbrev pub IsMeasured : Json → ℤ → Type 0
IsMeasured v z = number_of v ≡ some (finite z)

abbrev pub IsAtMost : ℤ → Json → Type 0
IsAtMost amount v = (z : ℤ) × IsMeasured v z × (z ≤ℤ amount)

-- the value stands in the list
abbrev pub IsIn : Json → List Json → Type 0
IsIn v [] = ⊥
IsIn v (w ∷ ws) = (v ≡ w) ⊎ IsIn v ws

-- A number that stands among the values, and that none of them exceeds.
pub record IsLargest (best : Json) (values : List Json) : Type 0 where
  pub amount : ℤ
  pub is_measured : IsMeasured best amount
  pub is_recorded : IsIn best values
  pub is_largest : All (λ v. (v ≡ null) ⊎ IsAtMost amount v) values

-- the observations that are there
abbrev pub is_available : Json → Bool
is_available v = not (is_null v)

abbrev Recorded : List Json → List Json → Type 0
Recorded values present =
    (present ≡ keep is_available values) × All (λ v. (z : ℤ) × IsMeasured v z) present

float-IsMeasured : (x : Float) → is_finite x ≡ true → (z : ℤ) × IsMeasured (float x) z
unfolding number_of
float-IsMeasured (finite z) h = (z, refl)
float-IsMeasured inf h = cc h
float-IsMeasured neg_inf h = cc h
float-IsMeasured nan h = cc h

-- The observations that are kept are those that are there, and they are finite numbers.
resource_values-Recorded :
    (values present : List Json) → resource_values values ≡ ok present → Recorded values present
unfolding resource_values keep is_null number_of
resource_values-Recorded [] present h = let e = ok-injective h in rw (← e) (refl, tt)
resource_values-Recorded (null ∷ values) present h = resource_values-Recorded values present h
resource_values-Recorded (int n ∷ values) present h =
    let (rest, read, h) = >>=-eq-ok (resource_values values) _ h in
    let e = ok-injective h in
    let (kept, measured) = resource_values-Recorded values rest read in
    rw (← e) (ap (λ vs. int n ∷ vs) kept, ((_, refl), measured))
resource_values-Recorded (float x ∷ values) present h = elim (Bool-cases (is_finite x)) [
  | inl sound ↦
      let h = rw sound at h in
      let (rest, read, h) = >>=-eq-ok (resource_values values) _ h in
      let e = ok-injective h in
      let (kept, measured) = resource_values-Recorded values rest read in
      rw (← e) (ap (λ vs. float x ∷ vs) kept, (float-IsMeasured x sound, measured))
  | inr wrong ↦ let h = rw wrong at h in cc h
]
resource_values-Recorded (v ∷ values) present h = cc h

ltb_ℤ_lem : (a b : ℤ) → ltb_ℤ a b ≡ true → a ≤ℤ b
ltb_ℤ_lem a b h = ground arith

not_ltb_ℤ_lem : (a b : ℤ) → ltb_ℤ a b ≡ false → b ≤ℤ a
not_ltb_ℤ_lem a b h = ground arith

module _ (best v : Json) (a z : ℤ) (values : List Json) where
  step_above :
      IsMeasured best a
      → IsMeasured v z
      → ltb_ℤ a z ≡ true
      → max_from best (v ∷ values) ≡ max_from v values
  unfolding max_from
  step_above is_a is_z below = rw (is_a, is_z, below, max_from) refl

  step_below :
      IsMeasured best a
      → IsMeasured v z
      → ltb_ℤ a z ≡ false
      → max_from best (v ∷ values) ≡ max_from best values
  unfolding max_from
  step_below is_a is_z above = rw (is_a, is_z, above, max_from) refl

-- What the loop of `max` returns.
max_from-IsLargest :
    (best result : Json) (a : ℤ) (values : List Json)
    → max_from best values ≡ result
    → IsMeasured best a
    → All (λ v. (z : ℤ) × IsMeasured v z) values
    → (amount : ℤ) × IsMeasured result amount
      × (a ≤ℤ amount)
      × IsIn result (best ∷ values)
      × All (IsAtMost amount) values
unfolding max_from
max_from-IsLargest best result a [] h measured all_measured =
    (a, rw (← h) measured, omega arith, inl (sym h), tt)
max_from-IsLargest best result a (v ∷ values) h measured ((z, is_z), all_measured) =
    elim (Bool-cases (ltb_ℤ a z)) [
      | inl below ↦
          let (amount, m, more, found, most) =
            max_from-IsLargest v result z values
              (sym (step_above best v a z values measured is_z below) ∙ h) is_z all_measured in
          (amount, m, omega (arith, ltb_ℤ_lem a z below, more), inr found, ((z, is_z, more), most))
      | inr above ↦
          let (amount, m, more, found, most) =
            max_from-IsLargest best result a values
              (sym (step_below best v a z values measured is_z above) ∙ h) measured all_measured in
          (
            amount,
            m,
            more,
            elim found [ inl same ↦ inl same | inr later ↦ inr (inr later) ],
            ((z, is_z, omega (arith, not_ltb_ℤ_lem a z above, more)), most),
          )
    ]

-- What holds of the observations that are there holds of all but the missing ones.
All-available :
    (P : Json → Type 0) (values : List Json)
    → All P (keep is_available values)
    → All (λ v. (v ≡ null) ⊎ P v) values
unfolding keep is_null
All-available P [] h = tt
All-available P (null ∷ values) h = (inl refl, All-available P values h)
All-available P (v ∷ values) h = (inr h.0, All-available P values h.1)

IsIn-available : (v : Json) (values : List Json) → IsIn v (keep is_available values) → IsIn v values
unfolding keep is_null
IsIn-available v [] h = h
IsIn-available v (null ∷ values) h = inr (IsIn-available v values h)
IsIn-available v (w ∷ values) h = elim h [
  | inl same ↦ inl same
  | inr later ↦ inr (IsIn-available v values later)
]

-- The largest of the observations, or none where none is there.
abbrev pub IsMaximum : List Json → ℕ → Option Json → Type 0
IsMaximum values available none = available ≡ 0
IsMaximum values available (some best) = (0 < available) × IsLargest best values

max_of-IsMaximum :
    (values present : List Json)
    → Recorded values present
    → IsMaximum values (length present) (max_of present)
unfolding max_of
max_of-IsMaximum values [] recorded = refl
max_of-IsMaximum values (v ∷ present) (kept, ((a, measured), all_measured)) =
    let (amount, m, more, found, most) =
      max_from-IsLargest v (max_from v present) a present refl measured all_measured in
    (
      omega arith,
      record {
        amount = amount;
        is_measured = m;
        is_recorded = IsIn-available _ values (rw (← kept) found);
        is_largest =
            All-available (IsAtMost amount) values (rw (← kept) ((a, measured, more), most));
      },
    )

-- The coverage of a metric counts all observations as expected and those that are not missing as
-- available; and its largest observation is one of them that none exceeds, or there is none exactly if
-- none is available.
pub metric_coverage-IsMaximum :
    (values : List Json) (coverage : ResourceMetricCoverage)
    → metric_coverage values ≡ ok coverage
    → (coverage.expected ≡ length values)
      × (coverage.available ≡ length (keep is_available values))
      × (best : Option Json) × (optional_resource_max values ≡ ok best)
      × IsMaximum values coverage.available best
unfolding metric_coverage optional_resource_max
metric_coverage-IsMaximum values coverage h =
    let (present, read, h) = >>=-eq-ok (resource_values values) _ h in
    let e = ok-injective h in
    let recorded = resource_values-Recorded values present read in
    rw (← e) (
      refl,
      ap length recorded.0,
      max_of present,
      rw read refl,
      max_of-IsMaximum values present recorded,
    )
