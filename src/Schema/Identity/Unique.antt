-- ===== src/Schema/Identity/Unique.antt =====
-- Theorems about the duplicate check of report_schema/identity.py.
use fog_http_benchmark.Prelude.{
  ◌≡◌, refl, ◌≢◌, ◌↔◌, false, String, none, some, List, [], ◌∷◌, map, contains, list_eq,
  list_beq_iff, string_eq, All, IsDistinct, Result, ok, err, value_error, raise_if, >>-eq-ok,
  raise_if-eq-ok, arith, length, suc, ap,
}
use fog_http_benchmark.Json.{JsonObject}
use fog_http_benchmark.Runtime.{Runtime}
use fog_http_benchmark.Schema.Identity.{
  Identity, unique_from, unique_zip, validate_unique_identities, aggregate_identity,
  validate_unique_aggregate_rows,
}

-- none of `seen` is the identity
abbrev IsNew : List Identity → Identity → Type 0
IsNew seen identity = contains identity seen ≡ false

IsNew-cons :
    (x y : Identity) (seen : List Identity) → (IsNew (x ∷ seen) y) ↔ ((x ≢ y) × IsNew seen y)
unfolding contains
IsNew-cons x y seen = ground (arith, list_beq_iff y x)

All-IsNew-cons :
    (x : Identity) (seen ys : List Identity)
    → (All (IsNew (x ∷ seen)) ys) ↔ (All (λ y. x ≢ y) ys × All (IsNew seen) ys)
All-IsNew-cons x seen [] = (λ h. (tt, tt), λ h. tt)
All-IsNew-cons x seen (y ∷ ys) =
    let head = IsNew-cons x y seen in
    let tail = All-IsNew-cons x seen ys in
    (
      λ h. (((head.0 h.0).0, (tail.0 h.1).0), ((head.0 h.0).1, (tail.0 h.1).1)),
      λ h. (head.1 (h.0.0, h.1.0), tail.1 (h.0.1, h.1.1)),
    )

unique_from_iff :
    (seen ids : List Identity)
    → (unique_from seen (map ok ids) ≡ ok tt) ↔ (All (IsNew seen) ids × IsDistinct ids)
unfolding unique_from
unique_from_iff seen [] = (λ h. (tt, tt), λ h. refl)
unique_from_iff seen (x ∷ ids) =
    let rest = unique_from_iff (x ∷ seen) ids in
    let split = All-IsNew-cons x seen ids in
    (
      λ h.
          let (new, h) = >>-eq-ok (raise_if (contains x seen) value_error) _ h in
          let (fresh, distinct) = rest.0 h in
          ((raise_if-eq-ok _ _ new.1, (split.0 fresh).1), ((split.0 fresh).0, distinct)),
      λ h. rw h.0.0 (rest.1 (split.1 (h.1.0, h.0.1), h.1.1)),
    )

unique_zip_iff :
    (seen ids : List Identity) (sources : List String)
    → (unique_zip seen (map ok ids) sources ≡ ok tt)
      ↔ ((length ids ≡ length sources) × (unique_from seen (map ok ids) ≡ ok tt))
unfolding unique_from unique_zip
unique_zip_iff seen [] [] = (λ h. (refl, refl), λ h. refl)
unique_zip_iff seen [] (s ∷ sources) = (λ h. cc, λ h. absurd (omega (arith, h.0)))
unique_zip_iff seen (x ∷ ids) [] = (λ h. cc, λ h. absurd (omega (arith, h.0)))
unique_zip_iff seen (x ∷ ids) (s ∷ sources) =
    let rest = unique_zip_iff (x ∷ seen) ids sources in
    (
      λ h.
          let (new, h) = >>-eq-ok (raise_if (contains x seen) value_error) _ h in
          (ap suc (rest.0 h).0, rw (raise_if-eq-ok _ _ new.1) (rest.0 h).1),
      λ h.
          let (new, k) = >>-eq-ok (raise_if (contains x seen) value_error) _ h.1 in
          rw (raise_if-eq-ok _ _ new.1) (rest.1 (omega (arith, h.0), k)),
    )

unique_from-all_ok :
    (seen : List Identity) (results : List (Result Identity))
    → unique_from seen results ≡ ok tt
    → (ids : List Identity) × (results ≡ map ok ids)
unfolding unique_from
unique_from-all_ok seen [] h = ([], refl)
unique_from-all_ok seen (ok x ∷ results) h =
    let (_, h) = >>-eq-ok (raise_if (contains x seen) value_error) _ h in
    let (ids, e) = unique_from-all_ok (x ∷ seen) results h in (x ∷ ids, cc e)
unique_from-all_ok seen (err e ∷ results) h = cc

-- Without sources the check accepts a list of identities exactly when no two are equal.
pub validate_unique_identities_iff :
    (ids : List Identity) → (validate_unique_identities (map ok ids) none ≡ ok tt) ↔ IsDistinct ids
unfolding validate_unique_identities contains
validate_unique_identities_iff ids =
    let loop = unique_from_iff [] ids in (λ h. (loop.0 h).1, λ h. loop.1 (nothing_seen ids, h))
  where
    nothing_seen : (xs : List Identity) → All (IsNew []) xs
    nothing_seen [] = tt
    nothing_seen (x ∷ xs) = (refl, nothing_seen xs)

-- With sources the check accepts a list of identities exactly when there is one source for each of
-- them and no two identities are equal.
pub validate_unique_identities_sources_iff :
    (ids : List Identity) (sources : List String)
    → (validate_unique_identities (map ok ids) (some sources) ≡ ok tt)
      ↔ ((length ids ≡ length sources) × IsDistinct ids)
unfolding validate_unique_identities
validate_unique_identities_sources_iff ids sources =
    let zipped = unique_zip_iff [] ids sources in
    let plain = validate_unique_identities_iff ids in
    (λ h. ((zipped.0 h).0, plain.0 (zipped.0 h).1), λ h. zipped.1 (h.0, plain.1 h.1))

-- Rows pass exactly when each of them has an identity and no two identities are equal.
pub validate_unique_aggregate_rows_iff :
    ⦃r : Runtime⦄ (suite : String) (rows : List JsonObject)
    → (validate_unique_aggregate_rows suite rows none ≡ ok tt) ↔ (
        (ids : List Identity) × (map (aggregate_identity suite) rows ≡ map ok ids) × IsDistinct ids)
unfolding validate_unique_aggregate_rows validate_unique_identities
validate_unique_aggregate_rows_iff suite rows = (
  λ h.
      let (ids, e) = unique_from-all_ok [] (map (aggregate_identity suite) rows) h in
      (ids, e, (validate_unique_identities_iff ids).0 (rw e at h)),
  λ (ids, e, distinct). rw e ((validate_unique_identities_iff ids).1 distinct),
)
