-- ===== src/Validity/Compatibility/Blocking.antt =====
-- Theorems about the blocking reason of validity/compatibility.py.
use fog_http_benchmark.Prelude.{
  ◌≡◌, refl, String, List, [], ◌∷◌, map, string_eq, ok, >>=-eq-ok, ok-injective, arith,
}
use fog_http_benchmark.Json.{JsonObject}
use fog_http_benchmark.Runtime.{Runtime}
use fog_http_benchmark.Validity.Summary.{ValidityReason, Allow, allows_comparison}
use fog_http_benchmark.Validity.Helpers.{validity_reason}
use fog_http_benchmark.Validity.Compatibility.{
  CompatibilityFailure, shown_failures, compatibility_failure_reasons, blocking_reason, sorted_set,
  text_insert,
}

text_insert_cons : (s : String) (ss : List String) → text_insert s ss ≡ [] → ⊥
unfolding text_insert
text_insert_cons s [] h = cc h
text_insert_cons s (t ∷ ts) h = ground arith

module _ ⦃r : Runtime⦄ where
  blocking_reason-Allow :
      (row : JsonObject) (shown : List CompatibilityFailure)
      → Allow (blocking_reason row (sorted_set (map (λ f. f.message) shown)))
      → shown ≡ []
  unfolding sorted_set blocking_reason allows_comparison validity_reason
  blocking_reason-Allow row [] h = refl
  blocking_reason-Allow row (f ∷ fs) h =
      blocked (text_insert f.message (sorted_set (map (λ f. f.message) fs))) refl h
    where
      blocked :
          (messages : List String)
          → text_insert f.message (sorted_set (map (λ f. f.message) fs)) ≡ messages
          → Allow (blocking_reason row messages)
          → (f ∷ fs) ≡ []
      blocked [] e h = absurd (text_insert_cons f.message (sorted_set (map (λ f. f.message) fs)) e)
      blocked (m ∷ ms) e h = cc (h.0)

  pub compatibility_failure_reasons-Allow :
      (suite : String) (row : JsonObject) (reasons : List ValidityReason)
      → compatibility_failure_reasons suite row ≡ ok reasons
      → Allow reasons
      → shown_failures suite row ≡ ok []
  unfolding compatibility_failure_reasons
  compatibility_failure_reasons-Allow suite row reasons h allow =
      let (shown, read, h) = >>=-eq-ok (shown_failures suite row) _ h in
      let same = ok-injective h in
      let none_shown = blocking_reason-Allow row shown (rw (← same) at allow) in
      rw none_shown at read
