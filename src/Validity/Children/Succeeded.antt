-- ===== src/Validity/Children/Succeeded.antt =====
-- Theorems about the reasons of validity/children.py.
use fog_http_benchmark.Prelude.{
  ◌≡◌, ◌⊎◌, inl, inr, sym, ap, ◌∙◌, refl, Bool, true, false, ◌&&◌, String, List, ◌==◌, All-append,
  ok, >>=-eq-ok, ok-injective, arith, if◌then◌else◌,
}
use fog_http_benchmark.Prelude.Int.{ℤ, pos, ℤ_eq}
use fog_http_benchmark.Json.{
  arr, obj, null, bool, int, float, str, Items, nil, cons, JsonObject, get, get_or,
}
use fog_http_benchmark.Runtime.{Runtime, is_text}
use fog_http_benchmark.Schema.Metadata.{validate_isolation_metadata}
use fog_http_benchmark.Schema.Metadata.Diagnosed.{
  HasCode, AreDiagnosed, found_of_get, validate_isolation_metadata-AreDiagnosed,
}
use fog_http_benchmark.Validity.Summary.{ValidityReason, Allow, allows_comparison}
use fog_http_benchmark.Validity.Helpers.{int_field, int_value, validity_reason}
use fog_http_benchmark.Validity.Children.{
  is_path, child_invalid, child_reference, child_reasons, child_provenance_reasons, children_from,
  children_of, child_process_reasons,
}

-- A child process that the gate takes for successful.
pub record ReadsSuccessful (child : JsonObject) : Type 0 where
  pub reads_zero : int_field child "returncode" ≡ ok (pos 0)
  pub has_path : is_path (get child "report_path") ≡ true

abbrev pub ReadSuccessful : Items → Type 0
ReadSuccessful nil = Unit
ReadSuccessful (cons (obj child) rest) = ReadsSuccessful child × ReadSuccessful rest
ReadSuccessful (cons _ rest) = ReadSuccessful rest

-- A child process with a report and the return code zero, or, in a research run, with null for it.
pub record IsSuccessful (research : Bool) (child : JsonObject) : Type 0 where
  pub returncode :
      (get child "returncode" ≡ int (pos 0)) ⊎ ((research ≡ true) × (get child "returncode" ≡ null))
  pub report_path : is_path (get child "report_path") ≡ true

-- Each of the children is an object and is successful.
abbrev pub AreSuccessful : Bool → Items → Type 0
AreSuccessful research nil = Unit
AreSuccessful research (cons (obj child) rest) =
    IsSuccessful research child × AreSuccessful research rest
AreSuccessful research (cons _ rest) = ⊥

int_field_of_int :
    (child : JsonObject) (k : String) (n : ℤ) → get child k ≡ int n → int_field child k ≡ ok n
unfolding int_field get_or int_value
int_field_of_int child k n h = rw (found_of_get child k (int n) h (λ e. cc e), get_or) refl

-- What a return code says that was admitted and that reads as zero.
IsSuccessful_lem :
    (research : Bool) (child : JsonObject)
    → HasCode research child
    → ReadsSuccessful child
    → IsSuccessful research child
IsSuccessful_lem research child (inl (n, code)) reads = record {
  returncode = inl (
      code
      ∙ ap int
          (ok-injective (sym (int_field_of_int child "returncode" n code) ∙ reads.reads_zero)));
  report_path = reads.has_path;
}
IsSuccessful_lem research child (inr failed) reads = record {
  returncode = inr failed;
  report_path = reads.has_path;
}

AreSuccessful_lem :
    (research : Bool) (children : Items)
    → AreDiagnosed research children
    → ReadSuccessful children
    → AreSuccessful research children
AreSuccessful_lem research nil diagnosed reads = tt
AreSuccessful_lem research (cons (obj child) rest) diagnosed reads = (
  IsSuccessful_lem research child diagnosed.0 reads.0,
  AreSuccessful_lem research rest diagnosed.1 reads.1,
)
AreSuccessful_lem research (cons v rest) diagnosed reads = absurd diagnosed

module _ ⦃r : Runtime⦄ where
  child_invalid-Allow :
      (code message : String) (child : JsonObject) (reasons : List ValidityReason)
      → child_invalid code message child ≡ ok reasons
      → Allow reasons
      → ⊥
  unfolding child_invalid allows_comparison validity_reason
  child_invalid-Allow code message child reasons h allow =
      let (reference, _, h) = >>=-eq-ok (child_reference child) _ h in
      let same = ok-injective h in let allow = rw (← same) at allow in cc (allow.0)

  child_reasons-ReadsSuccessful :
      (metadata child : JsonObject) (reasons : List ValidityReason)
      → child_reasons metadata child ≡ ok reasons
      → Allow reasons
      → ReadsSuccessful child
  unfolding child_reasons
  child_reasons-ReadsSuccessful metadata child reasons h allow =
      let (returncode, read, h) = >>=-eq-ok (int_field child "returncode") _ h in
      succeeded returncode read _ refl h
    where
      succeeded :
          (returncode : ℤ)
          → int_field child "returncode" ≡ ok returncode
          → (b : Bool) → (returncode == pos 0 && is_path (get child "report_path")) ≡ b
          → (if b
              then child_provenance_reasons metadata child
              else child_invalid "isolated_child_failed"
                  "Isolated child process failed or did not write a report." child)
            ≡ ok reasons
          → ReadsSuccessful child
      succeeded returncode read true well h = record {
        reads_zero = rw (← (ℤ_eq.decides returncode (pos 0)).0 (ground (arith, well))) read;
        has_path = ground (arith, well);
      }
      succeeded returncode read false badly h =
          absurd (child_invalid-Allow _ _ child reasons h allow)

  children_from-ReadSuccessful :
      (metadata : JsonObject) (children : Items) (reasons : List ValidityReason)
      → children_from metadata children ≡ ok reasons
      → Allow reasons
      → ReadSuccessful children
  unfolding children_from
  children_from-ReadSuccessful metadata nil reasons h allow = tt
  children_from-ReadSuccessful metadata (cons (obj child) rest) reasons h allow =
      let (these, read, h) = >>=-eq-ok (child_reasons metadata child) _ h in
      let (others, found, h) = >>=-eq-ok (children_from metadata rest) _ h in
      let same = ok-injective h in
      let all_allow = rw (← same) at allow in
      let (here, there) = All-append _ these others all_allow in
      (
        child_reasons-ReadsSuccessful metadata child these read here,
        children_from-ReadSuccessful metadata rest others found there,
      )
  children_from-ReadSuccessful metadata (cons null rest) reasons h allow =
      children_from-ReadSuccessful metadata rest reasons h allow
  children_from-ReadSuccessful metadata (cons (bool b) rest) reasons h allow =
      children_from-ReadSuccessful metadata rest reasons h allow
  children_from-ReadSuccessful metadata (cons (int n) rest) reasons h allow =
      children_from-ReadSuccessful metadata rest reasons h allow
  children_from-ReadSuccessful metadata (cons (float x) rest) reasons h allow =
      children_from-ReadSuccessful metadata rest reasons h allow
  children_from-ReadSuccessful metadata (cons (str s) rest) reasons h allow =
      children_from-ReadSuccessful metadata rest reasons h allow
  children_from-ReadSuccessful metadata (cons (arr vs) rest) reasons h allow =
      children_from-ReadSuccessful metadata rest reasons h allow

  child_process_reasons-ReadSuccessful :
      (metadata isolation : JsonObject) (children : Items) (reasons : List ValidityReason)
      → get metadata "isolation" ≡ obj isolation
      → get isolation "children" ≡ arr children
      → child_process_reasons metadata ≡ ok reasons
      → Allow reasons
      → ReadSuccessful children
  unfolding child_process_reasons children_of
  child_process_reasons-ReadSuccessful metadata isolation children reasons found listed h allow =
      let h = rw (found, child_process_reasons) at h in
      let h = rw (listed, children_of) at h in
      children_from-ReadSuccessful metadata children reasons h allow

  -- Children that are admitted and that give no reason against a comparison are successful.
  pub child_process_reasons-AreSuccessful :
      (metadata isolation : JsonObject) (children : Items) (reasons : List ValidityReason)
      → get metadata "isolation" ≡ obj isolation
      → get isolation "children" ≡ arr children
      → validate_isolation_metadata metadata ≡ ok tt
      → child_process_reasons metadata ≡ ok reasons
      → Allow reasons
      → AreSuccessful (is_text (get isolation "mode") "per-lifecycle-case") children
  child_process_reasons-AreSuccessful metadata isolation children reasons found listed admitted h
        allow =
      AreSuccessful_lem (is_text (get isolation "mode") "per-lifecycle-case") children
        (validate_isolation_metadata-AreDiagnosed metadata isolation children found listed admitted)
        (child_process_reasons-ReadSuccessful metadata isolation children reasons found listed h
          allow)
