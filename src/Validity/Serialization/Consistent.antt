-- ===== src/Validity/Serialization/Consistent.antt =====
-- Theorems about the summaries that validity/serialization.py reads.
use fog_http_benchmark.Prelude.{
  ◌≡◌, refl, true, false, ◌&&◌, List, ◌∷◌, map, All, length, ◌==◌, string_eq, ok, >>=-eq-ok,
  ok-injective, >>-eq-ok, raise_if-eq-ok, ap, none, some, raise_if, value_error, and_right,
}
use fog_http_benchmark.Json.{Json, JsonObject, Items, nil, cons, arr, obj, get}
use fog_http_benchmark.Validity.Summary.{
  ValidityReason, ValiditySummary, is_comparable, is_valid_status, reasons_allow_comparison,
  count_reasons,
}
use fog_http_benchmark.Validity.Summary.Status.{IsWorse, combined_status-IsWorse}
use fog_http_benchmark.Validity.Serialization.{
  status_value, reason_from_payload, reasons_from_items, reasons_from_payload, bool_field,
  validate_reason_counts, validity_summary_from_payload, string_field, row_field,
}

abbrev pub HasCode : ValidityReason → Type 0
HasCode r = (r.code == "") ≡ false

pub record IsConsistent (s : ValiditySummary) : Type 0 where
  pub worst : IsWorse s.status (map (λ r. r.status) s.reasons)
  pub count : s.reason_count ≡ length s.reasons
  pub counts : s.reason_counts ≡ count_reasons s.reasons
  pub is_valid : s.is_valid ≡ true → is_valid_status s.status ≡ true
  pub can_compare :
      s.can_compare ≡ true → (is_comparable s.status && reasons_allow_comparison s.reasons) ≡ true
  pub codes : All HasCode s.reasons

reason_from_payload-HasCode :
    (v : Json) (r : ValidityReason) → reason_from_payload v ≡ ok r → HasCode r
unfolding reason_from_payload
reason_from_payload-HasCode (obj payload) r h =
    let (status, _, h) = >>=-eq-ok (status_value (get payload "status")) _ h in
    let (code, _, h) = >>=-eq-ok (string_field payload "code" none) _ h in
    let (_, named, h) = >>=-eq-ok (raise_if (code == "") value_error) _ h in
    let (row, _, h) = >>=-eq-ok (row_field payload) _ h in
    let (message, _, h) = >>=-eq-ok (string_field payload "message" (some "")) _ h in
    let (label, _, h) = >>=-eq-ok (string_field payload "row_label" (some "-")) _ h in
    rw (← ap (λ (q : ValidityReason). q.code) (ok-injective h)) (raise_if-eq-ok _ _ named)
reason_from_payload-HasCode v r h = cc

reasons_from_items-HasCode :
    (vs : Items) (rs : List ValidityReason) → reasons_from_items vs ≡ ok rs → All HasCode rs
unfolding reasons_from_items
reasons_from_items-HasCode nil rs h = rw (← ok-injective h) tt
reasons_from_items-HasCode (cons v vs) rs h =
    let (r, read, h) = >>=-eq-ok (reason_from_payload v) _ h in
    let (rest, reads, h) = >>=-eq-ok (reasons_from_items vs) _ h in
    rw (← ok-injective h)
      (reason_from_payload-HasCode v r read, reasons_from_items-HasCode vs rest reads)

reasons_from_payload-HasCode :
    (v : Json) (rs : List ValidityReason) → reasons_from_payload v ≡ ok rs → All HasCode rs
unfolding reasons_from_payload
reasons_from_payload-HasCode (arr vs) rs h = reasons_from_items-HasCode vs rs h
reasons_from_payload-HasCode v rs h = cc

-- Whatever is accepted as a recorded summary is consistent: its status is at least as bad as each
-- of its reasons, its counts are those of its reasons, and a recorded claim to be valid or
-- comparable is dropped where the status or a reason speaks against it.
pub validity_summary_from_payload-IsConsistent :
    (payload : JsonObject) (s : ValiditySummary)
    → validity_summary_from_payload payload ≡ ok s
    → IsConsistent s
unfolding validity_summary_from_payload
validity_summary_from_payload-IsConsistent payload s h =
    let (declared, _, h) = >>=-eq-ok (status_value (get payload "status")) _ h in
    let (reasons, read, h) = >>=-eq-ok (reasons_from_payload (get payload "reasons")) _ h in
    let (_, h) = >>-eq-ok (validate_reason_counts payload reasons (count_reasons reasons)) _ h in
    let (v, _, h) = >>=-eq-ok (bool_field payload "is_valid" _) _ h in
    let (c, _, h) = >>=-eq-ok (bool_field payload "can_compare" _) _ h in
    rw (← ok-injective h) (record {
      worst = (combined_status-IsWorse (declared ∷ map (λ r. r.status) reasons)).1;
      count = refl;
      counts = refl;
      is_valid = λ e. and_right v _ e;
      can_compare = λ e. and_right c _ e;
      codes = reasons_from_payload-HasCode _ reasons read;
    })
