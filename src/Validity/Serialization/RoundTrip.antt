-- ===== src/Validity/Serialization/RoundTrip.antt =====
-- Theorems about reading what validity/serialization.py wrote.
use fog_http_benchmark.Prelude.{
  ℕ, ◌≡◌, refl, Bool, true, false, ◌&&◌, List, [], ◌∷◌, All, all, arith, ◌==◌, nat_eq, string_eq,
  ok,
}
use fog_http_benchmark.Json.{get, find?}
use fog_http_benchmark.Validity.Summary.{
  ValidityStatus, valid, warning, needs_rerun, invalid, ValidityReason, StatusCounts,
  ValiditySummary, count_reasons, count_one, count_from,
}
use fog_http_benchmark.Validity.Summary.Status.{combined_status_of_worse}
use fog_http_benchmark.Validity.Serialization.{
  status_text, status_of_text, status_value, reason_payload, reason_items, count_payload,
  validity_payload, reason_from_payload, reasons_from_items, nonzero_counts, counts_eq,
  validate_reason_counts, validity_summary_from_payload,
}
use fog_http_benchmark.Validity.Serialization.Consistent.{HasCode, IsConsistent}

status_of_text-status_text : (s : ValidityStatus) → status_of_text (status_text s) ≡ ok s
unfolding status_of_text status_text
status_of_text-status_text valid = refl
status_of_text-status_text warning = refl
status_of_text-status_text needs_rerun = refl
status_of_text-status_text invalid = refl

reason_from_payload-reason_payload :
    (r : ValidityReason) → HasCode r → reason_from_payload (reason_payload r) ≡ ok r
unfolding reason_from_payload reason_payload get find?
reason_from_payload-reason_payload r h = rw (h, status_of_text-status_text)

reasons_from_items-reason_items :
    (rs : List ValidityReason) → All HasCode rs → reasons_from_items (reason_items rs) ≡ ok rs
unfolding reasons_from_items reason_items
reasons_from_items-reason_items [] h = refl
reasons_from_items-reason_items (r ∷ rs) h =
    rw (reason_from_payload-reason_payload r h.0, reasons_from_items-reason_items rs h.1)

abbrev AreCounted : StatusCounts → Type 0
AreCounted = All (λ (e : ValidityStatus × ℕ). (e.1 == 0) ≡ false)

nonzero_counts-count_payload :
    (counts : StatusCounts) → AreCounted counts → nonzero_counts (count_payload counts) ≡ ok counts
unfolding nonzero_counts count_payload status_value
nonzero_counts-count_payload [] h = refl
nonzero_counts-count_payload ((s, n) ∷ counts) h =
    rw (status_of_text-status_text, nonzero_counts-count_payload counts h.1, h.0)

count_one-AreCounted :
    (s : ValidityStatus) (counts : StatusCounts)
    → AreCounted counts
    → AreCounted (count_one s counts)
unfolding count_one
count_one-AreCounted s [] h = ground arith
count_one-AreCounted s ((t, n) ∷ counts) h = ground (arith, count_one-AreCounted s counts h.1)

count_from-AreCounted :
    (counts : StatusCounts) (rs : List ValidityReason)
    → AreCounted counts
    → AreCounted (count_from counts rs)
unfolding count_from
count_from-AreCounted counts [] h = h
count_from-AreCounted counts (r ∷ rs) h =
    count_from-AreCounted (count_one r.status counts) rs (count_one-AreCounted r.status counts h)

counts_eq_refl : (counts : StatusCounts) → counts_eq counts counts ≡ true
unfolding counts_eq all
counts_eq_refl counts = ground arith

count_reasons-AreCounted : (rs : List ValidityReason) → AreCounted (count_reasons rs)
unfolding count_reasons
count_reasons-AreCounted rs = count_from-AreCounted [] rs tt

validate_reason_counts_of_payload :
    (s : ValiditySummary)
    → IsConsistent s
    → validate_reason_counts (validity_payload s) s.reasons (count_reasons s.reasons) ≡ ok tt
unfolding validate_reason_counts validity_payload find?
validate_reason_counts_of_payload s h =
    rw
      (
        h.count,
        h.counts,
        nonzero_counts-count_payload _ (count_reasons-AreCounted s.reasons),
        counts_eq_refl (count_reasons s.reasons),
      )
      (ground arith)

and_absorb : (a b : Bool) → (a ≡ true → b ≡ true) → (a && b) ≡ a
and_absorb true b h = h refl
and_absorb false b h = refl

-- Reading a consistent summary from its payload gives the summary back.
pub validity_summary_from_payload-validity_payload :
    (s : ValiditySummary)
    → IsConsistent s
    → validity_summary_from_payload (validity_payload s) ≡ ok s
unfolding validity_summary_from_payload validity_payload get find? status_value
validity_summary_from_payload-validity_payload s h =
    rw
      (
        status_of_text-status_text,
        reasons_from_items-reason_items s.reasons h.codes,
        combined_status_of_worse s.status _ h.worst,
        validate_reason_counts_of_payload s h,
        and_absorb s.is_valid _ h.is_valid,
        and_absorb s.can_compare _ h.can_compare,
      )
      (cc (h.count, h.counts))
