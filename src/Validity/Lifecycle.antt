-- ===== src/Validity/Lifecycle.antt =====
-- The cases of a lifecycle run: validity/lifecycle.py.
pub mod Processes
use fog_http_benchmark.Prelude.{
  Bool, true, false, not, ◌&&◌, ◌||◌, String, Option, none, some, List, [], ◌∷◌, ◌++◌, length,
  contains, ◌==◌, string_eq, nat_eq, if◌then◌else◌, Result, ok, ◌>>=◌,
}
use fog_http_benchmark.Prelude.Int.{ℤ, pos, ℤ_eq, ltb_ℤ}
use fog_http_benchmark.Prelude.Text.{concat}
use fog_http_benchmark.Json.{
  Json, null, bool, int, float, str, arr, obj, nil, cons, JsonObject, empty, entry, get, json_eq,
  items, Float, finite, whole, float_lt, fixed_1,
}
use fog_http_benchmark.Runtime.{Runtime, is_text}
use fog_http_benchmark.Validity.Summary.{ValidityReason, invalid, warning}
use fog_http_benchmark.Validity.Helpers.{
  int_field, optional_float_field, row_reference, validity_reason,
}
use fog_http_benchmark.Validity.Profiles.{uses_streaming_profile}

unfoldable pub variation_limit : Float
variation_limit = whole 10

-- `bool(value)`
unfoldable pub is_truthy : Json → Bool
is_truthy null = false
is_truthy (bool b) = b
is_truthy (int n) = not (n == pos 0)
is_truthy (float (finite n)) = not (n == pos 0)
is_truthy (float x) = true
is_truthy (str s) = not (s == "")
is_truthy (arr nil) = false
is_truthy (arr (cons v vs)) = true
is_truthy (obj empty) = false
is_truthy (obj (entry k v o)) = true

-- `value is True` and `value is False`
unfoldable pub is_true : Json → Bool
is_true (bool b) = b
is_true _ = false

is_false : Json → Bool
is_false (bool b) = not b
is_false _ = false

-- The dicts of a list, in order.
unfoldable pub objects : List Json → List JsonObject
objects [] = []
objects (obj o ∷ vs) = o ∷ objects vs
objects (v ∷ vs) = objects vs

-- `isinstance(value, int)`, which a bool is
pub pid_of : Json → Option ℤ
pid_of (int n) = some n
pid_of (bool true) = some (pos 1)
pid_of (bool false) = some (pos 0)
pid_of _ = none

module _ ⦃r : Runtime⦄ where
  unfoldable pub lifecycle_invalid : String → String → JsonObject → ValidityReason
  lifecycle_invalid = validity_reason invalid

  pid_reused : JsonObject → ValidityReason
  unfolding lifecycle_invalid
  pid_reused case =
      lifecycle_invalid "lifecycle_pid_reused"
        "A client/server PID appears in multiple fresh cases; ownership is ambiguous."
        (row_reference case)

  -- The PIDs seen so far, and the reasons found.
  note_pid : JsonObject → Option ℤ → List ℤ × List ValidityReason → List ℤ × List ValidityReason
  unfolding pid_reused
  note_pid case none acc = acc
  note_pid case (some pid) (seen, reasons) =
      (pid ∷ seen, if contains pid seen then reasons ++ pid_reused case ∷ [] else reasons)

  pids_from : List JsonObject → List ℤ × List ValidityReason → List ValidityReason
  unfolding note_pid pid_of
  pids_from [] (seen, reasons) = reasons
  pids_from (case ∷ cases) acc = pids_from cases (
      note_pid case (pid_of (get case "server_pid"))
        (note_pid case (pid_of (get case "client_pid")) acc))

  unfoldable pub pid_reuse_reasons : List JsonObject → List ValidityReason
  unfolding pids_from
  pid_reuse_reasons cases = pids_from cases ([], [])

  when_not : Bool → ValidityReason → List ValidityReason
  when_not true reason = []
  when_not false reason = reason ∷ []

  -- A cancellation control may be unsupported in a sync case, for a stated reason.
  control_passed : JsonObject → String × Bool → Json → Bool
  control_passed case (name, is_cancel) (obj control) =
      is_text (get control "status") "ok"
      || (is_text (get case "mode") "sync"
          && is_cancel
          && is_text (get control "status") "unsupported"
          && is_truthy (get control "reason"))
  control_passed case name _ = false

  held_tail_reasons : JsonObject → String → Json → Result (List ValidityReason)
  held_tail_reasons case name (obj control) =
      if name == "held_tail"
      then (do
        aborts ← int_field control "expected_aborts"
        ok (
            when_not (ltb_ℤ (pos 0) aborts) (
              lifecycle_invalid "lifecycle_abort_unverified"
                "Held-tail control did not verify any unread-body abort." (row_reference case))))
      else ok []
  held_tail_reasons case name _ = ok []

  control_reasons : JsonObject → JsonObject → List (String × Bool) → Result (List ValidityReason)
  unfolding control_passed held_tail_reasons when_not
  control_reasons case controls [] = ok []
  control_reasons case controls (control ∷ rest) = do
    aborts ← held_tail_reasons case control.0 (get controls control.0)
    others ← control_reasons case controls rest
    ok (
        when_not (control_passed case control (get controls control.0)) (
          lifecycle_invalid "lifecycle_control_failed"
            (concat ("Required lifecycle control '" ∷ control.0 ∷ "' did not succeed." ∷ []))
            (row_reference case))
        ++ aborts
        ++ others)

  -- the names, and whether they end in `_cancel`
  abbrev control_names : List (String × Bool)
  control_names =
      ("held_tail", false)
      ∷ ("recovery", false)
      ∷ ("body_wait_cancel", true)
      ∷ ("slow_consumer_cancel", true)
      ∷ []

  case_failed : JsonObject → Bool
  case_failed case =
      is_truthy (get case "failure")
      || is_truthy (get case "failures")
      || not (is_text (get case "worker_status") "ok")
      || is_truthy (get case "errors")

  unfoldable pub case_reasons : JsonObject → Result (List ValidityReason)
  unfolding case_failed when_not control_reasons is_false
  case_reasons case =
      let reference = row_reference case in
      let reasons =
        when_not (not (case_failed case)) (
          lifecycle_invalid "lifecycle_case_failed"
            "Lifecycle child, server, resource guard or owned control failed; raw output is retained."
            reference)
        ++ when_not (is_true (get case "pid_identity_valid")) (
            lifecycle_invalid "lifecycle_pid_identity_invalid"
              "Parent/client/server PIDs or per-PID samples do not match the declared ownership."
              reference)
        ++ when_not
            (is_false (get case "resources_truncated")
              && is_true (get case "resource_samples_present"))
            (lifecycle_invalid "lifecycle_resource_samples_incomplete"
              "Resource samples are missing or exceeded their bounded recording cap." reference) in
      elim (get case "controls") [
        | obj controls ↦
            (control_reasons case controls control_names >>= λ found. ok (reasons ++ found))
        | _ ↦ ok (
            reasons
            ++ lifecycle_invalid "lifecycle_controls_missing"
                "Lifecycle control outcomes are missing." reference
              ∷ [])
      ]

  cases_from : List Json → Result (List ValidityReason)
  cases_from [] = ok []
  cases_from (obj case ∷ rest) = do
    these ← case_reasons case
    others ← cases_from rest
    ok (these ++ others)
  cases_from (v ∷ rest) = do
    others ← cases_from rest
    ok (
        lifecycle_invalid "lifecycle_case_invalid" "Lifecycle process diagnostics are malformed."
          empty
        ∷ others)

  plan_incomplete : ValidityReason
  plan_incomplete =
      lifecycle_invalid "lifecycle_plan_incomplete"
        "Lifecycle reports do not match the declared case plan." empty

  plan_complete : JsonObject → List Json → Bool
  plan_complete lifecycle cases =
      json_eq (int (pos (length cases))) (get lifecycle "expected_cases")
      && is_truthy (get lifecycle "plan_matches")

  unfoldable pub plan_case_reasons : JsonObject → Result (List ValidityReason)
  unfolding cases_from plan_incomplete plan_complete when_not
  plan_case_reasons lifecycle = elim (get lifecycle "cases") [
    | arr cases ↦
        (cases_from (items cases) >>= λ found. ok (
          when_not (plan_complete lifecycle (items cases)) plan_incomplete
          ++ found
          ++ pid_reuse_reasons (objects (items cases))))
    | _ ↦ ok (plan_incomplete ∷ [])
  ]

  variation_reason : JsonObject → String → Option Float → List ValidityReason
  unfolding variation_limit
  variation_reason row field none = []
  variation_reason row field (some value) =
      if float_lt variation_limit value
      then validity_reason warning "lifecycle_high_variation"
          (concat (
            field
            ∷ " is "
            ∷ fixed_1 value
            ∷ "%, above the predeclared 10% criterion across fresh repetitions."
            ∷ []))
          (row_reference row)
        ∷ []
      else []

  row_variation : JsonObject → Result (List ValidityReason)
  unfolding variation_reason
  row_variation row = do
    samples ← int_field row "variation_sample_count"
    if ltb_ℤ samples (pos 3) then ok [] else (do
      streams ← optional_float_field row "streams_s_cv_percent"
      duration ← optional_float_field row "duration_s_cv_percent"
      ok (
          variation_reason row "streams_s_cv_percent" streams
          ++ variation_reason row "duration_s_cv_percent" duration))

  unfoldable pub aggregate_reasons : List JsonObject → Result (List ValidityReason)
  unfolding row_variation when_not
  aggregate_reasons [] = ok []
  aggregate_reasons (row ∷ rows) = do
    variation ← row_variation row
    others ← aggregate_reasons rows
    ok (
        when_not (is_true (get row "configurations_match")) (
          lifecycle_invalid "lifecycle_configuration_mismatch"
            "Fresh repetitions used different or missing lifecycle configurations."
            (row_reference row))
        ++ variation
        ++ others)

  unfoldable pub lifecycle_report_reasons :
      JsonObject → List JsonObject → Result (List ValidityReason)
  lifecycle_report_reasons metadata rows =
      if not (uses_streaming_profile metadata rows "lifecycle")
      then ok []
      else elim (get metadata "lifecycle") [
        | obj lifecycle ↦
            (plan_case_reasons lifecycle >>= λ planned.
            aggregate_reasons rows >>= λ varied. ok (planned ++ varied))
        | _ ↦ ok (
            lifecycle_invalid "lifecycle_cases_missing" "Lifecycle process diagnostics are missing."
              empty
            ∷ [])
      ]
