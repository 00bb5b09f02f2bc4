-- ===== src/Validity/Profiles.antt =====
-- Which streaming profile a report belongs to: validity/streaming_profiles.py.
use text.Mathlib.Text.{starts_with}
use fog_http_benchmark.Prelude.{
  Bool, true, false, not, ◌&&◌, ◌||◌, String, Option, none, some, List, [], ◌∷◌, any, ◌==◌,
  string_eq, if◌then◌else◌,
}
use fog_http_benchmark.Json.{Json, null, str, obj, JsonObject, empty, get, has}
use fog_http_benchmark.Runtime.{Runtime, is_text}
use fog_http_benchmark.Validity.Summary.{ValidityReason, invalid}
use fog_http_benchmark.Validity.Helpers.{row_reference, validity_reason}

is_object : Json → Bool
is_object (obj o) = true
is_object _ = false

-- `isinstance(value, dict) and value.get(key) is not None`
has_value : Json → String → Bool
has_value (obj o) key = elim (get o key) [ null ↦ false | _ ↦ true ]
has_value _ key = false

-- `value.get(key) if isinstance(value, dict) else None`
member : Json → String → Json
member (obj o) key = get o key
member _ key = null

is_policy : Json → Bool
is_policy (str s) = starts_with s "async-bytes-"
is_policy _ = false

async_bytes_envelope : JsonObject → Bool
unfolding has_value member is_policy
async_bytes_envelope value =
    is_policy (get value "policy_version")
    || has value "raw_evidence"
    || has value "raw_evidence_validation"
    || is_text (get value "primary_metric") "verified_bytes_s_median"
    || has value "verified_bytes_s_median"
    || has_value (get value "config") "attribution"
    || has_value (get value "configuration") "attribution"
    || has_value (member (get value "conditions") "configuration") "attribution"

lifecycle_resources : JsonObject → Bool
unfolding is_object member
lifecycle_resources row =
    is_object (member (get row "resources") "client")
    && is_object (member (get row "resources") "server")

unfoldable pub research_envelope_profile : JsonObject → List JsonObject → Option String
unfolding async_bytes_envelope lifecycle_resources
research_envelope_profile metadata rows =
    if any async_bytes_envelope (metadata ∷ rows)
    then some "async-bytes"
    else if has metadata "lifecycle"
        || is_text (member (get metadata "isolation") "mode") "per-lifecycle-case"
    then some "lifecycle"
    else if any lifecycle_resources rows
    then some "lifecycle"
    else none

is_some_text : Option String → String → Bool
is_some_text none s = false
is_some_text (some t) s = t == s

unfoldable pub uses_streaming_profile : JsonObject → List JsonObject → String → Bool
unfolding is_some_text
uses_streaming_profile metadata rows profile =
    is_text (get metadata "profile") profile
    || any (λ row. is_text (get row "profile") profile) rows
    || is_some_text (research_envelope_profile metadata rows) profile

is_ordinary : Json → Bool
is_ordinary null = true
is_ordinary v = is_text v "default"

is_research : Json → Bool
is_research v = is_text v "lifecycle" || is_text v "async-bytes"

-- `row_profile == profile` of a research profile, and any ordinary one otherwise
row_matches : Json → JsonObject → Bool
unfolding is_research is_ordinary
row_matches profile row =
    if is_text profile "lifecycle"
    then is_text (get row "profile") "lifecycle"
    else if is_text profile "async-bytes"
    then is_text (get row "profile") "async-bytes"
    else is_ordinary (get row "profile")

first_mismatch : Json → List JsonObject → Option JsonObject
unfolding row_matches
first_mismatch profile [] = none
first_mismatch profile (row ∷ rows) =
    if row_matches profile row then first_mismatch profile rows else some row

module _ ⦃r : Runtime⦄ where
  mismatch_reason : String → JsonObject → ValidityReason
  mismatch_reason = validity_reason invalid "streaming_profile_mismatch"

  unmatched_envelope : Json → Option String → Bool
  unmatched_envelope profile none = false
  unmatched_envelope profile (some envelope) = not (is_text profile envelope)

  unfoldable pub streaming_profile_reasons :
      String → JsonObject → List JsonObject → List ValidityReason
  unfolding mismatch_reason unmatched_envelope is_ordinary is_research first_mismatch
  streaming_profile_reasons suite metadata rows =
      let profile = get metadata "profile" in
      if not (suite == "response-streaming")
      then []
      else if not (is_ordinary profile || is_research profile)
      then mismatch_reason "Response-streaming metadata declares an unknown profile." empty ∷ []
      else if unmatched_envelope profile (research_envelope_profile metadata rows)
      then mismatch_reason
          "A research streaming envelope requires its explicit matching metadata profile." empty
        ∷ []
      else elim (first_mismatch profile rows) [
        | none ↦ []
        | some row ↦
            mismatch_reason
              "Response-streaming metadata and every aggregate row must declare the same research profile; ordinary legacy rows may omit it."
              (row_reference row)
            ∷ []
      ]
