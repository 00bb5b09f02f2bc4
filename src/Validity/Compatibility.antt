-- ===== src/Validity/Compatibility.antt =====
-- Known incompatibilities of clients: validity/compatibility.py.
pub mod Blocking
use Prim.Native.String.{compare}
use text.Mathlib.Text.{is_lt}
use fog_http_benchmark.Prelude.{
  Bool, true, false, not, ◌&&◌, ◌||◌, String, Option, none, some, List, [], ◌∷◌, ◌++◌, map, any,
  keep, ◌==◌, string_eq, contains, if◌then◌else◌, Result, ok, err, ◌>>=◌,
}
use fog_http_benchmark.Prelude.Int.{ℤ, pos, negsuc, ltb_ℤ}
use fog_http_benchmark.Prelude.Text.{concat}
use fog_http_benchmark.Json.{JsonObject}
use fog_http_benchmark.Runtime.{Runtime}
use fog_http_benchmark.Validity.Summary.{ValidityReason, warning}
use fog_http_benchmark.Validity.Helpers.{
  dict_field, int_field, row_reference, str_field, validity_reason,
}
use fog_http_benchmark.Validity.Resource.{Counts, sum_counts, disagrees}

pub record CompatibilityFailure : Type 0 where
  pub suite : String
  pub client : String
  pub cases : List String
  pub error_types : List String
  pub message : String
  -- `none` for every mode
  pub modes : Option (List String)
  pub case_field : String
  pub error_fields : List String

abbrev both_fields : List String
both_fields = "error_types" ∷ "warmup_error_types" ∷ []

compressed : String → String → List String → String → CompatibilityFailure
compressed client case error_types message = record {
  suite = "compressed-response";
  client = client;
  cases = case ∷ [];
  error_types = error_types;
  message = message;
  modes = none;
  case_field = "scenario";
  error_fields = both_fields;
}

sync_warmup : String → List String → String → CompatibilityFailure
sync_warmup suite cases message = record {
  suite = suite;
  client = "zapros-pyreqwest";
  cases = cases;
  error_types = "RuntimeError" ∷ [];
  message = message;
  modes = some ("sync" ∷ []);
  case_field = "scenario";
  error_fields = "warmup_error_types" ∷ [];
}

unfoldable pub expected_compatibility_failures : List CompatibilityFailure
unfolding compressed sync_warmup
expected_compatibility_failures =
    compressed "aiohttp" "multi-gzip-deflate-64k" ("check_failed" ∷ [])
      "aiohttp decodes the multi-encoding response differently from this suite contract."
    ∷ compressed "zapros" "br-64k" ("ConnectionError" ∷ "ImportError" ∷ [])
        "zapros std handler has known brotli compatibility failures in this benchmark case."
    ∷ compressed "zapros" "multi-gzip-deflate-64k" ("ConnectionError" ∷ "DecodingError" ∷ [])
        "zapros std handler has known multi-encoding compatibility failures in this benchmark case."
    ∷ compressed "zapros-pyreqwest" "br-64k" ("ImportError" ∷ [])
        "zapros[pyreqwest] has known brotli compatibility failures in this benchmark case."
    ∷ compressed "zapros-pyreqwest" "multi-gzip-deflate-64k" ("DecodingError" ∷ [])
        "zapros[pyreqwest] has known multi-encoding compatibility failures in this benchmark case."
    ∷ sync_warmup "compressed-response"
        ("gzip-json-small" ∷ "gzip-64k" ∷ "deflate-64k" ∷ "gzip-high-ratio-1m" ∷ [])
        "zapros[pyreqwest] sync warmup intermittently reports RuntimeError in compressed cases."
    ∷ record {
      suite = "response-streaming";
      client = "aiohttp";
      cases = "long-line-1m" ∷ [];
      error_types = "LineTooLong" ∷ [];
      message = "aiohttp line reader rejects this intentionally long-line streaming case.";
      modes = some ("async" ∷ []);
      case_field = "case";
      error_fields = both_fields;
    }
    ∷ sync_warmup "requests"
        ("json-small" ∷ "json-decode-small" ∷ "bytes-64k" ∷ "post-json-echo" ∷ "post-echo-64k"
          ∷ "redirect-get-302" ∷ "redirect-head-302" ∷ "redirect-post-303" ∷ "redirect-post-307"
          ∷ "delay-20ms" ∷ "pool-contention-20ms" ∷ [])
        "zapros[pyreqwest] sync warmup intermittently reports RuntimeError in request cases."
    ∷ []

mode_allowed : Option (List String) → String → Bool
mode_allowed none mode = true
mode_allowed (some modes) mode = contains mode modes

-- adds a text to a sorted list without it
text_insert : String → List String → List String
text_insert s [] = s ∷ []
text_insert s (t ∷ ts) =
    if s == t then t ∷ ts else if is_lt (compare s t) then s ∷ t ∷ ts else t ∷ text_insert s ts

sorted_set : List String → List String
unfolding text_insert
sorted_set [] = []
sorted_set (s ∷ ss) = text_insert s (sorted_set ss)

-- `" ".join(messages)`, and a blank
spaced : List String → List String
spaced [] = []
spaced (s ∷ ss) = s ∷ " " ∷ spaced ss

module _ ⦃r : Runtime⦄ where
  unfoldable pub failure_matches : CompatibilityFailure → String → JsonObject → String → Bool
  unfolding mode_allowed
  failure_matches failure suite row error_field =
      failure.suite == suite
      && contains error_field failure.error_fields
      && str_field row "client" "" == failure.client
      && mode_allowed failure.modes (str_field row "mode" "")
      && contains (str_field row failure.case_field "") failure.cases

  unfoldable pub is_expected_type : String → JsonObject → String → String → Bool
  is_expected_type suite row error_field name =
      any (λ f. failure_matches f suite row error_field && contains name f.error_types)
        expected_compatibility_failures

  unfoldable pub compatibility_expected_error_count :
      String → JsonObject → String → String → Result ℤ
  compatibility_expected_error_count suite row error_field total_field = do
    counts ← dict_field row error_field
    total ← int_field row total_field
    if disagrees counts total
        then ok (pos 0)
        else ok (sum_counts (keep (λ e. is_expected_type suite row error_field e.0) counts))

  recorded : CompatibilityFailure → Counts → Bool
  recorded failure counts = any (λ e. ltb_ℤ (pos 0) e.1 && contains e.0 failure.error_types) counts

  -- The counts of a phase are read only for a failure that the row matches.
  failed_in : CompatibilityFailure → String → JsonObject → String → Result Bool
  unfolding recorded
  failed_in failure suite row error_field =
      if failure_matches failure suite row error_field
      then (dict_field row error_field >>= λ counts. ok (recorded failure counts))
      else ok false

  shown_from : String → JsonObject → List CompatibilityFailure → Result (List CompatibilityFailure)
  unfolding failed_in
  shown_from suite row [] = ok []
  shown_from suite row (failure ∷ failures) = do
    measured ← failed_in failure suite row "error_types"
    warmup ← failed_in failure suite row "warmup_error_types"
    rest ← shown_from suite row failures
    ok (if measured || warmup then failure ∷ rest else rest)

  -- The failures that a row shows, by its measured errors or by those of its warmup.
  unfoldable pub shown_failures : String → JsonObject → Result (List CompatibilityFailure)
  unfolding shown_from
  shown_failures suite row = shown_from suite row expected_compatibility_failures

  blocking_reason : JsonObject → List String → List ValidityReason
  unfolding spaced
  blocking_reason row [] = []
  blocking_reason row (message ∷ messages) =
      validity_reason warning "expected_compatibility_failure"
        (concat (
          spaced (message ∷ messages)
          ++ "Affected rows are diagnostic only; performance comparison is blocked." ∷ []))
        (row_reference row)
      ∷ []

  unfoldable pub compatibility_failure_reasons : String → JsonObject → Result (List ValidityReason)
  unfolding blocking_reason sorted_set
  compatibility_failure_reasons suite row = do
    shown ← shown_failures suite row
    ok (blocking_reason row (sorted_set (map (λ f. f.message) shown)))
