-- ===== src/Validity/Children.antt =====
-- The child processes of an isolated run: validity/children.py.
pub mod Succeeded
use fog_http_benchmark.Prelude.{
  Bool, false, not, ◌&&◌, ◌||◌, String, List, [], ◌∷◌, ◌++◌, ◌==◌, string_eq, if◌then◌else◌, Result,
  ok, ◌>>=◌,
}
use fog_http_benchmark.Prelude.Int.{pos, ℤ_eq}
use fog_http_benchmark.Json.{
  Json, int, str, arr, obj, Items, nil, cons, JsonObject, empty, entry, get, has, json_eq,
}
use fog_http_benchmark.Runtime.{Runtime}
use fog_http_benchmark.Validity.Summary.{ValidityReason, invalid}
use fog_http_benchmark.Validity.Helpers.{int_field, str_field, validity_reason}

-- a text that is not empty
pub is_path : Json → Bool
is_path (str s) = not (s == "")
is_path _ = false

module _ ⦃r : Runtime⦄ where
  child_reference : JsonObject → Result JsonObject
  child_reference child = do
    sequence ← int_field child "sequence"
    returncode ← int_field child "returncode"
    ok (
        entry "sequence" (int sequence) (
          entry "client" (str (str_field child "client" "")) (
            entry "scenario" (str (str_field child "scenario" "-"))
              (entry "returncode" (int returncode) empty))))

  child_invalid : String → String → JsonObject → Result (List ValidityReason)
  unfolding child_reference
  child_invalid code message child = do
    reference ← child_reference child
    ok (validity_reason invalid code message reference ∷ [])

  provenance_differs : JsonObject → JsonObject → Json → Bool
  provenance_differs metadata child provenance =
      not (json_eq provenance (get metadata "research_provenance"))
      || not (json_eq (get child "package_sources") (get metadata "package_sources"))

  checked_provenance : JsonObject → JsonObject → Json → Result (List ValidityReason)
  unfolding child_invalid provenance_differs
  checked_provenance metadata child (obj provenance) =
      if provenance_differs metadata child (obj provenance)
      then child_invalid "isolated_child_provenance_mismatch"
          "Isolated child research provenance differs from the parent report." child
      else ok []
  checked_provenance metadata child _ =
      child_invalid "isolated_child_provenance_missing"
        "Isolated child report does not contain verified research provenance." child

  unfoldable pub child_provenance_reasons : JsonObject → JsonObject → Result (List ValidityReason)
  unfolding checked_provenance
  child_provenance_reasons metadata child =
      if has metadata "research_provenance"
      then checked_provenance metadata child (get child "research_provenance")
      else ok []

  unfoldable pub child_reasons : JsonObject → JsonObject → Result (List ValidityReason)
  unfolding child_invalid is_path
  child_reasons metadata child = do
    returncode ← int_field child "returncode"
    if returncode == pos 0 && is_path (get child "report_path")
        then child_provenance_reasons metadata child
        else child_invalid "isolated_child_failed"
            "Isolated child process failed or did not write a report." child

  children_from : JsonObject → Items → Result (List ValidityReason)
  children_from metadata nil = ok []
  children_from metadata (cons (obj child) rest) = do
    these ← child_reasons metadata child
    others ← children_from metadata rest
    ok (these ++ others)
  children_from metadata (cons _ rest) = children_from metadata rest

  children_of : JsonObject → Json → Result (List ValidityReason)
  unfolding children_from
  children_of metadata (arr children) = children_from metadata children
  children_of metadata _ = ok []

  unfoldable pub child_process_reasons : JsonObject → Result (List ValidityReason)
  unfolding children_of
  child_process_reasons metadata = elim (get metadata "isolation") [
    | obj isolation ↦ children_of metadata (get isolation "children")
    | _ ↦ ok []
  ]
