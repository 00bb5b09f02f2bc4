-- ===== src/Schema/Metadata/Diagnosed.antt =====
-- Theorems about the diagnostics of child processes that report_schema/decoding.py admits.
use fog_http_benchmark.Prelude.{
  ◌≡◌, ◌≢◌, sym, ap, ◌∙◌, ◌⊎◌, length, ◌==◌, nat_eq, value_error, ◌>>=◌, inl, inr, refl, Bool, true,
  not, ◌&&◌, String, Option-cases, none, some, List, All, for_each-All, ok, traverse, >>=-eq-ok,
  >>-eq-ok, ok-injective, raise_if, raise_if-eq-ok, Bool-cases, arith,
}
use fog_http_benchmark.Prelude.Int.{ℤ}
use fog_http_benchmark.Json.{
  Json, null, int, arr, obj, Items, nil, cons, JsonObject, get, find?, get_found, items,
}
use fog_http_benchmark.Runtime.{is_text}
use fog_http_benchmark.Schema.Fields.{is_null, require_object, require_rows, require_integer}
use fog_http_benchmark.Schema.Metadata.{
  check_present, is_int_value, validate_returncode, validate_child_diagnostic, validate_children,
  validate_isolation_metadata,
}

-- A child has an int as its return code, or null in a research run.
abbrev pub HasCode : Bool → JsonObject → Type 0
HasCode research child =
    ((n : ℤ) × (get child "returncode" ≡ int n))
    ⊎ ((research ≡ true) × (get child "returncode" ≡ null))

-- The children are objects with return codes.
abbrev pub AreDiagnosed : Bool → Items → Type 0
AreDiagnosed research nil = Unit
AreDiagnosed research (cons (obj child) rest) = HasCode research child × AreDiagnosed research rest
AreDiagnosed research (cons _ rest) = ⊥

is_null_lem : (v : Json) → is_null v ≡ true → v ≡ null
unfolding is_null
is_null_lem null h = refl
is_null_lem v h = cc h

is_int_value_lem : (v : Json) → is_int_value v ≡ true → (n : ℤ) × (v ≡ int n)
unfolding is_int_value
is_int_value_lem (int n) h = (n, refl)
is_int_value_lem v h = cc h

get_missing : (o : JsonObject) (k : String) → find? o k ≡ none → get o k ≡ null
unfolding get
get_missing o k missing = rw missing refl

-- A value that is not null stands in the dict.
pub found_of_get :
    (o : JsonObject) (k : String) (v : Json) → get o k ≡ v → v ≢ null → find? o k ≡ some v
found_of_get o k v h present = elim (Option-cases (find? o k)) [
  | inl missing ↦ absurd (present (sym h ∙ get_missing o k missing))
  | inr (w, found) ↦ found ∙ ap some (sym (get_found o k w found) ∙ h)
]

validate_returncode-HasCode :
    (research : Bool) (child : JsonObject)
    → validate_returncode child research "returncode" ≡ ok tt
    → HasCode research child
unfolding validate_returncode
validate_returncode-HasCode research child h =
    elim (Bool-cases (research && is_null (get child "returncode"))) [
      | inl failed ↦ inr (ground (arith, failed), is_null_lem _ (ground (arith, failed)))
      | inr judged ↦
          let h = rw judged at h in inl (is_int_value_lem _ (ground (arith, raise_if-eq-ok _ _ h)))
    ]

children-AreDiagnosed :
    (research : Bool) (children : Items) (rows : List JsonObject)
    → traverse require_object (items children) ≡ ok rows
    → All (λ child. validate_child_diagnostic research child ≡ ok tt) rows
    → AreDiagnosed research children
unfolding items traverse require_object validate_child_diagnostic
children-AreDiagnosed research nil rows h checked = tt
children-AreDiagnosed research (cons (obj child) rest) rows h checked =
    let (others, read, h) = >>=-eq-ok (traverse require_object (items rest)) _ h in
    let same = ok-injective h in
    let all_checked = rw (← same) at checked in
    let (code, _) = >>-eq-ok (validate_returncode child research "returncode") _ (all_checked.0) in
    (
      validate_returncode-HasCode research child code.1,
      children-AreDiagnosed research rest others read all_checked.1,
    )
children-AreDiagnosed research (cons v rest) rows h checked = cc h

-- The children of admitted isolation metadata are objects with return codes.
pub validate_isolation_metadata-AreDiagnosed :
    (metadata isolation : JsonObject) (children : Items)
    → get metadata "isolation" ≡ obj isolation
    → get isolation "children" ≡ arr children
    → validate_isolation_metadata metadata ≡ ok tt
    → AreDiagnosed (is_text (get isolation "mode") "per-lifecycle-case") children
unfolding validate_isolation_metadata validate_children require_object require_rows
validate_isolation_metadata-AreDiagnosed metadata isolation children found listed h =
    let research = is_text (get isolation "mode") "per-lifecycle-case" in
    let h = rw (found_of_get metadata "isolation" _ found (λ e. cc e), check_present) at h in
    let h = rw (found_of_get isolation "children" _ listed (λ e. cc e), check_present) at h in
    let (rows, read, h) = >>=-eq-ok (traverse require_object (items children)) _ h in
    let (_, h) =
      >>-eq-ok
        (check_present isolation "child_count"
          (λ v. require_integer v 0 >>= λ n. raise_if (not (n == length rows)) value_error))
        _ h in
    children-AreDiagnosed research children rows read
      (for_each-All (validate_child_diagnostic research) rows h)
