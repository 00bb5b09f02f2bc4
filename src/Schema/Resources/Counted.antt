-- ===== src/Schema/Resources/Counted.antt =====
-- Theorems about how many runs recorded a metric, of report_schema/resources.py.
use fog_http_benchmark.Prelude.{
  suc, sym, ap, ◌∙◌, Bool-cases, Option-cases, keep, lookup, map, ok-injective, ℕ, ◌≡◌, refl, ◌⊎◌,
  inl, inr, Bool, false, not, String, Option, none, some, List, [], ◌∷◌, length, nat_eq, string_eq,
  list_eq, traverse, ok, ◌>>=◌, >>=-eq-ok, if◌then◌else◌,
}
use fog_http_benchmark.Json.{Json, null, obj, JsonObject, get}
use fog_http_benchmark.Schema.Fields.{is_null, require_object}
use fog_http_benchmark.Schema.Tables.{raw_resource_fields, client_stat_fields}
use fog_http_benchmark.Schema.Resources.{recorded_observations, count_true, stat_recorded}

-- the value of a field of a dict is there
abbrev has_value : Json → String → Bool
has_value (obj o) field = not (is_null (get o field))
has_value v field = false

-- A run records a metric under a field of its own or of its client statistics.
abbrev pub records_metric : String → JsonObject → Bool
records_metric metric run = elim (lookup metric raw_resource_fields) [
  | some field ↦ not (is_null (get run field))
  | none ↦ elim (lookup metric client_stat_fields) [
    | some field ↦ has_value (get run "client_stats") field
    | none ↦ false
  ]
]

keep_same :
    (p q : JsonObject → Bool) (runs : List JsonObject)
    → ((run : JsonObject) → p run ≡ q run)
    → keep p runs ≡ keep q runs
unfolding keep
keep_same p q [] same = refl
keep_same p q (run ∷ runs) same = elim (Bool-cases (p run)) [
  | inl kept ↦ rw (kept, sym (same run) ∙ kept) (ap (λ rest. run ∷ rest) (keep_same p q runs same))
  | inr dropped ↦ rw (dropped, sym (same run) ∙ dropped) (keep_same p q runs same)
]

count_true-keep :
    (p : JsonObject → Bool) (runs : List JsonObject)
    → count_true (map p runs) ≡ length (keep p runs)
unfolding count_true keep
count_true-keep p [] = refl
count_true-keep p (run ∷ runs) = elim (Bool-cases (p run)) [
  | inl kept ↦ rw kept (ap suc (count_true-keep p runs))
  | inr dropped ↦ rw dropped (count_true-keep p runs)
]

stat_read :
    (v : Json) (field : String) (b : Bool)
    → (if is_null v
        then ok false
        else (require_object v >>= λ stats. ok (not (is_null (get stats field)))))
      ≡ ok b
    → b ≡ has_value v field
unfolding is_null require_object
stat_read null field b h = sym (ok-injective h)
stat_read (obj o) field b h = sym (ok-injective h)
stat_read v field b h = cc h

stats_read :
    (field : String) (runs : List JsonObject) (found : List Bool)
    → traverse (stat_recorded field) runs ≡ ok found
    → found ≡ map (λ run. has_value (get run "client_stats") field) runs
unfolding traverse stat_recorded
stats_read field [] found h = sym (ok-injective h)
stats_read field (run ∷ runs) found h =
    let (b, this, h) = >>=-eq-ok (stat_recorded field run) _ h in
    let (rest, others, h) = >>=-eq-ok (traverse (stat_recorded field) runs) _ h in
    sym (ok-injective h)
    ∙ ap (λ first. first ∷ rest) (stat_read (get run "client_stats") field b this)
    ∙ ap (λ rest. has_value (get run "client_stats") field ∷ rest)
        (stats_read field runs rest others)

-- The runs that recorded a metric are counted, if runs record it at all.
pub recorded_observations_lem :
    (metric : String) (runs : List JsonObject) (found : Option ℕ)
    → recorded_observations metric runs ≡ ok found
    → ((lookup metric raw_resource_fields ≡ none)
        × (lookup metric client_stat_fields ≡ none)
        × (found ≡ none))
      ⊎ (found ≡ some (length (keep (records_metric metric) runs)))
unfolding recorded_observations
recorded_observations_lem metric runs found h =
    elim (Option-cases (lookup metric raw_resource_fields)) [
      | inr (field, raw) ↦
          let h = rw (raw, recorded_observations) at h in
          inr (
            sym (ok-injective h)
            ∙ ap some (count_true-keep (λ run. not (is_null (get run field))) runs)
            ∙ ap (λ kept. some (length kept))
                (keep_same _ (records_metric metric) runs (λ run. rw (raw, records_metric) refl)))
      | inl not_raw ↦ elim (Option-cases (lookup metric client_stat_fields)) [
        | inl unknown ↦
            let h = rw (not_raw, unknown, recorded_observations) at h in
            inl (not_raw, unknown, sym (ok-injective h))
        | inr (field, stat) ↦
            let h = rw (not_raw, stat, recorded_observations) at h in
            let (stats, read, h) = >>=-eq-ok (traverse (stat_recorded field) runs) _ h in
            inr (
              sym (ok-injective h)
              ∙ ap (λ bs. some (count_true bs)) (stats_read field runs stats read)
              ∙ ap some (count_true-keep (λ run. has_value (get run "client_stats") field) runs)
              ∙ ap (λ kept. some (length kept))
                  (keep_same _ (records_metric metric) runs
                    (λ run. rw (not_raw, stat, records_metric) refl)))
      ]
    ]
