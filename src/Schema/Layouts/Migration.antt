-- ===== src/Schema/Layouts/Migration.antt =====
-- Theorems about `migrate_legacy_rows` of report_schema/decoding.py.
use fog_http_benchmark.Prelude.{
  ◌≡◌, refl, ◌⊎◌, ℕ, Bool, true, false, not, ◌&&◌, String, none, some, ◌==◌, string_eq, ok, err,
  value_error, ◌>>=◌, >>=-eq-ok, ok-injective, Option-cases, inl, inr, arith, if◌then◌else◌,
}
use fog_http_benchmark.Prelude.Int.{ℤ, pos, ℤ_eq}
use fog_http_benchmark.Json.{
  Json, int, str, JsonObject, find?, get, has, set_default, json_eq, number_of, has_found,
  get_found, set_default_old, find?-set_default, find?-set_default_new, has-set_default,
  get-set_default,
}
use fog_http_benchmark.Schema.Fields.{require_integer}
use fog_http_benchmark.Schema.Layouts.{migrate_limit, ordinary_profile, migrate_legacy_row}

json_eq_int : (n : ℤ) → json_eq (int n) (int n) ≡ true
unfolding json_eq number_of
json_eq_int n = ground (arith, ℤ_eq.decides _ _)

-- The limit of a row has its present name: the row has no old one, or the two agree.
abbrev pub IsLimited : JsonObject → Type 0
IsLimited row =
    (find? row "max_connections" ≡ none)
    ⊎ ((value : Json) × (old : ℕ) × (limit : Json) × (find? row "max_connections" ≡ some value)
        × (require_integer value 0 ≡ ok old)
        × (find? row "request_limit" ≡ some limit)
        × (json_eq limit (int (pos old)) ≡ true))

migrate_limit-stays : (row : JsonObject) → IsLimited row → migrate_limit row ≡ ok row
unfolding migrate_limit
migrate_limit-stays row (inl missing) = rw (missing, migrate_limit) refl
migrate_limit-stays row (inr (value, old, limit, found, read, now, agrees)) =
    let there = has_found row "request_limit" limit now in
    let kept = get_found row "request_limit" limit now in
    let same = set_default_old row "request_limit" (int (pos old)) there in
    rw (found, read, there, kept, agrees, same, migrate_limit) refl

-- the checked limit of a row
IsLimited-by :
    (row : JsonObject) (value : Json) (old : ℕ)
    → find? row "max_connections" ≡ some value
    → require_integer value 0 ≡ ok old
    → (has row "request_limit" && not (json_eq (get row "request_limit") (int (pos old)))) ≡ false
    → IsLimited (set_default row "request_limit" (int (pos old)))
IsLimited-by row value old found read checked =
    let other = find?-set_default row "request_limit" "max_connections" (int (pos old)) refl in
    elim (Option-cases (find? row "request_limit")) [
      | inl missing ↦
          let now = find?-set_default_new row "request_limit" (int (pos old)) missing in
          inr (value, old, int (pos old), rw other found, read, now, json_eq_int (pos old))
      | inr (limit, now) ↦
          let there = has_found row "request_limit" limit now in
          let checked = rw (there, get_found row "request_limit" limit now) at checked in
          let same = set_default_old row "request_limit" (int (pos old)) there in
          rw same (inr (value, old, limit, found, read, now, not-false _ checked))
    ]
  where
    not-false : (b : Bool) → not b ≡ false → b ≡ true
    not-false true h = refl
    not-false false h = cc h

migrate_limit-IsLimited :
    (row limited : JsonObject) → migrate_limit row ≡ ok limited → IsLimited limited
unfolding migrate_limit
migrate_limit-IsLimited row limited h = elim (Option-cases (find? row "max_connections")) [
  | inl missing ↦
      let h = rw (missing, migrate_limit) at h in
      let same = ok-injective h in rw (← same) (inl missing)
  | inr (value, found) ↦
      let h = rw (found, migrate_limit) at h in
      let (old, read, h) = >>=-eq-ok (require_integer value 0) _ h in
      checked value old found read _ refl h
]
  where
    checked :
        (value : Json) (old : ℕ)
        → find? row "max_connections" ≡ some value
        → require_integer value 0 ≡ ok old
        → (b : Bool)
        → (has row "request_limit" && not (json_eq (get row "request_limit") (int (pos old)))) ≡ b
        → (if b then err value_error else ok (set_default row "request_limit" (int (pos old))))
          ≡ ok limited
        → IsLimited limited
    checked value old found read true wrong h = cc h
    checked value old found read false right h =
        let same = ok-injective h in rw (← same) (IsLimited-by row value old found read right)

-- A default for `read` leaves the limit as it is.
IsLimited-read :
    (row : JsonObject) (v : Json) → IsLimited row → IsLimited (set_default row "read" v)
IsLimited-read row v h =
    rw
      (
        find?-set_default row "read" "max_connections" v refl,
        find?-set_default row "read" "request_limit" v refl,
      )
      h

defaulted :
    (suite : String) (limited : JsonObject)
    → IsLimited limited
    → (ordinary : Bool) → ordinary_profile (get limited "profile") ≡ ok ordinary
    → (suite == "response-streaming") ≡ true
    → migrate_legacy_row suite
        (if ordinary then set_default limited "read" (str "bytes") else limited)
      ≡ ok (if ordinary then set_default limited "read" (str "bytes") else limited)
unfolding migrate_legacy_row
defaulted suite limited there false read same =
    rw (migrate_limit-stays limited there, same, read) refl
defaulted suite limited there true read same =
    let kept =
      migrate_limit-stays (set_default limited "read" (str "bytes"))
        (IsLimited-read limited (str "bytes") there) in
    let profile = get-set_default limited "read" "profile" (str "bytes") refl in
    let again =
      set_default_old (set_default limited "read" (str "bytes")) "read" (str "bytes")
        (has-set_default limited "read" (str "bytes")) in
    rw (kept, same, profile, read, again) refl

-- Migrating a row that was migrated changes nothing: it is accepted again, and stays as it is.
pub migrate_legacy_row_idempotent :
    (suite : String) (row migrated : JsonObject)
    → migrate_legacy_row suite row ≡ ok migrated
    → migrate_legacy_row suite migrated ≡ ok migrated
unfolding migrate_legacy_row
migrate_legacy_row_idempotent suite row migrated h =
    let (limited, read, h) = >>=-eq-ok (migrate_limit row) _ h in
    streamed limited (migrate_limit-IsLimited row limited read) _ refl h
  where
    streamed :
        (limited : JsonObject)
        → IsLimited limited
        → (b : Bool) → (suite == "response-streaming") ≡ b
        → (if b
            then (ordinary_profile (get limited "profile") >>= λ ordinary.
                ok (if ordinary then set_default limited "read" (str "bytes") else limited))
            else ok limited)
          ≡ ok migrated
        → migrate_legacy_row suite migrated ≡ ok migrated
    streamed limited there false other h =
        let same = ok-injective h in rw (← same, other, migrate_limit-stays limited there) refl
    streamed limited there true same h =
        let (ordinary, read, h) = >>=-eq-ok (ordinary_profile (get limited "profile")) _ h in
        let done = ok-injective h in rw (← done) (defaulted suite limited there ordinary read same)
