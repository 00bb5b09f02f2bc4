-- ===== src/Schema/Ordinary/Accounting.antt =====
-- Theorems about the error counts and limits of report_schema/ordinary.py.
use fog_http_benchmark.Prelude.{
  ℕ, ◌+◌, ◌*◌, ◌≤◌, ◌≡◌, ◌↔◌, ◌⊎◌, ◌≢◌, refl, sym, ap, ◌∙◌, not, Option, eq_iff, raise_if,
  value_error, ok-injective, true, false, none, some, List, [], ◌∷◌, lookup, String, arith, ok,
  ◌>>=◌, >>=-eq-ok, >>-eq-ok, raise_if-eq-ok, string_eq, ◌==◌, nat_eq, inl, inr, Bool-cases,
  if◌then◌else◌,
}
use fog_http_benchmark.Prelude.Int.{pos}
use fog_http_benchmark.Json.{Json, int, str, obj, JsonObject, empty, entry, get, has, find?}
use fog_http_benchmark.Runtime.{is_text}
use fog_http_benchmark.Schema.Fields.{require_integer, require_string, require_object}
use fog_http_benchmark.Schema.Fields.Reads.{require_integer_iff, require_object-eq-ok, Holds}
use fog_http_benchmark.Schema.Ordinary.{
  operation_error_limit, count_errors, validate_error_map, creation_error_limit,
}
use fog_http_benchmark.Schema.Fields.{or_key_error}

-- The counts of an error map are natural numbers with the sum `n`.
abbrev pub SumsTo : JsonObject → ℕ → Type 0
SumsTo empty n = n ≡ 0
SumsTo (entry name value rest) n =
    (this : ℕ) × (others : ℕ) × Holds value this × SumsTo rest others × (n ≡ this + others)

count_errors-SumsTo : (o : JsonObject) (n : ℕ) → count_errors o ≡ ok n → SumsTo o n
unfolding count_errors
count_errors-SumsTo empty n h = cc
count_errors-SumsTo (entry name value rest) n h =
    let (_, h) = >>-eq-ok (require_string (str name)) _ h in
    let (this, read, h) = >>=-eq-ok (require_integer value 0) _ h in
    let (others, counted, h) = >>=-eq-ok (count_errors rest) _ h in
    (
      this,
      others,
      ((require_integer_iff value 0 this).0 read).0,
      count_errors-SumsTo rest others counted,
      cc h,
    )

-- An error map that passes, where a row has one, accounts for exactly the total beside it.
pub validate_error_map-SumsTo :
    (row : JsonObject) (field total_field : String)
    → validate_error_map row field total_field ≡ ok tt
    → has row field ≡ true
    → (errors : JsonObject) × (total : ℕ) × (get row field ≡ obj errors)
      × Holds (get row total_field) total
      × SumsTo errors total
unfolding validate_error_map
validate_error_map-SumsTo row field total_field h present =
    let h = rw present at h in
    let (errors, read, h) = >>=-eq-ok (require_object (get row field)) _ h in
    let (total, held, h) = >>=-eq-ok (require_integer (get row total_field) 0) _ h in
    let (count, counted, h) = >>=-eq-ok (count_errors errors) _ h in
    let same : count ≡ total = ground (arith, raise_if-eq-ok _ _ h) in
    (
      errors,
      total,
      require_object-eq-ok (get row field) errors read,
      ((require_integer_iff _ 0 total).0 held).0,
      rw (← same) (count_errors-SumsTo errors count counted),
    )

-- The error events of one repeat of a creation scenario: those of each iteration, and those of the
-- whole repeat. A scenario that is not in the table has one for each iteration.
abbrev error_events : List (String × (ℕ × ℕ))
error_events =
    ("create-close", (1, 0))
    ∷ ("create-first-request", (3, 0))
    ∷ ("reused-request", (1, 2))
    ∷ ("many-clients-open-close", (1, 1))
    ∷ []

abbrev pub events_of : Json → ℕ × ℕ
events_of (str scenario) = elim (lookup scenario error_events) [
  | none ↦ (1, 0)
  | some events ↦ events
]
events_of v = (1, 0)

-- The limit of a creation scenario with as many iterations.
abbrev pub IsCreationLimit : JsonObject → ℕ → Json → ℕ → Type 0
IsCreationLimit row iterations scenario limit =
    (limit ≡ iterations * (events_of scenario).0 + (events_of scenario).1)
    × ((is_text scenario "many-clients-open-close" ≡ false)
        ⊎ Holds (get row "client_count") iterations)

-- a limit that the iterations alone decide
of_iterations :
    {P : Type 0} (n m limit : ℕ) → n ≡ m → (ok n ≡ ok limit) ↔ ((limit ≡ m) × ((false ≡ false) ⊎ P))
of_iterations n m limit same =
    (λ h. (sym (ok-injective h) ∙ same, inl refl), λ h. ap ok (same ∙ sym h.0))

-- a limit that asks for as many clients
of_clients :
    (v : Json) (n limit : ℕ)
    → 1 ≤ n
    → ((require_integer v 1 >>= λ clients.
          raise_if (not (n == clients)) value_error >>= λ (_ : Unit {0}). ok (clients + 1))
        ≡ ok limit)
      ↔ ((limit ≡ n * 1 + 1) × ((true ≡ false) ⊎ Holds v n))
of_clients v n limit least = (
  λ h.
      let (clients, read, h) = >>=-eq-ok (require_integer v 1) _ h in
      let (same, h) = >>-eq-ok (raise_if (not (n == clients)) value_error) _ h in
      let same : clients ≡ n = ground (arith, raise_if-eq-ok _ _ same.1) in
      (
        omega (arith, same, ok-injective h),
        inr (((require_integer_iff v 1 clients).0 read).0 ∙ ap (λ m. int (pos m)) same),
      ),
  λ h. elim h.1 [
    | inl wrong ↦ cc wrong
    | inr held ↦ rw ((require_integer_iff v 1 n).1 (held, least)) (ground (arith, h.0))
  ],
)

creation_error_limit_iff :
    (row : JsonObject) (iterations : ℕ) (scenario : Json) (limit : ℕ)
    → 1 ≤ iterations
    → (creation_error_limit row iterations scenario ≡ ok limit)
      ↔ IsCreationLimit row iterations scenario limit
unfolding creation_error_limit lookup is_text
creation_error_limit_iff row n (str s) limit least =
    elim (Bool-cases (s == "create-first-request")) [
      | inl first ↦
          rw ((eq_iff s "create-first-request").0 first) (of_iterations _ _ limit (omega arith))
      | inr not_first ↦ elim (Bool-cases (s == "reused-request")) [
        | inl reused ↦
            rw ((eq_iff s "reused-request").0 reused) (of_iterations _ _ limit (omega arith))
        | inr not_reused ↦ elim (Bool-cases (s == "many-clients-open-close")) [
          | inl many ↦
              rw ((eq_iff s "many-clients-open-close").0 many)
                (of_clients (get row "client_count") n limit least)
          | inr not_many ↦ elim (Bool-cases (s == "create-close")) [
            | inl close ↦
                rw ((eq_iff s "create-close").0 close) (of_iterations _ _ limit (omega arith))
            | inr other ↦
                rw (not_first, not_reused, not_many, other, events_of)
                  (of_iterations _ _ limit (omega arith))
          ]
        ]
      ]
    ]
creation_error_limit_iff row n v limit least = of_iterations n (n * 1 + 0) limit (omega arith)

-- What the limit on the error events of one repeat is.
abbrev pub IsErrorLimit : String → JsonObject → ℕ → ℕ → Type 0
IsErrorLimit suite row iterations limit =
    ((suite ≢ "client-creation") × (limit ≡ iterations))
    ⊎ ((suite ≡ "client-creation")
        × (scenario : Json) × (find? row "scenario" ≡ some scenario)
        × IsCreationLimit row iterations scenario limit)

found_scenario : (o : Option Json) (v : Json) → or_key_error o ≡ ok v → o ≡ some v
unfolding or_key_error
found_scenario none v h = cc h
found_scenario (some w) v h = ap some (ok-injective h)

limit_iff :
    (suite : String) (row : JsonObject) (n limit : ℕ)
    → 1 ≤ n
    → ((if suite == "client-creation"
          then or_key_error (find? row "scenario") >>= creation_error_limit row n
          else ok n)
        ≡ ok limit)
      ↔ IsErrorLimit suite row n limit
unfolding or_key_error
limit_iff suite row n limit least = elim (Bool-cases (suite == "client-creation")) [
  | inl creation ↦ rw creation (
    λ h.
        let (scenario, found, h) = >>=-eq-ok (or_key_error (find? row "scenario")) _ h in
        inr (
          (eq_iff suite "client-creation").0 creation,
          scenario,
          found_scenario (find? row "scenario") scenario found,
          (creation_error_limit_iff row n scenario limit least).0 h,
        ),
    λ h. elim h [
      | inl other ↦ absurd (other.0 ((eq_iff suite "client-creation").0 creation))
      | inr (_, scenario, found, is_limit) ↦
          rw found ((creation_error_limit_iff row n scenario limit least).1 is_limit)
    ],
  )
  | inr other ↦ rw other (
    λ h.
        inl
          (λ e. ground (arith, other, (eq_iff suite "client-creation").1 e), sym (ok-injective h)),
    λ h. elim h [
      | inl own ↦ ap ok (sym own.1)
      | inr (creation, _, _, _) ↦ ground (arith, other, (eq_iff suite "client-creation").1 creation)
    ],
  )
]

-- A limit on the error events of one repeat is admitted exactly if it is the documented one, and the
-- row has at least one iteration: outside the creation suite the iterations, in the creation suite
-- what the table gives for its scenario, with as many clients as iterations where it opens many.
pub operation_error_limit_iff :
    (suite : String) (row : JsonObject) (limit : ℕ)
    → (operation_error_limit suite row ≡ ok limit) ↔ (
        (iterations : ℕ) × Holds (get row "iterations") iterations
        × (1 ≤ iterations)
        × IsErrorLimit suite row iterations limit)
unfolding operation_error_limit or_key_error
operation_error_limit_iff suite row limit = (
  λ h.
      let (n, read, h) = >>=-eq-ok (require_integer (get row "iterations") 1) _ h in
      let (held, least) = (require_integer_iff _ 1 n).0 read in
      (n, held, least, (limit_iff suite row n limit least).0 h),
  λ (n, held, least, is_limit).
      rw ((require_integer_iff (get row "iterations") 1 n).1 (held, least))
        ((limit_iff suite row n limit least).1 is_limit),
)
