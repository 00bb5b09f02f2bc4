-- ===== src/Load/Outcomes.antt =====
-- Theorems about `outcome_matches` of load.py.
use fog_http_benchmark.Prelude.{
  ◌≡◌, ◌↔◌, refl, inl, inr, true, false, String, Option, none, some, arith, ◌==◌, string_eq, eq_iff,
  Bool-cases,
}
use fog_http_benchmark.Prelude.Int.{ℤ, ℤ_eq, ℤ_beq_iff}
use fog_http_benchmark.Models.{Scenario, ResponseOutcome}
use fog_http_benchmark.Load.{
  ends_with, differs, differs_if_known, final_path_matches, outcome_matches,
}
use Prim.Native.Char.{Char}

-- The text is the suffix after some characters.
pub data IsSuffix (suffix : String) : String → Type 0 where
  whole : IsSuffix suffix suffix
  after : (c : Char) {s : String} → IsSuffix suffix s → IsSuffix suffix (String.◌∷◌ c s)

ends_with_self : (suffix : String) → ends_with suffix suffix ≡ true
unfolding ends_with
ends_with_self String.[] = (eq_iff String.[] String.[]).1 refl
ends_with_self (String.◌∷◌ c s) = rw ((eq_iff (String.◌∷◌ c s) (String.◌∷◌ c s)).1 refl) refl

IsSuffix-ends_with : (suffix text : String) → IsSuffix suffix text → ends_with text suffix ≡ true
unfolding ends_with
IsSuffix-ends_with suffix text whole = ends_with_self text
IsSuffix-ends_with suffix text (after c {s} h) = ground (arith, IsSuffix-ends_with suffix s h)

ends_with-IsSuffix : (text suffix : String) → ends_with text suffix ≡ true → IsSuffix suffix text
unfolding ends_with
ends_with-IsSuffix String.[] suffix h = rw ((eq_iff String.[] suffix).0 h) whole
ends_with-IsSuffix (String.◌∷◌ c s) suffix h = elim (Bool-cases (String.◌∷◌ c s == suffix)) [
  | inl same ↦ rw ((eq_iff (String.◌∷◌ c s) suffix).0 same) whole
  | inr different ↦ after c (ends_with-IsSuffix s suffix (ground (arith, different)))
]

-- A text ends with a suffix exactly when it is some text followed by the suffix.
ends_with_iff : (text suffix : String) → (ends_with text suffix ≡ true) ↔ IsSuffix suffix text
ends_with_iff text suffix = (ends_with-IsSuffix text suffix, IsSuffix-ends_with suffix text)

-- what an outcome has where the scenario expects something of it
abbrev pub Expects : Option ℤ → (ℤ → Type 0) → Type 0
Expects none P = Unit
Expects (some expected) P = P expected

abbrev pub UnlessMissing : Option ℤ → (ℤ → Type 0) → Type 0
UnlessMissing none P = Unit
UnlessMissing (some actual) P = P actual

abbrev pub EndsAs : Option String → Option String → Type 0
EndsAs (some path) (some url) = IsSuffix path url
EndsAs _ _ = Unit

differs_iff :
    (expected actual : Option ℤ)
    → (differs expected actual ≡ false) ↔ Expects expected (λ e. actual ≡ some e)
differs_iff none actual = (λ h. tt, λ h. refl)
differs_iff (some e) none = ground arith
differs_iff (some e) (some a) = ground (arith, ℤ_beq_iff a e)

differs_if_known_iff :
    (expected actual : Option ℤ)
    → (differs_if_known expected actual ≡ false)
      ↔ Expects expected (λ e. UnlessMissing actual (λ a. a ≡ e))
differs_if_known_iff none actual = (λ h. tt, λ h. refl)
differs_if_known_iff (some e) none = (λ h. tt, λ h. refl)
differs_if_known_iff (some e) (some a) = ground (arith, ℤ_beq_iff a e)

final_path_matches_iff :
    (path url : Option String) → (final_path_matches path url ≡ true) ↔ EndsAs path url
final_path_matches_iff none url = (λ h. tt, λ h. refl)
final_path_matches_iff (some path) none = (λ h. tt, λ h. refl)
final_path_matches_iff (some path) (some url) = ends_with_iff url path

pub record IsExpected (scenario : Scenario) (outcome : ResponseOutcome) : Type 0 where
  same_status : outcome.status_code ≡ scenario.expected_status
  json_passed : outcome.json_ok ≡ true
  same_length : Expects scenario.expected_content_length (λ e. outcome.content_length ≡ some e)
  same_redirects :
      Expects scenario.expected_redirects (λ e. UnlessMissing outcome.history_count (λ a. a ≡ e))
  same_path : EndsAs scenario.expected_final_path outcome.final_url

-- An outcome matches a scenario exactly when it has the expected status, its JSON passed, its
-- content length is the expected one if there is one, its redirects are as many as expected if both
-- are known, and its final URL ends with the expected path if both are known.
pub outcome_matches_iff :
    (scenario : Scenario) (outcome : ResponseOutcome)
    → (outcome_matches scenario outcome ≡ true) ↔ IsExpected scenario outcome
unfolding outcome_matches
outcome_matches_iff scenario outcome = (
  λ h. record {
    same_status = ground (arith, ℤ_beq_iff outcome.status_code scenario.expected_status);
    json_passed = ground arith;
    same_length =
        (differs_iff scenario.expected_content_length outcome.content_length).0 (ground arith);
    same_redirects =
        (differs_if_known_iff scenario.expected_redirects outcome.history_count).0 (ground arith);
    same_path =
        (final_path_matches_iff scenario.expected_final_path outcome.final_url).0 (ground arith);
  },
  λ e.
      rw
        (
          (ℤ_beq_iff outcome.status_code scenario.expected_status).1 e.same_status,
          e.json_passed,
          (differs_iff scenario.expected_content_length outcome.content_length).1 e.same_length,
          (differs_if_known_iff scenario.expected_redirects outcome.history_count).1
              e.same_redirects,
        )
        ((final_path_matches_iff scenario.expected_final_path outcome.final_url).1 e.same_path),
)
