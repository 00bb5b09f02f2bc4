-- ===== src/Evidence.antt =====
-- Canonical fingerprints: foghttp_benchmark/attribution_evidence.py.
use Prim.Native.Char.{code}
use Prim.Native.String.{count}
use fog_http_benchmark.Prelude.{
  ℕ, Bool, true, false, not, ◌&&◌, ◌||◌, String, Option, none, some, leb, ◌==◌, nat_eq, string_eq,
  if◌then◌else◌, Result, ok, err, value_error, ◌>>=◌,
}
use fog_http_benchmark.Json.{Json, null, str, obj, JsonObject, empty, entry, get}
use fog_http_benchmark.Runtime.{Runtime}

is_hex_digit : ℕ → Bool
is_hex_digit c = (leb b'0' c && leb c b'9') || (leb b'a' c && leb c b'f')

all_hex : String → Bool
unfolding is_hex_digit
all_hex String.[] = true
all_hex (String.◌∷◌ c s) = is_hex_digit (code c) && all_hex s

unfoldable pub hex_digest : Json → ℕ → Bool
unfolding all_hex
hex_digest (str s) length = count s == length && all_hex s
hex_digest _ length = false

-- `provenance.get(key) if isinstance(provenance, dict) else None`
unfoldable pub member_of : Json → String → Json
member_of (obj o) key = get o key
member_of _ key = null

-- every name is nonempty and every value a SHA-256 digest
all_digests : JsonObject → Bool
unfolding hex_digest
all_digests empty = true
all_digests (entry name value rest) = not (name == "") && hex_digest value 64 && all_digests rest

is_nonempty : JsonObject → Bool
is_nonempty empty = false
is_nonempty (entry k v o) = true

module _ ⦃r : Runtime⦄ where
  unfoldable pub condition_fingerprint : JsonObject → Result String
  condition_fingerprint conditions = elim (r.digest_of (obj conditions)) [
    | none ↦ err value_error
    | some d ↦ ok d
  ]

  fingerprint_of : Json → Json → Json → Result (Option String)
  unfolding all_digests is_nonempty
  fingerprint_of sha diff (obj files) =
      if hex_digest sha 40 && hex_digest diff 64 && is_nonempty files && all_digests files
      then (do
        digest ← condition_fingerprint files
        fingerprint ← condition_fingerprint (
            entry "sha" sha
              (entry "diff_sha256" diff (entry "files_sha256_sha256" (str digest) empty)))
        ok (some fingerprint))
      else ok none
  fingerprint_of sha diff _ = ok none

  unfoldable pub harness_fingerprint : JsonObject → Result (Option String)
  unfolding fingerprint_of
  harness_fingerprint metadata =
      let harness =
        member_of (member_of (get metadata "research_provenance") "manifest") "harness" in
      fingerprint_of (member_of harness "sha") (member_of harness "diff_sha256")
        (member_of harness "files_sha256")
