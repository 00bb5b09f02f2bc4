-- ===== src/Json/Object.antt =====
-- The operations of `dict` that the source uses.
use fog_http_benchmark.Prelude.{
  Bool, true, false, String, ◌≡◌, refl, Option, none, some, ◌==◌, string_eq, if◌then◌else◌, arith,
  eq_iff, Bool-cases, inl, inr,
}
use fog_http_benchmark.Json.Value.{Json, null, JsonObject, empty, entry}

unfoldable pub find? : JsonObject → String → Option Json
find? empty k = none
find? (entry j v o) k = if k == j then some v else find? o k

abbrev some_or_null : Option Json → Json
some_or_null none = null
some_or_null (some v) = v

-- `o.get(key)`
unfoldable pub get : JsonObject → String → Json
unfolding find?
get o k = some_or_null (find? o k)

-- `o.get(key, default)`
unfoldable pub get_or : JsonObject → String → Json → Json
unfolding find?
get_or o k d = elim (find? o k) [ none ↦ d | some v ↦ v ]

-- `key in o`
unfoldable pub has : JsonObject → String → Bool
unfolding find?
has o k = elim (find? o k) [ none ↦ false | some _ ↦ true ]

-- `o[key] = value`
unfoldable pub set : JsonObject → String → Json → JsonObject
set empty k v = entry k v empty
set (entry j w o) k v = if k == j then entry j v o else entry j w (set o k v)

-- `o.setdefault(key, value)`
unfoldable pub set_default : JsonObject → String → Json → JsonObject
unfolding has set
set_default o k v = if has o k then o else set o k v

pub find?-set :
    (o : JsonObject) (k j : String) (v : Json)
    → find? (set o k v) j ≡ (if j == k then some v else find? o j)
unfolding find? set
find?-set empty k j v = refl
find?-set (entry i w o) k j v =
    ground (arith, eq_iff k i, eq_iff j i, eq_iff j k, find?-set o k j v)

pub has-set : (o : JsonObject) (k : String) (v : Json) → has (set o k v) k ≡ true
unfolding has
has-set o k v = ground (arith, eq_iff k k, find?-set o k k v)

pub has-set_default : (o : JsonObject) (k : String) (v : Json) → has (set_default o k v) k ≡ true
unfolding set_default
has-set_default o k v = elim (Bool-cases (has o k)) [
  | inl old ↦ rw old old
  | inr new ↦ rw new (has-set o k v)
]

pub set_default_old :
    (o : JsonObject) (k : String) (v : Json) → has o k ≡ true → set_default o k v ≡ o
unfolding set_default
set_default_old o k v h = rw h refl

pub find?-set_default :
    (o : JsonObject) (k j : String) (v : Json)
    → (j == k) ≡ false
    → find? (set_default o k v) j ≡ find? o j
unfolding set_default
find?-set_default o k j v h = elim (Bool-cases (has o k)) [
  | inl old ↦ rw old refl
  | inr new ↦ rw new (ground (arith, find?-set o k j v))
]

pub has_found : (o : JsonObject) (k : String) (v : Json) → find? o k ≡ some v → has o k ≡ true
unfolding has
has_found o k v h = rw (h, has) refl

pub has_missing : (o : JsonObject) (k : String) → find? o k ≡ none → has o k ≡ false
unfolding has
has_missing o k h = rw (h, has) refl

pub get_found : (o : JsonObject) (k : String) (v : Json) → find? o k ≡ some v → get o k ≡ v
unfolding get
get_found o k v h = rw h refl

-- A missing key is set to its default.
pub find?-set_default_new :
    (o : JsonObject) (k : String) (v : Json)
    → find? o k ≡ none
    → find? (set_default o k v) k ≡ some v
unfolding set_default
find?-set_default_new o k v h =
    rw (has_missing o k h) (ground (arith, eq_iff k k, find?-set o k k v))

pub get-set_default :
    (o : JsonObject) (k j : String) (v : Json)
    → (j == k) ≡ false
    → get (set_default o k v) j ≡ get o j
unfolding get
get-set_default o k j v h = rw (find?-set_default o k j v h) refl
