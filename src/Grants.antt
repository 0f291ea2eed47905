-- ===== src/Grants.antt =====
-- pkg/authz/grants.go: grants, the checks on them, and their union. A map is a `Dict`, and reading a
-- missing key gives Go's zero value, the empty text. `encoding/json` is not part of the repository:
-- it enters as a `Json`.
pub mod Checks
pub mod Unions
mod Tests
use pluris.Prelude.{
  ℕ, String, Bool, true, false, ◌||◌, Option, none, some, List, [], ◌∷◌, if◌then◌else◌, ltb, ◌==◌,
  string_eq, id_eq, Dict, lookup, insert, insert_all, HasDistinctKeys, ◌≡◌,
}

abbrev pub Grants : Type 0
Grants = Dict String String

abbrev pub bypass_key : String
bypass_key = "__super_admin__"

-- Unknown values rank lowest: a missing entry of the table reads 0.
unfoldable pub rank : String → ℕ
rank v =
    if v == "all"
    then 4
    else if v == "yes"
    then 3
    else if v == "own"
    then 2
    else if v == "no"
    then 1
    else 0

abbrev pub or_empty : Option String → String
or_empty none = ""
or_empty (some v) = v

-- `g[key]`
unfoldable pub scope_of : Grants → String → String
scope_of g key = or_empty (lookup key g)

-- the test `case "yes", "own", "all"`
abbrev pub permits : String → Bool
permits v = v == "yes" || v == "own" || v == "all"

unfoldable pub bypass : Grants → Bool
unfolding scope_of
bypass g = permits (scope_of g bypass_key)

unfoldable pub can : Grants → String → Bool
unfolding scope_of
can g key = if bypass g then true else permits (scope_of g key)

unfoldable pub can_scoped : Grants → String → ℕ → ℕ → Bool
unfolding scope_of
can_scoped g key owner_id self_id =
    if bypass g
    then true
    else if scope_of g key == "all"
    then true
    else if scope_of g key == "own"
    then owner_id == self_id
    else false

-- the body of the inner loop of `Union`
abbrev pub raise : String → String → Grants → Grants
raise key value out = elim (lookup key out) [
  | none ↦ insert key value out
  | some existing ↦ if ltb (rank existing) (rank value) then insert key value out else out
]

unfoldable pub merge : Grants → Grants → Grants
merge [] out = out
merge ((key, value) ∷ g) out = merge g (raise key value out)

unfoldable pub union_from : Grants → List Grants → Grants
union_from out [] = out
union_from out (g ∷ gs) = union_from (merge g out) gs

unfoldable pub union : List Grants → Grants
unfolding union_from merge
union gs = union_from [] gs

-- json.Marshal and json.Unmarshal at `map[string]string`
pub record Json : Type 0 where
  pub marshal : Grants → String
  pub unmarshal : String → Option Grants

-- What is written is read back, up to the order of the entries.
abbrev pub RoundTrips : Json → Grants → Type 0
RoundTrips json g =
    (raw : Grants) × HasDistinctKeys raw
    × (json.unmarshal (json.marshal g) ≡ some raw)
    × ((key : String) → lookup key raw ≡ lookup key g)

abbrev pub copied : Option Grants → Grants
copied none = []
copied (some raw) = insert_all raw []

-- `Parse`: invalid JSON yields the empty map.
unfoldable pub parse : Json → String → Grants
parse json permissions_json = copied (json.unmarshal permissions_json)
