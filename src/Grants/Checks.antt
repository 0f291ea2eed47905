-- ===== src/Grants/Checks.antt =====
-- The checks on one map of grants, and what a stored text of permissions permits.
use pluris.Prelude.{
  ℕ, String, true, false, none, some, arith, ◌≡◌, [], lookup, or_else, lookup-insert_all,
  insert_all-HasDistinctKeys, HasDistinctKeys, string_eq, Option-cases, inl, inr, ◌∙◌, refl, Option,
}
use pluris.Grants.{Grants, scope_of, bypass, can, can_scoped, Json, RoundTrips, parse}

-- Access to one owner's resource is never wider than access to the key.
pub can-can_scoped :
    (g : Grants) (key : String) (owner_id self_id : ℕ)
    → can_scoped g key owner_id self_id ≡ true
    → can g key ≡ true
unfolding can can_scoped
can-can_scoped g key owner_id self_id h = ground arith

pub parse-HasDistinctKeys : (json : Json) (s : String) → HasDistinctKeys (parse json s)
unfolding parse
parse-HasDistinctKeys json s = elim (Option-cases (json.unmarshal s)) [
  | inl e ↦ rw e tt
  | inr (raw, e) ↦ rw e (insert_all-HasDistinctKeys raw [] tt)
]

-- A stored text that is not valid JSON denies every key.
pub can-parse_invalid :
    (json : Json) (s key : String) → json.unmarshal s ≡ none → can (parse json s) key ≡ false
unfolding parse can bypass scope_of
can-parse_invalid json s key e = rw e (ground arith)

or_else-none : (o : Option String) → or_else o none ≡ o
or_else-none none = refl
or_else-none (some v) = refl

-- Grants that are written and read again hold the same value for each key.
pub lookup-parse :
    (json : Json) (g : Grants) (key : String)
    → RoundTrips json g
    → lookup key (parse json (json.marshal g)) ≡ lookup key g
unfolding parse
lookup-parse json g key (raw, distinct, e, same) =
    rw e (lookup-insert_all key raw [] distinct ∙ or_else-none (lookup key raw) ∙ same key)
