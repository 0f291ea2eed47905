-- ===== src/Roles/Overrides.antt =====
-- Storing a matrix against a parent: the differences and the defaults, key by key.
pub mod Saved
use pluris.Prelude.{
  ℕ, zero, suc, ◌≤◌, String, Bool, true, false, ◌||◌, Option, none, some, List, [], ◌∷◌,
  if◌then◌else◌, ◌==◌, string_eq, lookup, insert, insert_all, lookup-insert, or_else,
  lookup-insert_all, contains, HasDistinctKeys, All, Result, ok, err, and_then, and_then-eq-ok, ◌≡◌,
  ◌≢◌, ◌⊎◌, inl, inr, refl, sym, ◌∙◌, ap, arith, eq_iff, Option-cases, Bool-cases, Result-cases,
  continue,
}
use pluris.Grants.{Grants, Json, RoundTrips, parse}
use pluris.Grants.Checks.{lookup-parse}
use pluris.Permissions.{all_keys}
use pluris.Roles.Store.{
  Error, no_rows, query_failed, Role, Database, find_role, get_role, get_role_of, update_role,
}
use pluris.Roles.{
  overlay, climb, resolve_role_matrix, default_for_key, fill, complete_with_defaults, or_empty_text,
  diff_from, save_role_permissions, save_against, save_role_overrides,
}
use pluris.Roles.Rows.{get_role-ok, get_role-no_rows, find_role-absent, find_role-other}
use pluris.Roles.Hierarchy.{Clear}
use pluris.Roles.Resolution.{
  nearest, lookup-overlay, overlay-HasDistinctKeys, resolve_parts, climb-up, climb-down, levels,
}

-- the default that a listed key is given
abbrev pub default_in : List String → String → Option String
default_in keys key = if contains keys key then some (default_for_key key) else none

lookup-fill :
    (key : String) (keys : List String) (out : Grants)
    → lookup key (fill keys out) ≡ or_else (lookup key out) (default_in keys key)
unfolding fill
lookup-fill key [] out = ground arith
lookup-fill key (k ∷ keys) out = ground (
  arith,
  eq_iff k key,
  lookup-insert k key (default_for_key k) out,
  lookup-fill key keys out,
  lookup-fill key keys (insert k (default_for_key k) out),
)

or_else-none : (o : Option String) → or_else o none ≡ o
or_else-none none = refl
or_else-none (some v) = refl

-- A completed matrix keeps the values that are there, and gives each other registered key its default.
pub lookup-complete_with_defaults :
    (key : String) (g : Grants)
    → HasDistinctKeys g
    → lookup key (complete_with_defaults g) ≡ or_else (lookup key g) (default_in all_keys key)
unfolding complete_with_defaults
lookup-complete_with_defaults key g distinct =
    lookup-fill key all_keys (insert_all g [])
    ∙ ap (λ o. or_else o (default_in all_keys key))
        (lookup-insert_all key g [] distinct ∙ or_else-none (lookup key g))

-- what the diff keeps of a value
abbrev pub kept : Grants → String → Option String → Option String → Option String
kept parent key none before = before
kept parent key (some v) before = if v == or_empty_text (lookup key parent) then before else some v

pub lookup-diff_from :
    (key : String) (parent full diff : Grants)
    → HasDistinctKeys full
    → lookup key (diff_from parent full diff) ≡ kept parent key (lookup key full) (lookup key diff)
unfolding diff_from
lookup-diff_from key parent [] diff h = refl
lookup-diff_from key parent ((k, v) ∷ full) diff (absent, h) =
    elim (Bool-cases (v == or_empty_text (lookup k parent))) [
      | inl same ↦ rw same (lookup-diff_from key parent full diff h ∙ ground (arith, eq_iff k key))
      | inr other ↦ rw other (
          lookup-diff_from key parent full (insert k v diff) h
          ∙ ground (arith, eq_iff k key, lookup-insert k key v diff))
    ]

module _ (json : Json) (db : Database) (x : ℕ) (f : Role → Role)
    (keeps : (r : Role) → (f r).id ≡ r.id) where
  -- the tables after the row of the role is written
  abbrev pub after : Database
  after = record db { roles = update_role x f db.roles }

  pub get_role-after :
      (p : ℕ) (q : Role) → get_role db p ≡ ok q → q.id ≢ x → get_role after p ≡ ok q
  unfolding get_role
  get_role-after p q found other =
      ground (arith, find_role-other db.roles x f keeps p q (get_role-ok db p q found) other)

  get_role-after_no_rows : (p : ℕ) → get_role db p ≡ err no_rows → get_role after p ≡ err no_rows
  unfolding get_role
  get_role-after_no_rows p gone =
      ground (arith, find_role-absent db.roles x f keeps p (get_role-no_rows db p gone))

  climb-none :
      (m : ℕ) (d : Database) (r : Role) → r.parent_role_id ≡ none → climb json m d r ≡ ok []
  unfolding climb
  climb-none zero d r top = refl
  climb-none (suc m) d r top = ground arith

  climb-lost :
      (m : ℕ) (d : Database) (r : Role) (p : ℕ)
      → r.parent_role_id ≡ some p
      → get_role d p ≡ err no_rows
      → climb json m d r ≡ ok []
  unfolding climb
  climb-lost zero d r p has gone = refl
  climb-lost (suc m) d r p has gone = rw (has, climb) (rw (gone, climb))

  climb-broken :
      (m : ℕ) (d : Database) (r : Role) (p : ℕ) (rest : List Grants)
      → r.parent_role_id ≡ some p
      → find_role p d.roles ≡ none
      → climb json (suc m) d r ≡ ok rest
      → get_role d p ≡ err no_rows
  unfolding climb get_role
  climb-broken m d r p rest has gone e = ground arith

  climb-found :
      (m : ℕ) (d : Database) (r q : Role) (p : ℕ) (rest : List Grants)
      → r.parent_role_id ≡ some p
      → find_role p d.roles ≡ some q
      → climb json (suc m) d r ≡ ok rest
      → get_role d p ≡ ok q
  unfolding climb get_role
  climb-found m d r q p rest has found e = ground arith

  -- A chain that ends in time and avoids the written row is walked as before, also with fewer levels
  -- to go.
  pub climb-after :
      (n m : ℕ) (r : Role) (rest : List Grants)
      → n ≤ m
      → Clear db.roles x (suc n) r
      → climb json m db r ≡ ok rest
      → climb json n after r ≡ ok rest
  climb-after n m r rest le (other, inl top) e =
      climb-none n after r top ∙ sym (climb-none m db r top) ∙ e
  climb-after n zero r rest le (other, inr (inl (p, has, gone))) e =
      let z : n ≡ 0 = omega arith in rw z (unfold climb in e)
  climb-after n (suc m) r rest le (other, inr (inl (p, has, gone))) e =
      let lost = climb-broken m db r p rest has gone e in
      climb-lost n after r p has (get_role-after_no_rows p lost)
      ∙ sym (climb-lost (suc m) db r p has lost)
      ∙ e
  climb-after zero m r rest le (other, inr (inr (p, q, has, found, clear))) e = absurd clear
  climb-after (suc n) zero r rest le (other, inr (inr (p, q, has, found, clear))) e =
      absurd (omega arith)
  climb-after (suc n) (suc m) r rest le (other, inr (inr (p, q, has, found, clear))) e =
      let seen = climb-found m db r q p rest has found e in
      let (more, below, same) = climb-down json m db r q p rest has seen e in
      climb-up json n after r q p has (get_role-after p q seen clear.0)
      ∙ rw (climb-after n m q more (omega arith) clear below) (ap ok (sym same))
