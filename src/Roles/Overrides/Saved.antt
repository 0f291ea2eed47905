-- ===== src/Roles/Overrides/Saved.antt =====
-- `save_role_overrides` at a role with a parent: the matrix that the role resolves to afterwards.
use pluris.Prelude.{
  ℕ, String, true, false, some, [], string_eq, id_eq, lookup, or_else, HasDistinctKeys, ok, err,
  ◌≡◌, ◌≢◌, inl, inr, refl, ap₂, sym, ◌∙◌, ap, arith, eq_iff, Bool-cases,
}
use pluris.Grants.{Grants, Json, RoundTrips}
use pluris.Grants.Checks.{lookup-parse, parse-HasDistinctKeys}
use pluris.Roles.Store.{
  query_failed, Role, Database, find_role, get_role, write_permissions, update_role,
  update_role_permissions,
}
use pluris.Roles.{
  overlay, resolve_role_matrix, complete_with_defaults, or_empty_text, diff_from,
  save_role_permissions, save_against, save_role_overrides,
}
use pluris.Roles.Rows.{find_role-update_role, get_role_cases}
use pluris.Roles.Hierarchy.{Clear}
use pluris.Roles.Resolution.{
  lookup-overlay, overlay-HasDistinctKeys, resolve_parts, climb-up, levels,
}
use pluris.Roles.Overrides.{
  lookup-complete_with_defaults, lookup-diff_from, climb-after, get_role-after,
}

-- A role `x`, its parent, and the matrix that the parent resolves to; `x` is not on the parent's
-- chain, which ends within four levels.
pub record Parented (json : Json) (db : Database) (x : ℕ) (role parent : Role) (p : ℕ)
    (effective : Grants) : Type 0 where
  pub found : find_role x db.roles ≡ some role
  pub has : role.parent_role_id ≡ some p
  pub above : find_role p db.roles ≡ some parent
  pub clear : Clear db.roles x 4 parent
  pub resolved : resolve_role_matrix json db parent ≡ ok effective

-- what `save_role_overrides` stores for `full`
abbrev pub overrides : Grants → Grants → Grants
overrides effective full = diff_from (complete_with_defaults effective) full []

abbrev with_permissions : String → Role → Role
with_permissions text r = record r { permissions = text }

module _ (json : Json) (db : Database) (x : ℕ) (role parent : Role) (p : ℕ)
    (effective full : Grants) (family : Parented json db x role parent p effective) where
  abbrev stored : String
  stored = json.marshal (overrides effective full)

  abbrev saved_db : Database
  saved_db = record db { roles = update_role x (with_permissions stored) db.roles }

  to_parent :
      get_role db x ≡ ok role → save_role_overrides json x full db ≡ save_against json x full p db
  unfolding save_role_overrides
  to_parent e = rw (e, save_role_overrides) (rw (family.has, save_role_overrides))

  to_write :
      get_role db p ≡ ok parent
      → save_against json x full p db ≡ save_role_permissions json x (overrides effective full) db
  unfolding save_against
  to_write e = rw (e, save_against) (rw (family.resolved, save_against))

  to_broken :
      get_role db p ≡ err query_failed → save_against json x full p db ≡ (err query_failed, db)
  unfolding save_against
  to_broken e = rw (e, save_against)

  unwritten :
      db.fails (write_permissions x) ≡ true
      → save_role_permissions json x (overrides effective full) db ≡ (err query_failed, db)
  unfolding save_role_permissions update_role_permissions
  unwritten broken = rw broken

  written :
      (db.fails (write_permissions x) ≡ false)
      → save_role_permissions json x (overrides effective full) db ≡ (ok tt, saved_db)
  unfolding save_role_permissions update_role_permissions
  written works = rw works

  save-eq :
      (save_role_overrides json x full db).0 ≡ ok tt
      → save_role_overrides json x full db ≡ (ok tt, saved_db)
  unfolding save_role_overrides save_role_permissions update_role_permissions
  save-eq e = elim (get_role_cases db x role family.found) [
    | inr broken ↦ ground arith
    | inl here ↦ elim (get_role_cases db p parent family.above) [
      | inr broken ↦ cc (to_parent here, to_broken broken)
      | inl there ↦ elim (Bool-cases (db.fails (write_permissions x))) [
        | inr works ↦ to_parent here ∙ to_write there ∙ written works
        | inl broken ↦ cc (to_parent here, to_write there, unwritten broken)
      ]
    ]
  ]

  -- the row of the role after the write
  abbrev saved_role : Role
  saved_role = with_permissions stored role

  find_role-saved : find_role x saved_db.roles ≡ some saved_role
  find_role-saved =
      rw (find_role-update_role x x (with_permissions stored) db.roles (λ r. refl))
        (ground (arith, family.found))

  parent_read : (save_role_overrides json x full db).0 ≡ ok tt → get_role db p ≡ ok parent
  unfolding save_role_overrides
  parent_read e = elim (get_role_cases db p parent family.above) [
    | inl there ↦ there
    | inr broken ↦ elim (get_role_cases db x role family.found) [
      | inr nowhere ↦ ground arith
      | inl here ↦ cc (to_parent here, to_broken broken)
    ]
  ]

  -- The saved role resolves to its overrides over what the parent resolves to.
  pub resolve_saved :
      (save_role_overrides json x full db).0 ≡ ok tt
      → RoundTrips json (overrides effective full)
      → (g : Grants) × (resolve_role_matrix json saved_db saved_role ≡ ok g)
        × HasDistinctKeys g
        × ((key : String)
            → lookup key g ≡ or_else (lookup key (overrides effective full)) (lookup key effective))
  unfolding resolve_role_matrix
  resolve_saved e trips =
      let f = with_permissions stored in
      let (rest, walked, same, distinct) = resolve_parts json db parent effective family.resolved in
      let again =
        climb-after json db x f (λ r. refl) 3 4 parent rest (omega arith) family.clear walked in
      let there = get_role-after json db x f (λ r. refl) p parent (parent_read e) family.clear.0 in
      let chain = levels json saved_role (levels json parent rest) in
      (
        overlay chain,
        rw (climb-up json 3 saved_db saved_role parent p family.has there) (rw again),
        overlay-HasDistinctKeys chain,
        λ key.
            lookup-overlay key chain (parse-HasDistinctKeys json stored, distinct)
            ∙ ap₂ or_else (lookup-parse json (overrides effective full) key trips) (
                sym (ap (lookup key) same ∙ lookup-overlay key (levels json parent rest) distinct)),
      )

  -- One key: kept as an override if it differs from the parent's completed value, else inherited.
  agrees :
      (key v : String) (g : Grants)
      → HasDistinctKeys full
      → HasDistinctKeys effective
      → HasDistinctKeys g
      → lookup key g ≡ or_else (lookup key (overrides effective full)) (lookup key effective)
      → lookup key full ≡ some v
      → v ≢ ""
      → lookup key (complete_with_defaults g) ≡ some v
  agrees key v g df de dg e held filled =
      let completed = complete_with_defaults effective in
      let o = or_empty_text (lookup key completed) in
      ground (
        arith,
        e,
        eq_iff v o,
        lookup-complete_with_defaults key g dg,
        lookup-complete_with_defaults key effective de,
        lookup-diff_from key completed full [] df,
      )

-- A matrix saved for a role with a parent is what the role resolves to: afterwards the role's row
-- resolves, and with the defaults filled in it has each value of the matrix that is not empty. This
-- holds if the parent's chain ends within four levels and avoids the role, and the stored text reads
-- back.
pub save_role_overrides-resolves :
    (json : Json) (db : Database) (x : ℕ) (role parent : Role) (p : ℕ) (effective full : Grants)
    (key v : String)
    → Parented json db x role parent p effective
    → HasDistinctKeys full
    → RoundTrips json (overrides effective full)
    → (save_role_overrides json x full db).0 ≡ ok tt
    → lookup key full ≡ some v
    → v ≢ ""
    → (saved : Role) × (g : Grants) × (find_role x (save_role_overrides json x full db).1.roles
        ≡ some saved)
      × (resolve_role_matrix json (save_role_overrides json x full db).1 saved ≡ ok g)
      × (lookup key (complete_with_defaults g) ≡ some v)
save_role_overrides-resolves json db x role parent p effective full key v family df trips e held
      filled =
    let (g, resolves, dg, keys) =
      resolve_saved json db x role parent p effective full family e trips in
    let (rest, walked, same, distinct) = resolve_parts json db parent effective family.resolved in
    let de : HasDistinctKeys effective = rw same (overlay-HasDistinctKeys _) in
    rw (save-eq json db x role parent p effective full family e) (
      saved_role json db x role parent p effective full family,
      g,
      find_role-saved json db x role parent p effective full family,
      resolves,
      agrees json db x role parent p effective full family key v g df de dg (keys key) held filled,
    )
