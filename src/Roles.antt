-- ===== src/Roles.antt =====
-- pkg/authz/service.go: the service that resolves and stores the grants of roles.
pub mod Store
pub mod Rows
pub mod Hierarchy
pub mod Reparenting
pub mod Resolution
pub mod Overrides
pub mod Listings
pub mod Effective
mod Tests
use pluris.Prelude.{
  ℕ, zero, suc, String, Bool, true, false, Option, none, some, List, [], ◌∷◌, ◌++◌, if◌then◌else◌,
  ◌==◌, string_eq, id_eq, lookup, insert, insert_all, contains, Result, ok, err, Exec, and_then,
  continue, ◌>>=◌, ◌>>◌, pure, fail, read, Dict,
}
use pluris.Grants.{Grants, Json, parse, union}
use pluris.Permissions.{Action, all_keys, action_by_key}
use pluris.Permissions.Templates.{builtin_slugs, template_grants}
use pluris.Slug.{slugify}
use pluris.Roles.Store.{
  Error, no_rows, query_failed, unique_violation, role_cycle, builtin_parent, Role, Database,
  get_role, get_role_by_slug, list_roles_for_identity, list_group_roles_for_identity,
  update_role_parent, update_role_permissions, create_role,
}

abbrev pub max_role_depth : ℕ
max_role_depth = 5

-- The merge loop of `ResolveRoleMatrix`, which runs from the last map to the first.
unfoldable pub overlay : List Grants → Grants
overlay [] = []
overlay (own ∷ ancestors) = insert_all own (overlay ancestors)

-- The two de-duplicating loops of `EffectiveGrants`, one after the other over both lists.
unfoldable pub add_new : List ℕ → List Role → List Role → List Role
add_new seen roles [] = roles
add_new seen roles (r ∷ rs) =
    let fresh = add_new (r.id ∷ seen) (roles ++ r ∷ []) rs in
    let known = add_new seen roles rs in if contains seen r.id then known else fresh

-- `defaultForKey`
unfoldable pub default_for_key : String → String
default_for_key key = elim (action_by_key key) [
  | none ↦ "no"
  | some a ↦ if a.scoped then "none" else "no"
]

fill : List String → Grants → Grants
fill [] out = out
fill (key ∷ keys) out = elim (lookup key out) [
  | none ↦ fill keys (insert key (default_for_key key) out)
  | some v ↦ fill keys out
]

-- `completeWithDefaults`
unfoldable pub complete_with_defaults : Grants → Grants
unfolding fill
complete_with_defaults effective = fill all_keys (insert_all effective [])

abbrev pub or_empty_text : Option String → String
or_empty_text none = ""
or_empty_text (some v) = v

-- The loop of `SaveRoleOverrides` that drops what equals the parent's value.
unfoldable pub diff_from : Grants → Grants → Grants → Grants
diff_from parent [] diff = diff
diff_from parent ((key, value) ∷ full) diff =
    diff_from parent full
      (if value == or_empty_text (lookup key parent) then diff else insert key value diff)

module _ (json : Json) where
  -- The walk of `ResolveRoleMatrix` up the parents of `current`, for the levels that are left.
  unfoldable pub climb : ℕ → Database → Role → Result Error (List Grants)
  climb zero db current = ok []
  climb (suc levels) db current = elim current.parent_role_id [
    | none ↦ ok []
    | some parent_id ↦ elim (get_role db parent_id) [
      | ok parent ↦
          and_then (climb levels db parent) (λ rest. ok (parse json parent.permissions ∷ rest))
      | err no_rows ↦ ok []
      | err e ↦ err e
    ]
  ]

  unfoldable pub resolve_role_matrix : Database → Role → Result Error Grants
  unfolding climb overlay
  resolve_role_matrix db role =
      and_then (climb 4 db role) (λ rest. ok (overlay (parse json role.permissions ∷ rest)))

  resolve_all : Database → List Role → Result Error (List Grants)
  resolve_all db [] = ok []
  resolve_all db (r ∷ rs) =
      and_then (resolve_role_matrix db r) (λ g. and_then (resolve_all db rs) (λ gs. ok (g ∷ gs)))

  unfoldable pub effective_grants : Database → ℕ → Result Error Grants
  unfolding resolve_all add_new
  effective_grants db identity_id = and_then (list_roles_for_identity db identity_id) (λ direct.
      and_then (list_group_roles_for_identity db identity_id) (λ via_groups.
        and_then (resolve_all db (add_new [] [] (direct ++ via_groups)))
          (λ parsed. ok (union parsed))))

  unfoldable pub save_role_permissions : ℕ → Grants → Exec Database Error (Unit {0})
  save_role_permissions role_id g = update_role_permissions role_id (json.marshal g)

  -- the part of `SaveRoleOverrides` for a role with a parent
  save_against : ℕ → Grants → ℕ → Exec Database Error (Unit {0})
  unfolding complete_with_defaults diff_from
  save_against role_id full parent_id db = elim (get_role db parent_id) [
    | ok parent ↦
        continue (resolve_role_matrix db parent)
          (λ effective.
            save_role_permissions role_id (diff_from (complete_with_defaults effective) full []))
          db
    | err no_rows ↦ save_role_permissions role_id full db
    | err e ↦ (err e, db)
  ]

  unfoldable pub save_role_overrides : ℕ → Grants → Exec Database Error (Unit {0})
  unfolding save_against
  save_role_overrides role_id full = do
    role ← read (λ db. get_role db role_id)
    elim role.parent_role_id [
      | none ↦ save_role_permissions role_id full
      | some parent_id ↦ save_against role_id full parent_id
    ]

  fill_template : Dict String String → Grants → Grants × Bool
  fill_template [] existing = (existing, false)
  fill_template ((key, value) ∷ template) existing = elim (lookup key existing) [
    | none ↦ let (filled, _) = fill_template template (insert key value existing) in (filled, true)
    | some v ↦ fill_template template existing
  ]

  -- one round of `EnsureBuiltinGrants`
  ensure_slug : ℕ → String → Exec Database Error (Unit {0})
  unfolding fill_template
  ensure_slug tenant_id slug db = elim (template_grants slug) [
    | none ↦ (ok tt, db)
    | some template ↦ elim (get_role_by_slug db tenant_id slug) [
      | err no_rows ↦ (ok tt, db)
      | err e ↦ (err e, db)
      | ok role ↦
          let (existing, changed) = fill_template template (parse json role.permissions) in
          if changed then save_role_permissions role.id existing db else (ok tt, db)
    ]
  ]

  ensure_slugs : ℕ → List String → Exec Database Error (Unit {0})
  ensure_slugs tenant_id [] = pure tt
  ensure_slugs tenant_id (slug ∷ slugs) = do
    ensure_slug tenant_id slug
    ensure_slugs tenant_id slugs

  unfoldable pub ensure_builtin_grants : ℕ → Exec Database Error (Unit {0})
  unfolding ensure_slugs ensure_slug
  ensure_builtin_grants tenant_id = ensure_slugs tenant_id builtin_slugs

-- The loop of `SetRoleParent` up the ancestors of the new parent; `room` is `MaxRoleDepth - depth`.
unfoldable pub check_ancestors : ℕ → Database → ℕ → Role → Result Error (Unit {0})
check_ancestors zero db role_id current =
    if current.id == role_id
    then err role_cycle
    else elim current.parent_role_id [ none ↦ ok tt | some next_id ↦ err role_cycle ]
check_ancestors (suc room) db role_id current =
    let above : Result Error (Unit {0}) = elim current.parent_role_id [
      | none ↦ ok tt
      | some next_id ↦ elim (get_role db next_id) [
        | ok next ↦ check_ancestors room db role_id next
        | err no_rows ↦ ok tt
        | err e ↦ err e
      ]
    ] in
    if current.id == role_id then err role_cycle else above

-- `depth` starts at 2: the role and its parent.
under_parent : Role → ℕ → ℕ → Exec Database Error (Unit {0})
under_parent role role_id parent_id = do
  parent ← read (λ db. get_role db parent_id)
  if parent.tenant_id == role.tenant_id
      then (read (λ db. check_ancestors 3 db role_id parent)
          >> update_role_parent role_id (some parent_id))
      else fail no_rows

unfoldable pub set_role_parent : ℕ → ℕ → Exec Database Error (Unit {0})
unfolding under_parent
set_role_parent role_id parent_id = do
  role ← read (λ db. get_role db role_id)
  if role.is_builtin
      then fail builtin_parent
      else if parent_id == 0
      then update_role_parent role_id none
      else if parent_id == role_id
      then fail role_cycle
      else under_parent role role_id parent_id

-- the slug that a copy of the role traces back to
abbrev traced_slug : Role → Option String
traced_slug source = if source.is_builtin then some source.slug else source.template_slug

unfoldable pub clone_role : ℕ → ℕ → String → Exec Database Error Role
clone_role tenant_id source_id new_name = do
  source ← read (λ db. get_role db source_id)
  created ← create_role tenant_id (slugify new_name) new_name false (traced_slug source)
  update_role_permissions created.id source.permissions
  pure (record created { permissions = source.permissions })

abbrev parent_template : ℕ → ℕ → Exec Database Error (Option String)
parent_template tenant_id zero = pure none
parent_template tenant_id (suc n) = do
  parent ← read (λ db. get_role db (suc n))
  if parent.tenant_id == tenant_id then pure (traced_slug parent) else fail no_rows

abbrev with_parent : Role → ℕ → Exec Database Error Role
with_parent created zero = pure created
with_parent created (suc n) = do
  set_role_parent created.id (suc n)
  pure (record created { parent_role_id = some (suc n) })

unfoldable pub create_custom_role : ℕ → String → ℕ → Exec Database Error Role
create_custom_role tenant_id name parent_id = do
  template_slug ← parent_template tenant_id parent_id
  created ← create_role tenant_id (slugify name) name false template_slug
  update_role_permissions created.id "{}"
  with_parent (record created { permissions = "{}" }) parent_id
