-- ===== src/RoleCache/Tests.antt =====
-- Roles of a tenant, a group with a role, and the changes that follow.
use pluris.Prelude.{All, List, inl, inr}
use pluris.Permissions.Templates.{builtin_slugs}
use pluris.Roles.Store.{select, holds_directly, holds_via_group, get_role_by_slug, create_role}
use pluris.RoleCache.Held.{held}
use pluris.RoleCache.Current.{IsCurrent}
use pluris.RoleCache.Changes.{
  Change, assigns, removes, assigns_to_group, removes_from_group, recomputes, perform, run,
  run-IsCurrent,
}
use pluris.RoleCache.Builtins.{ensure_builtins}
use pluris.RoleCache.Ensured.{Completes, lookups, ensure_builtins-again}
use pluris.RoleCache.Directory.{
  Directory, assign, remove, group_role_assign, group_role_remove, recompute,
  recompute_for_group_members, list_identities_in_group, members_of, assign_role_to_group,
  remove_role_from_group, remove_role_from_identity, assign_role_to_identity, update_identity_role,
}
use pluris.Prelude.{In, true, false, none, some, [], ◌∷◌, ok, ◌≡◌, refl}
use pluris.Roles.Store.{Role, Database, list_roles_for_identity, list_group_roles_for_identity}
use pluris.RoleCache.{recompute_role_cache}

abbrev technician : Role
technician = record {
  id = 1;
  tenant_id = 1;
  slug = "technician";
  name = "Technician";
  is_builtin = true;
  template_slug = none;
  permissions = "{}";
  parent_role_id = none;
}

abbrev stripped : Role
stripped = record {
  id = 2;
  tenant_id = 1;
  slug = "observer";
  name = "Observer";
  is_builtin = false;
  template_slug = some "super_admin";
  permissions = "{}";
  parent_role_id = none;
}

abbrev tenant : Database
tenant = record {
  roles = technician ∷ stripped ∷ [];
  identity_roles = (5, 1) ∷ (5, 2) ∷ (6, 2) ∷ [];
  group_roles = [];
  group_memberships = [];
  groups = [];
  next_id = 3;
  fails = λ q. false;
}

stripped_ranks : recompute_role_cache tenant 6 ≡ ok "super_admin"
unfolding recompute_role_cache list_roles_for_identity list_group_roles_for_identity
stripped_ranks = refl

both_rank : recompute_role_cache tenant 5 ≡ ok "super_admin"
unfolding recompute_role_cache list_roles_for_identity list_group_roles_for_identity
both_rank = refl

-- two identities without roles, and a group of both
abbrev staff : Directory
staff = record {
  database = record tenant {
    identity_roles = [];
    group_memberships = (3, 5) ∷ (3, 6) ∷ [];
    groups = record { id = 3; deleted = false } ∷ [];
  };
  identities =
      record { id = 5; role = "user"; is_deleted = false }
      ∷ record { id = 6; role = "user"; is_deleted = false }
      ∷ [];
}

staff-IsCurrent : IsCurrent staff
unfolding select holds_directly holds_via_group
staff-IsCurrent x (inl e) live = rw e (inl (refl, λ r h. absurd h))
staff-IsCurrent x (inr (inl e)) live = rw e (inl (refl, λ r h. absurd h))
staff-IsCurrent x (inr (inr nothing)) live = absurd nothing

-- An unknown role is refused; the role of the group outranks the own one.
abbrev changes : List Change
changes =
    assigns 5 1
    ∷ assigns 6 9
    ∷ assigns_to_group 3 2
    ∷ removes 5 1
    ∷ removes_from_group 3 2
    ∷ assigns_to_group 3 1
    ∷ recomputes 6
    ∷ []

run-IsCurrent_example : IsCurrent (run changes staff)
run-IsCurrent_example = run-IsCurrent changes staff (λ q. refl) staff-IsCurrent

changes_test :
    (run changes staff).identities
    ≡ record { id = 5; role = "technician"; is_deleted = false }
      ∷ record { id = 6; role = "technician"; is_deleted = false }
      ∷ []
unfolding run perform assign remove group_role_assign group_role_remove recompute
    recompute_for_group_members list_identities_in_group members_of recompute_role_cache
    list_roles_for_identity assign_role_to_group remove_role_from_group remove_role_from_identity
    assign_role_to_identity list_group_roles_for_identity update_identity_role
changes_test = refl

-- The deletion of a group refreshes nobody: its members keep the slug of its role.
stale_after_deletion :
    let before = run (assigns_to_group 3 2 ∷ []) staff in
    let after = record before {
      database = record (before.database) { groups = record { id = 3; deleted = true } ∷ [] };
    } in
    (after.identities
      ≡ record { id = 5; role = "super_admin"; is_deleted = false }
        ∷ record { id = 6; role = "super_admin"; is_deleted = false }
        ∷ [])
    × (held after.database 5 ≡ [])
unfolding run perform group_role_assign recompute_for_group_members list_identities_in_group
    members_of select holds_directly holds_via_group assign_role_to_group recompute
    recompute_role_cache list_roles_for_identity list_group_roles_for_identity update_identity_role
stale_after_deletion = (refl, refl)

abbrev new_tenant : Database
new_tenant = record tenant { roles = technician ∷ []; identity_roles = [] }

abbrev ensured : Database
ensured = (ensure_builtins 1 new_tenant).1

ensured_ok : ensure_builtins 1 new_tenant ≡ (ok tt, ensured)
unfolding ensure_builtins get_role_by_slug create_role
ensured_ok = refl

-- whose every later query fails
ensure_builtins-again_example :
    Completes 1 new_tenant ensured
    × All
        (λ slug. (r : Role) × In r ensured.roles × (r.tenant_id ≡ 1) × (r.slug ≡ slug))
        builtin_slugs
    × (ensure_builtins 1 (record ensured { fails = λ q. true })
        ≡ (lookups 1 (λ q. true) builtin_slugs, record ensured { fails = λ q. true }))
ensure_builtins-again_example = ensure_builtins-again 1 new_tenant ensured (λ q. true) ensured_ok
