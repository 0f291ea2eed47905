-- ===== src/Roles/Tests.antt =====
-- A tenant with a small hierarchy of roles, and the theorems at it.
use pluris.Prelude.{
  ℕ, true, false, none, some, [], ◌∷◌, ◌==◌, if◌then◌else◌, lookup, string_eq, ok, err, refl, ◌≡◌,
  inl, inr, arith, eq_iff, In, ◌⊎◌,
}
use pluris.Grants.{Grants, Json, RoundTrips, can, parse}
use pluris.Roles.Store.{role_cycle, Role, Database, Query, find_role, get_role}
use pluris.Roles.{
  resolve_role_matrix, complete_with_defaults, effective_grants, set_role_parent,
  save_role_overrides,
}
use pluris.Roles.Hierarchy.{IsAcyclic, Rooted}
use pluris.Roles.Reparenting.{set_role_parent-IsAcyclic}
use pluris.Roles.Resolution.{Inherits, resolve_role_matrix-Inherits, resolve_role_matrix_total}
use pluris.Roles.Overrides.Saved.{Parented, overrides, save_role_overrides-resolves}
use pluris.Roles.Effective.{Holds, effective_grants_sound, effective_grants_complete}

abbrev staff_grants : Grants
staff_grants = ("identity.view", "own") ∷ ("asset.create", "no") ∷ []

abbrev lead_grants : Grants
lead_grants = ("asset.create", "yes") ∷ []

abbrev table : Json
table = record {
  marshal = λ g. elim (lookup "identity.view" g) [ none ↦ "lead" | some v ↦ "staff" ];
  unmarshal = λ s.
      if s == "lead" then some lead_grants else if s == "staff" then some staff_grants else none;
}

abbrev staff : Role
staff = record {
  id = 1;
  tenant_id = 1;
  slug = "staff";
  name = "Staff";
  is_builtin = false;
  template_slug = none;
  permissions = "staff";
  parent_role_id = none;
}

abbrev lead : Role
lead = record {
  id = 2;
  tenant_id = 1;
  slug = "lead";
  name = "Lead";
  is_builtin = false;
  template_slug = none;
  permissions = "lead";
  parent_role_id = some 1;
}

-- identity 5 holds the role Lead
abbrev tenant : Database
tenant = record {
  roles = staff ∷ lead ∷ [];
  identity_roles = (5, 2) ∷ [];
  group_roles = [];
  group_memberships = [];
  groups = [];
  next_id = 3;
  fails = λ q. false;
}

abbrev lead_matrix : Grants
lead_matrix = ("identity.view", "own") ∷ ("asset.create", "yes") ∷ []

lead_resolves : resolve_role_matrix table tenant lead ≡ ok lead_matrix
unfolding resolve_role_matrix get_role find_role parse
lead_resolves = refl

cycle_refused : set_role_parent 1 2 tenant ≡ (err role_cycle, tenant)
unfolding set_role_parent get_role find_role pluris.Roles.check_ancestors
cycle_refused = refl

staff_found : find_role 1 tenant.roles ≡ some staff
unfolding find_role
staff_found = refl

tenant_rows : (id : ℕ) (r : Role) → find_role id tenant.roles ≡ some r → (r ≡ staff) ⊎ (r ≡ lead)
unfolding find_role
tenant_rows id r e = ground arith

tenant-IsAcyclic : IsAcyclic tenant.roles
tenant-IsAcyclic = record {
  rooted = λ id r e. elim (tenant_rows id r e) [
    | inl first ↦ rw first (Rooted.root refl)
    | inr second ↦ rw second (Rooted.up 1 staff refl staff_found (Rooted.root refl))
  ];
}

set_role_parent-IsAcyclic_example : IsAcyclic (set_role_parent 1 2 tenant).1.roles
set_role_parent-IsAcyclic_example = set_role_parent-IsAcyclic 1 2 tenant tenant-IsAcyclic

resolve_role_matrix-Inherits_example :
    Inherits table tenant.roles "identity.view" 4 lead (lookup "identity.view" lead_matrix)
resolve_role_matrix-Inherits_example =
    resolve_role_matrix-Inherits table tenant lead lead_matrix "identity.view" lead_resolves

resolve_role_matrix_total_example : (g : Grants) × (resolve_role_matrix table tenant lead ≡ ok g)
resolve_role_matrix_total_example = resolve_role_matrix_total table tenant lead (λ id. refl)

abbrev lead_effective : Grants
lead_effective = ("identity.view", "own") ∷ ("asset.create", "yes") ∷ []

effective_test : effective_grants table tenant 5 ≡ ok lead_effective
unfolding effective_grants resolve_role_matrix get_role find_role parse
    pluris.Roles.Store.list_roles_for_identity pluris.Roles.Store.list_group_roles_for_identity
    pluris.Grants.union
effective_test = refl

effective_grants_sound_example :
    (r : Role) × (m : Grants) × In r tenant.roles
    × Holds tenant 5 r
    × (resolve_role_matrix table tenant r ≡ ok m)
    × (can m "asset.create" ≡ true)
unfolding can pluris.Grants.bypass
effective_grants_sound_example =
    effective_grants_sound table tenant 5 lead_effective "asset.create" effective_test refl

tenant_unique : (s t : Role) → In s tenant.roles → In t tenant.roles → s.id ≡ t.id → s ≡ t
tenant_unique s t h k e = ground arith

lead_held : Holds tenant 5 lead
unfolding pluris.Roles.Store.holds_directly
lead_held = inl refl

effective_grants_complete_example : can lead_effective "identity.view" ≡ true
unfolding can pluris.Grants.bypass
effective_grants_complete_example =
    effective_grants_complete table tenant 5 lead_effective lead_matrix "identity.view" lead
      tenant_unique effective_test (inr (inl refl)) lead_held lead_resolves refl

lead_family : Parented table tenant 2 lead staff 1 staff_grants
unfolding find_role resolve_role_matrix parse
lead_family = record {
  found = refl;
  has = refl;
  above = staff_found;
  clear = (λ e. ground arith, inl refl);
  resolved = refl;
}

lead_saved : (save_role_overrides table 2 lead_matrix tenant).0 ≡ ok tt
unfolding save_role_overrides get_role find_role resolve_role_matrix
    pluris.Roles.save_role_permissions pluris.Roles.Store.update_role_permissions
lead_saved = refl

lead_overrides : overrides staff_grants lead_matrix ≡ lead_grants
unfolding complete_with_defaults pluris.Roles.diff_from pluris.Permissions.all_keys
lead_overrides = refl

lead_trips : RoundTrips table (overrides staff_grants lead_matrix)
lead_trips = rw lead_overrides (lead_grants, (refl, tt), refl, λ key. refl)

save_role_overrides-resolves_example :
    (saved : Role) × (g : Grants) × (find_role 2
        (save_role_overrides table 2 lead_matrix tenant).1.roles
      ≡ some saved)
    × (resolve_role_matrix table (save_role_overrides table 2 lead_matrix tenant).1 saved ≡ ok g)
    × (lookup "asset.create" (complete_with_defaults g) ≡ some "yes")
save_role_overrides-resolves_example =
    save_role_overrides-resolves table tenant 2 lead staff 1 staff_grants lead_matrix "asset.create"
      "yes" lead_family (refl, (refl, tt)) lead_trips lead_saved refl
      (λ e. ground (arith, eq_iff "yes" ""))
