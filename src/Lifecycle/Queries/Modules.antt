-- ===== src/Lifecycle/Queries/Modules.antt =====
-- The statements of db/policy_modules.sql.go on modules, and the counts of references to them.
use pluris.Prelude.{
  ℕ, suc, String, Bool, true, false, ◌&&◌, ◌||◌, not, Option, none, some, List, [], ◌∷◌, ◌++◌,
  if◌then◌else◌, nat_eq, ◌==◌, string_eq, any, ok, err,
}
use pluris.Lifecycle.{Module, Tables, unique_violation, Statement}
use pluris.Lifecycle.Queries.{
  update_where, refers_to, is_known, constrained, delete_where, count, first, found, cascade,
}

abbrev pub is_active : Option ℕ → Bool
is_active none = true
is_active (some time) = false

abbrev pub is_module : ℕ → Module → Bool
is_module i r = nat_eq r.id i

abbrev pub new_module : String → Option ℕ → String → Option String → Bool → Tables → Module
new_module urn tenant_id title description is_bundled t = record {
  id = t.next_module;
  module_urn = urn;
  tenant_id = tenant_id;
  title = title;
  description = description;
  is_bundled = is_bundled;
  created_at = t.now;
  owner_identity_id = none;
  deleted_at = none;
  deleted_by = none;
  origin = "";
}

abbrev pub module_rows : String → Option ℕ → String → Option String → Bool → Statement Module
module_rows urn tenant_id title description is_bundled t = (
  ok (new_module urn tenant_id title description is_bundled t),
  record t {
    modules = t.modules ++ new_module urn tenant_id title description is_bundled t ∷ [];
    next_module = suc t.next_module;
  },
)

-- CreatePolicyModule, whose column `module_urn` is unique and whose tenant is checked
unfoldable pub create_module_row :
    String → Option ℕ → String → Option String → Bool → Statement Module
create_module_row urn tenant_id title description is_bundled t =
    if any (λ r. r.module_urn == urn) t.modules
    then (err unique_violation, t)
    else constrained (refers_to tenant_id t.tenants)
        (module_rows urn tenant_id title description is_bundled) t

-- GetPolicyModule, GetPolicyModuleByURN and GetPolicyModuleByURNIncludingDeleted
abbrev pub get_module_row : ℕ → Statement Module
get_module_row i t = (found (first (λ r. is_module i r && is_active r.deleted_at) t.modules), t)

abbrev pub get_module_by_urn : String → Statement Module
get_module_by_urn urn t =
    (found (first (λ r. r.module_urn == urn && is_active r.deleted_at) t.modules), t)

abbrev pub get_any_module_by_urn : String → Statement Module
get_any_module_by_urn urn t = (found (first (λ r. r.module_urn == urn) t.modules), t)

abbrev pub set_modules : List Module → Tables → Tables
set_modules rows t = record t { modules = rows }

-- SetModuleOwner, whose owner is checked where a row is written
abbrev pub owner_rows : ℕ → Option ℕ → Statement (Unit {0})
owner_rows i owner t = (
  ok tt,
  set_modules (update_where (is_module i) (λ r. record r { owner_identity_id = owner }) t.modules)
      t,
)

abbrev pub owner_holds : ℕ → Option ℕ → Tables → Bool
owner_holds i owner t = is_known owner t || not (any (is_module i) t.modules)

unfoldable pub set_module_owner : ℕ → Option ℕ → Statement (Unit {0})
set_module_owner i owner t = constrained (owner_holds i owner t) (owner_rows i owner) t

-- SetModuleOrigin
unfoldable pub set_module_origin : ℕ → String → Statement (Unit {0})
set_module_origin i origin t = (
  ok tt,
  set_modules (update_where (is_module i) (λ r. record r { origin = origin }) t.modules) t,
)

-- UpdatePolicyModule
abbrev pub retitled : String → Option String → Module → Module
retitled title description r = record r { title = title; description = description }

abbrev pub retitled_row : ℕ → String → Option String → Option Module → Statement Module
retitled_row i title description none t = (found none, t)
retitled_row i title description (some r) t = (
  ok (retitled title description r),
  set_modules (update_where (is_module i) (retitled title description) t.modules) t,
)

unfoldable pub update_module_row : ℕ → String → Option String → Statement Module
update_module_row i title description t =
    retitled_row i title description (first (is_module i) t.modules) t

-- SoftDeletePolicyModule and RestorePolicyModule
unfoldable pub soft_delete_module : ℕ → ℕ → Statement ℕ
soft_delete_module i actor t =
    let p : Module → Bool = λ r. is_module i r && is_active r.deleted_at in
    (
      ok (count p t.modules),
      set_modules
          (update_where p (λ r. record r { deleted_at = some t.now; deleted_by = some actor })
            t.modules)
          t,
    )

unfoldable pub restore_module_row : ℕ → Statement ℕ
restore_module_row i t =
    let p : Module → Bool = λ r. is_module i r && not (is_active r.deleted_at) in
    (
      ok (count p t.modules),
      set_modules
          (update_where p (λ r. record r { deleted_at = none; deleted_by = none }) t.modules) t,
    )

-- DeletePolicyModule, with the versions of the module
unfoldable pub delete_module_row : ℕ → Statement (Unit {0})
delete_module_row i t = (
  ok tt,
  set_modules (delete_where (is_module i) t.modules) (cascade (λ v. nat_eq v.module_id i) t),
)

-- CountLinksForModule, CountBindingsByModule and CountInstallationsByModule
abbrev pub count_links : ℕ → String → Statement ℕ
count_links tenant_id urn t =
    (ok (count (λ (l : ℕ × String). nat_eq l.0 tenant_id && l.1 == urn) t.links), t)

abbrev pub count_bindings : ℕ → Statement ℕ
count_bindings i t = (ok (count (λ m. nat_eq m i) t.bindings), t)

abbrev pub count_installations : ℕ → Statement ℕ
count_installations i t = (ok (count (λ m. nat_eq m i) t.installations), t)

-- GetRetentionSetting for the policy modules
abbrev pub get_retention_mode : Statement String
get_retention_mode t = (found t.retention_mode, t)
