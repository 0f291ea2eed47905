-- ===== src/RoleCache/Builtins.antt =====
-- `EnsureBuiltins` of pkg/services/roles.go: the builtin roles of a tenant.
use pluris.Prelude.{
  ℕ, String, true, none, List, [], ◌∷◌, if◌then◌else◌, ◌==◌, string_eq, id_eq, Result, ok, err,
  Exec, pure, fail, ◌>>◌,
}
use pluris.Permissions.Templates.{builtin_slugs}
use pluris.Roles.Store.{Error, no_rows, Role, Database, get_role_by_slug, create_role}

-- the names in `builtinRoleDetails`
unfoldable pub builtin_name : String → String
builtin_name slug =
    if slug == "super_admin"
    then "Super Admin"
    else if slug == "admin"
    then "Admin"
    else if slug == "technician"
    then "Technician"
    else if slug == "user"
    then "User"
    else ""

-- one round of the loop, with the answer of GetRoleBySlug
unfoldable pub create_absent : ℕ → String → Result Error Role → Exec Database Error (Unit {0})
unfolding builtin_name
create_absent tenant_id slug (ok role) = pure tt
create_absent tenant_id slug (err no_rows) = do
  create_role tenant_id slug (builtin_name slug) true none
  pure tt
create_absent tenant_id slug (err e) = fail e

unfoldable pub ensure_each : ℕ → List String → Exec Database Error (Unit {0})
unfolding create_absent
ensure_each tenant_id [] = pure tt
ensure_each tenant_id (slug ∷ slugs) = do
  λ db. create_absent tenant_id slug (get_role_by_slug db tenant_id slug) db
  ensure_each tenant_id slugs

unfoldable pub ensure_builtins : ℕ → Exec Database Error (Unit {0})
unfolding ensure_each
ensure_builtins tenant_id = ensure_each tenant_id builtin_slugs
