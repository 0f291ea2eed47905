-- ===== src/RoleCache.antt =====
-- `recomputeRoleCache` of pkg/services/roles.go: the slug that `identities.role` caches, from the roles
-- that an identity holds directly and by way of groups.
pub mod Highest
pub mod Directory
pub mod Held
pub mod Refreshed
pub mod Current
pub mod Changes
pub mod Builtins
pub mod Ensured
mod Tests
use pluris.Prelude.{
  ℕ, String, Bool, true, false, Option, none, some, List, [], ◌∷◌, ◌++◌, if◌then◌else◌, ltb, ◌==◌,
  string_eq, Result, ok, err, and_then,
}
use pluris.Roles.Store.{
  Error, Role, Database, list_roles_for_identity, list_group_roles_for_identity,
}

-- `rolePrivilege`: an unknown slug reads 0.
unfoldable pub role_privilege : String → ℕ
role_privilege slug =
    if slug == "super_admin"
    then 4
    else if slug == "admin"
    then 3
    else if slug == "technician"
    then 2
    else if slug == "user"
    then 1
    else 0

abbrev pub or_slug : String → Option String → String
or_slug slug none = slug
or_slug slug (some template) = template

-- the slug that a role ranks as: a custom role ranks as its template
unfoldable pub ranked_slug : Role → String
ranked_slug r = if r.is_builtin then r.slug else or_slug r.slug r.template_slug

-- `best` and `bestRank`, after the closure `rank` has seen the roles
unfoldable pub best_of : String × ℕ → List Role → String × ℕ
best_of best [] = best
best_of best (r ∷ rs) =
    best_of
      (if ltb best.1 (role_privilege (ranked_slug r))
        then (ranked_slug r, role_privilege (ranked_slug r))
        else best)
      rs

-- the slug that UpdateIdentityRole is given
unfoldable pub recompute_role_cache : Database → ℕ → Result Error String
unfolding best_of ranked_slug role_privilege
recompute_role_cache db identity_id = and_then (list_roles_for_identity db identity_id) (λ direct.
    and_then (list_group_roles_for_identity db identity_id)
      (λ via_groups. ok (best_of ("user", 0) (direct ++ via_groups)).0))
