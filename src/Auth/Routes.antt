-- ===== src/Auth/Routes.antt =====
-- pkg/auth/rbac.go: the permission that gates a path, by the longest registered prefix.
pub mod Longest
use pluris.Prelude.{
  ℕ, zero, suc, String, Bool, true, false, ◌&&◌, List, [], ◌∷◌, if◌then◌else◌, ltb, ◌==◌, string_eq,
}
use Prim.Native.String
use pluris.Conditions.Text.{has_prefix}
use pluris.Grants.{Grants, can}

-- The registered prefixes are ASCII, so that Go's `len` counts their characters.
unfoldable pub text_length : String → ℕ
text_length String.[] = 0
text_length (String.◌∷◌ c s) = suc (text_length s)

-- `routePermissionKey`
abbrev pub routes : List (String × String)
routes =
    ("/", "")
    ∷ ("/users", "identity.view")
    ∷ ("/assets", "asset.view")
    ∷ ("/groups", "group.view")
    ∷ ("/policy", "endpoint_policy.view")
    ∷ ("/policy/pluris", "console_access.view_roles")
    ∷ ("/policy/modules", "endpoint_policy.manage_modules")
    ∷ ("/scripts", "endpoint_policy.manage_modules")
    ∷ ("/profiles", "")
    ∷ ("/wine", "")
    ∷ ("/packages", "")
    ∷ ("/preferences", "")
    ∷ ("/server-admin", "server_admin.access")
    ∷ ("/server-admin/data", "server_admin.manage_data")
    ∷ ("/tenant-switch", "server_admin.tenant_switch")
    ∷ ("/api/config-groups", "endpoint_policy.manage_config_groups")
    ∷ ("/api/modules", "endpoint_policy.manage_modules")
    ∷ ("/api/params", "")
    ∷ ("/api/scripts", "")
    ∷ []

-- `bestPrefix` and `bestKey`, at one entry of the loop
abbrev pub better : String → String × String → String × String → String × String
better path (prefix, key) best =
    if has_prefix path prefix && ltb (text_length best.0) (text_length prefix)
    then (prefix, key)
    else best

-- The loop, over the entries in any order. The key of an empty best prefix is still "".
unfoldable pub best_match : String → List (String × String) → String × String → String × String
best_match path [] best = best
best_match path (entry ∷ entries) best = best_match path entries (better path entry best)

unfoldable pub route_permission_key : String → String
unfolding best_match text_length has_prefix
route_permission_key path = (best_match path routes ("", "")).1

unfoldable pub can_access_grants : Grants → String → Bool
can_access_grants g path =
    let key = route_permission_key path in if key == "" then true else can g key
