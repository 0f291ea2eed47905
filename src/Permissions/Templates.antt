-- ===== src/Permissions/Templates.antt =====
-- catalog/permissions/templates.go: the grants that a builtin role starts with.
use pluris.Prelude.{String, Option, none, some, List, [], ◌∷◌, Dict, lookup, insert_all, string_eq}

abbrev super_admin_template : Dict String String
super_admin_template =
    ("identity.view", "all")
    ∷ ("identity.update", "all")
    ∷ ("identity.create", "yes")
    ∷ ("identity.delete", "yes")
    ∷ ("identity.assign_roles", "yes")
    ∷ ("identity.assign_groups", "yes")
    ∷ ("asset.view", "all")
    ∷ ("asset.update", "all")
    ∷ ("asset.create", "yes")
    ∷ ("asset.delete", "yes")
    ∷ ("asset.set_owner", "yes")
    ∷ ("asset.manage_groups", "yes")
    ∷ ("group.view", "all")
    ∷ ("group.create", "yes")
    ∷ ("group.update", "yes")
    ∷ ("group.delete", "yes")
    ∷ ("group.manage_members", "yes")
    ∷ ("endpoint_policy.view", "yes")
    ∷ ("endpoint_policy.manage_catalog", "yes")
    ∷ ("endpoint_policy.manage_config_groups", "yes")
    ∷ ("endpoint_policy.manage_dependency_groups", "yes")
    ∷ ("endpoint_policy.manage_modules", "yes")
    ∷ ("endpoint_policy.assign_policies", "yes")
    ∷ ("console_access.view_roles", "yes")
    ∷ ("console_access.manage_role_assignments", "yes")
    ∷ ("console_access.manage_permissions", "yes")
    ∷ ("server_admin.access", "yes")
    ∷ ("server_admin.manage_data", "yes")
    ∷ ("server_admin.tenant_switch", "yes")
    ∷ []

abbrev admin_template : Dict String String
admin_template =
    ("identity.view", "all")
    ∷ ("identity.update", "all")
    ∷ ("identity.create", "yes")
    ∷ ("identity.delete", "yes")
    ∷ ("identity.assign_roles", "yes")
    ∷ ("identity.assign_groups", "yes")
    ∷ ("asset.view", "all")
    ∷ ("asset.update", "all")
    ∷ ("asset.create", "yes")
    ∷ ("asset.delete", "yes")
    ∷ ("asset.set_owner", "yes")
    ∷ ("asset.manage_groups", "yes")
    ∷ ("group.view", "all")
    ∷ ("group.create", "yes")
    ∷ ("group.update", "yes")
    ∷ ("group.delete", "yes")
    ∷ ("group.manage_members", "yes")
    ∷ ("endpoint_policy.view", "yes")
    ∷ ("endpoint_policy.manage_catalog", "yes")
    ∷ ("endpoint_policy.manage_config_groups", "yes")
    ∷ ("endpoint_policy.manage_dependency_groups", "yes")
    ∷ ("endpoint_policy.manage_modules", "yes")
    ∷ ("endpoint_policy.assign_policies", "yes")
    ∷ ("console_access.view_roles", "yes")
    ∷ ("console_access.manage_role_assignments", "yes")
    ∷ ("console_access.manage_permissions", "yes")
    ∷ ("server_admin.access", "yes")
    ∷ ("server_admin.manage_data", "yes")
    ∷ ("server_admin.tenant_switch", "no")
    ∷ []

abbrev technician_template : Dict String String
technician_template =
    ("identity.view", "all")
    ∷ ("identity.update", "all")
    ∷ ("identity.create", "yes")
    ∷ ("identity.delete", "no")
    ∷ ("identity.assign_roles", "no")
    ∷ ("identity.assign_groups", "yes")
    ∷ ("asset.view", "all")
    ∷ ("asset.update", "all")
    ∷ ("asset.create", "yes")
    ∷ ("asset.delete", "yes")
    ∷ ("asset.set_owner", "yes")
    ∷ ("asset.manage_groups", "yes")
    ∷ ("group.view", "all")
    ∷ ("group.create", "no")
    ∷ ("group.update", "no")
    ∷ ("group.delete", "no")
    ∷ ("group.manage_members", "yes")
    ∷ ("endpoint_policy.view", "yes")
    ∷ ("endpoint_policy.manage_catalog", "yes")
    ∷ ("endpoint_policy.manage_config_groups", "yes")
    ∷ ("endpoint_policy.manage_dependency_groups", "yes")
    ∷ ("endpoint_policy.manage_modules", "yes")
    ∷ ("endpoint_policy.assign_policies", "yes")
    ∷ ("console_access.view_roles", "yes")
    ∷ ("console_access.manage_role_assignments", "no")
    ∷ ("console_access.manage_permissions", "no")
    ∷ ("server_admin.access", "no")
    ∷ ("server_admin.manage_data", "no")
    ∷ ("server_admin.tenant_switch", "no")
    ∷ []

abbrev user_template : Dict String String
user_template =
    ("identity.view", "own")
    ∷ ("identity.update", "own")
    ∷ ("identity.create", "no")
    ∷ ("identity.delete", "no")
    ∷ ("identity.assign_roles", "no")
    ∷ ("identity.assign_groups", "no")
    ∷ ("asset.view", "own")
    ∷ ("asset.update", "none")
    ∷ ("asset.create", "no")
    ∷ ("asset.delete", "no")
    ∷ ("asset.set_owner", "no")
    ∷ ("asset.manage_groups", "no")
    ∷ ("group.view", "none")
    ∷ ("group.create", "no")
    ∷ ("group.update", "no")
    ∷ ("group.delete", "no")
    ∷ ("group.manage_members", "no")
    ∷ ("endpoint_policy.view", "yes")
    ∷ ("endpoint_policy.manage_catalog", "no")
    ∷ ("endpoint_policy.manage_config_groups", "no")
    ∷ ("endpoint_policy.manage_dependency_groups", "no")
    ∷ ("endpoint_policy.manage_modules", "no")
    ∷ ("endpoint_policy.assign_policies", "no")
    ∷ ("console_access.view_roles", "no")
    ∷ ("console_access.manage_role_assignments", "no")
    ∷ ("console_access.manage_permissions", "no")
    ∷ ("server_admin.access", "no")
    ∷ ("server_admin.manage_data", "no")
    ∷ ("server_admin.tenant_switch", "no")
    ∷ []

-- `builtinSlugs`, in order of privilege
abbrev pub builtin_slugs : List String
builtin_slugs = "super_admin" ∷ "admin" ∷ "technician" ∷ "user" ∷ []

abbrev pub builtin_templates : Dict String (Dict String String)
builtin_templates =
    ("super_admin", super_admin_template)
    ∷ ("admin", admin_template)
    ∷ ("technician", technician_template)
    ∷ ("user", user_template)
    ∷ []

abbrev copied : Option (Dict String String) → Option (Dict String String)
copied none = none
copied (some template) = some (insert_all template [])

-- `TemplateGrants`: nil for a slug that is not builtin, else a copy
unfoldable pub template_grants : String → Option (Dict String String)
template_grants slug = copied (lookup slug builtin_templates)
