-- ===== src/Permissions.antt =====
-- catalog/permissions/registry.go and templates.go: the registry of grantable actions. Labels and
-- descriptions are display text and are left out.
pub mod Templates
mod Tests
use Prim.Native.String
use pluris.Prelude.{
  String, Bool, true, false, ◌&&◌, Option, none, some, List, [], ◌∷◌, ◌++◌, map, if◌then◌else◌,
  ◌==◌, string_eq, contains, not,
}

pub record Action : Type 0 where
  pub key : String
  pub scoped : Bool

pub record Domain : Type 0 where
  pub key : String
  pub actions : List Action

abbrev scoped : String → Action
scoped k = record { key = k; scoped = true }

abbrev plain : String → Action
plain k = record { key = k; scoped = false }

abbrev pub domains : List Domain
domains =
    record {
      key = "identity";
      actions =
          scoped "view"
          ∷ scoped "update"
          ∷ plain "create"
          ∷ plain "delete"
          ∷ plain "assign_roles"
          ∷ plain "assign_groups"
          ∷ [];
    }
    ∷ record {
      key = "asset";
      actions =
          scoped "view"
          ∷ scoped "update"
          ∷ plain "create"
          ∷ plain "delete"
          ∷ plain "set_owner"
          ∷ plain "manage_groups"
          ∷ [];
    }
    ∷ record {
      key = "endpoint_policy";
      actions =
          plain "view"
          ∷ plain "manage_catalog"
          ∷ plain "manage_config_groups"
          ∷ plain "manage_dependency_groups"
          ∷ plain "manage_modules"
          ∷ plain "assign_policies"
          ∷ [];
    }
    ∷ record {
      key = "group";
      actions =
          scoped "view"
          ∷ plain "create"
          ∷ plain "update"
          ∷ plain "delete"
          ∷ plain "manage_members"
          ∷ [];
    }
    ∷ record {
      key = "console_access";
      actions =
          plain "view_roles" ∷ plain "manage_role_assignments" ∷ plain "manage_permissions" ∷ [];
    }
    ∷ record {
      key = "server_admin";
      actions = plain "access" ∷ plain "manage_data" ∷ plain "tenant_switch" ∷ [];
    }
    ∷ []

-- The inner loop of `init`: each action under its full key, in registration order.
index_actions : String → List Action → List (String × Action)
index_actions domain [] = []
index_actions domain (a ∷ actions) =
    (String.◌++◌ domain (String.◌++◌ "." a.key), a) ∷ index_actions domain actions

index_domains : List Domain → List (String × Action)
index_domains [] = []
index_domains (d ∷ ds) = index_actions d.key d.actions ++ index_domains ds

unfoldable pub action_index : List (String × Action)
unfolding index_actions index_domains
action_index = index_domains domains

unfoldable pub all_keys : List String
unfolding action_index
all_keys = map (λ e. e.0) action_index

find_action : String → List (String × Action) → Option Action
find_action full [] = none
find_action full ((key, a) ∷ index) = if key == full then some a else find_action full index

unfoldable pub action_by_key : String → Option Action
unfolding find_action action_index
action_by_key full = find_action full action_index

-- `init` panics on a key that is registered twice.
unfoldable pub has_duplicate : List String → Bool
has_duplicate [] = false
has_duplicate (k ∷ ks) = if contains ks k then true else has_duplicate ks
