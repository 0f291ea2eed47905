-- ===== src/ModuleAccess.antt =====
-- pkg/authz/modules.go: who may view, edit and administer one policy module.
pub mod Grounds
pub mod Matrix
mod Tests
use pluris.Prelude.{
  ℕ, String, Bool, true, false, ◌&&◌, ◌||◌, Option, none, some, List, [], ◌∷◌, if◌then◌else◌, ltb,
  ◌==◌, string_eq, id_eq, contains,
}
use pluris.Grants.{Grants, bypass, can}

abbrev pub action_manage_modules : String
action_manage_modules = "endpoint_policy.manage_modules"

abbrev pub action_view_policy : String
action_view_policy = "endpoint_policy.view"

-- An unknown level reads 0 from the table.
unfoldable pub module_level_rank : String → ℕ
module_level_rank level =
    if level == "view" then 1 else if level == "edit" then 2 else if level == "admin" then 3 else 0

pub record ModuleGrant : Type 0 where
  pub subject_type : String
  pub subject_id : ℕ
  pub level : String

pub record ModuleAccessInput : Type 0 where
  pub grants : Grants
  pub identity_id : ℕ
  pub group_ids : List ℕ
  pub role_ids : List ℕ
  pub owner_id : Option ℕ
  pub is_bundled : Bool
  pub module_grants : List ModuleGrant

abbrev owns : Option ℕ → ℕ → Bool
owns none self_id = false
owns (some owner) self_id = owner == self_id

unfoldable pub is_owner : ModuleAccessInput → Bool
is_owner i = owns i.owner_id i.identity_id

-- the `switch g.SubjectType` of the loop: does the row name this session?
unfoldable pub names_subject : ModuleAccessInput → ModuleGrant → Bool
names_subject i g =
    if g.subject_type == "identity"
    then g.subject_id == i.identity_id
    else if g.subject_type == "group"
    then contains i.group_ids g.subject_id
    else if g.subject_type == "role"
    then contains i.role_ids g.subject_id
    else false

has_level_in : ModuleAccessInput → ℕ → List ModuleGrant → Bool
has_level_in i need [] = false
has_level_in i need (g ∷ gs) =
    let rest = has_level_in i need gs in
    if ltb (module_level_rank g.level) need then rest else if names_subject i g then true else rest

unfoldable pub has_explicit_level : ModuleAccessInput → String → Bool
unfolding has_level_in
has_explicit_level i required = has_level_in i (module_level_rank required) i.module_grants

unfoldable pub module_can_view : ModuleAccessInput → Bool
module_can_view i =
    if bypass i.grants
    then true
    else if can i.grants action_manage_modules
    then true
    else if is_owner i
    then true
    else if has_explicit_level i "view"
    then true
    else i.is_bundled && can i.grants action_view_policy

unfoldable pub module_can_edit : ModuleAccessInput → Bool
module_can_edit i =
    if bypass i.grants
    then true
    else if i.is_bundled
    then false
    else if can i.grants action_manage_modules
    then true
    else if is_owner i
    then true
    else has_explicit_level i "edit"

unfoldable pub module_can_admin : ModuleAccessInput → Bool
module_can_admin i =
    if bypass i.grants
    then true
    else if i.is_bundled
    then false
    else if can i.grants action_manage_modules
    then true
    else if is_owner i
    then true
    else has_explicit_level i "admin"
