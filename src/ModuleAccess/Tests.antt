-- ===== src/ModuleAccess/Tests.antt =====
-- Sessions that may and may not edit a module.
use pluris.Prelude.{true, false, none, some, [], ◌∷◌, ◌≡◌, inl, inr, refl}
use pluris.Grants.{bypass, can}
use pluris.ModuleAccess.{
  ModuleAccessInput, is_owner, has_explicit_level, module_can_view, module_can_edit,
}
use pluris.ModuleAccess.Grounds.{edit}
use pluris.ModuleAccess.Matrix.{granted, module_access_iff}

-- an editor by way of group 3, and the administrator by way of role 9
abbrev session : ModuleAccessInput
session = record {
  grants = ("endpoint_policy.view", "yes") ∷ [];
  identity_id = 7;
  group_ids = 3 ∷ [];
  role_ids = 9 ∷ [];
  owner_id = some 8;
  is_bundled = false;
  module_grants =
      record { subject_type = "group"; subject_id = 3; level = "edit" }
      ∷ record { subject_type = "role"; subject_id = 9; level = "admin" }
      ∷ [];
}

bundled_test : module_can_edit (record session { is_bundled = true }) ≡ false
unfolding module_can_edit bypass
bundled_test = refl

-- the row of group 3 is enough to edit, whoever owns the module
module_access_iff_example : module_can_edit session ≡ true
module_access_iff_example = (module_access_iff session edit).1 (
    granted (record { subject_type = "group"; subject_id = 3; level = "edit" }) (inl refl)
      (inr (inl (refl, inl refl))) (inl refl) refl)

unowned_test : module_can_view (record session { owner_id = none; module_grants = [] }) ≡ false
unfolding module_can_view bypass can is_owner has_explicit_level
unowned_test = refl
