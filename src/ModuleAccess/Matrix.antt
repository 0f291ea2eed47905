-- ===== src/ModuleAccess/Matrix.antt =====
-- The decision matrix that the comment above `ModuleCanView` gives, as rules, and the checks against it.
use pluris.Prelude.{
  Bool, true, false, ◌&&◌, some, ◌≡◌, ◌↔◌, ◌⊎◌, inl, inr, refl, arith, In, Bool-cases, id_eq,
  string_eq,
}
use pluris.Grants.{bypass_key, bypass, can}
use pluris.ModuleAccess.{
  ModuleGrant, ModuleAccessInput, action_manage_modules, action_view_policy, is_owner,
  has_explicit_level, module_can_view, module_can_edit, module_can_admin,
}
use pluris.ModuleAccess.Grounds.{
  Level, view, edit, admin, Holds, Covers, Names, scope-Holds, Holds-scope, level_text,
  owner-is_owner, is_owner-owner, explicit_iff, can-Holds, Holds-can,
}

-- A bundled module is capped at the level "view".
abbrev pub IsCapped : ModuleAccessInput → Level → Type 0
IsCapped i view = Unit
IsCapped i edit = i.is_bundled ≡ false
IsCapped i admin = i.is_bundled ≡ false

-- One rule for each kind of line of the matrix; what no rule gives is denied.
pub data Permitted (i : ModuleAccessInput) (level : Level) : Type 0 where
  super_admin : Holds i.grants bypass_key → Permitted i level
  manager : Holds i.grants action_manage_modules → IsCapped i level → Permitted i level
  owner : i.owner_id ≡ some i.identity_id → IsCapped i level → Permitted i level
  granted :
      (g : ModuleGrant)
      → In g i.module_grants
      → Names i g
      → Covers level g.level
      → IsCapped i level
      → Permitted i level
  reader :
      level ≡ view → i.is_bundled ≡ true → Holds i.grants action_view_policy → Permitted i level

-- the check of a level
abbrev pub allowed : Level → ModuleAccessInput → Bool
allowed view = module_can_view
allowed edit = module_can_edit
allowed admin = module_can_admin

module _ (i : ModuleAccessInput) (level : Level) where
  -- the three grounds that count for a module which is not capped
  grounded :
      IsCapped i level
      → (can i.grants action_manage_modules ≡ true)
        ⊎ (is_owner i ≡ true)
        ⊎ (has_explicit_level i (level_text level) ≡ true)
      → Permitted i level
  grounded free (inl manages) = elim (can-Holds i.grants action_manage_modules manages) [
    | inl all ↦ super_admin all
    | inr held ↦ manager held free
  ]
  grounded free (inr (inl owns)) = owner (is_owner-owner i owns) free
  grounded free (inr (inr listed)) =
      let (g, here, named, high) = (explicit_iff i level).0 listed in granted g here named high free

bypassed : (i : ModuleAccessInput) (level : Level) → bypass i.grants ≡ true → Permitted i level
unfolding bypass
bypassed i level e = super_admin (scope-Holds i.grants bypass_key e)

allowed-Permitted :
    (i : ModuleAccessInput) (level : Level) → allowed level i ≡ true → Permitted i level
unfolding module_can_view module_can_edit module_can_admin
allowed-Permitted i view e = elim (Bool-cases (bypass i.grants)) [
  | inl all ↦ bypassed i view all
  | inr plain ↦ elim (Bool-cases (i.is_bundled && can i.grants action_view_policy)) [
    | inl reads ↦ elim (can-Holds i.grants action_view_policy (ground arith)) [
      | inl all ↦ super_admin all
      | inr held ↦ reader refl (ground arith) held
    ]
    | inr hidden ↦ grounded i view tt (ground arith)
  ]
]
allowed-Permitted i edit e = elim (Bool-cases (bypass i.grants)) [
  | inl all ↦ bypassed i edit all
  | inr plain ↦ grounded i edit (ground arith) (ground arith)
]
allowed-Permitted i admin e = elim (Bool-cases (bypass i.grants)) [
  | inl all ↦ bypassed i admin all
  | inr plain ↦ grounded i admin (ground arith) (ground arith)
]

uncapped :
    (i : ModuleAccessInput) (level : Level)
    → IsCapped i level
    → (can i.grants action_manage_modules ≡ true)
      ⊎ (is_owner i ≡ true)
      ⊎ (has_explicit_level i (level_text level) ≡ true)
    → allowed level i ≡ true
unfolding module_can_view module_can_edit module_can_admin
uncapped i view free h = ground arith
uncapped i edit free h = ground arith
uncapped i admin free h = ground arith

bypass-allowed :
    (i : ModuleAccessInput) (level : Level) → bypass i.grants ≡ true → allowed level i ≡ true
unfolding module_can_view module_can_edit module_can_admin
bypass-allowed i view e = rw e refl
bypass-allowed i edit e = rw e refl
bypass-allowed i admin e = rw e refl

reader-allowed :
    (i : ModuleAccessInput)
    → i.is_bundled ≡ true
    → can i.grants action_view_policy ≡ true
    → module_can_view i ≡ true
unfolding module_can_view
reader-allowed i bundled reads = ground arith

Permitted-allowed :
    (i : ModuleAccessInput) (level : Level) → Permitted i level → allowed level i ≡ true
unfolding bypass
Permitted-allowed i level (super_admin held) =
    bypass-allowed i level (Holds-scope i.grants bypass_key held)
Permitted-allowed i level (manager held free) =
    uncapped i level free (inl (Holds-can i.grants action_manage_modules held))
Permitted-allowed i level (owner own free) =
    uncapped i level free (inr (inl (owner-is_owner i own)))
Permitted-allowed i level (granted g listed named high free) =
    uncapped i level free (inr (inr ((explicit_iff i level).1 (g, listed, named, high))))
Permitted-allowed i level (reader viewing bundled held) =
    rw viewing (reader-allowed i bundled (Holds-can i.grants action_view_policy held))

-- ModuleCanView, ModuleCanEdit and ModuleCanAdmin answer true exactly where a rule of the matrix gives
-- the level: the super-admin marker gives every level; managing modules, owning the module, and a row
-- of the module that covers the level and is about the session's identity or one of its groups or
-- roles give it where the module is not bundled, and "view" also where it is; and a bundled module is
-- viewed by whoever may view policy.
pub module_access_iff :
    (i : ModuleAccessInput) (level : Level) → (allowed level i ≡ true) ↔ Permitted i level
module_access_iff i level = (allowed-Permitted i level, Permitted-allowed i level)
