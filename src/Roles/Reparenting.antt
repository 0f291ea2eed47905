-- ===== src/Roles/Reparenting.antt =====
-- What a call of `set_role_parent` does to the hierarchy.
use pluris.Prelude.{
  ℕ, none, some, ◌==◌, id_eq, Result, ok, err, ◌≡◌, ◌≢◌, inl, inr, refl, arith, Bool-cases,
  Result-cases,
}
use pluris.Roles.Store.{
  Error, no_rows, query_failed, role_cycle, builtin_parent, Role, Database, find_role, get_role,
  update_role, update_role_parent, write_parent,
}
use pluris.Roles.{check_ancestors, under_parent, set_role_parent}
use pluris.Roles.Rows.{get_role-ok, find_role-other}
use pluris.Roles.Hierarchy.{
  Rooted, IsAcyclic, Clear, check_ancestors-Clear, with_parent_id, Clear-Rooted,
  reparented-IsAcyclic,
}

-- What a call of `set_role_parent` does: it fails and changes nothing, clears the parent, or writes
-- one whose chain it has checked.
pub data Effect (x p : ℕ) (db : Database) (r : Result Error (Unit {0}) × Database) : Type 0 where
  refused : (e : Error) → r ≡ (err e, db) → Effect x p db r
  cleared :
      p ≡ 0
      → r ≡ (ok tt, record db { roles = update_role x (with_parent_id none) db.roles })
      → Effect x p db r
  placed :
      (parent : Role)
      → find_role p db.roles ≡ some parent
      → p ≢ x
      → Clear db.roles x 4 parent
      → r ≡ (ok tt, record db { roles = update_role x (with_parent_id (some p)) db.roles })
      → Effect x p db r

under_parent-Effect :
    (role : Role) (x p : ℕ) (db : Database) → p ≢ x → Effect x p db (under_parent role x p db)
unfolding under_parent update_role_parent
under_parent-Effect role x p db other = elim (Result-cases (get_role db p)) [
  | inr (e, broken) ↦ Effect.refused e (ground arith)
  | inl (parent, found) ↦ elim (Bool-cases (parent.tenant_id == role.tenant_id)) [
    | inr foreign ↦ Effect.refused no_rows (ground arith)
    | inl own ↦ elim (Result-cases (check_ancestors 3 db x parent)) [
      | inr (e, bad) ↦ Effect.refused e (ground arith)
      | inl (_, fine) ↦ elim (Bool-cases (db.fails (write_parent x))) [
        | inl broken ↦ Effect.refused query_failed (ground arith)
        | inr works ↦
            Effect.placed parent (get_role-ok db p parent found) other
              (check_ancestors-Clear 3 db x parent (ground arith)) (ground arith)
      ]
    ]
  ]
]

pub set_role_parent-Effect : (x p : ℕ) (db : Database) → Effect x p db (set_role_parent x p db)
unfolding set_role_parent update_role_parent
set_role_parent-Effect x p db = elim (Result-cases (get_role db x)) [
  | inr (e, broken) ↦ Effect.refused e (ground arith)
  | inl (role, found) ↦ elim (Bool-cases role.is_builtin) [
    | inl builtin ↦ Effect.refused builtin_parent (ground arith)
    | inr custom ↦ elim (Bool-cases (p == 0)) [
      | inl clears ↦ elim (Bool-cases (db.fails (write_parent x))) [
        | inl broken ↦ Effect.refused query_failed (ground arith)
        | inr works ↦ Effect.cleared (ground arith) (ground arith)
      ]
      | inr sets ↦ elim (Bool-cases (p == x)) [
        | inl same ↦ Effect.refused role_cycle (ground arith)
        | inr other ↦
            let e : set_role_parent x p db ≡ under_parent role x p db =
              rw found (rw custom (rw sets (rw other))) in
            rw e (under_parent-Effect role x p db (ground arith))
      ]
    ]
  ]
]

-- Setting or clearing a parent keeps the hierarchy free of cycles, whatever the call returns.
pub set_role_parent-IsAcyclic :
    (x p : ℕ) (db : Database) → IsAcyclic db.roles → IsAcyclic (set_role_parent x p db).1.roles
set_role_parent-IsAcyclic x p db acyclic = keep (set_role_parent-Effect x p db)
  where
    keep : Effect x p db (set_role_parent x p db) → IsAcyclic (set_role_parent x p db).1.roles
    keep (Effect.refused e same) = rw same acyclic
    keep (Effect.cleared zeroed e) =
        rw e (reparented-IsAcyclic db.roles x none (λ q was. Rooted.root refl) acyclic)
    keep (Effect.placed parent found other clear e) = rw e (
        reparented-IsAcyclic db.roles x (some p)
          (λ q was.
            Rooted.up p parent refl
              (find_role-other db.roles x (with_parent_id (some p)) (λ r. refl) p parent found
                clear.0)
              (Clear-Rooted db.roles x (some p) 4 parent clear))
          acyclic)
