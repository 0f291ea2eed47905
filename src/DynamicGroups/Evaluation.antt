-- ===== src/DynamicGroups/Evaluation.antt =====
-- `EvaluateDynamicMembership` and `clearRuleSourcedMembers`: a group without rules loses its
-- rule-sourced members, every other dynamic group is reconciled in the columns of its member kind.
-- GetGroup and ListRulesForGroup have succeeded; their rows come as a `DynamicGroup`.
pub mod Untouched
use pluris.Prelude.{
  ℕ, zero, suc, ◌+◌, Bool, true, false, ◌&&◌, Option, none, some, List, [], ◌∷◌, if◌then◌else◌,
  nat_eq, length, Result, ok, err, Exec, ◌>>=◌, ◌>>◌, pure, fail, read,
}
use pluris.Conditions.{Runtime}
use pluris.DynamicGroups.{
  MemberKind, of_assets, of_identities, mixed, Column, asset_id, identity_id, Source, rule,
  Membership, Candidate, Database, Error, group_not_dynamic, DynamicGroup, list_rule, count_members,
  delete_all_rule, same_column, same_source, ids_from, written, guarded, reconcile,
}

-- the candidates of the tenant, and which assets and identities are not deleted
pub record Directory : Type 0 where
  pub candidates : Column → List Candidate
  pub is_live : Column → ℕ → Bool

pub record DynamicMembershipResult : Type 0 where
  pub added : ℕ
  pub removed : ℕ
  pub total : ℕ

-- a rule-sourced row of the group, in either column
abbrev pub is_rule_row : ℕ → Membership → Bool
is_rule_row g r = nat_eq r.group_id g && same_source r.source rule

-- DeleteAllRuleSourcedMembersForGroup
unfoldable pub delete_rule_rows : ℕ → List Membership → List Membership
delete_rule_rows g [] = []
delete_rule_rows g (r ∷ rs) =
    if is_rule_row g r then delete_rule_rows g rs else r ∷ delete_rule_rows g rs

-- CountAssetsInGroup and CountIdentitiesInGroup
unfoldable pub count_in : Directory → ℕ → Column → List Membership → ℕ
count_in dir g c [] = 0
count_in dir g c (r ∷ rs) =
    let n = count_in dir g c rs in
    if nat_eq r.group_id g && (same_column r.column c && dir.is_live c r.member) then suc n else n

abbrev pub covers : MemberKind → Column → Bool
covers of_assets asset_id = true
covers of_identities identity_id = true
covers mixed c = true
covers _ _ = false

unfoldable pub totalled : Directory → ℕ → ℕ → ℕ → Exec Database Error DynamicMembershipResult
unfolding count_in
totalled dir g added removed = do
  assets ← read (λ db.
      guarded g asset_id (db.fails (count_members asset_id))
        (count_in dir g asset_id db.memberships))
  identities ← read (λ db.
      guarded g identity_id (db.fails (count_members identity_id))
        (count_in dir g identity_id db.memberships))
  pure (record { added = added; removed = removed; total = assets + identities })

abbrev pub listed_rule : ℕ → Column → Exec Database Error (List ℕ)
listed_rule g c =
    read (λ db. guarded g c (db.fails (list_rule c)) (ids_from g c rule db.memberships))

-- the deletion, if there is anything to delete
abbrev pub cleared : ℕ → ℕ → Exec Database Error (Unit {0})
cleared g zero db = (ok tt, db)
cleared g (suc n) db = written g asset_id (db.fails delete_all_rule) (delete_rule_rows g) db

unfoldable pub clear_rule_sourced_members :
    Directory → ℕ → Exec Database Error DynamicMembershipResult
unfolding totalled delete_rule_rows
clear_rule_sourced_members dir g = do
  assets ← listed_rule g asset_id
  identities ← listed_rule g identity_id
  cleared g (length assets + length identities)
  totalled dir g 0 (length assets + length identities)

module _ {F : Type 0} (run : Runtime F) (dir : Directory) where
  abbrev pub reconciled : DynamicGroup → Column → Exec Database Error (ℕ × ℕ)
  reconciled group c =
      if covers group.member_kind c
      then reconcile group.id c run group.rules (dir.candidates c)
      else pure (0, 0)

  unfoldable pub reconcile_columns : DynamicGroup → Exec Database Error DynamicMembershipResult
  unfolding totalled
  reconcile_columns group = do
    assets ← reconciled group asset_id
    identities ← reconciled group identity_id
    totalled dir group.id (assets.0 + identities.0) (assets.1 + identities.1)

  unfoldable pub evaluate_dynamic_membership :
      DynamicGroup → Exec Database Error DynamicMembershipResult
  unfolding reconcile_columns clear_rule_sourced_members
  evaluate_dynamic_membership group =
      if group.is_dynamic
      then elim group.rules.conditions [
        | [] ↦ clear_rule_sourced_members dir group.id
        | _ ∷ _ ↦ reconcile_columns group
      ]
      else fail group_not_dynamic
