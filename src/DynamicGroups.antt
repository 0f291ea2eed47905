-- ===== src/DynamicGroups.antt =====
-- `EvaluateDynamicMembership` of pkg/services/group_rules.go, over the table `group_memberships` and
-- the queries of db/group_rules.sql.go. An asset or an identity is a candidate with its facts.
pub mod Members
pub mod Reconciliation
pub mod Outcome
pub mod Reconciled
pub mod Evaluation
mod Tests
use pluris.Prelude.{
  ℕ, zero, suc, ◌+◌, String, Bool, true, false, ◌&&◌, ◌||◌, not, Option, none, some, List, [], ◌∷◌,
  ◌++◌, if◌then◌else◌, ◌==◌, id_eq, nat_eq, any, length, contains, Result, ok, err, Exec, ◌>>=◌,
  ◌>>◌, pure, fail, read,
}
use pluris.Conditions.{Verdict, pass, Group, Facts, Runtime, eval_group}

pub data MemberKind : Type 0 where
  of_assets of_identities mixed : MemberKind

-- the two columns `asset_id` and `identity_id`, of which a row fills one
pub data Column : Type 0 where
  asset_id identity_id : Column

pub data Source : Type 0 where
  direct rule : Source

pub record Membership : Type 0 where
  pub group_id : ℕ
  pub column : Column
  pub member : ℕ
  pub source : Source

pub record Candidate : Type 0 where
  pub id : ℕ
  pub facts : Facts

pub data Query : Type 0 where
  list_candidates list_direct list_rule count_members : Column → Query
  add_member delete_member : Column → ℕ → Query
  delete_all_rule : Query

pub data Error : Type 0 where
  group_not_dynamic query_failed : Error

pub record Database : Type 0 where
  pub memberships : List Membership
  pub fails : Query → Bool

-- a group, with its rules as conditions
pub record DynamicGroup : Type 0 where
  pub id : ℕ
  pub is_dynamic : Bool
  pub member_kind : MemberKind
  pub rules : Group

abbrev pub target_catalog_limit : ℕ
target_catalog_limit = 10000

abbrev pub same_column : Column → Column → Bool
same_column asset_id asset_id = true
same_column identity_id identity_id = true
same_column _ _ = false

abbrev pub same_source : Source → Source → Bool
same_source direct direct = true
same_source rule rule = true
same_source _ _ = false

unfoldable pub take : ℕ → List Candidate → List Candidate
take n [] = []
take zero (x ∷ xs) = []
take (suc n) (x ∷ xs) = x ∷ take n xs

module _ (g : ℕ) (c : Column) where
  -- the rows of the group in this column, from one source
  abbrev pub is_from : Source → Membership → Bool
  is_from s r = nat_eq r.group_id g && (same_column r.column c && same_source r.source s)

  abbrev pub is_of : ℕ → Membership → Bool
  is_of id r = nat_eq r.group_id g && (same_column r.column c && nat_eq r.member id)

  -- ListDirect…IDsForGroup and ListRuleSourced…IDsForGroup
  unfoldable pub ids_from : Source → List Membership → List ℕ
  ids_from s [] = []
  ids_from s (r ∷ rs) = if is_from s r then r.member ∷ ids_from s rs else ids_from s rs

  -- Add…ToGroupWithSource: `ON CONFLICT DO NOTHING` on the unique pair of group and member
  unfoldable pub add_rule : ℕ → List Membership → List Membership
  add_rule id rs =
      if any (is_of id) rs
      then rs
      else rs ++ record { group_id = g; column = c; member = id; source = rule } ∷ []

  -- DeleteRuleSourced…FromGroup
  unfoldable pub delete_rule : ℕ → List Membership → List Membership
  delete_rule id [] = []
  delete_rule id (r ∷ rs) =
      if is_from rule r && nat_eq r.member id then delete_rule id rs else r ∷ delete_rule id rs

  abbrev pub written : Bool → (List Membership → List Membership) → Exec Database Error (Unit {0})
  written true f db = (err query_failed, db)
  written false f db = (ok tt, record db { memberships = f db.memberships })

  abbrev pub guarded {ℓ} : {A : Type ℓ} → Bool → A → Result Error A
  guarded true a = err query_failed
  guarded false a = ok a

  -- the loop over `passing`
  unfoldable pub add_all : List ℕ → List ℕ → List ℕ → ℕ → Exec Database Error ℕ
  unfolding add_rule
  add_all direct_ids rule_ids [] added db = (ok added, db)
  add_all direct_ids rule_ids (id ∷ ids) added db =
      let skipped = add_all direct_ids rule_ids ids added db in
      let inserted =
        (written (db.fails (add_member c id)) (add_rule id)
            >> add_all direct_ids rule_ids ids (added + 1))
          db in
      if contains direct_ids id || contains rule_ids id then skipped else inserted

  -- the loop over `currentRule`
  unfoldable pub delete_all : List ℕ → List ℕ → ℕ → Exec Database Error ℕ
  unfolding delete_rule
  delete_all passing [] removed db = (ok removed, db)
  delete_all passing (id ∷ ids) removed db =
      let kept = delete_all passing ids removed db in
      let deleted =
        (written (db.fails (delete_member c id)) (delete_rule id)
            >> delete_all passing ids (removed + 1))
          db in
      if contains passing id then kept else deleted

  module _ {F : Type 0} (run : Runtime F) (rules : Group) where
    abbrev passes : Verdict → Bool
    passes pass = true
    passes _ = false

    unfoldable pub passing_ids : List Candidate → List ℕ
    passing_ids [] = []
    passing_ids (a ∷ rest) =
        if passes (eval_group run rules a.facts) then a.id ∷ passing_ids rest else passing_ids rest

    -- reconcileAssetRuleMembers and reconcileIdentityRuleMembers
    unfoldable pub reconcile : List Candidate → Exec Database Error (ℕ × ℕ)
    unfolding add_all delete_all passing_ids take ids_from
    reconcile catalog = do
      candidates ←
          read (λ db. guarded (db.fails (list_candidates c)) (take target_catalog_limit catalog))
      direct_ids ← read (λ db. guarded (db.fails (list_direct c)) (ids_from direct db.memberships))
      rule_ids ← read (λ db. guarded (db.fails (list_rule c)) (ids_from rule db.memberships))
      added ← add_all direct_ids rule_ids (passing_ids candidates) 0
      removed ← delete_all (passing_ids candidates) rule_ids 0
      pure (added, removed)
