-- ===== src/DynamicGroups/Evaluation/Untouched.antt =====
-- `EvaluateDynamicMembership` and the rows that are not rule-sourced ones of its group.
use pluris.Prelude.{
  ℕ, zero, suc, ◌+◌, Bool, true, false, List, [], ◌∷◌, if◌then◌else◌, length, Exec, continue, ◌>>=◌,
  ◌≡◌, refl, sym, ap, ◌∙◌, arith, Bool-cases, Result-cases, inl, inr, ◌⊎◌,
}
use pluris.Conditions.{Runtime}
use pluris.DynamicGroups.{
  Column, asset_id, identity_id, Membership, Database, Error, DynamicGroup, delete_all_rule,
  count_members, written, guarded,
}
use pluris.DynamicGroups.Members.{others}
use pluris.DynamicGroups.Reconciled.{reconcile-others}
use pluris.DynamicGroups.Evaluation.{
  Directory, is_rule_row, delete_rule_rows, totalled, listed_rule, cleared,
  clear_rule_sourced_members, reconciled, reconcile_columns, evaluate_dynamic_membership, covers,
}

List-cases : {A : Type 0} (xs : List A) → (xs ≡ []) ⊎ ((x : A) × (ys : List A) × (xs ≡ x ∷ ys))
List-cases [] = inl refl
List-cases (x ∷ xs) = inr (x, xs, refl)

module _ (g : ℕ) where
  -- the rows that are not rule-sourced ones of the group, in their order
  unfoldable pub untouched : List Membership → List Membership
  untouched [] = []
  untouched (r ∷ rs) = if is_rule_row g r then untouched rs else r ∷ untouched rs

  untouched-others : (c : Column) (rs : List Membership) → untouched (others g c rs) ≡ untouched rs
  unfolding untouched others
  untouched-others c [] = refl
  untouched-others c (r ∷ rs) = ground (arith, untouched-others c rs)

  untouched-delete_rule_rows :
      (rs : List Membership) → untouched (delete_rule_rows g rs) ≡ untouched rs
  unfolding untouched delete_rule_rows
  untouched-delete_rule_rows [] = refl
  untouched-delete_rule_rows (r ∷ rs) = ground (arith, untouched-delete_rule_rows rs)

  abbrev Keeps : {A : Type 0} → Exec Database Error A → Type 0
  Keeps m = (db : Database) → untouched (m db).1.memberships ≡ untouched db.memberships

  bind-Keeps :
      {A B : Type 0} (m : Exec Database Error A) (f : A → Exec Database Error B)
      → Keeps m
      → ((a : A) → Keeps (f a))
      → Keeps (m >>= f)
  bind-Keeps m f first rest db = elim (Result-cases (m db).0) [
    | inl (a, done) ↦ rw (done, continue) (rest a (m db).1 ∙ first db)
    | inr (e, stops) ↦ rw (stops, continue) (first db)
  ]

  totalled-Keeps : (dir : Directory) (a r : ℕ) → Keeps (totalled dir g a r)
  unfolding totalled
  totalled-Keeps dir a r db = elim (Bool-cases (db.fails (count_members asset_id))) [
    | inl broken ↦ rw (broken, guarded) refl
    | inr works ↦ elim (Bool-cases (db.fails (count_members identity_id))) [
      | inl broken ↦ rw (works, guarded) (rw (broken, guarded) refl)
      | inr works' ↦ rw (works, guarded) (rw (works', guarded) refl)
    ]
  ]

  listed_rule-Keeps : (c : Column) → Keeps (listed_rule g c)
  listed_rule-Keeps c db = refl

  written-Keeps :
      (broken : Bool) (db : Database)
      → untouched (written g asset_id broken (delete_rule_rows g) db).1.memberships
        ≡ untouched db.memberships
  written-Keeps true db = refl
  written-Keeps false db = untouched-delete_rule_rows db.memberships

  cleared-Keeps : (n : ℕ) → Keeps (cleared g n)
  cleared-Keeps zero db = refl
  cleared-Keeps (suc n) db = written-Keeps (db.fails delete_all_rule) db

  clear-Keeps : (dir : Directory) → Keeps (clear_rule_sourced_members dir g)
  unfolding clear_rule_sourced_members
  clear-Keeps dir =
      bind-Keeps (listed_rule g asset_id)
        (λ xs. listed_rule g identity_id >>= λ ys.
          cleared g (length xs + length ys) >>= λ done. totalled dir g 0 (length xs + length ys))
        (listed_rule-Keeps asset_id)
        (λ xs.
          bind-Keeps (listed_rule g identity_id)
            (λ ys. cleared g (length xs + length ys) >>= λ done.
              totalled dir g 0 (length xs + length ys))
            (listed_rule-Keeps identity_id)
            (λ ys.
              bind-Keeps (cleared g (length xs + length ys))
                (λ done. totalled dir g 0 (length xs + length ys))
                (cleared-Keeps (length xs + length ys))
                (λ done. totalled-Keeps dir 0 (length xs + length ys))))

module _ {F : Type 0} (run : Runtime F) (dir : Directory) (group : DynamicGroup) where
  reconciled-Keeps : (c : Column) → Keeps group.id (reconciled run dir group c)
  reconciled-Keeps c db = elim (Bool-cases (covers group.member_kind c)) [
    | inr skips ↦ rw skips refl
    | inl runs ↦
        let kept = reconcile-others group.id c run group.rules (dir.candidates c) db in
        rw runs (
          sym (untouched-others group.id c _)
          ∙ ap (untouched group.id) kept
          ∙ untouched-others group.id c db.memberships)
  ]

  columns-Keeps : Keeps group.id (reconcile_columns run dir group)
  unfolding reconcile_columns
  columns-Keeps =
      bind-Keeps group.id (reconciled run dir group asset_id)
        (λ x. reconciled run dir group identity_id >>= λ y.
          totalled dir group.id (x.0 + y.0) (x.1 + y.1))
        (reconciled-Keeps asset_id)
        (λ x.
          bind-Keeps group.id (reconciled run dir group identity_id)
            (λ y. totalled dir group.id (x.0 + y.0) (x.1 + y.1)) (reconciled-Keeps identity_id)
            (λ y. totalled-Keeps group.id dir (x.0 + y.0) (x.1 + y.1)))

-- An evaluation of a group touches no row but the rule-sourced ones of that group: the members added
-- by hand and those of other groups are the same, in the same order, whatever it returns.
pub evaluate-untouched :
    {F : Type 0} (run : Runtime F) (dir : Directory) (group : DynamicGroup) (db : Database)
    → untouched group.id (evaluate_dynamic_membership run dir group db).1.memberships
      ≡ untouched group.id db.memberships
unfolding evaluate_dynamic_membership
evaluate-untouched run dir group db = elim (Bool-cases group.is_dynamic) [
  | inr static ↦ rw static refl
  | inl dynamic ↦ rw dynamic (elim (List-cases group.rules.conditions) [
    | inl none_left ↦ rw none_left (clear-Keeps group.id dir db)
    | inr (r, rs, some_left) ↦ rw some_left (columns-Keeps run dir group db)
  ])
]
