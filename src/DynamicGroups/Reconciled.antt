-- ===== src/DynamicGroups/Reconciled.antt =====
-- The contract of reconcileAssetRuleMembers and reconcileIdentityRuleMembers.
use pluris.Prelude.{
  ℕ, Bool, false, ◌&&◌, ◌||◌, not, List, id_eq, contains, Result, ok, err, ◌>>=◌, pure, Exec,
  continue, ◌≡◌, refl, ap, ap₂, ◌∙◌, arith, Bool-cases, Result-cases, inl, inr, ◌⊎◌,
}
use pluris.Conditions.{Group, Runtime}
use pluris.DynamicGroups.{
  Column, direct, rule, Candidate, Database, Error, query_failed, list_candidates, list_direct,
  list_rule, target_catalog_limit, take, ids_from, guarded, add_all, delete_all, passing_ids,
  reconcile,
}
use pluris.DynamicGroups.Members.{has, others, contains-ids_from}
use pluris.DynamicGroups.Reconciliation.{add_all-others, delete_all-others}
use pluris.DynamicGroups.Outcome.{add_all-has, delete_all-has}

both_steps :
    (d r p : Bool) → (d && r) ≡ false → ((r || (p && not (d || r))) && (p || not r)) ≡ (p && not d)
both_steps d r p apart = ground arith

module _ (g : ℕ) (c : Column) {F : Type 0} (run : Runtime F) (rules : Group)
    (catalog : List Candidate) where
  -- the members that the rules ask for, among the candidates that are listed
  abbrev pub wanted : List ℕ
  wanted = passing_ids g c run rules (take target_catalog_limit catalog)

  abbrev writes : Exec Database Error (ℕ × ℕ)
  writes db =
      (do
        added ←
            add_all g c (ids_from g c direct db.memberships) (ids_from g c rule db.memberships)
              wanted 0
        removed ← delete_all g c wanted (ids_from g c rule db.memberships) 0
        pure (added, removed))
        db

  reconcile_cases :
      (db : Database)
      → (reconcile g c run rules catalog db ≡ (err query_failed, db))
        ⊎ (reconcile g c run rules catalog db ≡ writes db)
  unfolding reconcile
  reconcile_cases db = elim (Bool-cases (db.fails (list_candidates c))) [
    | inl broken ↦ inl (rw (broken, guarded) refl)
    | inr works ↦ elim (Bool-cases (db.fails (list_direct c))) [
      | inl broken ↦ inl (rw (works, guarded) (rw (broken, guarded) refl))
      | inr works' ↦ elim (Bool-cases (db.fails (list_rule c))) [
        | inl broken ↦ inl (rw (works, guarded) (rw (works', guarded) (rw (broken, guarded) refl)))
        | inr works'' ↦
            inr (rw (works, guarded) (rw (works', guarded) (rw (works'', guarded) refl)))
      ]
    ]
  ]

  abbrev adding : Database → Result Error ℕ × Database
  adding db =
      add_all g c (ids_from g c direct db.memberships) (ids_from g c rule db.memberships) wanted 0
        db

  abbrev deleting : Database → Result Error ℕ × Database
  deleting db = delete_all g c wanted (ids_from g c rule db.memberships) 0 (adding db).1

  writes_cases :
      (db : Database)
      → ((e : Error) × (writes db ≡ (err e, (adding db).1)))
        ⊎ ((e : Error) × (writes db ≡ (err e, (deleting db).1)))
        ⊎ ((n : ℕ) × (m : ℕ) × ((adding db).0 ≡ ok n)
            × ((deleting db).0 ≡ ok m)
            × (writes db ≡ (ok (n, m), (deleting db).1)))
  writes_cases db = elim (Result-cases (adding db).0) [
    | inr (e, stops) ↦ inl (e, rw (stops, continue) refl)
    | inl (n, adds) ↦ elim (Result-cases (deleting db).0) [
      | inr (e, stops) ↦ inr (inl (e, rw (adds, continue) (rw (stops, continue) refl)))
      | inl (m, deletes) ↦
          inr (inr (n, m, adds, deletes, rw (adds, continue) (rw (deletes, continue) refl)))
    ]
  ]

  adding-others : (db : Database) → others g c (adding db).1.memberships ≡ others g c db.memberships
  adding-others db = add_all-others g c _ _ wanted 0 db

  deleting-others :
      (db : Database) → others g c (deleting db).1.memberships ≡ others g c db.memberships
  deleting-others db = delete_all-others g c wanted _ 0 (adding db).1 ∙ adding-others db

  -- both loops, once they have run
  deleting-has :
      (db : Database) (n m : ℕ) (id : ℕ)
      → (has g c direct id db.memberships && has g c rule id db.memberships) ≡ false
      → (adding db).0 ≡ ok n
      → (deleting db).0 ≡ ok m
      → has g c rule id (deleting db).1.memberships
        ≡ (contains wanted id && not (has g c direct id db.memberships))
  deleting-has db n m id apart adds deletes =
      let d = has g c direct id db.memberships in
      let r = has g c rule id db.memberships in
      let p = contains wanted id in
      let rule_ids = ids_from g c rule db.memberships in
      let known : contains rule_ids id ≡ r = contains-ids_from g c rule id db.memberships in
      delete_all-has g c wanted rule_ids 0 m (adding db).1 id deletes
      ∙ ap₂ (λ a b. a && (p || not b))
          (add_all-has g c (ids_from g c direct db.memberships) rule_ids wanted 0 n db id
              (λ k. contains-ids_from g c direct k db.memberships) adds
            ∙ ap (λ b. r || (p && not (d || b))) known)
          known
      ∙ both_steps d r p apart

-- A reconciliation touches no row but the rule-sourced ones of its group and column: the others are
-- the same, in the same order, whether it succeeds or stops half-way.
pub reconcile-others :
    (g : ℕ) (c : Column) {F : Type 0} (run : Runtime F) (rules : Group) (catalog : List Candidate)
    (db : Database)
    → others g c (reconcile g c run rules catalog db).1.memberships ≡ others g c db.memberships
reconcile-others g c run rules catalog db = elim (reconcile_cases g c run rules catalog db) [
  | inl unread ↦ ap (λ o. others g c o.1.memberships) unread
  | inr runs ↦
      ap (λ o. others g c o.1.memberships) runs ∙ elim (writes_cases g c run rules catalog db) [
        | inl (e, stops) ↦
            ap (λ o. others g c o.1.memberships) stops ∙ adding-others g c run rules catalog db
        | inr (inl (e, stops)) ↦
            ap (λ o. others g c o.1.memberships) stops ∙ deleting-others g c run rules catalog db
        | inr (inr (n, m, _, _, ends)) ↦
            ap (λ o. others g c o.1.memberships) ends ∙ deleting-others g c run rules catalog db
      ]
]

-- After a reconciliation that succeeds, the rule-sourced members of the group are those of the first
-- 10000 candidates that pass its rules and are not direct members, if no member was both before.
pub reconcile-members :
    (g : ℕ) (c : Column) {F : Type 0} (run : Runtime F) (rules : Group) (catalog : List Candidate)
    (db : Database) (counts : ℕ × ℕ) (id : ℕ)
    → (has g c direct id db.memberships && has g c rule id db.memberships) ≡ false
    → (reconcile g c run rules catalog db).0 ≡ ok counts
    → has g c rule id (reconcile g c run rules catalog db).1.memberships
      ≡ (contains (wanted g c run rules catalog) id && not (has g c direct id db.memberships))
reconcile-members g c run rules catalog db counts id apart e =
    elim (reconcile_cases g c run rules catalog db) [
      | inl unread ↦ cc
      | inr runs ↦ elim (writes_cases g c run rules catalog db) [
        | inl (f, stops) ↦ cc
        | inr (inl (f, stops)) ↦ cc
        | inr (inr (n, m, adds, deletes, ends)) ↦
            ap (λ o. has g c rule id o.1.memberships) (runs ∙ ends)
            ∙ deleting-has g c run rules catalog db n m id apart adds deletes
      ]
    ]
