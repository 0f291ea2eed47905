-- ===== src/DynamicGroups/Reconciliation.antt =====
-- The loops of a reconciliation and the rows that are not theirs to write.
use pluris.Prelude.{
  ℕ, ◌+◌, Bool, true, false, ◌||◌, List, [], ◌∷◌, id_eq, any, contains, ok, ◌≡◌, refl, ◌∙◌, arith,
  Bool-cases, inl, inr,
}
use pluris.DynamicGroups.{
  Column, rule, Membership, Database, add_member, delete_member, is_from, is_of, add_rule,
  delete_rule, written, add_all, delete_all,
}
use pluris.DynamicGroups.Members.{others, others-append, others-delete_rule}

module _ (g : ℕ) (c : Column) where
  abbrev pub new_row : ℕ → Membership
  new_row id = record { group_id = g; column = c; member = id; source = rule }

  pub new_row-is_from : (id : ℕ) → is_from g c rule (new_row id) ≡ true
  new_row-is_from id = ground arith

  pub others-add_rule :
      (id : ℕ) (rs : List Membership) → others g c (add_rule g c id rs) ≡ others g c rs
  unfolding add_rule
  others-add_rule id rs = elim (Bool-cases (any (is_of g c id) rs)) [
    | inl taken ↦ rw taken refl
    | inr free ↦ rw free (others-append g c rs (new_row id) (new_row-is_from id))
  ]

  written-others :
      (broken : Bool) (f : List Membership → List Membership) (db : Database)
      → ((rs : List Membership) → others g c (f rs) ≡ others g c rs)
      → others g c (written g c broken f db).1.memberships ≡ others g c db.memberships
  written-others true f db keeps = refl
  written-others false f db keeps = keeps db.memberships

  written-ok :
      (broken : Bool) (f : List Membership → List Membership) (db : Database)
      → (written g c broken f db).0 ≡ ok tt
      → written g c broken f db ≡ (ok tt, record db { memberships = f db.memberships })
  written-ok true f db e = cc
  written-ok false f db e = refl

  pub add_all-others :
      (ds rules ids : List ℕ) (n : ℕ) (db : Database)
      → others g c (add_all g c ds rules ids n db).1.memberships ≡ others g c db.memberships
  unfolding add_all
  add_all-others ds rules [] n db = refl
  add_all-others ds rules (id ∷ ids) n db =
      elim (Bool-cases (contains ds id || contains rules id)) [
        | inl skips ↦ rw skips (add_all-others ds rules ids n db)
        | inr adds ↦ rw adds (elim (Bool-cases (db.fails (add_member c id))) [
          | inl broken ↦ rw (broken, written) refl
          | inr works ↦
              rw (works, written)
                (add_all-others ds rules ids (n + 1)
                    (record db { memberships = add_rule g c id db.memberships })
                  ∙ others-add_rule id db.memberships)
        ])
      ]

  pub delete_all-others :
      (ps ids : List ℕ) (n : ℕ) (db : Database)
      → others g c (delete_all g c ps ids n db).1.memberships ≡ others g c db.memberships
  unfolding delete_all
  delete_all-others ps [] n db = refl
  delete_all-others ps (id ∷ ids) n db = elim (Bool-cases (contains ps id)) [
    | inl keeps ↦ rw keeps (delete_all-others ps ids n db)
    | inr drops ↦ rw drops (elim (Bool-cases (db.fails (delete_member c id))) [
      | inl broken ↦ rw (broken, written) refl
      | inr works ↦
          rw (works, written)
            (delete_all-others ps ids (n + 1)
                (record db { memberships = delete_rule g c id db.memberships })
              ∙ others-delete_rule g c id db.memberships)
    ])
  ]
