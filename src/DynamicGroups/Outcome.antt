-- ===== src/DynamicGroups/Outcome.antt =====
-- The loops of a reconciliation and the rule-sourced members that they end in.
use pluris.Prelude.{
  ℕ, ◌+◌, Bool, true, false, ◌&&◌, ◌||◌, not, List, [], ◌∷◌, ◌++◌, if◌then◌else◌, id_eq, nat_eq,
  nat_eq_iff, any, contains, ok, err, ◌≡◌, refl, sym, ap, ap₂, ◌∙◌, arith, Bool-cases, inl, inr,
}
use pluris.DynamicGroups.{
  Column, direct, rule, Membership, Database, add_member, delete_member, query_failed, is_of,
  add_rule, delete_rule, written, add_all, delete_all,
}
use pluris.DynamicGroups.Members.{
  has, others, has_direct-others, has-append, any-is_of, has-delete_rule,
}
use pluris.DynamicGroups.Reconciliation.{new_row, new_row-is_from, others-add_rule}

add_step :
    (taken d r same : Bool)
    → (same ≡ true → taken ≡ (d || r))
    → (if taken then r else r || same) ≡ (r || (same && not d))
add_step taken d r same e = ground arith

none_dropped : (r p : Bool) → r ≡ (r && (p || not false))
none_dropped r p = ground arith

bool_end : (r : Bool) → r ≡ (r || false)
bool_end r = ground arith

skip_step :
    (skips same rest d r : Bool) (known : Bool)
    → skips ≡ true
    → (same ≡ true → skips ≡ (d || known))
    → (r || (rest && not (d || known))) ≡ (r || ((same || rest) && not (d || known)))
skip_step skips same rest d r known e link = ground arith

insert_step :
    (skips same rest d r : Bool) (known : Bool)
    → skips ≡ false
    → (same ≡ true → skips ≡ (d || known))
    → ((r || (same && not d)) || (rest && not (d || known)))
      ≡ (r || ((same || rest) && not (d || known)))
insert_step skips same rest d r known e link = ground arith

keep_step :
    (kept same rest r p : Bool)
    → kept ≡ true
    → (same ≡ true → kept ≡ p)
    → (r && (p || not rest)) ≡ (r && (p || not (same || rest)))
keep_step kept same rest r p e link = ground arith

drop_step :
    (kept same rest r p : Bool)
    → kept ≡ false
    → (same ≡ true → kept ≡ p)
    → ((r && not same) && (p || not rest)) ≡ (r && (p || not (same || rest)))
drop_step kept same rest r p e link = ground arith

both_steps :
    (d r p : Bool) → (d && r) ≡ false → ((r || (p && not (d || r))) && (p || not r)) ≡ (p && not d)
both_steps d r p apart = ground arith

module _ (g : ℕ) (c : Column) where
  has-new :
      (id j : ℕ) (taken : Bool) (rs : List Membership)
      → has g c rule j (if taken then rs else rs ++ new_row g c id ∷ [])
        ≡ (if taken then has g c rule j rs else has g c rule j rs || nat_eq id j)
  has-new id j true rs = refl
  has-new id j false rs =
      has-append g c rule j rs (new_row g c id)
      ∙ ap (λ b. has g c rule j rs || (b && nat_eq id j)) (new_row-is_from g c id)

  -- An insert makes a rule-sourced member of every member that is not a direct one.
  has-add_rule :
      (id j : ℕ) (rs : List Membership)
      → has g c rule j (add_rule g c id rs)
        ≡ (has g c rule j rs || (nat_eq id j && not (has g c direct j rs)))
  unfolding add_rule
  has-add_rule id j rs =
      has-new id j (any (is_of g c id) rs) rs
      ∙ add_step (any (is_of g c id) rs) (has g c direct j rs) (has g c rule j rs) (nat_eq id j)
          (λ same. ap (λ k. any (is_of g c k) rs) ((nat_eq_iff id j).0 same) ∙ any-is_of g c j rs)

  pub has_direct-kept :
      (j : ℕ) (rs ts : List Membership)
      → others g c rs ≡ others g c ts
      → has g c direct j rs ≡ has g c direct j ts
  has_direct-kept j rs ts same =
      sym (has_direct-others g c j rs) ∙ ap (has g c direct j) same ∙ has_direct-others g c j ts

  add_all-skip :
      (ds rules ids : List ℕ) (id n : ℕ) (db : Database)
      → (contains ds id || contains rules id) ≡ true
      → add_all g c ds rules (id ∷ ids) n db ≡ add_all g c ds rules ids n db
  unfolding add_all
  add_all-skip ds rules ids id n db skips = rw (skips, add_all) refl

  add_all-broken :
      (ds rules ids : List ℕ) (id n : ℕ) (db : Database)
      → (contains ds id || contains rules id) ≡ false
      → db.fails (add_member c id) ≡ true
      → add_all g c ds rules (id ∷ ids) n db ≡ (err query_failed, db)
  unfolding add_all
  add_all-broken ds rules ids id n db adds broken = rw (adds, add_all) (rw (broken, written) refl)

  abbrev with_member : ℕ → Database → Database
  with_member id db = record db { memberships = add_rule g c id db.memberships }

  add_all-add :
      (ds rules ids : List ℕ) (id n : ℕ) (db : Database)
      → (contains ds id || contains rules id) ≡ false
      → db.fails (add_member c id) ≡ false
      → add_all g c ds rules (id ∷ ids) n db ≡ add_all g c ds rules ids (n + 1) (with_member id db)
  unfolding add_all
  add_all-add ds rules ids id n db adds works = rw (adds, add_all) (rw (works, written) refl)

  add_all-end :
      (ds rules : List ℕ) (n : ℕ) (db : Database) (j : ℕ)
      → has g c rule j (add_all g c ds rules [] n db).1.memberships ≡ (
          has g c rule j db.memberships
          || (contains [] j && not (has g c direct j db.memberships || contains rules j)))
  unfolding add_all
  add_all-end ds rules n db j = bool_end (has g c rule j db.memberships)

  pub add_all-has :
      (ds rules ids : List ℕ) (n m : ℕ) (db : Database) (j : ℕ)
      → ((k : ℕ) → contains ds k ≡ has g c direct k db.memberships)
      → (add_all g c ds rules ids n db).0 ≡ ok m
      → has g c rule j (add_all g c ds rules ids n db).1.memberships ≡ (
          has g c rule j db.memberships
          || (contains ids j && not (has g c direct j db.memberships || contains rules j)))
  add_all-has ds rules [] n m db j link e = add_all-end ds rules n db j
  add_all-has ds rules (id ∷ ids) n m db j link e =
      let skips = contains ds id || contains rules id in
      let d = has g c direct j db.memberships in
      let r = has g c rule j db.memberships in
      let at_j : nat_eq id j ≡ true → skips ≡ (d || contains rules j) = λ same.
        ap (λ k. contains ds k || contains rules k) ((nat_eq_iff id j).0 same)
        ∙ ap (λ b. b || contains rules j) (link j) in
      elim (Bool-cases skips) [
        | inl known ↦
            let step = add_all-skip ds rules ids id n db known in
            ap (λ o. has g c rule j o.1.memberships) step
            ∙ add_all-has ds rules ids n m db j link (sym (ap (λ o. o.0) step) ∙ e)
            ∙ skip_step skips (nat_eq id j) (contains ids j) d r (contains rules j) known at_j
        | inr adds ↦ elim (Bool-cases (db.fails (add_member c id))) [
          | inl broken ↦ cc (add_all-broken ds rules ids id n db adds broken)
          | inr works ↦
              let step = add_all-add ds rules ids id n db adds works in
              let kept : (k : ℕ)
                  → has g c direct k (with_member id db).memberships
                    ≡ has g c direct k db.memberships =
                λ k.
                  has_direct-kept k (with_member id db).memberships db.memberships
                    (others-add_rule g c id db.memberships) in
              ap (λ o. has g c rule j o.1.memberships) step
              ∙ add_all-has ds rules ids (n + 1) m (with_member id db) j
                  (λ k. link k ∙ sym (kept k)) (sym (ap (λ o. o.0) step) ∙ e)
              ∙ ap₂ (λ a b. a || (contains ids j && not (b || contains rules j)))
                  (has-add_rule id j db.memberships) (kept j)
              ∙ insert_step skips (nat_eq id j) (contains ids j) d r (contains rules j) adds at_j
        ]
      ]

  delete_all-keep :
      (ps ids : List ℕ) (id n : ℕ) (db : Database)
      → contains ps id ≡ true
      → delete_all g c ps (id ∷ ids) n db ≡ delete_all g c ps ids n db
  unfolding delete_all
  delete_all-keep ps ids id n db keeps = rw (keeps, delete_all) refl

  delete_all-broken :
      (ps ids : List ℕ) (id n : ℕ) (db : Database)
      → contains ps id ≡ false
      → db.fails (delete_member c id) ≡ true
      → delete_all g c ps (id ∷ ids) n db ≡ (err query_failed, db)
  unfolding delete_all
  delete_all-broken ps ids id n db drops broken = rw (drops, delete_all) (rw (broken, written) refl)

  abbrev without_member : ℕ → Database → Database
  without_member id db = record db { memberships = delete_rule g c id db.memberships }

  delete_all-drop :
      (ps ids : List ℕ) (id n : ℕ) (db : Database)
      → contains ps id ≡ false
      → db.fails (delete_member c id) ≡ false
      → delete_all g c ps (id ∷ ids) n db ≡ delete_all g c ps ids (n + 1) (without_member id db)
  unfolding delete_all
  delete_all-drop ps ids id n db drops works = rw (drops, delete_all) (rw (works, written) refl)

  delete_all-end :
      (ps : List ℕ) (n : ℕ) (db : Database) (j : ℕ)
      → has g c rule j (delete_all g c ps [] n db).1.memberships
        ≡ (has g c rule j db.memberships && (contains ps j || not (contains [] j)))
  unfolding delete_all
  delete_all-end ps n db j = none_dropped (has g c rule j db.memberships) (contains ps j)

  pub delete_all-has :
      (ps ids : List ℕ) (n m : ℕ) (db : Database) (j : ℕ)
      → (delete_all g c ps ids n db).0 ≡ ok m
      → has g c rule j (delete_all g c ps ids n db).1.memberships
        ≡ (has g c rule j db.memberships && (contains ps j || not (contains ids j)))
  delete_all-has ps [] n m db j e = delete_all-end ps n db j
  delete_all-has ps (id ∷ ids) n m db j e =
      let r = has g c rule j db.memberships in
      let at_j : nat_eq id j ≡ true → contains ps id ≡ contains ps j =
        λ same. ap (contains ps) ((nat_eq_iff id j).0 same) in
      elim (Bool-cases (contains ps id)) [
        | inl keeps ↦
            let step = delete_all-keep ps ids id n db keeps in
            ap (λ o. has g c rule j o.1.memberships) step
            ∙ delete_all-has ps ids n m db j (sym (ap (λ o. o.0) step) ∙ e)
            ∙ keep_step (contains ps id) (nat_eq id j) (contains ids j) r (contains ps j) keeps at_j
        | inr drops ↦ elim (Bool-cases (db.fails (delete_member c id))) [
          | inl broken ↦ cc (delete_all-broken ps ids id n db drops broken)
          | inr works ↦
              let step = delete_all-drop ps ids id n db drops works in
              ap (λ o. has g c rule j o.1.memberships) step
              ∙ delete_all-has ps ids (n + 1) m (without_member id db) j
                  (sym (ap (λ o. o.0) step) ∙ e)
              ∙ ap (λ a. a && (contains ps j || not (contains ids j)))
                  (has-delete_rule g c id j db.memberships)
              ∙ drop_step (contains ps id) (nat_eq id j) (contains ids j) r (contains ps j) drops
                  at_j
        ]
      ]
