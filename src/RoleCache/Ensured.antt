-- ===== src/RoleCache/Ensured.antt =====
-- What `EnsureBuiltins` leaves behind.
use mathlib.Core.List.{append_assoc, append-nil}
use mathlib.Core.Path.{subst}
use pluris.Prelude.{
  ℕ, String, Bool, true, false, ◌&&◌, Option, none, some, List, [], ◌∷◌, ◌++◌, ◌==◌, string_eq,
  id_eq, Result, ok, err, Exec, continue, ◌>>◌, In, All-In, All-of_In, All-append, length,
  length-append, ◌+◌, ◌≤◌, ap₂, any, if◌then◌else◌, ◌≡◌, refl, sym, ap, ◌∙◌, inl, inr, arith,
  Bool-cases, All, nat_eq_iff, eq_iff,
}
use pluris.Permissions.Templates.{builtin_slugs}
use pluris.Roles.Store.{
  Error, query_failed, Query, Role, Database, role_by_slug, guarded, or_no_rows, find_slug,
  get_role_by_slug, insert_role, create_role,
}
use pluris.RoleCache.Builtins.{builtin_name, create_absent, ensure_each, ensure_builtins}

module _ (t : ℕ) (slug : String) where
  find_slug-In :
      (r : Role) (rs : List Role)
      → find_slug t slug rs ≡ some r
      → In r rs × (r.tenant_id ≡ t) × (r.slug ≡ slug)
  unfolding find_slug
  find_slug-In r [] e = cc
  find_slug-In r (s ∷ rs) e = elim (Bool-cases (s.tenant_id == t && s.slug == slug)) [
    | inl found ↦
        let same : s ≡ r = cc (rw found at e) in
        (
          inl (sym same),
          ground (arith, nat_eq_iff s.tenant_id t),
          ground (arith, eq_iff s.slug slug),
        )
    | inr other ↦
        let (listed, own, named) = find_slug-In r rs (rw other at e) in (inr listed, own, named)
  ]

  find_slug-append :
      (r : Role) (rs xs : List Role)
      → find_slug t slug rs ≡ some r
      → find_slug t slug (rs ++ xs) ≡ some r
  unfolding find_slug
  find_slug-append r [] xs e = cc
  find_slug-append r (s ∷ rs) xs e = ground (arith, find_slug-append r rs xs)

  find_slug-new :
      (x : Role) (rs : List Role)
      → x.tenant_id ≡ t
      → x.slug ≡ slug
      → find_slug t slug rs ≡ none
      → find_slug t slug (rs ++ x ∷ []) ≡ some x
  unfolding find_slug
  find_slug-new x [] own named e = ground (arith, nat_eq_iff x.tenant_id t, eq_iff x.slug slug)
  find_slug-new x (s ∷ rs) own named e = ground (arith, find_slug-new x rs own named)

absent-append :
    (t : ℕ) (slug : String) (rs xs : List Role)
    → find_slug t slug (rs ++ xs) ≡ none
    → find_slug t slug rs ≡ none
unfolding find_slug
absent-append t slug [] xs e = refl
absent-append t slug (s ∷ rs) xs e = ground (arith, absent-append t slug rs xs)

-- A builtin role of the tenant, named like in the code, and with the defaults of the columns.
abbrev pub IsBuiltin : ℕ → Role → Type 0
IsBuiltin t r =
    In r.slug builtin_slugs
    × (r.tenant_id ≡ t)
    × (r.name ≡ builtin_name r.slug)
    × (r.is_builtin ≡ true)
    × (r.template_slug ≡ none)
    × (r.permissions ≡ "{}")
    × (r.parent_role_id ≡ none)

-- Such a role, with a new id, that the tenant did not have.
abbrev pub IsMissing : ℕ → Database → Role → Type 0
IsMissing t db r = (find_slug t r.slug db.roles ≡ none) × (db.next_id ≤ r.id) × IsBuiltin t r

abbrev pub extended : List Role → Database → Database
extended xs db = record db { roles = db.roles ++ xs; next_id = db.next_id + length xs }

-- Missing roles were added behind those that there were. No other table differs.
abbrev pub Completes : ℕ → Database → Database → Type 0
Completes t db db' = (xs : List Role) × (db' ≡ extended xs db) × All (IsMissing t db) xs

extended-nil : (db : Database) → db ≡ extended [] db
extended-nil db =
    ap₂ (λ rs n. record db { roles = rs; next_id = n }) (sym (append-nil db.roles)) (omega arith)

extended-append :
    (xs ys : List Role) (db : Database) → extended ys (extended xs db) ≡ extended (xs ++ ys) db
extended-append xs ys db =
    ap₂ (λ rs n. record db { roles = rs; next_id = n }) (append_assoc db.roles xs ys)
      (omega (arith, length-append xs ys))

Completes-trans :
    (t : ℕ) (db db' db'' : Database)
    → Completes t db db'
    → Completes t db' db''
    → Completes t db db''
Completes-trans t db db' db'' (xs, e, new) (ys, e', new') = (
  xs ++ ys,
  e' ∙ (ap (extended ys) e ∙ extended-append xs ys db),
  All-append (IsMissing t db) xs ys new (
      All-of_In (IsMissing t db) ys (λ r listed.
        let (missing, fresh, builtin) = All-In (IsMissing t db') r ys new' listed in
        let missing' : find_slug t r.slug (extended xs db).roles ≡ none =
          subst (λ (x : Database). find_slug t r.slug x.roles ≡ none) e missing in
        let fresh' : (extended xs db).next_id ≤ r.id =
          subst (λ (x : Database). x.next_id ≤ r.id) e fresh in
        (absent-append t r.slug db.roles xs missing', omega (arith, fresh'), builtin))),
)

failed :
    (c : Error) (db db' : Database)
    → ◌≡◌ {A = Result Error (Unit {0}) × Database} (err c, db) (ok tt, db')
    → ⊥
failed c db db' e =
    let same : ◌≡◌ {A = Result Error (Unit {0})} (err c) (ok tt) =
      ap (λ (r : Result Error (Unit {0}) × Database). r.0) e in
    cc same

answered :
    (db db' : Database)
    → ◌≡◌ {A = Result Error (Unit {0}) × Database} (ok tt, db) (ok tt, db')
    → db ≡ db'
answered db db' e = ap (λ (r : Result Error (Unit {0}) × Database). r.1) e

bind-done :
    (m n : Exec Database Error (Unit {0})) (db db' : Database)
    → (m >> n) db ≡ (ok tt, db')
    → (u : Unit {0}) × (db1 : Database) × (m db ≡ (ok u, db1)) × (n db1 ≡ (ok tt, db'))
bind-done m n db db' e = continued (m db).0 (m db).1 refl e
  where
    continued :
        (r : Result Error (Unit {0})) (x : Database)
        → m db ≡ (r, x)
        → continue r (λ u. n) x ≡ (ok tt, db')
        → (u : Unit {0}) × (db1 : Database) × (m db ≡ (ok u, db1)) × (n db1 ≡ (ok tt, db'))
    continued (ok u) x same later = (u, x, same, later)
    continued (err c) x same later = absurd (failed c x db' later)

module _ (t : ℕ) where
  abbrev IsHeld : Database → String → Type 0
  IsHeld db slug = (r : Role) × (find_slug t slug db.roles ≡ some r)

  IsHeld-Completes :
      (db db' : Database) (slug : String) → Completes t db db' → IsHeld db slug → IsHeld db' slug
  IsHeld-Completes db db' slug (xs, e, new) (r, found) =
      subst (λ (x : Database). IsHeld x slug) (sym e)
        (r, find_slug-append t slug r db.roles xs found)

  create_absent-Completes :
      (slug : String) (broken : Bool) (o : Option Role) (db db' : Database)
      → In slug builtin_slugs
      → find_slug t slug db.roles ≡ o
      → create_absent t slug (guarded broken (or_no_rows o)) db ≡ (ok tt, db')
      → Completes t db db' × IsHeld db' slug
  unfolding create_absent create_role
  create_absent-Completes slug true o db db' known found done = absurd (failed _ db db' done)
  create_absent-Completes slug false (some r) db db' known found done =
      let same : db ≡ db' = answered db db' done in
      (([], sym same ∙ extended-nil db, tt), subst (λ x. IsHeld x slug) same (r, found))
  create_absent-Completes slug false none db db' known found done =
      let row : Role = record {
        id = db.next_id;
        tenant_id = t;
        slug = slug;
        name = builtin_name slug;
        is_builtin = true;
        template_slug = none;
        permissions = "{}";
        parent_role_id = none;
      } in
      elim (Bool-cases (db.fails (insert_role slug))) [
        | inl fails ↦ absurd (failed _ db db' (rw fails at done))
        | inr inserted ↦
            let same : extended (row ∷ []) db ≡ db' =
              answered _ db' (rw (inserted, found) at done) in
            let new : IsMissing t db row =
              (found, omega arith, (known, refl, refl, refl, refl, refl, refl)) in
            (
              (row ∷ [], sym same, (new, tt)),
              subst (λ x. IsHeld x slug) same
                  (row, find_slug-new t slug row db.roles refl refl found),
            )
      ]

  ensure_each-Completes :
      (slugs : List String) (db db' : Database)
      → All (λ slug. In slug builtin_slugs) slugs
      → ensure_each t slugs db ≡ (ok tt, db')
      → Completes t db db' × All (IsHeld db') slugs
  unfolding ensure_each get_role_by_slug
  ensure_each-Completes [] db db' known done =
      let same : db ≡ db' = answered db db' done in (([], sym same ∙ extended-nil db, tt), tt)
  ensure_each-Completes (slug ∷ slugs) db db' (here, known) done =
      let (u, db1, first, later) =
        bind-done (λ x. create_absent t slug (get_role_by_slug x t slug) x) (ensure_each t slugs) db
          db' done in
      let (added, held) =
        create_absent-Completes slug (db.fails (role_by_slug t slug)) (find_slug t slug db.roles) db
          db1 here refl first in
      let (added', all) = ensure_each-Completes slugs db1 db' known later in
      (Completes-trans t db db1 db' added added', (IsHeld-Completes db1 db' slug added' held, all))

  -- the answer of a call that finds all that it looks for
  abbrev pub lookups : (Query → Bool) → List String → Result Error (Unit {0})
  lookups fails slugs =
      if any (λ slug. fails (role_by_slug t slug)) slugs then err query_failed else ok tt

  ensure_each-again :
      (slugs : List String) (db : Database)
      → All (IsHeld db) slugs
      → ensure_each t slugs db ≡ (lookups db.fails slugs, db)
  unfolding ensure_each get_role_by_slug create_absent
  ensure_each-again [] db all = refl
  ensure_each-again (slug ∷ slugs) db ((r, found), all) =
      elim (Bool-cases (db.fails (role_by_slug t slug))) [
        | inl fails ↦ rw fails refl
        | inr works ↦ rw (works, found) (ensure_each-again slugs db all)
      ]

  -- When a call of EnsureBuiltins succeeds, no table differs but `roles`, which has more rows behind
  -- those that it had: builtin roles of the tenant, with the columns as the code fills them, each with
  -- a new id and a slug that the tenant did not have. Each of the four builtin slugs has a role of the
  -- tenant afterwards. A later call, whichever of its queries fail, writes nothing; it succeeds if no
  -- look-up of a role fails, and reports the error of the driver otherwise.
  pub ensure_builtins-again :
      (db db' : Database) (later_fails : Query → Bool)
      → ensure_builtins t db ≡ (ok tt, db')
      → Completes t db db'
        × All
            (λ slug. (r : Role) × In r db'.roles × (r.tenant_id ≡ t) × (r.slug ≡ slug))
            builtin_slugs
        × (ensure_builtins t (record db' { fails = later_fails })
            ≡ (lookups later_fails builtin_slugs, record db' { fails = later_fails }))
  unfolding ensure_builtins
  ensure_builtins-again db db' later_fails done =
      let (added, all) =
        ensure_each-Completes builtin_slugs db db'
          (All-of_In (λ slug. In slug builtin_slugs) builtin_slugs (λ slug listed. listed)) done in
      (
        added,
        All-of_In (λ slug. (r : Role) × In r db'.roles × (r.tenant_id ≡ t) × (r.slug ≡ slug))
            builtin_slugs
            (λ slug listed.
              let (r, found) = All-In (IsHeld db') slug builtin_slugs all listed in
              let (row, own, named) = find_slug-In t slug r db'.roles found in
              (r, row, own, named)),
        ensure_each-again builtin_slugs (record db' { fails = later_fails }) all,
      )
