-- ===== src/Roles/Hierarchy.antt =====
-- The hierarchy of roles: chains of parents, and hierarchies free of cycles.
use pluris.Prelude.{
  ℕ, zero, suc, Option, none, some, List, if◌then◌else◌, ◌==◌, id_eq, ok, ◌≡◌, ◌≢◌, ◌⊎◌, inl, inr,
  refl, arith, Option-cases, Bool-cases, Result-cases,
}
use pluris.Roles.Store.{no_rows, query_failed, Role, Database, find_role, get_role, update_role}
use pluris.Roles.{check_ancestors}
use pluris.Roles.Rows.{
  get_role-ok, get_role-no_rows, mapped, find_role-update_role, find_role-absent, find_role-other,
}

-- The parents of a role end at a role that has none, or whose parent's row is gone.
pub data Rooted (roles : List Role) : Role → Type 0 where
  root : {r : Role} → r.parent_role_id ≡ none → Rooted roles r
  dangling :
      {r : Role} (p : ℕ) → r.parent_role_id ≡ some p → find_role p roles ≡ none → Rooted roles r
  up :
      {r : Role} (p : ℕ) (q : Role)
      → r.parent_role_id ≡ some p
      → find_role p roles ≡ some q
      → Rooted roles q
      → Rooted roles r

pub record IsAcyclic (roles : List Role) : Type 0 where
  pub rooted : (id : ℕ) (r : Role) → find_role id roles ≡ some r → Rooted roles r

-- The chain of `r` ends within `n` levels, `r` included, and none of them is role `x`.
abbrev pub Clear : List Role → ℕ → ℕ → Role → Type 0
Clear roles x zero r = ⊥
Clear roles x (suc n) r =
    (r.id ≢ x)
    × ((r.parent_role_id ≡ none)
        ⊎ ((p : ℕ) × (r.parent_role_id ≡ some p) × (find_role p roles ≡ none))
        ⊎ ((p : ℕ) × (q : Role) × (r.parent_role_id ≡ some p)
            × (find_role p roles ≡ some q)
            × Clear roles x n q))

pub check_ancestors-Clear :
    (room : ℕ) (db : Database) (x : ℕ) (r : Role)
    → check_ancestors room db x r ≡ ok tt
    → Clear db.roles x (suc room) r
unfolding check_ancestors
check_ancestors-Clear zero db x r e = elim (Option-cases r.parent_role_id) [
  | inl top ↦ (ground arith, inl top)
  | inr (p, has) ↦ ground arith
]
check_ancestors-Clear (suc room) db x r e = elim (Option-cases r.parent_role_id) [
  | inl top ↦ (ground arith, inl top)
  | inr (p, has) ↦ elim (Result-cases (get_role db p)) [
    | inl (q, found) ↦ (
      ground arith,
      inr (
          inr (
            p,
            q,
            has,
            get_role-ok db p q found,
            check_ancestors-Clear room db x q (ground arith),
          )),
    )
    | inr (no_rows, gone) ↦ (ground arith, inr (inl (p, has, get_role-no_rows db p gone)))
    | inr (query_failed, broken) ↦ ground arith
    | inr (other, broken) ↦ ground arith
  ]
]

-- the row of a role with its parent written
abbrev pub with_parent_id : Option ℕ → Role → Role
with_parent_id parent r = record r { parent_role_id = parent }

find_role-reparented :
    (x j : ℕ) (parent : Option ℕ) (rs : List Role)
    → find_role j (update_role x (with_parent_id parent) rs)
      ≡ (if x == j then mapped (with_parent_id parent) (find_role j rs) else find_role j rs)
find_role-reparented x j parent rs =
    find_role-update_role x j (with_parent_id parent) rs (λ r. refl)

module _ (roles : List Role) (x : ℕ) (parent : Option ℕ) where
  abbrev pub reparented : List Role
  reparented = update_role x (with_parent_id parent) roles

  -- A chain that avoids the role stands as it was.
  pub Clear-Rooted : (n : ℕ) (r : Role) → Clear roles x n r → Rooted reparented r
  Clear-Rooted zero r c = absurd c
  Clear-Rooted (suc n) r (other, inl top) = Rooted.root top
  Clear-Rooted (suc n) r (other, inr (inl (p, has, gone))) =
      Rooted.dangling p has (find_role-absent roles x (with_parent_id parent) (λ r. refl) p gone)
  Clear-Rooted (suc zero) r (other, inr (inr (p, q, has, found, c))) = absurd c
  Clear-Rooted (suc (suc n)) r (other, inr (inr (p, q, has, found, c))) =
      Rooted.up p q has (find_role-other roles x (with_parent_id parent) (λ r. refl) p q found c.0)
        (Clear-Rooted (suc n) q c)

  -- Any other chain may lead to the role, and goes on from there along its new parents.
  Rooted-reparented :
      {r : Role}
      → ((q : Role) → find_role x roles ≡ some q → Rooted reparented (with_parent_id parent q))
      → Rooted roles r
      → Rooted reparented r
  Rooted-reparented new (Rooted.root top) = Rooted.root top
  Rooted-reparented new (Rooted.dangling p has gone) =
      Rooted.dangling p has (find_role-absent roles x (with_parent_id parent) (λ r. refl) p gone)
  Rooted-reparented new (Rooted.up p q has found rest) = elim (Bool-cases (x == p)) [
    | inl same ↦
        let e : x ≡ p = ground arith in
        Rooted.up p (with_parent_id parent q) has
          (rw (find_role-reparented x p parent roles) (rw (same, found))) (new q (rw e found))
    | inr other ↦
        Rooted.up p q has (rw (find_role-reparented x p parent roles) (rw (other, found)))
          (Rooted-reparented new rest)
  ]

  find_role-reparented_cases :
      (id : ℕ) (r : Role)
      → find_role id reparented ≡ some r
      → (find_role id roles ≡ some r)
        ⊎ ((q : Role) × (find_role x roles ≡ some q) × (r ≡ with_parent_id parent q))
  find_role-reparented_cases id r found = elim (Option-cases (find_role id roles)) [
    | inl gone ↦ cc (find_role-absent roles x (with_parent_id parent) (λ r. refl) id gone)
    | inr (q, was) ↦ elim (Bool-cases (x == id)) [
      | inl same ↦
          let e : x ≡ id = ground arith in
          inr (q, rw e was, ground (arith, find_role-reparented x id parent roles))
      | inr other ↦ inl (ground (arith, find_role-reparented x id parent roles))
    ]
  ]

  pub reparented-IsAcyclic :
      ((q : Role) → find_role x roles ≡ some q → Rooted reparented (with_parent_id parent q))
      → IsAcyclic roles
      → IsAcyclic reparented
  reparented-IsAcyclic new acyclic = record {
    rooted = λ id r found. elim (find_role-reparented_cases id r found) [
      | inl old ↦ Rooted-reparented new (acyclic.rooted id r old)
      | inr (q, was, e) ↦ rw e (new q was)
    ];
  }
