-- ===== src/RoleCache/Current.antt =====
-- `identities.role` stays what the roles that an identity holds make of it.
use pluris.Prelude.{
  ℕ, String, true, false, List, [], ◌∷◌, any, ◌==◌, id_eq, In, In-any, ◌≡◌, refl, sym, ap, ◌∙◌, inl,
  inr, arith, Bool-cases, nat_eq_iff,
}
use mathlib.Core.Path.{subst}
use pluris.Roles.Store.{Role, Database, is_member}
use pluris.RoleCache.Highest.{IsHighest, best_of-IsHighest}
use pluris.RoleCache.Held.{held, OnlyAt, held-identity_roles, held-group_roles}
use pluris.RoleCache.Refreshed.{
  due, refreshed, all_refreshed, In-write_roles, In-all_refreshed, all_refreshed-database,
}
use pluris.RoleCache.Directory.{
  Identity, Directory, with_identity_roles, with_group_roles, members_of, is_live_member,
}

-- The row of every identity that is not deleted has the slug of the highest role that it holds.
abbrev pub IsCurrent : Directory → Type 0
IsCurrent d =
    (x : Identity)
    → In x d.identities
    → x.is_deleted ≡ false
    → IsHighest x.role (held d.database x.id)

due-IsHighest :
    (db : Database) (x : Identity) → x.role ≡ due db x.id → IsHighest x.role (held db x.id)
due-IsHighest db x e =
    subst (λ slug. IsHighest slug (held db x.id)) (sym e) (best_of-IsHighest (held db x.id))

-- the row of an identity whose roles have not changed
held-IsHighest :
    (slug : String) (rs rs' : List Role) → rs' ≡ rs → IsHighest slug rs → IsHighest slug rs'
held-IsHighest slug rs rs' e highest = subst (IsHighest slug) (sym e) highest

module _ (i : ℕ) (d : Directory) (f : List (ℕ × ℕ) → List (ℕ × ℕ)) (only : OnlyAt i f)
    (current : IsCurrent d) where
  pub identity-IsCurrent : IsCurrent (refreshed i (with_identity_roles f d))
  identity-IsCurrent x listed live =
      let d' = with_identity_roles f d in
      elim (In-write_roles (due d'.database i) i x d.identities listed) [
        | inl (same, role) ↦
            due-IsHighest d'.database x
              (role ∙ ap (due d'.database) (sym ((nat_eq_iff x.id i).0 same)))
        | inr (old, other) ↦
            held-IsHighest x.role _ _
              (held-identity_roles d.database i x.id f only (ground (arith, nat_eq_iff x.id i)))
              (current x old live)
      ]

In-members_of :
    (db : Database) (g : ℕ) (x : Identity) (xs : List Identity)
    → In x xs
    → is_live_member db g x ≡ true
    → In x (members_of db g xs)
unfolding members_of
In-members_of db g x [] h e = absurd h
In-members_of db g x (y ∷ xs) (inl same) e =
    let found : is_live_member db g y ≡ true = rw (← same) e in rw found (inl same)
In-members_of db g x (y ∷ xs) (inr later) e = elim (Bool-cases (is_live_member db g y)) [
  | inl kept ↦ rw kept (inr (In-members_of db g x xs later e))
  | inr dropped ↦ rw dropped (In-members_of db g x xs later e)
]

-- A live row that was not asked for is none of a member.
unasked-outside :
    (db : Database) (g : ℕ) (x : Identity) (xs : List Identity)
    → In x xs
    → x.is_deleted ≡ false
    → any (λ (m : Identity). m.id == x.id) (members_of db g xs) ≡ false
    → is_member db x.id g ≡ false
unasked-outside db g x xs listed live unasked = elim (Bool-cases (is_member db x.id g)) [
  | inr outside ↦ outside
  | inl inside ↦
      let asked =
        In-any (λ (m : Identity). m.id == x.id) x (members_of db g xs)
          (In-members_of db g x xs listed (rw (inside, live) refl))
          ((nat_eq_iff x.id x.id).1 refl) in
      cc (asked, unasked)
]

module _ (g : ℕ) (d : Directory) (f : List (ℕ × ℕ) → List (ℕ × ℕ)) (only : OnlyAt g f)
    (current : IsCurrent d) where
  pub group-IsCurrent :
      IsCurrent (all_refreshed (members_of d.database g d.identities) (with_group_roles f d))
  unfolding members_of
  group-IsCurrent x listed live =
      let d' = with_group_roles f d in
      let members = members_of d.database g d.identities in
      subst (λ db. IsHighest x.role (held db x.id)) (sym (all_refreshed-database members d'))
        (elim (In-all_refreshed members x d' listed) [
          | inl role ↦ due-IsHighest d'.database x role
          | inr (old, unasked) ↦
              held-IsHighest x.role _ _
                (held-group_roles d.database g x.id f only
                  (unasked-outside d.database g x d.identities old live unasked))
                (current x old live)
        ])
