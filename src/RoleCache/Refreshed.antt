-- ===== src/RoleCache/Refreshed.antt =====
-- The rows of identities after `recomputeRoleCache` has run for some of them.
use pluris.Prelude.{
  ℕ, String, true, false, List, [], ◌∷◌, any, ◌==◌, id_eq, nat_eq_iff, In, ok, ◌≡◌, refl, sym, ap,
  ◌∙◌, ◌⊎◌, inl, inr, arith, Bool-cases,
}
use pluris.Roles.Store.{Query, Database, list_roles_for_identity, list_group_roles_for_identity}
use pluris.RoleCache.{best_of, recompute_role_cache}
use pluris.RoleCache.Highest.{best_of-is_valid_role}
use pluris.RoleCache.Held.{held}
use pluris.RoleCache.Directory.{
  Identity, Directory, write_roles, update_identity_role, recompute, recompute_each,
}

-- the slug that is due to an identity
abbrev pub due : Database → ℕ → String
due db i = (best_of ("user", 0) (held db i)).0

-- No query fails.
abbrev pub Reliable : Directory → Type 0
Reliable d = (q : Query) → d.database.fails q ≡ false

abbrev pub refreshed : ℕ → Directory → Directory
refreshed i d = record d { identities = write_roles (due d.database i) i d.identities }

recompute_role_cache-due :
    (d : Directory) (i : ℕ) → Reliable d → recompute_role_cache d.database i ≡ ok (due d.database i)
unfolding recompute_role_cache list_roles_for_identity list_group_roles_for_identity
recompute_role_cache-due d i reliable = rw (reliable _, reliable _) refl

pub recompute-refreshed :
    (i : ℕ) (d : Directory) → Reliable d → recompute i d ≡ (ok tt, refreshed i d)
unfolding recompute update_identity_role
recompute-refreshed i d reliable =
    rw
      (
        recompute_role_cache-due d i reliable,
        reliable _,
        best_of-is_valid_role ("user", 0) (held d.database i) refl,
      )
      refl

abbrev pub all_refreshed : List Identity → Directory → Directory
all_refreshed [] d = d
all_refreshed (m ∷ members) d = all_refreshed members (refreshed m.id d)

pub recompute_each-all_refreshed :
    (members : List Identity) (d : Directory)
    → Reliable d
    → recompute_each members d ≡ (ok tt, all_refreshed members d)
unfolding recompute_each
recompute_each-all_refreshed [] d reliable = refl
recompute_each-all_refreshed (m ∷ members) d reliable =
    rw (recompute-refreshed m.id d reliable)
      (recompute_each-all_refreshed members (refreshed m.id d) reliable)

pub In-write_roles :
    (slug : String) (i : ℕ) (x : Identity) (xs : List Identity)
    → In x (write_roles slug i xs)
    → ((x.id == i) ≡ true) × (x.role ≡ slug) ⊎ In x xs × ((x.id == i) ≡ false)
unfolding write_roles
In-write_roles slug i x [] h = absurd h
In-write_roles slug i x (y ∷ xs) h = elim h [
  | inr later ↦ elim (In-write_roles slug i x xs later) [
    | inl new ↦ inl new
    | inr (old, other) ↦ inr (inr old, other)
  ]
  | inl now ↦ elim (Bool-cases (y.id == i)) [
    | inl same ↦
        let e : x ≡ record y { role = slug } = rw same at now in
        inl (ap (λ (z : Identity). z.id == i) e ∙ same, ap (λ (z : Identity). z.role) e)
    | inr other ↦
        let e : x ≡ y = rw other at now in inr (inl e, ap (λ (z : Identity). z.id == i) e ∙ other)
  ]
]

pub all_refreshed-database :
    (members : List Identity) (d : Directory) → (all_refreshed members d).database ≡ d.database
all_refreshed-database [] d = refl
all_refreshed-database (m ∷ members) d = all_refreshed-database members (refreshed m.id d)

-- A row has what is due, or it was there before and was not asked for.
pub In-all_refreshed :
    (members : List Identity) (x : Identity) (d : Directory)
    → In x (all_refreshed members d).identities
    → (x.role ≡ due d.database x.id)
      ⊎ In x d.identities × (any (λ (m : Identity). m.id == x.id) members ≡ false)
In-all_refreshed [] x d h = inr (h, refl)
In-all_refreshed (m ∷ members) x d h = elim (In-all_refreshed members x (refreshed m.id d) h) [
  | inl new ↦ inl new
  | inr (listed, unasked) ↦ elim (In-write_roles (due d.database m.id) m.id x d.identities listed) [
    | inl (same, role) ↦ inl (role ∙ ap (due d.database) (sym ((nat_eq_iff x.id m.id).0 same)))
    | inr (old, other) ↦ inr (old, ground (arith, nat_eq_iff x.id m.id, nat_eq_iff m.id x.id))
  ]
]
