-- ===== src/Roles/Effective.antt =====
-- `effective_grants` against the roles that an identity holds, directly or through a group that is not
-- deleted.
use pluris.Prelude.{
  ℕ, String, true, List, [], ◌∷◌, ◌++◌, id_eq, string_eq, In, In-append_left, In-append_right,
  In-append_cases, All, any, any-In, In-any, HasDistinctKeys, ok, and_then-eq-ok, ◌≡◌, ◌⊎◌, inl,
  inr, refl, sym, ◌∙◌, arith,
}
use pluris.Grants.{Grants, Json, can, union}
use pluris.Grants.Unions.{can-union}
use pluris.Roles.Store.{
  Role, Database, select, holds_directly, holds_via_group, list_roles_for_identity,
  list_group_roles_for_identity,
}
use pluris.Roles.{resolve_role_matrix, add_new, resolve_all, effective_grants}
use pluris.Roles.Listings.{In-select, select-In, add_new_sound, add_new_complete}
use pluris.Roles.Resolution.{resolve_parts, overlay-HasDistinctKeys}

module _ (json : Json) (db : Database) where
  resolve_all-cons :
      (r : Role) (rs : List Role) (gs : List Grants)
      → resolve_all json db (r ∷ rs) ≡ ok gs
      → (g : Grants) × (more : List Grants) × (resolve_role_matrix json db r ≡ ok g)
        × (resolve_all json db rs ≡ ok more)
        × (gs ≡ g ∷ more)
  unfolding resolve_all
  resolve_all-cons r rs gs e =
      let (g, one, e') = and_then-eq-ok (resolve_role_matrix json db r) _ gs e in
      let (more, rest, same) = and_then-eq-ok (resolve_all json db rs) _ gs e' in
      (g, more, one, rest, cc)

  resolve_all-distinct :
      (rs : List Role) (gs : List Grants) → resolve_all json db rs ≡ ok gs → All HasDistinctKeys gs
  unfolding resolve_all
  resolve_all-distinct [] gs e = let empty : gs ≡ [] = cc in rw empty tt
  resolve_all-distinct (r ∷ rs) gs e =
      let (g, more, one, rest, split) = resolve_all-cons r rs gs e in
      let (chain, walked, merged, distinct) = resolve_parts json db r g one in
      rw split (rw merged (overlay-HasDistinctKeys _), resolve_all-distinct rs more rest)

  resolve_all-In :
      (rs : List Role) (gs : List Grants) (r : Role)
      → resolve_all json db rs ≡ ok gs
      → In r rs
      → (g : Grants) × In g gs × (resolve_role_matrix json db r ≡ ok g)
  unfolding resolve_all
  resolve_all-In [] gs r e h = absurd h
  resolve_all-In (s ∷ rs) gs r e h =
      let (g, more, one, rest, split) = resolve_all-cons s rs gs e in
      elim h [
        | inl here ↦ (g, rw split (inl refl), rw here one)
        | inr later ↦
            let (m, listed, resolved) = resolve_all-In rs more r rest later in
            (m, rw split (inr listed), resolved)
      ]

  In-resolve_all :
      (rs : List Role) (gs : List Grants) (g : Grants)
      → resolve_all json db rs ≡ ok gs
      → In g gs
      → (r : Role) × In r rs × (resolve_role_matrix json db r ≡ ok g)
  unfolding resolve_all
  In-resolve_all [] gs g e h = let empty : gs ≡ [] = cc in absurd (rw empty at h)
  In-resolve_all (s ∷ rs) gs g e h =
      let (m, more, one, rest, split) = resolve_all-cons s rs gs e in
      let h' : In g (m ∷ more) = rw split at h in
      elim h' [
        | inl here ↦ (s, inl refl, rw here one)
        | inr later ↦
            let (r, listed, resolved) = In-resolve_all rs more g rest later in
            (r, inr listed, resolved)
      ]

-- The identity has the role directly, or through a group that is not deleted.
abbrev pub Holds : Database → ℕ → Role → Type 0
Holds db identity_id r =
    (holds_directly db identity_id r ≡ true) ⊎ (holds_via_group db identity_id r ≡ true)

module _ (json : Json) (db : Database) (identity_id : ℕ) (g : Grants) (key : String)
    (e : effective_grants json db identity_id ≡ ok g) where
  -- the roles of the two listings, and what they resolve to
  sources :
      (direct via : List Role) × (gs : List Grants) × (list_roles_for_identity db identity_id
        ≡ ok direct)
      × (list_group_roles_for_identity db identity_id ≡ ok via)
      × (resolve_all json db (add_new [] [] (direct ++ via)) ≡ ok gs)
      × (g ≡ union gs)
  unfolding effective_grants
  sources =
      let (direct, first, e1) = and_then-eq-ok (list_roles_for_identity db identity_id) _ g e in
      let (via, second, e2) =
        and_then-eq-ok (list_group_roles_for_identity db identity_id) _ g e1 in
      let (gs, third, e3) =
        and_then-eq-ok (resolve_all json db (add_new [] [] (direct ++ via))) _ g e2 in
      (direct, via, gs, first, second, third, cc)

  direct-eq :
      (direct : List Role)
      → list_roles_for_identity db identity_id ≡ ok direct
      → direct ≡ select (holds_directly db identity_id) db.roles
  unfolding list_roles_for_identity
  direct-eq direct h = ground arith

  via-eq :
      (via : List Role)
      → list_group_roles_for_identity db identity_id ≡ ok via
      → via ≡ select (holds_via_group db identity_id) db.roles
  unfolding list_group_roles_for_identity
  via-eq via h = ground arith

  held-Holds :
      (direct via : List Role) (r : Role)
      → list_roles_for_identity db identity_id ≡ ok direct
      → list_group_roles_for_identity db identity_id ≡ ok via
      → In r (direct ++ via)
      → In r db.roles × Holds db identity_id r
  held-Holds direct via r first second h = elim (In-append_cases r direct via h) [
    | inl own ↦
        let (listed, tested) =
          In-select (holds_directly db identity_id) r db.roles
            (rw (direct-eq direct first) at own) in
        (listed, inl tested)
    | inr shared ↦
        let (listed, tested) =
          In-select (holds_via_group db identity_id) r db.roles
            (rw (via-eq via second) at shared) in
        (listed, inr tested)
  ]

  Holds-held :
      (direct via : List Role) (r : Role)
      → list_roles_for_identity db identity_id ≡ ok direct
      → list_group_roles_for_identity db identity_id ≡ ok via
      → In r db.roles
      → Holds db identity_id r
      → In r (direct ++ via)
  Holds-held direct via r first second listed (inl own) = In-append_left r direct via (
      rw (direct-eq direct first) (select-In (holds_directly db identity_id) r db.roles listed own))
  Holds-held direct via r first second listed (inr shared) =
      In-append_right r direct via (
        rw (via-eq via second)
          (select-In (holds_via_group db identity_id) r db.roles listed shared))

-- What the effective grants permit, a held role's resolved matrix permits.
pub effective_grants_sound :
    (json : Json) (db : Database) (identity_id : ℕ) (g : Grants) (key : String)
    → effective_grants json db identity_id ≡ ok g
    → can g key ≡ true
    → (r : Role) × (m : Grants) × In r db.roles
      × Holds db identity_id r
      × (resolve_role_matrix json db r ≡ ok m)
      × (can m key ≡ true)
effective_grants_sound json db identity_id g key e allowed =
    let (direct, via, gs, first, second, third, merged) = sources json db identity_id g key e in
    let roles = add_new [] [] (direct ++ via) in
    let some_map : any (λ m. can m key) gs ≡ true =
      sym (can-union gs key (resolve_all-distinct json db roles gs third)) ∙ rw merged at allowed in
    let (m, among, permits_key) = any-In (λ m. can m key) gs some_map in
    let (r, kept, resolved) = In-resolve_all json db roles gs m third among in
    elim (add_new_sound [] r [] (direct ++ via) kept) [
      | inl none_yet ↦ absurd none_yet
      | inr held ↦
          let (listed, holds) =
            held-Holds json db identity_id g key e direct via r first second held in
          (r, m, listed, holds, resolved, permits_key)
    ]

-- What the resolved matrix of a held role permits, the effective grants permit, if ids are unique.
pub effective_grants_complete :
    (json : Json) (db : Database) (identity_id : ℕ) (g m : Grants) (key : String) (r : Role)
    → ((s t : Role) → In s db.roles → In t db.roles → s.id ≡ t.id → s ≡ t)
    → effective_grants json db identity_id ≡ ok g
    → In r db.roles
    → Holds db identity_id r
    → resolve_role_matrix json db r ≡ ok m
    → can m key ≡ true
    → can g key ≡ true
effective_grants_complete json db identity_id g m key r unique e listed holds resolved allowed =
    let (direct, via, gs, first, second, third, merged) = sources json db identity_id g key e in
    let roles = add_new [] [] (direct ++ via) in
    let held = Holds-held json db identity_id g key e direct via r first second listed holds in
    elim (add_new_complete [] r [] (direct ++ via) held) [
      | inl seen ↦ cc
      | inr (s, kept, same_id) ↦ elim (add_new_sound [] s [] (direct ++ via) kept) [
        | inl none_yet ↦ absurd none_yet
        | inr again ↦
            let (s_listed, _) =
              held-Holds json db identity_id g key e direct via s first second again in
            let same : s ≡ r = unique s r s_listed listed same_id in
            let (m', among, resolved') = resolve_all-In json db roles gs s third kept in
            let same_map : m ≡ m' = ground arith in
            rw (merged, can-union gs key (resolve_all-distinct json db roles gs third))
              (In-any (λ n. can n key) m' gs among (rw same_map at allowed))
      ]
    ]
