-- ===== src/RoleCache/Highest.antt =====
-- The slug that is cached against the privileges of the roles that an identity holds.
use pluris.Prelude.{
  ℕ, ◌≤◌, true, String, List, [], ◌∷◌, if◌then◌else◌, ltb, In, ◌≡◌, ◌⊎◌, inl, inr, refl, ap, ◌∙◌,
  arith, Bool-cases,
}
use pluris.Roles.Store.{Role}
use pluris.RoleCache.Directory.{is_valid_role}
use pluris.RoleCache.{role_privilege, ranked_slug, best_of}

abbrev better : String × ℕ → Role → String × ℕ
better best r =
    if ltb best.1 (role_privilege (ranked_slug r))
    then (ranked_slug r, role_privilege (ranked_slug r))
    else best

best_of-grows : (best : String × ℕ) (rs : List Role) → best.1 ≤ (best_of best rs).1
unfolding best_of
best_of-grows best [] = ground arith
best_of-grows best (r ∷ rs) = ground (arith, best_of-grows (better best r) rs)

best_of-covers :
    (best : String × ℕ) (rs : List Role) (r : Role)
    → In r rs
    → role_privilege (ranked_slug r) ≤ (best_of best rs).1
unfolding best_of
best_of-covers best [] r h = absurd h
best_of-covers best (s ∷ rs) r (inl now) =
    let e : role_privilege (ranked_slug r) ≡ role_privilege (ranked_slug s) =
      ap (λ t. role_privilege (ranked_slug t)) now in
    ground (arith, best_of-grows (better best s) rs)
best_of-covers best (s ∷ rs) r (inr later) = best_of-covers (better best s) rs r later

best_of_cases :
    (best : String × ℕ) (rs : List Role)
    → (best_of best rs ≡ best)
      ⊎ ((r : Role) × In r rs × (best_of best rs ≡ (ranked_slug r, role_privilege (ranked_slug r))))
unfolding best_of
best_of_cases best [] = inl refl
best_of_cases best (r ∷ rs) = elim (best_of_cases (better best r) rs) [
  | inr (s, listed, e) ↦ inr (s, inr listed, e)
  | inl stays ↦ elim (Bool-cases (ltb best.1 (role_privilege (ranked_slug r)))) [
    | inl wins ↦ inr (r, inl refl, stays ∙ (rw wins refl))
    | inr loses ↦ inl (stays ∙ (rw loses refl))
  ]
]

-- The slug is "user" and no role has a privilege, or it is that of a role whose privilege is no lower
-- than any other's; a custom role counts as its template.
abbrev pub IsHighest : String → List Role → Type 0
IsHighest slug roles =
    ((slug ≡ "user") × ((r : Role) → In r roles → role_privilege (ranked_slug r) ≡ 0))
    ⊎ ((best : Role) × In best roles
        × (slug ≡ ranked_slug best)
        × ((r : Role)
            → In r roles
            → role_privilege (ranked_slug r) ≤ role_privilege (ranked_slug best)))

pub best_of-IsHighest : (roles : List Role) → IsHighest (best_of ("user", 0) roles).0 roles
best_of-IsHighest roles = elim (best_of_cases ("user", 0) roles) [
  | inl stays ↦ inl (
    ap (λ b. b.0) stays,
    λ r h. omega (arith, best_of-covers ("user", 0) roles r h, ap (λ b. b.1) stays),
  )
  | inr (best, listed, wins) ↦ inr (
    best,
    listed,
    ap (λ b. b.0) wins,
    λ r h. omega (arith, best_of-covers ("user", 0) roles r h, ap (λ b. b.1) wins),
  )
]

privileged-is_valid_role :
    (n : ℕ) (slug : String) → ltb n (role_privilege slug) ≡ true → is_valid_role slug ≡ true
unfolding role_privilege
privileged-is_valid_role n slug e = ground arith

-- The column's CHECK accepts what is written.
pub best_of-is_valid_role :
    (best : String × ℕ) (roles : List Role)
    → is_valid_role best.0 ≡ true
    → is_valid_role (best_of best roles).0 ≡ true
unfolding best_of
best_of-is_valid_role best [] e = e
best_of-is_valid_role best (r ∷ rs) e =
    best_of-is_valid_role (better best r) rs
      (elim (Bool-cases (ltb best.1 (role_privilege (ranked_slug r)))) [
        | inl wins ↦ rw wins (privileged-is_valid_role best.1 (ranked_slug r) wins)
        | inr loses ↦ rw loses e
      ])
