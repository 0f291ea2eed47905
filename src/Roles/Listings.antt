-- ===== src/Roles/Listings.antt =====
-- The listings of roles: which roles a selection and the de-duplication keep.
use pluris.Prelude.{
  ℕ, Bool, true, List, [], ◌∷◌, ◌++◌, ◌==◌, id_eq, string_eq, contains, or_cases, In,
  In-append_left, In-append_right, In-append_cases, ◌≡◌, ◌⊎◌, inl, inr, refl, sym, ap, arith,
  Bool-cases, nat_eq_iff,
}
use pluris.Roles.Store.{Role, select}
use pluris.Roles.{add_new}

pub In-select :
    (p : Role → Bool) (r : Role) (rs : List Role) → In r (select p rs) → In r rs × (p r ≡ true)
unfolding select
In-select p r [] h = absurd h
In-select p r (s ∷ rs) h = elim (Bool-cases (p s)) [
  | inl passed ↦
      let h' : In r (s ∷ select p rs) = rw passed at h in
      elim h' [
        | inl e ↦ (inl e, rw e passed)
        | inr later ↦ let (listed, tested) = In-select p r rs later in (inr listed, tested)
      ]
  | inr failed ↦ let later = In-select p r rs (rw failed at h) in (inr later.0, later.1)
]

pub select-In :
    (p : Role → Bool) (r : Role) (rs : List Role) → In r rs → p r ≡ true → In r (select p rs)
unfolding select
select-In p r [] h e = absurd h
select-In p r (s ∷ rs) (inl same) e = ground arith
select-In p r (s ∷ rs) (inr h) e = ground (arith, select-In p r rs h e)

add_new-keeps :
    (seen : List ℕ) (r : Role) (roles rs : List Role) → In r roles → In r (add_new seen roles rs)
unfolding add_new
add_new-keeps seen r roles [] h = h
add_new-keeps seen r roles (s ∷ rs) h = ground (
  arith,
  add_new-keeps (s.id ∷ seen) r (roles ++ s ∷ []) rs (In-append_left r roles (s ∷ []) h),
  add_new-keeps seen r roles rs h,
)

pub add_new_sound :
    (seen : List ℕ) (r : Role) (roles rs : List Role)
    → In r (add_new seen roles rs)
    → In r roles ⊎ In r rs
unfolding add_new
add_new_sound seen r roles [] h = inl h
add_new_sound seen r roles (s ∷ rs) h = elim (Bool-cases (contains seen s.id)) [
  | inl known ↦ elim (add_new_sound seen r roles rs (rw known at h)) [
    | inl old ↦ inl old
    | inr new ↦ inr (inr new)
  ]
  | inr fresh ↦ elim (add_new_sound (s.id ∷ seen) r (roles ++ s ∷ []) rs (rw fresh at h)) [
    | inr new ↦ inr (inr new)
    | inl old ↦ elim (In-append_cases r roles (s ∷ []) old) [
      | inl before ↦ inl before
      | inr (inl e) ↦ inr (inl e)
      | inr (inr no_more) ↦ absurd no_more
    ]
  ]
]

-- Every id stands for a role of the result, unless it was seen before.
pub add_new_complete :
    (seen : List ℕ) (r : Role) (roles rs : List Role)
    → In r rs
    → (contains seen r.id ≡ true) ⊎ ((s : Role) × In s (add_new seen roles rs) × (s.id ≡ r.id))
unfolding add_new
add_new_complete seen r roles [] h = absurd h
add_new_complete seen r roles (s ∷ rs) h = elim (Bool-cases (contains seen s.id)) [
  | inl known ↦
      rw known
        (elim h [ inl e ↦ inl (rw e known) | inr later ↦ add_new_complete seen r roles rs later ])
  | inr fresh ↦ rw fresh (elim h [
    | inl e ↦ inr (s, here, ap (λ (t : Role). t.id) (sym e))
    | inr later ↦ elim (add_new_complete (s.id ∷ seen) r (roles ++ s ∷ []) rs later) [
      | inr found ↦ inr found
      | inl known ↦ elim (or_cases (s.id == r.id) (contains seen r.id) known) [
        | inl same ↦ inr (s, here, (nat_eq_iff s.id r.id).0 same)
        | inr before ↦ inl before
      ]
    ]
  ])
]
  where
    here : In s (add_new (s.id ∷ seen) (roles ++ s ∷ []) rs)
    here =
        add_new-keeps (s.id ∷ seen) s (roles ++ s ∷ []) rs
          (In-append_right s roles (s ∷ []) (inl refl))
