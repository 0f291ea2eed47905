-- ===== src/RoleCache/Held.antt =====
-- Which roles an identity holds after the links of another one, or of a group that it is not in, have
-- changed.
use pluris.Prelude.{
  ℕ, Bool, true, false, ◌&&◌, ◌||◌, and_parts, List, [], ◌∷◌, ◌++◌, any, ◌==◌, id_eq, nat_eq_iff,
  ◌≡◌, ◌≢◌, refl, ap, ◌∙◌, inl, inr, arith, Bool-cases,
}
use pluris.Roles.Store.{Role, Database, select, holds_directly, holds_via_group, is_member, is_live}
use pluris.RoleCache.Directory.{add_link, drop_link}

-- What a role listing gives for an identity, directly and by way of groups.
abbrev pub held : Database → ℕ → List Role
held db i = select (holds_directly db i) db.roles ++ select (holds_via_group db i) db.roles

select-eq :
    (p q : Role → Bool) (rs : List Role) → ((r : Role) → p r ≡ q r) → select p rs ≡ select q rs
unfolding select
select-eq p q [] e = refl
select-eq p q (r ∷ rs) e = rw (e r, select-eq p q rs e) refl

module _ (p : ℕ × ℕ → Bool) (a b : ℕ) where
  any-append_one :
      (links : List (ℕ × ℕ)) → p (a, b) ≡ false → any p (links ++ (a, b) ∷ []) ≡ any p links
  any-append_one [] blind = rw blind refl
  any-append_one (l ∷ links) blind = ap (λ c. p l || c) (any-append_one links blind)

  -- A new link does not matter to a test that it fails.
  any-add_link :
      (links : List (ℕ × ℕ)) → p (a, b) ≡ false → any p (add_link a b links) ≡ any p links
  unfolding add_link
  any-add_link links blind = elim (Bool-cases (any (λ l. l.0 == a && l.1 == b) links)) [
    | inl there ↦ rw there refl
    | inr new ↦ rw new (any-append_one links blind)
  ]

  any-drop_link :
      (links : List (ℕ × ℕ))
      → ((l : ℕ × ℕ) → (l.0 == a && l.1 == b) ≡ true → p l ≡ false)
      → any p (drop_link a b links) ≡ any p links
  unfolding drop_link
  any-drop_link [] blind = refl
  any-drop_link (l ∷ links) blind = elim (Bool-cases (l.0 == a && l.1 == b)) [
    | inl gone ↦ rw (gone, blind l gone) (any-drop_link links blind)
    | inr stays ↦ rw stays (ap (λ c. p l || c) (any-drop_link links blind))
  ]

-- A change of the links that a test on the first part of a link does not see.
abbrev pub OnlyAt : ℕ → (List (ℕ × ℕ) → List (ℕ × ℕ)) → Type 0
OnlyAt a f =
    (p : ℕ × ℕ → Bool) (links : List (ℕ × ℕ))
    → ((b : ℕ) → p (a, b) ≡ false)
    → any p (f links) ≡ any p links

pub add_link-OnlyAt : (a b : ℕ) → OnlyAt a (add_link a b)
add_link-OnlyAt a b p links blind = any-add_link p a b links (blind b)

pub drop_link-OnlyAt : (a b : ℕ) → OnlyAt a (drop_link a b)
drop_link-OnlyAt a b p links blind = any-drop_link p a b links (λ l e.
    let same = (nat_eq_iff l.0 a).0 (and_parts (l.0 == a) (l.1 == b) e).0 in
    ap (λ k. p (k, l.1)) same ∙ blind l.1)

pub held-identity_roles :
    (db : Database) (i j : ℕ) (f : List (ℕ × ℕ) → List (ℕ × ℕ))
    → OnlyAt i f
    → i ≢ j
    → held (record db { identity_roles = f db.identity_roles }) j ≡ held db j
unfolding holds_directly holds_via_group is_member is_live
held-identity_roles db i j f only other =
    ap (λ rs. rs ++ select (holds_via_group db j) db.roles)
      (select-eq _ _ db.roles (λ r.
        only (λ l. l.0 == j && l.1 == r.id) db.identity_roles
          (λ b. ground (arith, nat_eq_iff i j, other))))

pub held-group_roles :
    (db : Database) (g j : ℕ) (f : List (ℕ × ℕ) → List (ℕ × ℕ))
    → OnlyAt g f
    → is_member db j g ≡ false
    → held (record db { group_roles = f db.group_roles }) j ≡ held db j
unfolding holds_directly holds_via_group is_member is_live
held-group_roles db g j f only outside =
    ap (λ rs. select (holds_directly db j) db.roles ++ rs)
      (select-eq _ _ db.roles (λ r.
        only (λ l. l.1 == r.id && (is_member db j l.0 && is_live db l.0)) db.group_roles
          (λ b. ground arith)))
