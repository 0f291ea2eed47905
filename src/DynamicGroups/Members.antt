-- ===== src/DynamicGroups/Members.antt =====
-- What the single writes of a reconciliation do to the members of a group, and to all other rows.
use pluris.Prelude.{
  ℕ, Bool, true, false, ◌&&◌, ◌||◌, not, List, [], ◌∷◌, ◌++◌, if◌then◌else◌, id_eq, nat_eq, any,
  contains, ◌≡◌, refl, ap, ap₂, ◌∙◌, arith,
}
use pluris.DynamicGroups.{
  Column, Source, direct, rule, Membership, is_from, is_of, ids_from, delete_rule,
}

bool_unit : (b : Bool) → (b || false) ≡ (false || b)
bool_unit b = ground arith

or_assoc : (a b d : Bool) → (a || (b || d)) ≡ ((a || b) || d)
or_assoc a b d = ground arith

or_swap : (a b d e : Bool) → ((a || b) || (d || e)) ≡ ((a || d) || (b || e))
or_swap a b d e = ground arith

delete_step :
    (b : Bool) (m id j : ℕ) (t t' : Bool)
    → t' ≡ (t && not (nat_eq id j))
    → (if b && nat_eq m id then t' else (b && nat_eq m j) || t')
      ≡ (((b && nat_eq m j) || t) && not (nat_eq id j))
delete_step b m id j t t' e = ground arith

module _ (g : ℕ) (c : Column) where
  -- `id` is a member from this source
  abbrev pub has : Source → ℕ → List Membership → Bool
  has s id rs = any (λ r. is_from g c s r && nat_eq r.member id) rs

  -- the rows that a reconciliation of this column must not touch, in their order
  unfoldable pub others : List Membership → List Membership
  others [] = []
  others (r ∷ rs) = if is_from g c rule r then others rs else r ∷ others rs

  pub contains-ids_from :
      (s : Source) (id : ℕ) (rs : List Membership) → contains (ids_from g c s rs) id ≡ has s id rs
  unfolding ids_from
  contains-ids_from s id [] = refl
  contains-ids_from s id (r ∷ rs) = ground (arith, contains-ids_from s id rs)

  pub others-append :
      (rs : List Membership) (r : Membership)
      → is_from g c rule r ≡ true
      → others (rs ++ r ∷ []) ≡ others rs
  unfolding others
  others-append [] r ours = ground arith
  others-append (s ∷ rs) r ours = ground (arith, others-append rs r ours)

  pub others-delete_rule :
      (id : ℕ) (rs : List Membership) → others (delete_rule g c id rs) ≡ others rs
  unfolding others delete_rule
  others-delete_rule id [] = refl
  others-delete_rule id (r ∷ rs) = ground (arith, others-delete_rule id rs)

  -- direct members are among the other rows
  pub has_direct-others :
      (id : ℕ) (rs : List Membership) → has direct id (others rs) ≡ has direct id rs
  unfolding others
  has_direct-others id [] = refl
  has_direct-others id (r ∷ rs) = ground (arith, has_direct-others id rs)

  has-if :
      (s : Source) (j : ℕ) (x : Bool) (r : Membership) (rs : List Membership)
      → has s j (if x then rs else r ∷ rs)
        ≡ (if x then has s j rs else (is_from g c s r && nat_eq r.member j) || has s j rs)
  has-if s j true r rs = refl
  has-if s j false r rs = refl

  pub has-append :
      (s : Source) (j : ℕ) (rs : List Membership) (r : Membership)
      → has s j (rs ++ r ∷ []) ≡ (has s j rs || (is_from g c s r && nat_eq r.member j))
  has-append s j [] r = bool_unit (is_from g c s r && nat_eq r.member j)
  has-append s j (q ∷ rs) r =
      ap (λ b. (is_from g c s q && nat_eq q.member j) || b) (has-append s j rs r)
      ∙ or_assoc (is_from g c s q && nat_eq q.member j) (has s j rs)
          (is_from g c s r && nat_eq r.member j)

  one_row :
      (r : Membership) (id : ℕ)
      → is_of g c id r ≡ (
          (is_from g c direct r && nat_eq r.member id)
          || (is_from g c rule r && nat_eq r.member id))
  one_row r id = ground arith

  -- a row of the group and member is a direct or a rule-sourced one
  pub any-is_of :
      (id : ℕ) (rs : List Membership) → any (is_of g c id) rs ≡ (has direct id rs || has rule id rs)
  any-is_of id [] = refl
  any-is_of id (r ∷ rs) =
      ap₂ (λ a b. a || b) (one_row r id) (any-is_of id rs)
      ∙ or_swap (is_from g c direct r && nat_eq r.member id)
          (is_from g c rule r && nat_eq r.member id) (has direct id rs) (has rule id rs)

  pub has-delete_rule :
      (id j : ℕ) (rs : List Membership)
      → has rule j (delete_rule g c id rs) ≡ (has rule j rs && not (nat_eq id j))
  unfolding delete_rule
  has-delete_rule id j [] = refl
  has-delete_rule id j (r ∷ rs) =
      has-if rule j (is_from g c rule r && nat_eq r.member id) r (delete_rule g c id rs)
      ∙ delete_step (is_from g c rule r) r.member id j (has rule j rs) _ (has-delete_rule id j rs)
