-- ===== src/ModuleAccess/Grounds.antt =====
-- The grounds on which a level of access is given, and the tests that find them.
use pluris.Prelude.{
  ◌≤◌, String, true, some, List, [], ◌∷◌, ◌≡◌, ◌↔◌, ◌⊎◌, inl, inr, refl, arith, In, Bool-cases,
  eq_iff, nat_eq_iff, id_eq, string_eq, contains→In, In→contains, lookup, Option-cases, ap, ◌∙◌,
}
use pluris.Grants.{Grants, bypass_key, permits, bypass, can, scope_of}
use pluris.ModuleAccess.{
  ModuleGrant, ModuleAccessInput, module_level_rank, is_owner, names_subject, has_level_in,
  has_explicit_level,
}

pub data Level : Type 0 where
  view edit admin : Level

-- The map holds one of the values that permit something.
abbrev pub Holds : Grants → String → Type 0
Holds g key = (v : String) × (lookup key g ≡ some v) × ((v ≡ "yes") ⊎ (v ≡ "own") ⊎ (v ≡ "all"))

-- The texts of a row's level that cover a level.
abbrev pub Covers : Level → String → Type 0
Covers view level = (level ≡ "view") ⊎ (level ≡ "edit") ⊎ (level ≡ "admin")
Covers edit level = (level ≡ "edit") ⊎ (level ≡ "admin")
Covers admin level = level ≡ "admin"

-- The row is about the session's identity, or one of its groups or roles.
abbrev pub Names : ModuleAccessInput → ModuleGrant → Type 0
Names i g =
    ((g.subject_type ≡ "identity") × (g.subject_id ≡ i.identity_id))
    ⊎ ((g.subject_type ≡ "group") × In g.subject_id i.group_ids)
    ⊎ ((g.subject_type ≡ "role") × In g.subject_id i.role_ids)

permits_iff : (v : String) → (permits v ≡ true) ↔ ((v ≡ "yes") ⊎ (v ≡ "own") ⊎ (v ≡ "all"))
permits_iff v = (
  λ h. ground (arith, eq_iff v "yes", eq_iff v "own", eq_iff v "all"),
  λ h. ground (arith, eq_iff v "yes", eq_iff v "own", eq_iff v "all"),
)

pub scope-Holds : (g : Grants) (key : String) → permits (scope_of g key) ≡ true → Holds g key
unfolding scope_of
scope-Holds g key e = elim (Option-cases (lookup key g)) [
  | inl missing ↦ cc (rw missing at e)
  | inr (v, found) ↦ (v, found, (permits_iff v).0 (rw found at e))
]

pub Holds-scope : (g : Grants) (key : String) → Holds g key → permits (scope_of g key) ≡ true
unfolding scope_of
Holds-scope g key (v, found, allows) = rw found ((permits_iff v).1 allows)

abbrev pub level_text : Level → String
level_text view = "view"
level_text edit = "edit"
level_text admin = "admin"

Covers-rank :
    (level : Level) (text : String)
    → Covers level text
    → module_level_rank (level_text level) ≤ module_level_rank text
unfolding module_level_rank
Covers-rank view text (inl e) = rw e (omega arith)
Covers-rank view text (inr (inl e)) = rw e (omega arith)
Covers-rank view text (inr (inr e)) = rw e (omega arith)
Covers-rank edit text (inl e) = rw e (omega arith)
Covers-rank edit text (inr e) = rw e (omega arith)
Covers-rank admin text e = rw e (omega arith)

rank-Covers :
    (level : Level) (text : String)
    → module_level_rank (level_text level) ≤ module_level_rank text
    → Covers level text
unfolding module_level_rank
rank-Covers view text h =
    ground (arith, eq_iff text "view", eq_iff text "edit", eq_iff text "admin")
rank-Covers edit text h =
    ground (arith, eq_iff text "view", eq_iff text "edit", eq_iff text "admin")
rank-Covers admin text h =
    ground (arith, eq_iff text "view", eq_iff text "edit", eq_iff text "admin")

named-Names : (i : ModuleAccessInput) (g : ModuleGrant) → names_subject i g ≡ true → Names i g
unfolding names_subject
named-Names i g e = ground (
  arith,
  eq_iff g.subject_type "identity",
  eq_iff g.subject_type "group",
  eq_iff g.subject_type "role",
  nat_eq_iff g.subject_id i.identity_id,
  contains→In i.group_ids g.subject_id,
  contains→In i.role_ids g.subject_id,
)

Names-named : (i : ModuleAccessInput) (g : ModuleGrant) → Names i g → names_subject i g ≡ true
unfolding names_subject
Names-named i g (inl (kind, same)) = rw kind ((nat_eq_iff g.subject_id i.identity_id).1 same)
Names-named i g (inr (inl (kind, listed))) = rw kind (In→contains i.group_ids g.subject_id listed)
Names-named i g (inr (inr (kind, listed))) = rw kind (In→contains i.role_ids g.subject_id listed)

pub owner-is_owner : (i : ModuleAccessInput) → i.owner_id ≡ some i.identity_id → is_owner i ≡ true
unfolding is_owner
owner-is_owner i e = rw e ((nat_eq_iff i.identity_id i.identity_id).1 refl)

pub is_owner-owner : (i : ModuleAccessInput) → is_owner i ≡ true → i.owner_id ≡ some i.identity_id
unfolding is_owner
is_owner-owner i e = elim (Option-cases i.owner_id) [
  | inl missing ↦ cc (rw missing at e)
  | inr (o, known) ↦ known ∙ ap (λ n. some n) ((nat_eq_iff o i.identity_id).0 (rw known at e))
]

-- A row that names the session at a covering level.
abbrev pub HasRow : ModuleAccessInput → Level → List ModuleGrant → Type 0
HasRow i level gs = (g : ModuleGrant) × In g gs × Names i g × Covers level g.level

has_level_in-HasRow :
    (i : ModuleAccessInput) (level : Level) (gs : List ModuleGrant)
    → has_level_in i (module_level_rank (level_text level)) gs ≡ true
    → HasRow i level gs
unfolding has_level_in
has_level_in-HasRow i level [] e = cc
has_level_in-HasRow i level (g ∷ gs) e =
    let need = module_level_rank (level_text level) in
    elim (Bool-cases (has_level_in i need gs)) [
      | inl later ↦
          let (row, listed, named, high) = has_level_in-HasRow i level gs later in
          (row, inr listed, named, high)
      | inr never ↦
          (g, inl refl, named-Names i g (ground arith), rank-Covers level g.level (ground arith))
    ]

HasRow-has_level_in :
    (i : ModuleAccessInput) (level : Level) (gs : List ModuleGrant)
    → HasRow i level gs
    → has_level_in i (module_level_rank (level_text level)) gs ≡ true
unfolding has_level_in
HasRow-has_level_in i level [] (row, listed, named, high) = absurd listed
HasRow-has_level_in i level (g ∷ gs) (row, inl same, named, high) =
    rw (← same) (ground (arith, Names-named i row named, Covers-rank level row.level high))
HasRow-has_level_in i level (g ∷ gs) (row, inr later, named, high) =
    ground (arith, HasRow-has_level_in i level gs (row, later, named, high))

pub explicit_iff :
    (i : ModuleAccessInput) (level : Level)
    → (has_explicit_level i (level_text level) ≡ true) ↔ HasRow i level i.module_grants
unfolding has_explicit_level
explicit_iff i level =
    (has_level_in-HasRow i level i.module_grants, HasRow-has_level_in i level i.module_grants)

pub can-Holds : (g : Grants) (key : String) → can g key ≡ true → Holds g bypass_key ⊎ Holds g key
unfolding can bypass
can-Holds g key e = elim (Bool-cases (permits (scope_of g bypass_key))) [
  | inl all ↦ inl (scope-Holds g bypass_key all)
  | inr plain ↦ inr (scope-Holds g key (rw plain at e))
]

pub Holds-can : (g : Grants) (key : String) → Holds g key → can g key ≡ true
unfolding can bypass
Holds-can g key h = elim (Bool-cases (permits (scope_of g bypass_key))) [
  | inl all ↦ rw all refl
  | inr plain ↦ rw plain (Holds-scope g key h)
]
