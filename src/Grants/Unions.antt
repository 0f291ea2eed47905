-- ===== src/Grants/Unions.antt =====
-- What a union of grants holds for each key, and what it permits.
use Prim.Native.Nat.{max}
use pluris.Prelude.{
  ℕ, String, Bool, true, false, ◌||◌, Option, none, some, List, [], ◌∷◌, if◌then◌else◌, ltb, ◌==◌,
  string_eq, id_eq, lookup, lookup-insert, HasDistinctKeys, All, arith, eq_iff, ◌≡◌, ◌≢◌, refl, any,
  ◌⊎◌, inl, inr, sym, Option-cases, In, ap, ◌∙◌,
}
use pluris.Grants.{
  Grants, or_empty, bypass_key, rank, scope_of, permits, bypass, can, can_scoped, raise, merge,
  union_from, union,
}

-- the value that stands after `value` is offered
abbrev better : Option String → String → Option String
better none value = some value
better (some w) value = if ltb (rank w) (rank value) then some value else some w

abbrev pick : Option String → Option String → Option String
pick o none = o
pick o (some value) = better o value

lookup-raise :
    (j key value : String) (out : Grants)
    → lookup j (raise key value out)
      ≡ (if key == j then better (lookup j out) value else lookup j out)
lookup-raise j key value out = elim (Option-cases (lookup key out)) [
  | inl e ↦ ground (arith, eq_iff key j, lookup-insert key j value out)
  | inr (w, e) ↦ ground (arith, eq_iff key j, lookup-insert key j value out)
]

-- One map is merged key by key: its order does not matter.
lookup-merge :
    (j : String) (g out : Grants)
    → HasDistinctKeys g
    → lookup j (merge g out) ≡ pick (lookup j out) (lookup j g)
unfolding merge
lookup-merge j [] out h = refl
lookup-merge j ((key, value) ∷ g) out h =
    ground (
      arith,
      eq_iff key j,
      lookup-raise j key value out,
      lookup-merge j g (raise key value out) h.1,
    )

permits-pick :
    (o p : Option String)
    → permits (or_empty (pick o p)) ≡ (permits (or_empty o) || permits (or_empty p))
unfolding rank
permits-pick o none = ground arith
permits-pick none (some v) = ground arith
permits-pick (some w) (some v) = ground arith

permits-union_from :
    (key : String) (out : Grants) (gs : List Grants)
    → All HasDistinctKeys gs
    → permits (scope_of (union_from out gs) key)
      ≡ (permits (scope_of out key) || any (λ g. permits (scope_of g key)) gs)
unfolding union_from scope_of
permits-union_from key out [] h = ground arith
permits-union_from key out (g ∷ gs) (distinct, h) = ground (
  arith,
  permits-union_from key (merge g out) gs h,
  lookup-merge key g out distinct,
  permits-pick (lookup key out) (lookup key g),
)

or_assoc : (a b c : Bool) → ((a || b) || c) ≡ (a || (b || c))
or_assoc a b c = ground arith

any-or :
    {A : Type 0} (p q : A → Bool) (xs : List A)
    → (any p xs || any q xs) ≡ any (λ x. if p x then true else q x) xs
any-or p q [] = refl
any-or p q (x ∷ xs) = ground (arith, any-or p q xs)

-- A union permits a key exactly when one of its maps does, the super-admin marker included.
pub can-union :
    (gs : List Grants) (key : String)
    → All HasDistinctKeys gs
    → can (union gs) key ≡ any (λ g. can g key) gs
unfolding can bypass union
can-union gs key h = ground (
  arith,
  permits-union_from key [] gs h,
  permits-union_from bypass_key [] gs h,
  any-or (λ g. permits (scope_of g bypass_key)) (λ g. permits (scope_of g key)) gs,
)

-- what `can_scoped` makes of a value
reaches : ℕ → ℕ → String → Bool
reaches owner_id self_id v =
    if v == "all" then true else if v == "own" then owner_id == self_id else false

reaches-pick :
    (owner_id self_id : ℕ) (o p : Option String)
    → or_empty o ≢ "yes"
    → or_empty p ≢ "yes"
    → reaches owner_id self_id (or_empty (pick o p))
      ≡ (reaches owner_id self_id (or_empty o) || reaches owner_id self_id (or_empty p))
unfolding rank reaches
reaches-pick owner_id self_id o none ho hp = ground arith
reaches-pick owner_id self_id none (some v) ho hp = ground arith
reaches-pick owner_id self_id (some w) (some v) ho hp =
    ground (arith, eq_iff w "yes", eq_iff v "yes", eq_iff w "all", eq_iff w "own")

pick-ne-yes :
    (o p : Option String) → or_empty o ≢ "yes" → or_empty p ≢ "yes" → or_empty (pick o p) ≢ "yes"
pick-ne-yes o none ho hp = ho
pick-ne-yes none (some v) ho hp = hp
pick-ne-yes (some w) (some v) ho hp = ground arith

reaches-union_from :
    (key : String) (owner_id self_id : ℕ) (out : Grants) (gs : List Grants)
    → All HasDistinctKeys gs
    → scope_of out key ≢ "yes"
    → All (λ g. scope_of g key ≢ "yes") gs
    → reaches owner_id self_id (scope_of (union_from out gs) key) ≡ (
        reaches owner_id self_id (scope_of out key)
        || any (λ g. reaches owner_id self_id (scope_of g key)) gs)
unfolding union_from scope_of
reaches-union_from key owner_id self_id out [] h ho hg = ground arith
reaches-union_from key owner_id self_id out (g ∷ gs) (distinct, h) ho (hg, hgs) =
    let e = lookup-merge key g out distinct in
    let o = lookup key out in
    let p = lookup key g in
    cc (
      e,
      reaches-union_from key owner_id self_id (merge g out) gs h (rw e (pick-ne-yes o p ho hg)) hgs,
      reaches-pick owner_id self_id o p ho hg,
      or_assoc (reaches owner_id self_id (or_empty o)) (reaches owner_id self_id (or_empty p))
          (any (λ m. reaches owner_id self_id (scope_of m key)) gs),
    )

-- For a key under which no map stores the unscoped value "yes", a union reaches an owner's resource
-- exactly when one of its maps does.
pub can_scoped-union :
    (gs : List Grants) (key : String) (owner_id self_id : ℕ)
    → All HasDistinctKeys gs
    → All (λ g. scope_of g key ≢ "yes") gs
    → can_scoped (union gs) key owner_id self_id ≡ any (λ g. can_scoped g key owner_id self_id) gs
unfolding can_scoped bypass union reaches scope_of
can_scoped-union gs key owner_id self_id h hg = ground (
  arith,
  reaches-union_from key owner_id self_id [] gs h (ground (arith, eq_iff "" "yes")) hg,
  permits-union_from bypass_key [] gs h,
  any-or (λ g. permits (scope_of g bypass_key)) (λ g. reaches owner_id self_id (scope_of g key)) gs,
)

-- the highest rank that any of the maps has for a key
abbrev pub top : String → List Grants → ℕ
top key [] = 0
top key (g ∷ gs) = max (rank (scope_of g key)) (top key gs)

rank-empty : rank "" ≡ 0
unfolding rank
rank-empty = refl

rank-pick :
    (o p : Option String) → rank (or_empty (pick o p)) ≡ max (rank (or_empty o)) (rank (or_empty p))
rank-pick o none = omega (arith, rank-empty)
rank-pick none (some v) = omega (arith, rank-empty)
rank-pick (some w) (some v) = ground arith

rank-union_from :
    (key : String) (out : Grants) (gs : List Grants)
    → All HasDistinctKeys gs
    → rank (scope_of (union_from out gs) key) ≡ max (rank (scope_of out key)) (top key gs)
unfolding union_from scope_of
rank-union_from key out [] h = omega arith
rank-union_from key out (g ∷ gs) (distinct, h) =
    let e = lookup-merge key g out distinct in
    let ih = rank-union_from key (merge g out) gs h in
    let shifted = ap (λ o. rank (or_empty o)) e in
    omega (arith, ih, shifted, rank-pick (lookup key out) (lookup key g))

-- A union holds for each key a value of the highest rank among its maps.
pub rank-union :
    (gs : List Grants) (key : String)
    → All HasDistinctKeys gs
    → rank (scope_of (union gs) key) ≡ top key gs
unfolding union scope_of
rank-union gs key h = omega (arith, rank-union_from key [] gs h, rank-empty)

pick_cases : (o p : Option String) (v : String) → pick o p ≡ some v → (o ≡ some v) ⊎ (p ≡ some v)
pick_cases o none v e = inl e
pick_cases none (some w) v e = inr e
pick_cases (some u) (some w) v e = ground arith

lookup-union_from :
    (key v : String) (out : Grants) (gs : List Grants)
    → All HasDistinctKeys gs
    → lookup key (union_from out gs) ≡ some v
    → (lookup key out ≡ some v) ⊎ ((g : Grants) × In g gs × (lookup key g ≡ some v))
unfolding union_from
lookup-union_from key v out [] h e = inl e
lookup-union_from key v out (g ∷ gs) (distinct, h) e =
    elim (lookup-union_from key v (merge g out) gs h e) [
      | inl merged ↦ elim (pick_cases _ _ v (sym (lookup-merge key g out distinct) ∙ merged)) [
        | inl old ↦ inl old
        | inr new ↦ inr (g, inl refl, new)
      ]
      | inr (m, listed, held) ↦ inr (m, inr listed, held)
    ]

-- A union invents no value: what it holds, one of its maps holds.
pub lookup-union :
    (gs : List Grants) (key v : String)
    → All HasDistinctKeys gs
    → lookup key (union gs) ≡ some v
    → (g : Grants) × In g gs × (lookup key g ≡ some v)
unfolding union
lookup-union gs key v h e = elim (lookup-union_from key v [] gs h e) [
  | inl absent ↦ cc
  | inr found ↦ found
]
