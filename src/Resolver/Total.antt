-- ===== src/Resolver/Total.antt =====
-- The depth of the search: a visit turns a white module of the catalog grey before it goes on to the
-- dependencies, so that the number of white modules bounds it.
use pluris.Prelude.{
  ℕ, zero, suc, ◌+◌, ◌≤◌, ◌<◌, String, some, List, [], ◌∷◌, ◌++◌, ◌==◌, string_eq, length, Dict,
  lookup, insert, lookup-insert, Result, ok, err, and_then, ◌≡◌, ◌≢◌, ◌⊎◌, inl, inr, refl, sym, ◌∙◌,
  arith, eq_iff, Bool-cases, Option-cases, Result-cases,
}
use pluris.Resolver.Steps.{visit_cases}
use pluris.Resolver.Closure.{visit-Keeps}
use pluris.Resolver.{
  Module, ModuleVersion, Failure, out_of_fuel, Colour, white, grey, black, State, index, index_from,
  or_white, colour_of, paint, emit, each, visit, empty_state, conflict_pass, first_foe,
  conflicts_in, conflict_of, resolve,
}

abbrev tally : Colour → ℕ
tally white = 1
tally grey = 0
tally black = 0

-- the white modules of a catalog
whites : Dict String Colour → Dict String Module → ℕ
whites colours [] = 0
whites colours ((k, m) ∷ d) = tally (or_white (lookup k colours)) + whites colours d

whites-insert :
    (id : String) (c : Colour) (colours : Dict String Colour) (d : Dict String Module)
    → tally c ≡ 0
    → whites (insert id c colours) d ≤ whites colours d
unfolding whites
whites-insert id c colours [] e = ground arith
whites-insert id c colours ((k, m) ∷ d) e =
    ground (arith, whites-insert id c colours d e, lookup-insert id k c colours)

whites-paint :
    (id : String) (colours : Dict String Colour) (d : Dict String Module) (m : Module)
    → or_white (lookup id colours) ≡ white
    → lookup id d ≡ some m
    → whites (insert id grey colours) d < whites colours d
unfolding whites
whites-paint id colours [] m new found = ground arith
whites-paint id colours ((k, n) ∷ d) m new found = elim (Bool-cases (k == id)) [
  | inl same ↦ ground (
    arith,
    whites-insert id grey colours d refl,
    lookup-insert id k grey colours,
    eq_iff k id,
    eq_iff id k,
  )
  | inr other ↦ ground (
    arith,
    whites-paint id colours d m new (ground arith),
    lookup-insert id k grey colours,
    eq_iff k id,
    eq_iff id k,
  )
]

whites-length :
    (colours : Dict String Colour) (d : Dict String Module) → whites colours d ≤ length d
unfolding whites
whites-length colours [] = ground arith
whites-length colours ((k, m) ∷ d) = ground (arith, whites-length colours d)

ℕ-cases : (n : ℕ) → (n ≡ 0) ⊎ ((k : ℕ) × (suc k ≡ n))
ℕ-cases zero = inl refl
ℕ-cases (suc k) = inr (k, refl)

length-insert :
    (k : String) (v : Module) (d : Dict String Module) → length (insert k v d) ≤ length d + 1
length-insert k v [] = ground arith
length-insert k v ((j, w) ∷ d) = ground (arith, length-insert k v d)

length-index_from :
    (by_id : Dict String Module) (ms : List Module)
    → length (index_from by_id ms) ≤ length by_id + length ms
unfolding index_from
length-index_from by_id [] = ground arith
length-index_from by_id (m ∷ ms) =
    omega (arith, length-index_from (insert m.id m by_id) ms, length-insert m.id m by_id)

length-index : (catalog : List Module) → length (index catalog) ≤ length catalog
unfolding index
length-index catalog = omega (arith, length-index_from [] catalog)

module _ (by_id : Dict String Module) (selected : List String) where
  -- at most `n` modules of the catalog are white
  abbrev Few : ℕ → State → Type 0
  Few n s = whites s.colours by_id ≤ n

  abbrev Ends : ℕ → (String → State → Result Failure State) → Type 0
  Ends n f =
      (id : String) (s : State)
      → Few n s
      → (f id s ≢ err out_of_fuel) × ((t : State) → f id s ≡ ok t → Few n t)

  each-Ends :
      (n : ℕ) (f : String → State → Result Failure State)
      → Ends n f
      → (ids : List String) (s : State) → Few n s
      → each f ids s ≢ err out_of_fuel
  unfolding each
  each-Ends n f ends [] s few e = cc
  each-Ends n f ends (id ∷ ids) s few e = elim (Result-cases (f id s)) [
    | inl (u, first) ↦
        each-Ends n f ends ids u ((ends id s few).1 u first) (rw (first, and_then) at e)
    | inr (failure, first) ↦ (ends id s few).0 (cc)
  ]

  visit-Few :
      (n fuel : ℕ) (stack : List String) (id : String) (s t : State)
      → visit by_id selected fuel stack id s ≡ ok t
      → Few n s
      → Few n t
  visit-Few n fuel =
      visit-Keeps by_id selected (Few n)
        (λ id s few. omega (arith, few, whites-insert id grey s.colours by_id refl))
        (λ id m ver s _ _ few. omega (arith, few, whites-insert id black s.colours by_id refl)) fuel

  run-fuel :
      (n fuel : ℕ) (stack : List String) (id : String) (s : State) (m : Module)
      (ver : ModuleVersion)
      → Ends n (visit by_id selected fuel (stack ++ id ∷ []))
      → colour_of id s ≡ white
      → lookup id by_id ≡ some m
      → Few (suc n) s
      → and_then
          (each (visit by_id selected fuel (stack ++ id ∷ [])) ver.dependencies (paint id grey s))
          (λ u. ok (emit selected id ver u))
        ≢ err out_of_fuel
  run-fuel n fuel stack id s m ver ends new found few e =
      let search =
        each (visit by_id selected fuel (stack ++ id ∷ [])) ver.dependencies (paint id grey s) in
      elim (Result-cases search) [
        | inl (u, done) ↦ cc
        | inr (failure, fails) ↦
            each-Ends n (visit by_id selected fuel (stack ++ id ∷ [])) ends ver.dependencies
              (paint id grey s) (omega (arith, few, whites-paint id s.colours by_id m new found))
              (cc)
      ]

  visit-fuel :
      (n fuel : ℕ) (stack : List String) (id : String) (s : State)
      → ((k : ℕ) → suc k ≡ n → Ends k (visit by_id selected fuel (stack ++ id ∷ [])))
      → Few n s
      → visit by_id selected (suc fuel) stack id s ≢ err out_of_fuel
  visit-fuel n fuel stack id s ends few e = elim (visit_cases by_id selected fuel stack id s) [
    | inl (ring, fails) ↦ cc
    | inr (inl (done, stays)) ↦ cc
    | inr (inr (inl (new, gone, fails))) ↦ cc
    | inr (inr (inr (inl (m, new, found, gone, fails)))) ↦ cc
    | inr (inr (inr (inr (m, ver, new, found, published, runs)))) ↦ elim (ℕ-cases n) [
      | inl e0 ↦ absurd (omega (arith, few, whites-paint id s.colours by_id m new found))
      | inr (k, ek) ↦
          run-fuel k fuel stack id s m ver (ends k ek) new found (omega arith) (sym runs ∙ e)
    ]
  ]

  visit-Ends :
      (fuel n : ℕ) (stack : List String) → n < fuel → Ends n (visit by_id selected fuel stack)
  visit-Ends zero n stack lt id s few = absurd (omega arith)
  visit-Ends (suc fuel) n stack lt id s few = (
    visit-fuel n fuel stack id s (λ k e. visit-Ends fuel k (stack ++ id ∷ []) (omega arith)) few,
    λ t e. visit-Few n (suc fuel) stack id s t e few,
  )

conflict_pass-fuel :
    (by_id : Dict String Module) (order ids : List String)
    → conflict_pass by_id order ids ≢ err out_of_fuel
unfolding conflict_pass
conflict_pass-fuel by_id order [] e = cc
conflict_pass-fuel by_id order (id ∷ ids) e =
    elim (Option-cases (first_foe order (conflicts_in by_id id))) [
      | inl peace ↦ conflict_pass-fuel by_id order ids (rw (peace, conflict_pass) at e)
      | inr (foe, found) ↦
          let e' : err (conflict_of id foe) ≡ err out_of_fuel = rw (found, conflict_pass) at e in cc
    ]

-- The search of `resolve` never runs out of the fuel it is given, one level for each module of the
-- catalog and one more: it ends in a plan or in an error of the code's own.
pub resolve_total :
    (selected : List String) (catalog : List Module) → resolve selected catalog ≢ err out_of_fuel
unfolding resolve
resolve_total selected catalog e =
    let by_id = index catalog in
    let search = each (visit by_id selected (length catalog + 1) []) selected empty_state in
    elim (Result-cases search) [
      | inl (s, found) ↦ elim (Result-cases (conflict_pass by_id s.plan.order s.plan.order)) [
        | inl (done, passed) ↦ cc
        | inr (failure, fails) ↦ conflict_pass-fuel by_id s.plan.order s.plan.order (cc)
      ]
      | inr (failure, fails) ↦
          each-Ends by_id selected (length catalog) (visit by_id selected (length catalog + 1) [])
            (visit-Ends by_id selected (length catalog + 1) (length catalog) [] (omega arith))
            selected empty_state (omega (arith, whites-length [] by_id, length-index catalog)) (cc)
    ]
