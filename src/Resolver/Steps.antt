-- ===== src/Resolver/Steps.antt =====
-- The five ways in which one visit goes.
use pluris.Prelude.{
  ℕ, zero, suc, String, none, some, List, [], ◌∷◌, ◌++◌, Dict, lookup, string_eq, Result, ok, err,
  and_then, ◌≡◌, ◌⊎◌, inl, inr, refl, arith, Option-cases,
}
use pluris.Resolver.{
  Module, ModuleVersion, Failure, out_of_fuel, Colour, white, grey, black, State, latest_version,
  colour_of, paint, cycle_at, missing_at, emit, each, visit,
}

Colour-cases : (c : Colour) → (c ≡ white) ⊎ (c ≡ grey) ⊎ (c ≡ black)
Colour-cases c = ground arith

pub visit-zero :
    (by_id : Dict String Module) (selected stack : List String) (id : String) (s : State)
    → visit by_id selected zero stack id s ≡ err out_of_fuel
unfolding visit
visit-zero by_id selected stack id s = refl

module _ (by_id : Dict String Module) (selected : List String) (fuel : ℕ) (stack : List String)
    (id : String) (s : State) where
  -- the visits of the dependencies, and the emission behind them
  abbrev pub run : ModuleVersion → Result Failure State
  run ver =
      and_then
        (each (visit by_id selected fuel (stack ++ id ∷ [])) ver.dependencies (paint id grey s))
        (λ u. ok (emit selected id ver u))

  visit-grey :
      colour_of id s ≡ grey → visit by_id selected (suc fuel) stack id s ≡ err (cycle_at stack id)
  unfolding visit
  visit-grey ring = rw (ring, visit)

  visit-black : colour_of id s ≡ black → visit by_id selected (suc fuel) stack id s ≡ ok s
  unfolding visit
  visit-black done = rw (done, visit)

  visit-gone :
      colour_of id s ≡ white
      → lookup id by_id ≡ none
      → visit by_id selected (suc fuel) stack id s
        ≡ err (missing_at "module not in catalog: " stack id)
  unfolding visit
  visit-gone new gone = rw (new, visit) (rw (gone, visit))

  visit-unpublished :
      (m : Module)
      → colour_of id s ≡ white
      → lookup id by_id ≡ some m
      → latest_version m ≡ none
      → visit by_id selected (suc fuel) stack id s
        ≡ err (missing_at "module has no published version: " stack id)
  unfolding visit
  visit-unpublished m new found gone = rw (new, visit) (rw (found, visit) (rw (gone, visit)))

  visit-new :
      (m : Module) (ver : ModuleVersion)
      → colour_of id s ≡ white
      → lookup id by_id ≡ some m
      → latest_version m ≡ some ver
      → visit by_id selected (suc fuel) stack id s ≡ run ver
  unfolding visit
  visit-new m ver new found published = rw (new, visit) (rw (found, visit) (rw (published, visit)))

  abbrev visited : Result Failure State
  visited = visit by_id selected (suc fuel) stack id s

  pub visit_cases :
      ((colour_of id s ≡ grey) × (visited ≡ err (cycle_at stack id)))
      ⊎ ((colour_of id s ≡ black) × (visited ≡ ok s))
      ⊎ ((colour_of id s ≡ white)
          × (lookup id by_id ≡ none)
          × (visited ≡ err (missing_at "module not in catalog: " stack id)))
      ⊎ ((m : Module) × (colour_of id s ≡ white)
          × (lookup id by_id ≡ some m)
          × (latest_version m ≡ none)
          × (visited ≡ err (missing_at "module has no published version: " stack id)))
      ⊎ ((m : Module) × (ver : ModuleVersion) × (colour_of id s ≡ white)
          × (lookup id by_id ≡ some m)
          × (latest_version m ≡ some ver)
          × (visited ≡ run ver))
  visit_cases = elim (Colour-cases (colour_of id s)) [
    | inr (inl ring) ↦ inl (ring, visit-grey ring)
    | inr (inr done) ↦ inr (inl (done, visit-black done))
    | inl new ↦ elim (Option-cases (lookup id by_id)) [
      | inl gone ↦ inr (inr (inl (new, gone, visit-gone new gone)))
      | inr (m, found) ↦ elim (Option-cases (latest_version m)) [
        | inl gone ↦ inr (inr (inr (inl (m, new, found, gone, visit-unpublished m new found gone))))
        | inr (ver, published) ↦
            inr
              (inr (inr (inr (m, ver, new, found, published, visit-new m ver new found published))))
      ]
    ]
  ]
