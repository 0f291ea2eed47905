-- ===== src/Resolver.antt =====
-- catalog/policymodules/resolver.go: the closure of a selection of modules under dependencies, in the
-- order in which it is applied, by a depth-first search with three colours.
pub mod Steps
pub mod Order
pub mod Closure
pub mod Plans
pub mod Total
mod Tests
use Prim.Native.String
use pluris.Prelude.{
  ℕ, zero, suc, ◌+◌, String, Bool, true, false, Option, none, some, List, [], ◌∷◌, ◌++◌,
  if◌then◌else◌, ◌==◌, string_eq, contains, length, Dict, lookup, insert, Result, ok, err, and_then,
}

pub record ModuleVersion : Type 0 where
  pub version : String
  pub dependencies : List String
  pub conflicts : List String

pub record Module : Type 0 where
  pub id : String
  pub versions : List ModuleVersion

pub data Code : Type 0 where
  missing_dep cycle conflict : Code

pub record ResolveError : Type 0 where
  pub code : Code
  pub message : String
  pub path : List String

-- `out_of_fuel` is the model's own: see Resolver/Total.
pub data Failure : Type 0 where
  resolve_error : ResolveError → Failure
  out_of_fuel : Failure

pub record ResolutionPlan : Type 0 where
  pub order : List String
  pub picks : Dict String String
  pub added_transitively : List String

pub data Colour : Type 0 where
  white grey black : Colour

-- the plan under construction, and the colours
pub record State : Type 0 where
  pub colours : Dict String Colour
  pub plan : ResolutionPlan

-- `LatestVersion`
unfoldable pub latest_version : Module → Option ModuleVersion
latest_version m = elim m.versions [ [] ↦ none | v ∷ _ ↦ some v ]

index_from : Dict String Module → List Module → Dict String Module
index_from by_id [] = by_id
index_from by_id (m ∷ ms) = index_from (insert m.id m by_id) ms

-- `byID`: of two modules with one id the later stands.
unfoldable pub index : List Module → Dict String Module
unfolding index_from
index catalog = index_from [] catalog

abbrev pub or_white : Option Colour → Colour
or_white none = white
or_white (some c) = c

-- `colour[id]`
abbrev pub colour_of : String → State → Colour
colour_of id s = or_white (lookup id s.colours)

abbrev pub paint : String → Colour → State → State
paint id c s = record s { colours = insert id c s.colours }

chain_from : String → List String → String
chain_from out [] = out
chain_from out (id ∷ ids) = chain_from (String.◌++◌ out (String.◌++◌ " → " id)) ids

unfoldable pub chain : List String → String
unfolding chain_from
chain [] = ""
chain (id ∷ ids) = chain_from id ids

abbrev pub cycle_at : List String → String → Failure
cycle_at stack id =
    let ring = stack ++ id ∷ [] in
    resolve_error (record {
      code = cycle;
      message = String.◌++◌ "module dependency cycle: " (chain ring);
      path = ring;
    })

abbrev pub missing_at : String → List String → String → Failure
missing_at text stack id =
    resolve_error
      (record { code = missing_dep; message = String.◌++◌ text id; path = stack ++ id ∷ [] })

abbrev pub conflict_of : String → String → Failure
conflict_of id foe = resolve_error (record {
  code = conflict;
  message = String.◌++◌ "modules conflict: " (String.◌++◌ id (String.◌++◌ " ↔ " foe));
  path = id ∷ foe ∷ [];
})

-- what `visit` does once the dependencies are done
abbrev pub emit : List String → String → ModuleVersion → State → State
emit selected id ver s = record {
  colours = insert id black s.colours;
  plan = record {
    order = s.plan.order ++ id ∷ [];
    picks = insert id ver.version s.plan.picks;
    added_transitively =
        if contains selected id
        then s.plan.added_transitively
        else s.plan.added_transitively ++ id ∷ [];
  };
}

-- a loop that stops at the first error
unfoldable pub each :
    (String → State → Result Failure State) → List String → State → Result Failure State
each visit [] s = ok s
each visit (id ∷ ids) s = and_then (visit id s) (each visit ids)

module _ (by_id : Dict String Module) (selected : List String) where
  unfoldable pub visit : ℕ → List String → String → State → Result Failure State
  visit zero stack id s = err out_of_fuel
  visit (suc fuel) stack id s = elim (colour_of id s) [
    | grey ↦ err (cycle_at stack id)
    | black ↦ ok s
    | white ↦ elim (lookup id by_id) [
      | none ↦ err (missing_at "module not in catalog: " stack id)
      | some m ↦ elim (latest_version m) [
        | none ↦ err (missing_at "module has no published version: " stack id)
        | some ver ↦
            and_then (each (visit fuel (stack ++ id ∷ [])) ver.dependencies (paint id grey s))
              (λ s'. ok (emit selected id ver s'))
      ]
    ]
  ]

-- the two loops of the conflict pass
first_foe : List String → List String → Option String
first_foe order [] = none
first_foe order (foe ∷ foes) = if contains order foe then some foe else first_foe order foes

abbrev pub conflicts_in : Dict String Module → String → List String
conflicts_in by_id id = elim (lookup id by_id) [
  | none ↦ []
  | some m ↦ elim (latest_version m) [ none ↦ [] | some ver ↦ ver.conflicts ]
]

conflict_pass : Dict String Module → List String → List String → Result Failure (Unit {0})
conflict_pass by_id order [] = ok tt
conflict_pass by_id order (id ∷ ids) = elim (first_foe order (conflicts_in by_id id)) [
  | none ↦ conflict_pass by_id order ids
  | some foe ↦ err (conflict_of id foe)
]

abbrev pub empty_state : State
empty_state = record {
  colours = [];
  plan = record { order = []; picks = []; added_transitively = [] };
}

-- One level of fuel for each module of the catalog, and one for an id that is not in it.
unfoldable pub resolve : List String → List Module → Result Failure ResolutionPlan
unfolding visit each conflict_pass first_foe index latest_version
resolve selected catalog =
    let by_id = index catalog in
    and_then (each (visit by_id selected (length catalog + 1) []) selected empty_state)
      (λ s. and_then (conflict_pass by_id s.plan.order s.plan.order) (λ _. ok s.plan))
