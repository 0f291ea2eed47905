-- ===== src/Resolver/Tests.antt =====
-- Small catalogs, resolved.
use pluris.Prelude.{String, List, [], ◌∷◌, ok, err, ◌≡◌, ◌≢◌, refl}
use pluris.Resolver.{Module, ResolutionPlan, out_of_fuel, index, resolve, cycle_at}
use pluris.Resolver.Plans.{IsPlan, resolve-IsPlan}
use pluris.Resolver.Total.{resolve_total}

abbrev plain : String → List String → Module
plain id deps = record {
  id = id;
  versions = record { version = "1.0.0"; dependencies = deps; conflicts = [] } ∷ [];
}

abbrev diamond : List Module
diamond =
    plain "top" ("left" ∷ "right" ∷ [])
    ∷ plain "left" ("base" ∷ [])
    ∷ plain "right" ("base" ∷ [])
    ∷ plain "base" []
    ∷ []

abbrev diamond_plan : ResolutionPlan
diamond_plan = record {
  order = "base" ∷ "left" ∷ "right" ∷ "top" ∷ [];
  picks = ("base", "1.0.0") ∷ ("left", "1.0.0") ∷ ("right", "1.0.0") ∷ ("top", "1.0.0") ∷ [];
  added_transitively = "base" ∷ "left" ∷ "right" ∷ [];
}

diamond_resolves : resolve ("top" ∷ []) diamond ≡ ok diamond_plan
unfolding resolve
diamond_resolves = refl

ring_fails :
    resolve ("a" ∷ []) (plain "a" ("b" ∷ []) ∷ plain "b" ("c" ∷ []) ∷ plain "c" ("b" ∷ []) ∷ [])
    ≡ err (cycle_at ("a" ∷ "b" ∷ "c" ∷ []) "b")
unfolding resolve
ring_fails = refl

resolve-IsPlan_example : IsPlan ("top" ∷ []) (index diamond) diamond_plan
resolve-IsPlan_example = resolve-IsPlan ("top" ∷ []) diamond diamond_plan diamond_resolves

resolve_total_example : resolve ("top" ∷ []) diamond ≢ err out_of_fuel
resolve_total_example = resolve_total ("top" ∷ []) diamond
