-- ===== src/Grants/Tests.antt =====
-- Two roles' grants, and the theorems on them at concrete maps.
use pluris.Prelude.{
  true, false, none, some, List, [], ◌∷◌, lookup, string_eq, any, In, ◌==◌, HasDistinctKeys, All,
  refl, ◌≡◌, arith, if◌then◌else◌, eq_iff,
}
use pluris.Grants.{Grants, Json, rank, scope_of, can, can_scoped, union, parse, bypass}
use pluris.Grants.Checks.{can-can_scoped, can-parse_invalid, lookup-parse}
use pluris.Grants.Unions.{can-union, can_scoped-union, rank-union, lookup-union, top}

abbrev self_service : Grants
self_service = ("identity.view", "own") ∷ ("group.view", "all") ∷ []

abbrev auditor : Grants
auditor = ("identity.view", "all") ∷ ("asset.create", "yes") ∷ []

abbrev both_roles : List Grants
both_roles = self_service ∷ auditor ∷ []

-- two texts, read and written
abbrev table : Json
table = record {
  marshal = λ g. elim (lookup "group.view" g) [ none ↦ "auditor" | some v ↦ "self-service" ];
  unmarshal = λ s.
      if s == "auditor"
      then some auditor
      else if s == "self-service"
      then some self_service
      else none;
}

union_test :
    union both_roles
    ≡ ("identity.view", "all") ∷ ("group.view", "all") ∷ ("asset.create", "yes") ∷ []
unfolding union rank
union_test = refl

both_roles-distinct : All HasDistinctKeys both_roles
both_roles-distinct = ((refl, (refl, tt)), ((refl, (refl, tt)), tt))

can-union_example :
    can (union both_roles) "asset.create" ≡ any (λ g. can g "asset.create") both_roles
can-union_example = can-union both_roles "asset.create" both_roles-distinct

can_scoped-union_example :
    can_scoped (union both_roles) "identity.view" 4 7
    ≡ any (λ g. can_scoped g "identity.view" 4 7) both_roles
unfolding scope_of
can_scoped-union_example =
    can_scoped-union both_roles "identity.view" 4 7 both_roles-distinct
      (λ e. ground (arith, eq_iff "own" "yes"), (λ e. ground (arith, eq_iff "all" "yes"), tt))

rank-union_example :
    rank (scope_of (union both_roles) "identity.view") ≡ top "identity.view" both_roles
rank-union_example = rank-union both_roles "identity.view" both_roles-distinct

union_value_held : (g : Grants) × In g both_roles × (lookup "identity.view" g ≡ some "all")
unfolding union rank
union_value_held = lookup-union both_roles "identity.view" "all" both_roles-distinct refl

scoped_access : can self_service "identity.view" ≡ true
unfolding can_scoped bypass
scoped_access = can-can_scoped self_service "identity.view" 7 7 refl

invalid_text_denies : can (parse table "{broken") "identity.view" ≡ false
invalid_text_denies = can-parse_invalid table "{broken" "identity.view" refl

stored_auditor :
    lookup "identity.view" (parse table (table.marshal auditor)) ≡ lookup "identity.view" auditor
stored_auditor =
    lookup-parse table auditor "identity.view" (auditor, (refl, (refl, tt)), refl, λ key. refl)
