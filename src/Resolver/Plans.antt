-- ===== src/Resolver/Plans.antt =====
-- What a plan that `resolve` returns promises, all of it together.
use pluris.Prelude.{
  ◌+◌, String, false, none, some, List, [], ◌∷◌, contains, In→contains, In, string_eq, length, Dict,
  lookup, ok, err, and_then-eq-ok, ◌≡◌, ◌↔◌, inl, inr, sym, ◌∙◌, arith, Option-cases,
}
use pluris.Resolver.{
  Module, ModuleVersion, ResolutionPlan, State, latest_version, index, each, visit, empty_state,
  first_foe, conflicts_in, conflict_pass, conflict_of, resolve,
}
use pluris.Resolver.Order.{Built, resolved-Good}
use pluris.Resolver.Closure.{Needs, resolved-Needs, resolved-IsTracked, resolved-IsPicked}

first_foe-none :
    (order foes : List String) (foe : String)
    → first_foe order foes ≡ none
    → In foe foes
    → ¬ In foe order
unfolding first_foe
first_foe-none order [] foe e h present = h
first_foe-none order (f ∷ foes) foe e (inl now) present =
    ground (arith, In→contains order foe present)
first_foe-none order (f ∷ foes) foe e (inr later) present =
    first_foe-none order foes foe (ground arith) later present

conflict_pass-peace :
    (by_id : Dict String Module) (order ids : List String) (i : String)
    → first_foe order (conflicts_in by_id i) ≡ none
    → conflict_pass by_id order (i ∷ ids) ≡ conflict_pass by_id order ids
unfolding conflict_pass
conflict_pass-peace by_id order ids i peace = rw (peace, conflict_pass)

conflict_pass-foe :
    (by_id : Dict String Module) (order ids : List String) (i enemy : String)
    → first_foe order (conflicts_in by_id i) ≡ some enemy
    → conflict_pass by_id order (i ∷ ids) ≡ err (conflict_of i enemy)
unfolding conflict_pass
conflict_pass-foe by_id order ids i enemy found = rw (found, conflict_pass)

conflict_pass_sound :
    (by_id : Dict String Module) (order ids : List String) (id foe : String)
    → conflict_pass by_id order ids ≡ ok tt
    → In id ids
    → In foe (conflicts_in by_id id)
    → ¬ In foe order
conflict_pass_sound by_id order [] id foe e h f present = h
conflict_pass_sound by_id order (i ∷ ids) id foe e h f present =
    elim (Option-cases (first_foe order (conflicts_in by_id i))) [
      | inr (enemy, found) ↦ cc (conflict_pass-foe by_id order ids i enemy found)
      | inl peace ↦ elim h [
        | inl now ↦ first_foe-none order (conflicts_in by_id i) foe peace (rw now at f) present
        | inr later ↦
            conflict_pass_sound by_id order ids id foe
              (sym (conflict_pass-peace by_id order ids i peace) ∙ e) later f present
      ]
    ]

pub record IsPlan (selected : List String) (by_id : Dict String Module) (plan : ResolutionPlan)
    : Type 0 where
  -- each module stands once, behind all that it depends on
  pub built : Built by_id plan.order
  -- the selection is in the plan
  pub covers : (id : String) → In id selected → In id plan.order
  -- and nothing that it does not need
  pub needed :
      (x : String) → In x plan.order → (root : String) × In root selected × Needs by_id root x
  -- the modules that were not selected are listed as such
  pub tracked :
      (x : String)
      → In x plan.added_transitively ↔ (In x plan.order × (contains selected x ≡ false))
  -- each is there in the first of its versions
  pub picked :
      (x : String)
      → In x plan.order
      → (m : Module) × (ver : ModuleVersion) × (lookup x by_id ≡ some m)
        × (latest_version m ≡ some ver)
        × (lookup x plan.picks ≡ some ver.version)
  -- no module of the plan conflicts with another
  pub peaceful :
      (id foe : String) → In id plan.order → In foe (conflicts_in by_id id) → ¬ In foe plan.order

resolve_parts :
    (selected : List String) (catalog : List Module) (plan : ResolutionPlan)
    → resolve selected catalog ≡ ok plan
    → (s : State) × (each
          (visit (index catalog) selected (length catalog + 1) [])
          selected
          empty_state
        ≡ ok s)
      × (conflict_pass (index catalog) s.plan.order s.plan.order ≡ ok tt)
      × (plan ≡ s.plan)
unfolding resolve
resolve_parts selected catalog plan e =
    let (s, searched, e1) =
      and_then-eq-ok
        (each (visit (index catalog) selected (length catalog + 1) []) selected empty_state) _ plan
        e in
    let (done, passed, e2) =
      and_then-eq-ok (conflict_pass (index catalog) s.plan.order s.plan.order) _ plan e1 in
    (s, searched, passed, cc)

-- A plan holds the selection and exactly what it needs, each module once and behind its
-- dependencies, in the first of its versions, with no two in conflict, and lists as added what was
-- not selected.
pub resolve-IsPlan :
    (selected : List String) (catalog : List Module) (plan : ResolutionPlan)
    → resolve selected catalog ≡ ok plan
    → IsPlan selected (index catalog) plan
resolve-IsPlan selected catalog plan e =
    let (s, searched, passed, same) = resolve_parts selected catalog plan e in
    let fuel = length catalog + 1 in
    let (inv, grows, covers) = resolved-Good (index catalog) selected fuel s searched in
    rw same (record {
      built = inv.built;
      covers = covers;
      needed = resolved-Needs (index catalog) selected fuel s searched;
      tracked = (resolved-IsTracked (index catalog) selected fuel s searched).tracked;
      picked = (resolved-IsPicked (index catalog) selected fuel s searched).picked;
      peaceful = λ id foe h f.
          conflict_pass_sound (index catalog) s.plan.order s.plan.order id foe passed h f;
    })
