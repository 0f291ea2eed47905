-- ===== src/Resolver/Order.antt =====
-- The order of a plan, and the colours of the search.
use pluris.Prelude.{
  ℕ, zero, suc, String, some, List, [], ◌∷◌, ◌++◌, if◌then◌else◌, ◌==◌, string_eq, Dict, lookup,
  lookup-insert, In, In-append_left, In-append_right, In-append_cases, Result, ok, and_then-eq-ok,
  ◌≡◌, inl, inr, refl, sym, ◌∙◌, arith, eq_iff, Bool-cases,
}
use pluris.Resolver.Steps.{visit-zero, visit_cases}
use pluris.Resolver.{
  Module, ModuleVersion, Failure, Colour, white, grey, black, State, latest_version, colour_of,
  paint, emit, each, visit, empty_state,
}

pub data Built (by_id : Dict String Module) : List String → Type 0 where
  none_yet : {order : List String} → order ≡ [] → Built by_id order
  next :
      {order : List String} (before : List String) (id : String) (m : Module) (ver : ModuleVersion)
      → order ≡ before ++ id ∷ []
      → lookup id by_id ≡ some m
      → latest_version m ≡ some ver
      → ((dep : String) → In dep ver.dependencies → In dep before)
      → ¬ In id before
      → Built by_id before
      → Built by_id order

pub record Inv (by_id : Dict String Module) (s : State) : Type 0 where
  pub built : Built by_id s.plan.order
  pub black_in : (x : String) → colour_of x s ≡ black → In x s.plan.order
  pub in_black : (x : String) → In x s.plan.order → colour_of x s ≡ black

pub record Grows (s t : State) : Type 0 where
  pub grows : (x : String) → In x s.plan.order → In x t.plan.order
  pub greys : (x : String) → colour_of x s ≡ grey → colour_of x t ≡ grey

Grows-refl : (s : State) → Grows s s
Grows-refl s = record { grows = λ x h. h; greys = λ x h. h }

Grows-trans : {s t u : State} → Grows s t → Grows t u → Grows s u
Grows-trans a b = record {
  grows = λ x h. b.grows x (a.grows x h);
  greys = λ x h. b.greys x (a.greys x h);
}

colour_of-paint :
    (x id : String) (c : Colour) (s : State)
    → colour_of x (paint id c s) ≡ (if id == x then c else colour_of x s)
colour_of-paint x id c s = ground (arith, lookup-insert id x c s.colours)

colour_of-emit :
    (selected : List String) (x id : String) (ver : ModuleVersion) (s : State)
    → colour_of x (emit selected id ver s) ≡ (if id == x then black else colour_of x s)
colour_of-emit selected x id ver s = ground (arith, lookup-insert id x black s.colours)

abbrev Good : Dict String Module → State → State → String → Type 0
Good by_id s t id = Inv by_id t × Grows s t × In id t.plan.order

module _ (by_id : Dict String Module) (selected : List String) where
  paint-Inv :
      (id : String) (s : State) → colour_of id s ≡ white → Inv by_id s → Inv by_id (paint id grey s)
  paint-Inv id s unseen inv = record {
    built = inv.built;
    black_in = λ x h. ground (arith, colour_of-paint x id grey s, inv.black_in x);
    in_black = λ x h. ground (arith, colour_of-paint x id grey s, inv.in_black x h, eq_iff id x);
  }

  paint-Grows : (id : String) (s : State) → colour_of id s ≡ white → Grows s (paint id grey s)
  paint-Grows id s unseen = record {
    grows = λ x h. h;
    greys = λ x h. ground (arith, colour_of-paint x id grey s);
  }

  emit-Inv :
      (id : String) (m : Module) (ver : ModuleVersion) (s : State)
      → lookup id by_id ≡ some m
      → latest_version m ≡ some ver
      → colour_of id s ≡ grey
      → ((dep : String) → In dep ver.dependencies → In dep s.plan.order)
      → Inv by_id s
      → Inv by_id (emit selected id ver s)
  emit-Inv id m ver s found published open_here deps inv = record {
    built =
        Built.next s.plan.order id m ver refl found published deps
          (λ h. ground (arith, inv.in_black id h)) inv.built;
    black_in = λ x h. elim (Bool-cases (id == x)) [
      | inl same ↦ In-append_right x s.plan.order (id ∷ []) (inl (sym ((eq_iff id x).0 same)))
      | inr other ↦
          In-append_left x s.plan.order (id ∷ [])
            (inv.black_in x (ground (arith, colour_of-emit selected x id ver s)))
    ];
    in_black = λ x h. elim (In-append_cases x s.plan.order (id ∷ []) h) [
      | inl before ↦ ground (arith, colour_of-emit selected x id ver s, inv.in_black x before)
      | inr now ↦ ground (arith, colour_of-emit selected x id ver s, eq_iff id x)
    ];
  }

  emit-Grows :
      (id : String) (ver : ModuleVersion) (s t : State)
      → colour_of id s ≡ white
      → Grows s t
      → Grows s (emit selected id ver t)
  emit-Grows id ver s t unseen g = record {
    grows = λ x h. In-append_left x t.plan.order (id ∷ []) (g.grows x h);
    greys = λ x h. ground (arith, colour_of-emit selected x id ver t, g.greys x h, eq_iff id x);
  }

  -- A visit that succeeds found a finished module, or finished a new one.
  pub data Visited (fuel : ℕ) (stack : List String) (id : String) (s t : State) : Type 0 where
    finished : colour_of id s ≡ black → t ≡ s → Visited fuel stack id s t
    added :
        (m : Module) (ver : ModuleVersion) (u : State)
        → colour_of id s ≡ white
        → lookup id by_id ≡ some m
        → latest_version m ≡ some ver
        → each (visit by_id selected fuel (stack ++ id ∷ [])) ver.dependencies (paint id grey s)
          ≡ ok u
        → t ≡ emit selected id ver u
        → Visited fuel stack id s t

  pub visit-Visited :
      (fuel : ℕ) (stack : List String) (id : String) (s t : State)
      → visit by_id selected (suc fuel) stack id s ≡ ok t
      → Visited fuel stack id s t
  visit-Visited fuel stack id s t e = elim (visit_cases by_id selected fuel stack id s) [
    | inl (ring, fails) ↦ cc
    | inr (inl (done, stays)) ↦ Visited.finished done (cc)
    | inr (inr (inl (new, gone, fails))) ↦ cc
    | inr (inr (inr (inl (m, new, found, gone, fails)))) ↦ cc
    | inr (inr (inr (inr (m, ver, new, found, published, runs)))) ↦
        let (u, deps, emitted) =
          and_then-eq-ok
            (each (visit by_id selected fuel (stack ++ id ∷ [])) ver.dependencies (paint id grey s))
            _ t (sym runs ∙ e) in
        Visited.added m ver u new found published deps (cc)
  ]

  -- the contract of a visit, as its caller sees it
  abbrev Contract : (String → State → Result Failure State) → Type 0
  Contract f = (id : String) (s t : State) → f id s ≡ ok t → Inv by_id s → Good by_id s t id

  each-Good :
      (f : String → State → Result Failure State)
      → Contract f
      → (ids : List String) (s t : State) → each f ids s ≡ ok t
      → Inv by_id s
      → Inv by_id t × Grows s t × ((dep : String) → In dep ids → In dep t.plan.order)
  unfolding each
  each-Good f good [] s t e inv =
      let same : t ≡ s = cc in (rw same inv, rw same (Grows-refl s), λ dep h. absurd h)
  each-Good f good (id ∷ ids) s t e inv =
      let (u, first, rest) = and_then-eq-ok (f id s) _ t e in
      let (inv_u, grows_u, in_u) = good id s u first inv in
      let (inv_t, grows_t, in_t) = each-Good f good ids u t rest inv_u in
      (
        inv_t,
        Grows-trans grows_u grows_t,
        λ dep h. elim h [ inl now ↦ grows_t.grows dep (rw now in_u) | inr later ↦ in_t dep later ],
      )

  visit-Good : (fuel : ℕ) (stack : List String) → Contract (visit by_id selected fuel stack)
  visit-Good zero stack id s t e inv = cc (visit-zero by_id selected stack id s)
  visit-Good (suc fuel) stack id s t e inv = elim (visit-Visited fuel stack id s t e) [
    | Visited.finished done same ↦ rw same (inv, Grows-refl s, inv.black_in id done)
    | Visited.added m ver u new found published deps same ↦
        let (inv_u, grows_u, in_u) =
          each-Good (visit by_id selected fuel (stack ++ id ∷ []))
            (visit-Good fuel (stack ++ id ∷ [])) ver.dependencies (paint id grey s) u deps
            (paint-Inv id s new inv) in
        let open_here : colour_of id u ≡ grey =
          grows_u.greys id (ground (arith, colour_of-paint id id grey s, eq_iff id id)) in
        rw same (
          emit-Inv id m ver u found published open_here in_u inv_u,
          emit-Grows id ver s u new (Grows-trans (paint-Grows id s new) grows_u),
          In-append_right id u.plan.order (id ∷ []) (inl refl),
        )
  ]

  empty_state-Inv : Inv by_id empty_state
  empty_state-Inv = record {
    built = Built.none_yet refl;
    black_in = λ x h. cc;
    in_black = λ x h. absurd h;
  }

  -- The state that the loop over the selection ends in.
  pub resolved-Good :
      (fuel : ℕ) (t : State)
      → each (visit by_id selected fuel []) selected empty_state ≡ ok t
      → Inv by_id t × Grows empty_state t × ((id : String) → In id selected → In id t.plan.order)
  resolved-Good fuel t e =
      each-Good (visit by_id selected fuel []) (visit-Good fuel []) selected empty_state t e
        empty_state-Inv
