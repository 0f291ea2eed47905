-- ===== src/Resolver/Closure.antt =====
-- The modules of a plan against those that the selection needs.
use pluris.Prelude.{
  ℕ, zero, suc, String, false, some, List, [], ◌∷◌, ◌++◌, contains, string_eq, Dict, lookup,
  lookup-insert, In, In-append_left, In-append_right, In-append_cases, Result, ok, and_then-eq-ok,
  ◌≡◌, ◌⊎◌, ◌↔◌, inl, inr, refl, sym, eq_iff, Bool-cases, ◌==◌,
}
use pluris.Resolver.{
  Module, ModuleVersion, Failure, State, latest_version, paint, grey, emit, each, visit,
  empty_state,
}
use pluris.Resolver.Steps.{visit-zero}
use pluris.Resolver.Order.{Visited, visit-Visited}

-- Module `x` is `y`, or needs it through its dependencies.
pub data Needs (by_id : Dict String Module) : String → String → Type 0 where
  itself : {x y : String} → x ≡ y → Needs by_id x y
  through :
      {x y : String} (m : Module) (ver : ModuleVersion) (dep : String)
      → lookup x by_id ≡ some m
      → latest_version m ≡ some ver
      → In dep ver.dependencies
      → Needs by_id dep y
      → Needs by_id x y

-- `added_transitively` lists the modules of the order that are not selected.
pub record IsTracked (selected : List String) (s : State) : Type 0 where
  pub tracked :
      (x : String)
      → In x s.plan.added_transitively ↔ (In x s.plan.order × (contains selected x ≡ false))

module _ (by_id : Dict String Module) (selected : List String) where
  abbrev Frugal : (String → State → Result Failure State) → Type 0
  Frugal f =
      (id : String) (s t : State)
      → f id s ≡ ok t
      → (x : String) → In x t.plan.order
      → In x s.plan.order ⊎ Needs by_id id x

  each-Frugal :
      (f : String → State → Result Failure State)
      → Frugal f
      → (ids : List String) (s t : State) → each f ids s ≡ ok t
      → (x : String) → In x t.plan.order
      → In x s.plan.order ⊎ ((id : String) × In id ids × Needs by_id id x)
  unfolding each
  each-Frugal f frugal [] s t e x h = let same : t ≡ s = cc in inl (rw same at h)
  each-Frugal f frugal (id ∷ ids) s t e x h =
      let (u, first, rest) = and_then-eq-ok (f id s) _ t e in
      elim (each-Frugal f frugal ids u t rest x h) [
        | inr (root, listed, needed) ↦ inr (root, inr listed, needed)
        | inl before ↦ elim (frugal id s u first x before) [
          | inl old ↦ inl old
          | inr needed ↦ inr (id, inl refl, needed)
        ]
      ]

  visit-Frugal : (fuel : ℕ) (stack : List String) → Frugal (visit by_id selected fuel stack)
  visit-Frugal zero stack id s t e x h = cc (visit-zero by_id selected stack id s)
  visit-Frugal (suc fuel) stack id s t e x h =
      elim (visit-Visited by_id selected fuel stack id s t e) [
        | Visited.finished done same ↦ inl (rw same at h)
        | Visited.added m ver u new found published deps same ↦
            let h' : In x (u.plan.order ++ id ∷ []) = rw same at h in
            elim (In-append_cases x u.plan.order (id ∷ []) h') [
              | inr (inl now) ↦ inr (Needs.itself (sym now))
              | inr (inr nothing) ↦ absurd nothing
              | inl before ↦
                  elim (each-Frugal (visit by_id selected fuel (stack ++ id ∷ []))
                    (visit-Frugal fuel (stack ++ id ∷ [])) ver.dependencies (paint id grey s) u deps
                    x before) [
                      | inl old ↦ inl old
                      | inr (dep, listed, needed) ↦
                          inr (Needs.through m ver dep found published listed needed)
                    ]
            ]
      ]

  -- A property that colouring and emitting keep holds throughout a visit.
  module _ (P : State → Type 0) (painted : (id : String) (s : State) → P s → P (paint id grey s))
      (emitted : (id : String) (m : Module) (ver : ModuleVersion) (s : State)
        → lookup id by_id ≡ some m
        → latest_version m ≡ some ver
        → P s
        → P (emit selected id ver s)) where
    abbrev Keeps : (String → State → Result Failure State) → Type 0
    Keeps f = (id : String) (s t : State) → f id s ≡ ok t → P s → P t

    pub each-Keeps :
        (f : String → State → Result Failure State)
        → Keeps f
        → (ids : List String) (s t : State) → each f ids s ≡ ok t
        → P s
        → P t
    unfolding each
    each-Keeps f keeps [] s t e h = let same : t ≡ s = cc in rw same h
    each-Keeps f keeps (id ∷ ids) s t e h =
        let (u, first, rest) = and_then-eq-ok (f id s) _ t e in
        each-Keeps f keeps ids u t rest (keeps id s u first h)

    pub visit-Keeps : (fuel : ℕ) (stack : List String) → Keeps (visit by_id selected fuel stack)
    visit-Keeps zero stack id s t e h = cc (visit-zero by_id selected stack id s)
    visit-Keeps (suc fuel) stack id s t e h =
        elim (visit-Visited by_id selected fuel stack id s t e) [
          | Visited.finished done same ↦ rw same h
          | Visited.added m ver u new found published deps same ↦ rw same (
              emitted id m ver u found published (
                each-Keeps (visit by_id selected fuel (stack ++ id ∷ []))
                  (visit-Keeps fuel (stack ++ id ∷ [])) ver.dependencies (paint id grey s) u deps
                  (painted id s h)))
        ]

  emit-IsTracked :
      (id : String) (m : Module) (ver : ModuleVersion) (s : State)
      → lookup id by_id ≡ some m
      → latest_version m ≡ some ver
      → IsTracked selected s
      → IsTracked selected (emit selected id ver s)
  emit-IsTracked id m ver s found published t = elim (Bool-cases (contains selected id)) [
    | inl chosen ↦ record {
      tracked = λ x. rw chosen (
        λ h.
            let (listed, new) = (t.tracked x).0 h in
            (In-append_left x s.plan.order (id ∷ []) listed, new),
        λ (h, new). elim (In-append_cases x s.plan.order (id ∷ []) h) [
          | inl before ↦ (t.tracked x).1 (before, new)
          | inr (inl now) ↦ cc
          | inr (inr nothing) ↦ absurd nothing
        ],
      );
    }
    | inr needed ↦ record {
      tracked = λ x. rw needed (
        λ h. elim (In-append_cases x s.plan.added_transitively (id ∷ []) h) [
          | inl before ↦
              let (listed, new) = (t.tracked x).0 before in
              (In-append_left x s.plan.order (id ∷ []) listed, new)
          | inr (inl now) ↦ (In-append_right x s.plan.order (id ∷ []) (inl now), rw now needed)
          | inr (inr nothing) ↦ absurd nothing
        ],
        λ (h, new). elim (In-append_cases x s.plan.order (id ∷ []) h) [
          | inl before ↦
              In-append_left x s.plan.added_transitively (id ∷ []) ((t.tracked x).1 (before, new))
          | inr (inl now) ↦ In-append_right x s.plan.added_transitively (id ∷ []) (inl now)
          | inr (inr nothing) ↦ absurd nothing
        ],
      );
    }
  ]

  -- The version picked for a module of the order is the first of its versions.
  pub record IsPicked (s : State) : Type 0 where
    pub picked :
        (x : String)
        → In x s.plan.order
        → (m : Module) × (ver : ModuleVersion) × (lookup x by_id ≡ some m)
          × (latest_version m ≡ some ver)
          × (lookup x s.plan.picks ≡ some ver.version)

  emit-IsPicked :
      (id : String) (m : Module) (ver : ModuleVersion) (s : State)
      → lookup id by_id ≡ some m
      → latest_version m ≡ some ver
      → IsPicked s
      → IsPicked (emit selected id ver s)
  emit-IsPicked id m ver s found published k = record {
    picked = λ x h. elim (Bool-cases (id == x)) [
      | inl same ↦
          let e : id ≡ x = (eq_iff id x).0 same in
          (
            m,
            ver,
            rw (← e) found,
            published,
            rw (lookup-insert id x ver.version s.plan.picks) (rw same),
          )
      | inr other ↦ elim (In-append_cases x s.plan.order (id ∷ []) h) [
        | inl before ↦
            let (m', ver', found', published', has) = k.picked x before in
            (
              m',
              ver',
              found',
              published',
              rw (lookup-insert id x ver.version s.plan.picks) (rw other has),
            )
        | inr (inl now) ↦ cc ((eq_iff id x).1 (sym now))
        | inr (inr nothing) ↦ absurd nothing
      ]
    ];
  }

  -- What the loop over the selection ends in.
  module _ (fuel : ℕ) (t : State)
      (e : each (visit by_id selected fuel []) selected empty_state ≡ ok t) where
    pub resolved-Needs :
        (x : String) → In x t.plan.order → (root : String) × In root selected × Needs by_id root x
    resolved-Needs x h =
        elim (each-Frugal (visit by_id selected fuel []) (visit-Frugal fuel []) selected empty_state
          t e x h) [ inl nothing ↦ absurd nothing | inr found ↦ found ]

    pub resolved-IsTracked : IsTracked selected t
    resolved-IsTracked =
        each-Keeps (IsTracked selected) (λ id s k. record { tracked = k.tracked }) emit-IsTracked
          (visit by_id selected fuel [])
          (visit-Keeps (IsTracked selected) (λ id s k. record { tracked = k.tracked })
            emit-IsTracked fuel [])
          selected empty_state t e (record { tracked = λ x. (λ h. absurd h, λ h. h.0) })

    pub resolved-IsPicked : IsPicked t
    resolved-IsPicked =
        each-Keeps IsPicked (λ id s k. record { picked = k.picked }) emit-IsPicked
          (visit by_id selected fuel [])
          (visit-Keeps IsPicked (λ id s k. record { picked = k.picked }) emit-IsPicked fuel [])
          selected empty_state t e (record { picked = λ x h. absurd h })
