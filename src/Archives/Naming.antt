-- ===== src/Archives/Naming.antt =====
-- The URN of a copy: the search for a candidate that no module has.
use pluris.Prelude.{
  ℕ, zero, suc, ◌≤◌, ◌<◌, String, Bool, true, not, Option, none, some, List, [], ◌∷◌, length, any,
  In, ◌==◌, string_eq, eq_iff, Result, ok, continue, ◌≡◌, ◌≢◌, ◌⊎◌, refl, ap, inl, inr, arith,
  Bool-cases, Option-cases,
}
use text.Mathlib.TextLemmas.{append_cancel_left}
use pluris.Lifecycle.{Module, Tables, Store, Error, Platform, next_fails, later_faults}
use pluris.Lifecycle.Queries.{first, delete_where}
use pluris.Lifecycle.Rows.{first-In, keep_where-In}
use pluris.Archives.Import.{Reader, candidate, free_urn, named, copy_urn}

module _ (u : String) where
  length-delete_where_le : (xs : List String) → length (delete_where (λ v. v == u) xs) ≤ length xs
  length-delete_where_le [] = omega arith
  length-delete_where_le (x ∷ xs) = ground (arith, length-delete_where_le xs)

  length-delete_where_lt :
      (xs : List String) → In u xs → length (delete_where (λ v. v == u) xs) < length xs
  length-delete_where_lt [] listed = absurd listed
  length-delete_where_lt (x ∷ xs) (inl same) = ground (arith, eq_iff x u, length-delete_where_le xs)
  length-delete_where_lt (x ∷ xs) (inr later) =
      ground (arith, length-delete_where_le xs, length-delete_where_lt xs later)

In-delete_where :
    (u w : String) (xs : List String) → In w xs → w ≢ u → In w (delete_where (λ v. v == u) xs)
In-delete_where u w xs listed other =
    keep_where-In (λ v. not (v == u)) w xs listed (ground (arith, eq_iff w u))

urns : List Module → List String
urns [] = []
urns (r ∷ rs) = r.module_urn ∷ urns rs

In-urns : (r : Module) (rs : List Module) → In r rs → In r.module_urn (urns rs)
unfolding urns
In-urns r [] listed = absurd listed
In-urns r (x ∷ rs) (inl same) = inl (ap (λ (m : Module). m.module_urn) same)
In-urns r (x ∷ rs) (inr later) = inr (In-urns r rs later)

length-urns : (rs : List Module) → length (urns rs) ≡ length rs
unfolding urns
length-urns [] = refl
length-urns (r ∷ rs) = ap suc (length-urns rs)

abbrev pub has_fault : List Bool → Bool
has_fault = any (λ b. b)

fault_here : (faults : List Bool) → next_fails faults ≡ true → has_fault faults ≡ true
fault_here [] e = e
fault_here (b ∷ bs) e = ground arith

fault_later :
    (faults : List Bool) → has_fault (later_faults faults) ≡ true → has_fault faults ≡ true
fault_later [] e = e
fault_later (b ∷ bs) e = ground arith

module _ (platform : Platform) (reader : Reader) (urn : String) where
  abbrev name : ℕ → String
  name = candidate platform reader urn

  abbrev row_of : String → Tables → Option Module
  row_of u t = first (λ (r : Module). r.module_urn == u) t.modules

  -- a URN of no module, or a query failed
  abbrev pub IsFree : Store → String → Type 0
  IsFree s u = (row_of u s.tables ≡ none) ⊎ (has_fault s.faults ≡ true)

  abbrev pub Finds : (Store → Result Error (Option String) × Store) → Store → Type 0
  Finds m s = (n : ℕ) × ((m s).0 ≡ ok (some (name n))) × IsFree s (name n)

  -- The modules whose URN is a candidate from `n` on are among `left`.
  abbrev Covers : ℕ → Tables → List String → Type 0
  Covers n t left =
      (m : ℕ) (r : Module) → n ≤ m → In r t.modules → r.module_urn ≡ name m → In (name m) left

  module _ (distinct : (m n : ℕ) → reader.itoa m ≡ reader.itoa n → m ≡ n) where
    name_distinct : (m n : ℕ) → name m ≡ name n → m ≡ n
    name_distinct m n e = distinct m n (append_cancel_left _ _ _ e)

    smaller :
        (n : ℕ) (t : Tables) (left : List String)
        → Covers n t left
        → Covers (suc n) t (delete_where (λ v. v == name n) left)
    smaller n t left covers m r above listed same =
        In-delete_where (name n) (name m) left (covers m r (omega arith) listed same)
          (λ e. omega (arith, name_distinct m n e))

    free_urn-Finds :
        (fuel n : ℕ) (left : List String) (s : Store)
        → length left < fuel
        → Covers n s.tables left
        → Finds (free_urn platform reader fuel urn n) s
    unfolding free_urn
    free_urn-Finds zero n left s few covers = absurd (omega arith)
    free_urn-Finds (suc fuel) n left s few covers = elim (Bool-cases (next_fails s.faults)) [
      | inl broken ↦ rw broken (n, refl, inr (fault_here s.faults broken))
      | inr works ↦ rw works (elim (Option-cases (row_of (name n) s.tables)) [
        | inl free ↦ rw free (n, refl, inl free)
        | inr (r, e) ↦ rw e (
            let (listed, called) =
              first-In (λ (r : Module). r.module_urn == name n) s.tables.modules r e in
            let same = (eq_iff r.module_urn (name n)).0 called in
            let fewer =
              length-delete_where_lt (name n) left (covers n r (omega arith) listed same) in
            let (m, found_it, free) =
              free_urn-Finds fuel (suc n) (delete_where (λ v. v == name n) left)
                (record { tables = s.tables; faults = later_faults s.faults })
                (omega (arith, fewer)) (smaller n s.tables left covers) in
            (
              m,
              found_it,
              elim free [
                | inl none_has_it ↦ inl none_has_it
                | inr fault ↦ inr (fault_later s.faults fault)
              ],
            ))
      ])
    ]

    -- The search for the URN of a copy ends: one more try than there are modules finds a candidate,
    -- whichever queries fail, and unless one failed no module has that URN. strconv.Itoa is assumed to
    -- give different numbers different texts.
    pub copy_urn-Finds :
        (s : Store)
        → (n : ℕ) × ((copy_urn platform reader urn s).0 ≡ ok (name n)) × IsFree s (name n)
    unfolding copy_urn
    copy_urn-Finds s =
        let fuel = suc (length s.tables.modules) in
        let (n, found_it, free) =
          free_urn-Finds fuel 1 (urns s.tables.modules) s
            (omega (arith, length-urns s.tables.modules))
            (λ m r above listed same. rw (← same) (In-urns r s.tables.modules listed)) in
        let answered : (copy_urn platform reader urn s).0 ≡ ok (name n) =
          ap
            (λ (r : Result Error (Option String)).
              (continue r (named platform reader) (free_urn platform reader fuel urn 1 s).1).0)
            found_it in
        (n, answered, free)
