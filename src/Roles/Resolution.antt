-- ===== src/Roles/Resolution.antt =====
-- What `resolve_role_matrix` computes: for each key, the value of the nearest level that stores one.
use pluris.Prelude.{
  ℕ, zero, suc, String, false, Option, none, some, List, [], ◌∷◌, string_eq, lookup, or_else,
  lookup-insert_all, insert_all-HasDistinctKeys, HasDistinctKeys, All, ok, err, and_then,
  and_then-eq-ok, ◌≡◌, inl, inr, refl, sym, ◌∙◌, ap, arith, Option-cases, Result-cases,
}
use pluris.Grants.{Grants, Json, parse}
use pluris.Grants.Checks.{parse-HasDistinctKeys}
use pluris.Roles.Store.{Error, no_rows, Role, Database, find_role, get_role, get_role_of}
use pluris.Roles.{overlay, climb, resolve_role_matrix}
use pluris.Roles.Rows.{get_role-ok, get_role-no_rows}

get_role-works :
    (db : Database) (id : ℕ) (e : Error)
    → db.fails (get_role_of id) ≡ false
    → get_role db id ≡ err e
    → e ≡ no_rows
unfolding get_role
get_role-works db id e works broken = ground arith

-- the value of the first map that has one
abbrev pub nearest : String → List Grants → Option String
nearest key [] = none
nearest key (g ∷ gs) = or_else (lookup key g) (nearest key gs)

pub lookup-overlay :
    (key : String) (gs : List Grants)
    → All HasDistinctKeys gs
    → lookup key (overlay gs) ≡ nearest key gs
unfolding overlay
lookup-overlay key [] h = refl
lookup-overlay key (g ∷ gs) (distinct, h) =
    lookup-insert_all key g (overlay gs) distinct
    ∙ ap (or_else (lookup key g)) (lookup-overlay key gs h)

pub overlay-HasDistinctKeys : (gs : List Grants) → HasDistinctKeys (overlay gs)
unfolding overlay
overlay-HasDistinctKeys [] = tt
overlay-HasDistinctKeys (g ∷ gs) =
    insert_all-HasDistinctKeys g (overlay gs) (overlay-HasDistinctKeys gs)

module _ (json : Json) where
  -- Role `r` has the value `o` for a key, looking at most `n` levels above it.
  pub data Inherits (roles : List Role) (key : String) : ℕ → Role → Option String → Type 0 where
    own :
        {n : ℕ} {r : Role} (v : String)
        → lookup key (parse json r.permissions) ≡ some v
        → Inherits roles key n r (some v)
    top :
        {n : ℕ} {r : Role}
        → lookup key (parse json r.permissions) ≡ none
        → r.parent_role_id ≡ none
        → Inherits roles key n r none
    lost :
        {n : ℕ} {r : Role} (p : ℕ)
        → lookup key (parse json r.permissions) ≡ none
        → r.parent_role_id ≡ some p
        → find_role p roles ≡ none
        → Inherits roles key n r none
    capped :
        {n : ℕ} {r : Role}
        → n ≡ 0
        → lookup key (parse json r.permissions) ≡ none
        → Inherits roles key n r none
    up :
        {n : ℕ} {r : Role} {o : Option String} (p : ℕ) (q : Role)
        → lookup key (parse json r.permissions) ≡ none
        → r.parent_role_id ≡ some p
        → find_role p roles ≡ some q
        → Inherits roles key n q o
        → Inherits roles key (suc n) r o

  -- the maps of a role and of the levels that `climb` collects above it
  abbrev pub levels : Role → List Grants → List Grants
  levels r rest = parse json r.permissions ∷ rest

  pub climb-up :
      (n : ℕ) (db : Database) (r q : Role) (p : ℕ)
      → r.parent_role_id ≡ some p
      → get_role db p ≡ ok q
      → climb json (suc n) db r ≡ and_then (climb json n db q) (λ rest. ok (levels q rest))
  unfolding climb
  climb-up n db r q p has found = rw (has, climb) (rw (found, climb))

  pub climb-down :
      (n : ℕ) (db : Database) (r q : Role) (p : ℕ) (rest : List Grants)
      → r.parent_role_id ≡ some p
      → get_role db p ≡ ok q
      → climb json (suc n) db r ≡ ok rest
      → (more : List Grants) × (climb json n db q ≡ ok more) × (rest ≡ levels q more)
  climb-down n db r q p rest has found e =
      let (more, below, same) = and_then-eq-ok _ _ rest (sym (climb-up n db r q p has found) ∙ e) in
      (more, below, cc)

  settle :
      (n : ℕ) (roles : List Role) (key : String) (r : Role) (rest : List Grants)
      → (lookup key (parse json r.permissions) ≡ none → Inherits roles key n r (nearest key rest))
      → Inherits roles key n r (nearest key (levels r rest))
  settle n roles key r rest above = elim (Option-cases (lookup key (parse json r.permissions))) [
    | inl absent ↦ rw absent (above absent)
    | inr (v, held) ↦ rw held (Inherits.own v held)
  ]

  climb-Inherits :
      (n : ℕ) (db : Database) (key : String) (r : Role) (rest : List Grants)
      → climb json n db r ≡ ok rest
      → Inherits db.roles key n r (nearest key (levels r rest))
  unfolding climb
  climb-Inherits zero db key r rest e =
      let empty : rest ≡ [] = cc in
      settle zero db.roles key r rest (λ absent. rw empty (Inherits.capped refl absent))
  climb-Inherits (suc n) db key r rest e = elim (Option-cases r.parent_role_id) [
    | inl none_above ↦
        let empty : rest ≡ [] = ground arith in
        settle (suc n) db.roles key r rest (λ absent. rw empty (Inherits.top absent none_above))
    | inr (p, has) ↦ elim (Result-cases (get_role db p)) [
      | inl (q, found) ↦
          let (more, below, same) = climb-down n db r q p rest has found e in
          settle (suc n) db.roles key r rest (λ absent. rw same (
            Inherits.up p q absent has (get_role-ok db p q found)
              (climb-Inherits n db key q more below)))
      | inr (no_rows, gone) ↦
          let empty : rest ≡ [] = ground arith in
          settle (suc n) db.roles key r rest
            (λ absent. rw empty (Inherits.lost p absent has (get_role-no_rows db p gone)))
      | inr (other, broken) ↦ ground arith
    ]
  ]

  climb-HasDistinctKeys :
      (n : ℕ) (db : Database) (r : Role) (rest : List Grants)
      → climb json n db r ≡ ok rest
      → All HasDistinctKeys rest
  unfolding climb
  climb-HasDistinctKeys zero db r rest e = let empty : rest ≡ [] = cc in rw empty tt
  climb-HasDistinctKeys (suc n) db r rest e = elim (Option-cases r.parent_role_id) [
    | inl none_above ↦ let empty : rest ≡ [] = ground arith in rw empty tt
    | inr (p, has) ↦ elim (Result-cases (get_role db p)) [
      | inl (q, found) ↦
          let (more, below, same) = climb-down n db r q p rest has found e in
          rw same
            (parse-HasDistinctKeys json q.permissions, climb-HasDistinctKeys n db q more below)
      | inr (no_rows, gone) ↦ let empty : rest ≡ [] = ground arith in rw empty tt
      | inr (other, broken) ↦ ground arith
    ]
  ]

  -- the parts of a successful resolution
  pub resolve_parts :
      (db : Database) (r : Role) (g : Grants)
      → resolve_role_matrix json db r ≡ ok g
      → (rest : List Grants) × (climb json 4 db r ≡ ok rest)
        × (g ≡ overlay (levels r rest))
        × All HasDistinctKeys (levels r rest)
  unfolding resolve_role_matrix
  resolve_parts db r g e =
      let (rest, walked, same) = and_then-eq-ok _ _ g e in
      (
        rest,
        walked,
        cc,
        (parse-HasDistinctKeys json r.permissions, climb-HasDistinctKeys 4 db r rest walked),
      )

  -- A resolved matrix holds for each key the value of the nearest level that stores one, the role
  -- itself first and at most four levels above it; a missing parent row ends the chain.
  pub resolve_role_matrix-Inherits :
      (db : Database) (r : Role) (g : Grants) (key : String)
      → resolve_role_matrix json db r ≡ ok g
      → Inherits db.roles key 4 r (lookup key g)
  resolve_role_matrix-Inherits db r g key e =
      let (rest, walked, same, distinct) = resolve_parts db r g e in
      let merged : lookup key g ≡ nearest key (levels r rest) =
        ap (lookup key) same ∙ lookup-overlay key (levels r rest) distinct in
      rw merged (climb-Inherits 4 db key r rest walked)

  climb_total :
      (n : ℕ) (db : Database) (r : Role)
      → ((id : ℕ) → db.fails (get_role_of id) ≡ false)
      → (rest : List Grants) × (climb json n db r ≡ ok rest)
  unfolding climb
  climb_total zero db r works = ([], refl)
  climb_total (suc n) db r works = elim (Option-cases r.parent_role_id) [
    | inl none_above ↦ ([], ground arith)
    | inr (p, has) ↦ elim (Result-cases (get_role db p)) [
      | inl (q, found) ↦
          let (rest, e) = climb_total n db q works in
          (levels q rest, climb-up n db r q p has found ∙ rw e)
      | inr (no_rows, gone) ↦ ([], ground arith)
      | inr (other, broken) ↦
          let only : other ≡ no_rows = get_role-works db p other (works p) broken in
          ([], ground arith)
    ]
  ]

  -- If the driver fails at no row of `roles`, every role resolves.
  pub resolve_role_matrix_total :
      (db : Database) (r : Role)
      → ((id : ℕ) → db.fails (get_role_of id) ≡ false)
      → (g : Grants) × (resolve_role_matrix json db r ≡ ok g)
  unfolding resolve_role_matrix
  resolve_role_matrix_total db r works =
      let (rest, e) = climb_total 4 db r works in (overlay (levels r rest), rw e)
