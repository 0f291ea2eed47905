-- ===== src/Prelude/Maps.antt =====
-- A Go map as an association list. A write replaces the entry of its key, so that a map built by
-- writes holds a key once.
use mathlib.Core.Path.{◌≡◌, refl}
use mathlib.Core.Option.{Option, none, some}
use mathlib.Core.List.{List, [], ◌∷◌}
use native.Mathlib.Omega.{arith}
use pluris.Prelude.Tests.{Eq, ◌==◌, if◌then◌else◌}

abbrev pub Dict {ℓ κ} : Type ℓ → Type κ → Type (ℓ ⊔ κ)
Dict K V = List (K × V)

abbrev pub or_else {ℓ} : {V : Type ℓ} → Option V → Option V → Option V
or_else none o = o
or_else (some v) o = some v

module _ {ℓ κ} {K : Type ℓ} {V : Type κ} ⦃e : Eq K⦄ where
  abbrev pub lookup : K → Dict K V → Option V
  lookup k [] = none
  lookup k ((j, v) ∷ m) = if j == k then some v else lookup k m

  abbrev pub insert : K → V → Dict K V → Dict K V
  insert k v [] = (k, v) ∷ []
  insert k v ((j, w) ∷ m) = if j == k then (k, v) ∷ m else (j, w) ∷ insert k v m

  -- `for k, v := range from { into[k] = v }`
  abbrev pub insert_all : Dict K V → Dict K V → Dict K V
  insert_all [] into = into
  insert_all ((k, v) ∷ from) into = insert_all from (insert k v into)

  -- Each key stands once, as in every Go map.
  abbrev pub HasDistinctKeys : Dict K V → Type κ
  HasDistinctKeys [] = Unit
  HasDistinctKeys ((k, v) ∷ m) = (lookup k m ≡ none) × HasDistinctKeys m

  pub lookup-insert :
      (k j : K) (v : V) (m : Dict K V)
      → lookup j (insert k v m) ≡ (if k == j then some v else lookup j m)
  lookup-insert k j v [] = refl
  lookup-insert k j v ((i, w) ∷ m) =
      ground (arith, e.equal_iff k j, e.equal_iff i k, e.equal_iff i j, lookup-insert k j v m)

  pub insert-HasDistinctKeys :
      (k : K) (v : V) (m : Dict K V) → HasDistinctKeys m → HasDistinctKeys (insert k v m)
  insert-HasDistinctKeys k v [] h = (refl, tt)
  insert-HasDistinctKeys k v ((i, w) ∷ m) h = ground (
    arith,
    e.equal_iff i k,
    e.equal_iff k i,
    lookup-insert k i v m,
    insert-HasDistinctKeys k v m h.1,
  )

  -- A copy overwrites: what the source holds for a key wins.
  pub lookup-insert_all :
      (j : K) (from into : Dict K V)
      → HasDistinctKeys from
      → lookup j (insert_all from into) ≡ or_else (lookup j from) (lookup j into)
  lookup-insert_all j [] into h = refl
  lookup-insert_all j ((k, v) ∷ from) into (absent, h) = ground (
    arith,
    e.equal_iff k j,
    lookup-insert k j v into,
    lookup-insert_all j from (insert k v into) h,
  )

  pub insert_all-HasDistinctKeys :
      (from into : Dict K V) → HasDistinctKeys into → HasDistinctKeys (insert_all from into)
  insert_all-HasDistinctKeys [] into h = h
  insert_all-HasDistinctKeys ((k, v) ∷ from) into h =
      insert_all-HasDistinctKeys from (insert k v into) (insert-HasDistinctKeys k v into h)
