-- ===== src/Archives/Cached.antt =====
-- The column `manifest_yaml`, which an export writes, and the rows without it.
use pluris.Prelude.{
  ℕ, String, Bool, true, false, Option, none, some, List, [], ◌∷◌, ◌≡◌, refl, ◌∙◌, inl, inr,
  Bool-cases,
}
use pluris.Lifecycle.{Version, Tables, executed, has_id}
use pluris.Lifecycle.Queries.{first, update_where, cached, cache_version_manifest}

-- The rows of the tables, but for the cached manifests.
abbrev pub uncached : Option Version → Option Version
uncached none = none
uncached (some v) = some (cached "" v)

-- What an export leaves of the tables: no more than the column `manifest_yaml` differs.
abbrev pub SameRows : Tables → Tables → Type 0
SameRows t t' =
    ((i : ℕ) → uncached (first (has_id i) t'.versions) ≡ uncached (first (has_id i) t.versions))
    × (t'.scripts ≡ t.scripts)
    × (t'.conditions ≡ t.conditions)

pub SameRows-trans : (t t' t'' : Tables) → SameRows t t' → SameRows t' t'' → SameRows t t''
SameRows-trans t t' t'' (a, b, c) (a', b', c') = (λ i. a' i ∙ a i, b' ∙ b, c' ∙ c)

pub uncached-some :
    (o : Option Version) (w : Version)
    → some (cached "" w) ≡ uncached o
    → (v : Version) × (o ≡ some v) × (cached "" w ≡ cached "" v)
uncached-some none w e = cc
uncached-some (some v) w e = (v, refl, cc e)

first-cached :
    (i j : ℕ) (text : String) (vs : List Version)
    → uncached (first (has_id i) (update_where (has_id j) (cached text) vs))
      ≡ uncached (first (has_id i) vs)
first-cached i j text [] = refl
first-cached i j text (v ∷ vs) = elim (Bool-cases (has_id j v)) [
  | inl same ↦ elim (Bool-cases (has_id i v)) [
    | inl here ↦ rw (same, here) refl
    | inr there ↦ rw (same, there) (first-cached i j text vs)
  ]
  | inr other ↦ elim (Bool-cases (has_id i v)) [
    | inl here ↦ rw (other, here) refl
    | inr there ↦ rw (other, there) (first-cached i j text vs)
  ]
]

pub executed-SameRows :
    (i : ℕ) (text : String) (broken : Bool) (faults : List Bool) (t : Tables)
    → SameRows t (executed broken faults (cache_version_manifest i text) t).1.tables
unfolding cache_version_manifest
executed-SameRows i text true faults t = (λ j. refl, refl, refl)
executed-SameRows i text false faults t = (λ j. first-cached j i text t.versions, refl, refl)
