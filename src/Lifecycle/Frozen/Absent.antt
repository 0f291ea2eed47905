-- ===== src/Lifecycle/Frozen/Absent.antt =====
-- Statements whose condition no row passes.
use pluris.Prelude.{
  ℕ, Bool, false, none, List, [], ◌∷◌, any, In, In-any, ◌≡◌, string_eq, refl, inl, inr, arith,
  Bool-cases,
}
use pluris.Lifecycle.{Version, Script, Action, Condition, Tables}
use pluris.Lifecycle.Queries.{first, count, update_where, delete_where, is_orphan, cascade}

pub first-none : {A : Type 0} (p : A → Bool) (xs : List A) → any p xs ≡ false → first p xs ≡ none
first-none p [] e = refl
first-none p (x ∷ xs) e = ground (arith, first-none p xs)

pub no_count : {A : Type 0} (p : A → Bool) (xs : List A) → any p xs ≡ false → count p xs ≡ 0
no_count p [] e = refl
no_count p (x ∷ xs) e = ground (arith, no_count p xs)

delete_where_none :
    {A : Type 0} (p : A → Bool) (xs : List A)
    → ((x : A) → In x xs → p x ≡ false)
    → delete_where p xs ≡ xs
delete_where_none p [] e = refl
delete_where_none p (x ∷ xs) e =
    ground (arith, e x (inl refl), delete_where_none p xs (λ y h. e y (inr h)))

pub update_where_none :
    {A : Type 0} (p : A → Bool) (f : A → A) (xs : List A)
    → any p xs ≡ false
    → update_where p f xs ≡ xs
update_where_none p f [] e = refl
update_where_none p f (x ∷ xs) e = ground (arith, update_where_none p f xs)

fails_all :
    {A : Type 0} (p : A → Bool) (xs : List A) → any p xs ≡ false → (x : A) → In x xs → p x ≡ false
fails_all p xs e x h = elim (Bool-cases (p x)) [
  | inr fails ↦ fails
  | inl passes ↦ cc (In-any p x xs h passes)
]

no_orphan :
    (p : Version → Bool) (vs : List Version) (n : ℕ) → any p vs ≡ false → is_orphan p vs n ≡ false
no_orphan p [] n e = refl
no_orphan p (v ∷ vs) n e = ground (arith, no_orphan p vs n)

pub cascade_none : (p : Version → Bool) (t : Tables) → any p t.versions ≡ false → cascade p t ≡ t
cascade_none p t e =
    rw
      (
        delete_where_none p t.versions (fails_all p t.versions e),
        delete_where_none (λ (r : Script). is_orphan p t.versions r.version_id) t.scripts
            (λ r h. no_orphan p t.versions r.version_id e),
        delete_where_none (λ (r : Action). is_orphan p t.versions r.version_id) t.actions
            (λ r h. no_orphan p t.versions r.version_id e),
        delete_where_none (λ (r : Condition). is_orphan p t.versions r.version_id) t.conditions
            (λ r h. no_orphan p t.versions r.version_id e),
      )
      refl
