-- ===== src/Lifecycle/Safety/Modules.antt =====
-- The statements and the operations on modules.
use pluris.Prelude.{
  ℕ, suc, String, Bool, not, Option, none, some, [], ◌∷◌, ◌++◌, nat_eq, any, In-append_cases, ◌==◌,
  string_eq, ◌≡◌, refl, inl, inr, arith, Bool-cases, pure, fail, ◌>>=◌, ◌>>◌,
}
use pluris.Lifecycle.{Module, Tables, module_referenced, query}
use pluris.Lifecycle.Queries.{refers_to, update_where, delete_where, first, cascade}
use pluris.Lifecycle.Queries.Modules.{
  is_module, new_module, create_module_row, set_modules, module_rows, set_module_owner, owner_holds,
  owner_rows, set_module_origin, retitled, retitled_row, update_module_row, soft_delete_module,
  restore_module_row, delete_module_row, count_links, count_bindings, count_installations,
  get_retention_mode,
}
use pluris.Lifecycle.Versions.{non_empty}
use pluris.Lifecycle.Modules.{
  update_module, none_left, hard_delete_module, delete_module, restore_module,
}
use pluris.Lifecycle.Rows.{In-update_where, In-keep_where}
use pluris.Lifecycle.Success.{constrained_cases}
use pluris.Lifecycle.Course.{Sound, Advances, Advances-refl}
use pluris.Lifecycle.Changes.{modules_advance, cascade-Advances}
use pluris.Lifecycle.Safety.{
  IsSafeStatement, IsSafe, query-IsSafe, pure-IsSafe, fail-IsSafe, if-IsSafe, bind-IsSafe,
  then-IsSafe, Advances-trans,
}

module _ (t : Tables) (sound : Sound t) where
  -- an update of columns other than the id
  columns_advance :
      (p : Module → Bool) (f : Module → Module)
      → ((r : Module) → (f r).id ≡ r.id)
      → Advances t (set_modules (update_where p f t.modules) t)
  columns_advance p f same =
      modules_advance t sound (update_where p f t.modules) t.next_module (omega arith) (λ r i.
        let (q, listed, e) = In-update_where p f r t.modules i in
        elim (Bool-cases (p q)) [
          | inl written ↦ rw (rw written at e, same q) (sound.modules_bounded q listed)
          | inr other ↦ rw (rw other at e) (sound.modules_bounded q listed)
        ])

  remove-Advances : (p : Module → Bool) → Advances t (set_modules (delete_where p t.modules) t)
  remove-Advances p =
      modules_advance t sound (delete_where p t.modules) t.next_module (omega arith)
        (λ r i. sound.modules_bounded r (In-keep_where (λ r. not (p r)) r t.modules i).0)

pub create_module_row-IsSafe :
    (urn : String) (tenant_id : Option ℕ) (title : String) (description : Option String)
    (is_bundled : Bool)
    → IsSafeStatement (create_module_row urn tenant_id title description is_bundled)
unfolding create_module_row
create_module_row-IsSafe urn tenant_id title description is_bundled t sound =
    elim (Bool-cases (any (λ (r : Module). r.module_urn == urn) t.modules)) [
      | inl taken ↦ rw taken (Advances-refl t sound)
      | inr free ↦ rw free (
          constrained_cases (Advances t) (refers_to tenant_id t.tenants)
            (module_rows urn tenant_id title description is_bundled) t (Advances-refl t sound)
            (let row = new_module urn tenant_id title description is_bundled t in
              modules_advance t sound (t.modules ++ row ∷ []) (suc t.next_module) (omega arith)
                (λ r i. elim (In-append_cases r t.modules (row ∷ []) i) [
                  | inl old ↦ omega (arith, sound.modules_bounded r old)
                  | inr (inl new) ↦ rw new (omega arith)
                  | inr (inr nothing) ↦ absurd nothing
                ])))
    ]

pub set_module_owner-IsSafe :
    (i : ℕ) (owner : Option ℕ) → IsSafeStatement (set_module_owner i owner)
unfolding set_module_owner
set_module_owner-IsSafe i owner t sound =
    constrained_cases (Advances t) (owner_holds i owner t) (owner_rows i owner) t
      (Advances-refl t sound) (columns_advance t sound (is_module i) _ (λ r. refl))

pub set_module_origin-IsSafe :
    (i : ℕ) (origin : String) → IsSafeStatement (set_module_origin i origin)
unfolding set_module_origin
set_module_origin-IsSafe i origin t sound = columns_advance t sound (is_module i) _ (λ r. refl)

retitled_row-IsSafe :
    (i : ℕ) (title : String) (description : Option String) (o : Option Module)
    → IsSafeStatement (retitled_row i title description o)
retitled_row-IsSafe i title description none t sound = Advances-refl t sound
retitled_row-IsSafe i title description (some r) t sound =
    columns_advance t sound (is_module i) (retitled title description) (λ r. refl)

update_module_row-IsSafe :
    (i : ℕ) (title : String) (description : Option String)
    → IsSafeStatement (update_module_row i title description)
unfolding update_module_row
update_module_row-IsSafe i title description t sound =
    retitled_row-IsSafe i title description (first (is_module i) t.modules) t sound

soft_delete_module-IsSafe : (i actor : ℕ) → IsSafeStatement (soft_delete_module i actor)
unfolding soft_delete_module
soft_delete_module-IsSafe i actor t sound = columns_advance t sound _ _ (λ r. refl)

restore_module_row-IsSafe : (i : ℕ) → IsSafeStatement (restore_module_row i)
unfolding restore_module_row
restore_module_row-IsSafe i t sound = columns_advance t sound _ _ (λ r. refl)

delete_module_row-IsSafe : (i : ℕ) → IsSafeStatement (delete_module_row i)
unfolding delete_module_row
delete_module_row-IsSafe i t sound =
    Advances-trans (cascade-Advances t sound (λ v. nat_eq v.module_id i))
      (λ later. remove-Advances (cascade (λ v. nat_eq v.module_id i) t) later (is_module i))

pub update_module-IsSafe :
    (i : ℕ) (title description : String) → IsSafe (update_module i title description)
unfolding update_module
update_module-IsSafe i title description =
    query-IsSafe _ (update_module_row-IsSafe i title (non_empty description))

none_left-IsSafe : (n : ℕ) → IsSafe (none_left n)
none_left-IsSafe n =
    if-IsSafe (nat_eq n 0) (pure tt) (fail module_referenced) (pure-IsSafe tt)
      (fail-IsSafe (Unit {0}) module_referenced)

pub hard_delete_module-IsSafe :
    (tenant_id i : ℕ) (urn : String) → IsSafe (hard_delete_module tenant_id i urn)
unfolding hard_delete_module
hard_delete_module-IsSafe tenant_id i urn =
    let links = query (count_links tenant_id urn) >>= none_left in
    let bindings = query (count_bindings i) >>= none_left in
    let installations = query (count_installations i) >>= none_left in
    then-IsSafe (links >> bindings >> installations) (query (delete_module_row i))
      (then-IsSafe (links >> bindings) installations
        (then-IsSafe links bindings
          (bind-IsSafe (query (count_links tenant_id urn)) none_left
            (query-IsSafe _ (λ t. Advances-refl t)) none_left-IsSafe)
          (bind-IsSafe (query (count_bindings i)) none_left (query-IsSafe _ (λ t. Advances-refl t))
            none_left-IsSafe))
        (bind-IsSafe (query (count_installations i)) none_left
          (query-IsSafe _ (λ t. Advances-refl t)) none_left-IsSafe))
      (query-IsSafe _ (delete_module_row-IsSafe i))

pub delete_module-IsSafe :
    (tenant_id i : ℕ) (urn : String) (actor : ℕ) → IsSafe (delete_module tenant_id i urn actor)
unfolding delete_module
delete_module-IsSafe tenant_id i urn actor =
    bind-IsSafe (query get_retention_mode) _ (query-IsSafe _ (λ t. Advances-refl t)) (λ mode.
      if-IsSafe (mode == "immediate") (hard_delete_module tenant_id i urn)
        (query (soft_delete_module i actor) >> pure tt) (hard_delete_module-IsSafe tenant_id i urn)
        (then-IsSafe (query (soft_delete_module i actor)) (pure tt)
          (query-IsSafe _ (soft_delete_module-IsSafe i actor)) (pure-IsSafe tt)))

pub restore_module-IsSafe : (i : ℕ) → IsSafe (restore_module i)
unfolding restore_module
restore_module-IsSafe i =
    then-IsSafe (query (restore_module_row i)) (pure tt)
      (query-IsSafe _ (restore_module_row-IsSafe i)) (pure-IsSafe tt)
