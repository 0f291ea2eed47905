-- ===== src/Lifecycle/Quiet.antt =====
-- What an import leaves as it was: the versions that are no drafts.
use pluris.Prelude.{
  In, false, if◌then◌else◌, ℕ, suc, String, Bool, true, Bool-cases, inl, inr, ◌≡◌, ◌==◌, [], ◌∷◌,
  ◌++◌, In-append_cases, arith, not, string_eq, nat_eq, any, Option, Result, err,
}
use pluris.Lifecycle.{
  draft, Manifest, Version, Script, Condition, Module, Tables, Error, constraint_violation,
  unique_violation, is_draft, is_draft_of,
}
use pluris.Lifecycle.Queries.{refers_to, valid_scope, is_taken, new_version, create_version}
use pluris.Lifecycle.Queries.Contents.{upsert_script_row}
use pluris.Lifecycle.Queries.Applicability.{create_condition_row, update_match_mode, with_mode}
use pluris.Lifecycle.Queries.Modules.{
  create_module_row, module_rows, set_module_owner, owner_holds, owner_rows, set_module_origin,
}
use pluris.Lifecycle.Rows.{In-update_where}
use pluris.Lifecycle.Success.{constrained_cases}
use pluris.Lifecycle.Relations.Operations.{Kept}

-- Whatever is no draft afterwards was there before, with the same columns.
abbrev pub Leaves : Tables → Tables → Type 0
Leaves t t' = (v : Version) → In v t'.versions → is_draft v.state ≡ false → In v t.versions

module _ {A : Type 0} where
  if-Leaves :
      (b : Bool) (r r' : Result Error A × Tables) (t : Tables)
      → Leaves t r.1
      → Leaves t r'.1
      → Leaves t (if b then r else r').1
  if-Leaves true r r' t keeps keeps' = keeps
  if-Leaves false r r' t keeps keeps' = keeps'

is_draft_of-draft : (i : ℕ) (w : Version) → is_draft_of i w ≡ true → is_draft w.state ≡ true
is_draft_of-draft i w e = ground arith

-- the statements
inserted-Leaves :
    (m : ℕ) (manifest : Manifest) (t : Tables)
    → Leaves t (record t {
      versions = t.versions ++ new_version m draft manifest t ∷ [];
      next_version = suc t.next_version;
    })
inserted-Leaves m manifest t v listed deployed =
    elim (In-append_cases v t.versions (new_version m draft manifest t ∷ []) listed) [
      | inl before ↦ before
      | inr (inl same) ↦ cc (rw same at deployed)
      | inr (inr nowhere) ↦ absurd nowhere
    ]

create_version-Leaves :
    (m : ℕ) (manifest : Manifest) (t : Tables) → Leaves t (create_version m draft manifest t).1
unfolding create_version
create_version-Leaves m manifest t =
    if-Leaves (not (valid_scope manifest.scope)) (err constraint_violation, t) _ t
      (λ v listed deployed. listed)
      (if-Leaves (is_taken t.next_version m manifest.version t) (err unique_violation, t) _ t
        (λ v listed deployed. listed)
        (if-Leaves (not (any (λ (r : Module). nat_eq r.id m) t.modules))
          (err constraint_violation, t) _ t (λ v listed deployed. listed)
          (inserted-Leaves m manifest t)))

upsert_script_row-Leaves : (sc : Script) (t : Tables) → Leaves t (upsert_script_row sc t).1
unfolding upsert_script_row
upsert_script_row-Leaves sc t v listed deployed = ground arith

create_condition_row-Leaves : (c : Condition) (t : Tables) → Leaves t (create_condition_row c t).1
unfolding create_condition_row
create_condition_row-Leaves c t v listed deployed = ground arith

create_module_row-Leaves :
    (urn : String) (tenant_id : Option ℕ) (title : String) (description : Option String)
    (is_bundled : Bool) (t : Tables)
    → Leaves t (create_module_row urn tenant_id title description is_bundled t).1
unfolding create_module_row
create_module_row-Leaves urn tenant_id title description is_bundled t =
    elim (Bool-cases (any (λ (r : Module). r.module_urn == urn) t.modules)) [
      | inl taken ↦ rw taken (λ v listed deployed. listed)
      | inr free ↦ rw free (
          constrained_cases (Leaves t) (refers_to tenant_id t.tenants)
            (module_rows urn tenant_id title description is_bundled) t (λ v listed deployed. listed)
            (λ v listed deployed. listed))
    ]

update_match_mode-Leaves :
    (i : ℕ) (mode : String) (t : Tables) → Leaves t (update_match_mode i mode t).1
unfolding update_match_mode
update_match_mode-Leaves i mode t v listed deployed =
    let (w, before, e) = In-update_where (is_draft_of i) (with_mode mode) v t.versions listed in
    elim (Bool-cases (is_draft_of i w)) [
      | inl written ↦ cc (rw (e, written) at deployed, is_draft_of-draft i w written)
      | inr other ↦ rw (e, other) before
    ]

set_module_owner-Leaves : (i : ℕ) (o : Option ℕ) (t : Tables) → Leaves t (set_module_owner i o t).1
unfolding set_module_owner
set_module_owner-Leaves i o t =
    constrained_cases (Leaves t) (owner_holds i o t) (owner_rows i o) t
      (λ v listed deployed. listed) (λ v listed deployed. listed)

set_module_origin-Leaves : (i : ℕ) (o : String) (t : Tables) → Leaves t (set_module_origin i o t).1
unfolding set_module_origin
set_module_origin-Leaves i o t v listed deployed = listed

Leaves-trans : (t t' t'' : Tables) → Leaves t t' → Leaves t' t'' → Leaves t t''
Leaves-trans t t' t'' kept kept' v listed deployed = kept v (kept' v listed deployed) deployed

pub Leaves-Kept : Kept Leaves
Leaves-Kept = record {
  order = record { stays = λ t v listed deployed. listed; goes_on = Leaves-trans };
  creates_version = create_version-Leaves;
  upserts_script = upsert_script_row-Leaves;
  creates_condition = create_condition_row-Leaves;
  updates_match_mode = update_match_mode-Leaves;
  creates_module = create_module_row-Leaves;
  sets_owner = set_module_owner-Leaves;
  sets_origin = set_module_origin-Leaves;
}
