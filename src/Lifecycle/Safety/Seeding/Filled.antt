-- ===== src/Lifecycle/Safety/Seeding/Filled.antt =====
-- The scripts of a version whose seeding succeeded.
use pluris.Prelude.{
  ℕ, Bool, true, ◌&&◌, ◌||◌, List, [], ◌∷◌, nat_eq_iff, any, ◌==◌, string_eq, ◌≡◌, refl, ap, ◌∙◌,
  inl, inr, arith, Bool-cases, eq_iff, ok,
}
use pluris.Lifecycle.{Script, Tables, Store, query, later_faults}
use pluris.Lifecycle.Queries.{is_editable}
use pluris.Lifecycle.Queries.Contents.{
  scripts_of, put_script, upsert_script_row, valid_language, valid_origin,
}
use pluris.Lifecycle.Versions.{has_apply}
use pluris.Lifecycle.Modules.{SeedScript, seed_row, seed_scripts}
use pluris.Lifecycle.Success.{query-eq-ok, bind-eq-ok}
use pluris.Lifecycle.Safety.{IsSafe, query-IsSafe, pure-IsSafe, then-IsSafe}
use pluris.Lifecycle.Safety.Contents.{upsert_script_row-IsSafe}

has_script_after :
    (sc : Script) (xs : List Script)
    → (has_apply (scripts_of sc.version_id xs) || sc.name == "apply") ≡ true
    → has_apply (scripts_of sc.version_id (put_script sc xs)) ≡ true
has_script_after sc [] e = ground (arith, nat_eq_iff sc.version_id sc.version_id)
has_script_after sc (r ∷ rs) e =
    ground
      (arith, nat_eq_iff r.version_id sc.version_id, eq_iff r.name sc.name, has_script_after sc rs)

upsert_versions : (sc : Script) (t : Tables) → (upsert_script_row sc t).1.versions ≡ t.versions
unfolding upsert_script_row
upsert_versions sc t = ground arith

-- The scripts of a version whose loop succeeded, with those that it had.
abbrev pub seeded_apply : List SeedScript → Bool
seeded_apply scs = any (λ (sc : SeedScript). sc.phase == "apply") scs

upsert_applies :
    (sc r : Script) (t : Tables)
    → (upsert_script_row sc t).0 ≡ ok r
    → (has_apply (scripts_of sc.version_id t.scripts) || sc.name == "apply") ≡ true
    → has_apply (scripts_of sc.version_id (upsert_script_row sc t).1.scripts) ≡ true
unfolding upsert_script_row
upsert_applies sc r t done e = elim (Bool-cases (is_editable sc.version_id t)) [
  | inr closed ↦ cc (rw closed at done)
  | inl guard ↦ rw guard (elim (Bool-cases (valid_language sc.language && valid_origin sc.origin)) [
    | inr bad ↦ cc (rw (guard, bad) at done)
    | inl good ↦ rw good (has_script_after sc t.scripts e)
  ])
]

module _ (i : ℕ) where
  abbrev Filled : Bool → Tables → Tables → Type 0
  Filled planned t t' =
      (t'.versions ≡ t.versions)
      × ((has_apply (scripts_of i t.scripts) || planned) ≡ true
          → has_apply (scripts_of i t'.scripts) ≡ true)

  Filled-after :
      (sc : SeedScript) (r : Script) (scs : List SeedScript) (t t' : Tables)
      → (upsert_script_row (seed_row i sc) t).0 ≡ ok r
      → Filled (seeded_apply scs) (upsert_script_row (seed_row i sc) t).1 t'
      → Filled (seeded_apply (sc ∷ scs)) t t'
  Filled-after sc r scs t t' done (same, later) = (
    same ∙ upsert_versions (seed_row i sc) t,
    λ e. elim (Bool-cases (has_apply (scripts_of i t.scripts) || sc.phase == "apply")) [
      | inl here ↦ later (rw (upsert_applies (seed_row i sc) r t done here) refl)
      | inr there ↦ later (ground arith)
    ],
  )

  pub seed_scripts_fill :
      (scs : List SeedScript) (s : Store)
      → (seed_scripts i scs s).0 ≡ ok tt
      → Filled (seeded_apply scs) s.tables (seed_scripts i scs s).1.tables
  unfolding seed_scripts
  seed_scripts_fill [] s done = (refl, λ e. ground arith)
  seed_scripts_fill (sc ∷ scs) s done =
      let row = upsert_script_row (seed_row i sc) in
      let (r, first_ok, step) = bind-eq-ok (query row) (λ r. seed_scripts i scs) s tt done in
      let (read, after) = query-eq-ok row s r first_ok in
      let path = step ∙ ap (seed_scripts i scs) after in
      Filled-after sc r scs s.tables (seed_scripts i (sc ∷ scs) s).1.tables read (
        rw path (
          seed_scripts_fill scs
            (record { tables = (row s.tables).1; faults = later_faults s.faults })
            (rw path at done)))

  pub seed_scripts-IsSafe : (scs : List SeedScript) → IsSafe (seed_scripts i scs)
  unfolding seed_scripts
  seed_scripts-IsSafe [] = pure-IsSafe tt
  seed_scripts-IsSafe (sc ∷ scs) =
      then-IsSafe (query (upsert_script_row (seed_row i sc))) (seed_scripts i scs)
        (query-IsSafe _ (upsert_script_row-IsSafe (seed_row i sc))) (seed_scripts-IsSafe scs)
