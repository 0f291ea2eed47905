-- ===== src/Lifecycle/Safety/Seeding.antt =====
-- SeedBundled: the versions that it publishes are the only ones of their modules.
mod Filled
use pluris.Prelude.{
  ℕ, String, Bool, true, false, ◌&&◌, ◌||◌, not, Option, none, List, [], ◌∷◌, ◌++◌, nat_eq,
  nat_eq_iff, any, In, In-append_cases, and_parts, ◌==◌, string_eq, ◌≡◌, refl, sym, ap, ◌∙◌, inl,
  inr, arith, Bool-cases, eq_iff, Result, ok, err, pure, ◌>>=◌,
}
use pluris.Lifecycle.{
  draft, Manifest, Version, Script, Module, Tables, Store, Error, no_rows, unique_violation,
  Platform, query, attempt, is_draft, is_draft_of, has_id, later_faults,
}
use pluris.Lifecycle.Queries.{
  create_version, new_version, publish_version, as_published, is_taken, valid_scope, is_editable,
}
use pluris.Lifecycle.Queries.Contents.{
  scripts_of, put_script, upsert_script_row, valid_language, valid_origin,
}
use pluris.Lifecycle.Queries.Modules.{create_module_row, get_module_by_urn, new_module}
use pluris.Lifecycle.Versions.{has_apply, non_empty}
use pluris.Lifecycle.Modules.{
  SeedScript, SeedVersion, SeedModule, seed_row, seed_scripts, fill_and_publish, seed_manifest,
  seed_version, seed_versions, seeded_module, seed_if_absent, seed_bundled,
}
use pluris.Lifecycle.Rows.{count-update_where_le}
use pluris.Lifecycle.Course.{Sound, Advances, Advances-refl, is_current}
use pluris.Lifecycle.Changes.Updates.{update-Advances}
use pluris.Lifecycle.Success.{query-eq-ok, bind-eq-ok}
use pluris.Lifecycle.Safety.{
  IsSafe, query-IsSafe, pure-IsSafe, bind-IsSafe, then-IsSafe, statement_then, bind-Advances,
}
use pluris.Lifecycle.Safety.Rows.{create_version-IsSafe}
use pluris.Lifecycle.Safety.Contents.{upsert_script_row-IsSafe}
use pluris.Lifecycle.Safety.Modules.{create_module_row-IsSafe}
use pluris.Lifecycle.Safety.Publishing.{draft-Course}
use pluris.Lifecycle.Safety.Seeding.Filled.{seeded_apply, seed_scripts_fill, seed_scripts-IsSafe}

-- The version `i` is the only one of the module `m`.
abbrev IsSole : ℕ → ℕ → Tables → Type 0
IsSole m i t = (v : Version) → In v t.versions → nat_eq v.id i ≡ nat_eq v.module_id m

module _ (i m : ℕ) where
  publish_sole :
      (t : Tables)
      → Sound t
      → IsSole m i t
      → has_apply (scripts_of i t.scripts) ≡ true
      → Advances t (publish_version i none t).1
  unfolding publish_version
  publish_sole t sound sole applies =
      update-Advances t sound (is_draft_of i) (as_published t.now none)
        (λ v e.
          let (same, editable) = and_parts (nat_eq v.id i) (is_draft v.state) e in
          (refl, refl, draft-Course v.state editable, λ frozen. cc))
        (λ n. elim (Bool-cases (nat_eq m n)) [
          | inl same ↦ omega (
            arith,
            sound.ids_distinct i,
            count-update_where_le (is_draft_of i) (is_current n) (has_id i)
                (as_published t.now none) t.versions
                (λ v listed e. ground (arith, nat_eq_iff m n, sole v listed)),
          )
          | inr other ↦ omega (
            arith,
            sound.one_published n,
            count-update_where_le (is_draft_of i) (is_current n) (is_current n)
                (as_published t.now none) t.versions
                (λ v listed e. ground (arith, nat_eq_iff v.module_id m, sole v listed)),
          )
        ])
        (λ v listed e editable closed. ground (arith, nat_eq_iff v.id i, applies))

  fill_and_publish-Advances :
      (scs : List SeedScript) (s : Store)
      → seeded_apply scs ≡ true
      → Sound s.tables
      → IsSole m i s.tables
      → Advances s.tables (fill_and_publish i scs s).1.tables
  unfolding fill_and_publish publish_version
  fill_and_publish-Advances scs s planned sound sole =
      bind-Advances (seed_scripts i scs) _ s (seed_scripts-IsSafe i scs s sound) (λ u done.
        let (same, applies) = seed_scripts_fill i scs s done in
        let later = (seed_scripts-IsSafe i scs s sound).0 in
        let published_now =
          publish_sole (seed_scripts i scs s).1.tables later
            (λ v listed. sole v (rw same at listed)) (applies (ground arith)) in
        statement_then (publish_version i none) (pure tt) (seed_scripts i scs s).1 later
          published_now (λ faults. Advances-refl _ published_now.0))

create_version-eq-ok :
    (m : ℕ) (manifest : Manifest) (ver : Version) (t : Tables)
    → (create_version m draft manifest t).0 ≡ ok ver
    → (ver ≡ new_version m draft manifest t)
      × ((create_version m draft manifest t).1.versions ≡ t.versions ++ ver ∷ [])
unfolding create_version
create_version-eq-ok m manifest ver t done = elim (Bool-cases (not (valid_scope manifest.scope))) [
  | inl bad ↦ cc (rw bad at done)
  | inr good ↦ elim (Bool-cases (is_taken t.next_version m manifest.version t)) [
    | inl taken ↦ cc (rw (good, taken) at done)
    | inr free ↦ elim (Bool-cases (any (λ r. nat_eq r.id m) t.modules)) [
      | inr unknown ↦ cc (rw (good, free, unknown) at done)
      | inl known ↦
          let same : ver ≡ new_version m draft manifest t = cc (rw (good, free, known) at done) in
          (same, rw (good, free, known) (ap (λ v. t.versions ++ v ∷ []) (sym same)))
    ]
  ]
]

create_module_row-eq-ok :
    (urn title : String) (description : Option String) (row : Module) (t : Tables)
    → (create_module_row urn none title description true t).0 ≡ ok row
    → (row.id ≡ t.next_module)
      × ((create_module_row urn none title description true t).1.versions ≡ t.versions)
unfolding create_module_row
create_module_row-eq-ok urn title description row t done =
    elim (Bool-cases (any (λ (r : Module). r.module_urn == urn) t.modules)) [
      | inl taken ↦ cc (rw taken at done)
      | inr free ↦
          let same : row ≡ new_module urn none title description true t = cc (rw free at done) in
          (ap (λ (r : Module). r.id) same, rw free refl)
    ]

abbrev IsVacant : ℕ → Tables → Type 0
IsVacant m t = (v : Version) → In v t.versions → nat_eq v.module_id m ≡ false

-- A module of the seed has one version at most, with a script named "apply".
abbrev pub IsSeedable : List SeedVersion → Type 0
IsSeedable [] = Unit
IsSeedable (sv ∷ []) = seeded_apply sv.scripts ≡ true
IsSeedable (sv ∷ sv' ∷ svs) = ⊥

abbrev pub AreSeedable : List SeedModule → Type 0
AreSeedable [] = Unit
AreSeedable (sm ∷ sms) = IsSeedable sm.versions × AreSeedable sms

new-IsSole :
    (m : ℕ) (manifest : Manifest) (ver : Version) (t t' : Tables)
    → Sound t
    → IsVacant m t
    → ver ≡ new_version m draft manifest t
    → t'.versions ≡ t.versions ++ ver ∷ []
    → IsSole m ver.id t'
new-IsSole m manifest ver t t' sound vacant same rows v i =
    elim (In-append_cases v t.versions (ver ∷ []) (rw rows at i)) [
      | inl old ↦ rw same (ground (arith, vacant v old, sound.ids_bounded v old))
      | inr (inl new) ↦
          rw (new, same) (ground (arith, nat_eq_iff t.next_version t.next_version, nat_eq_iff m m))
      | inr (inr nothing) ↦ absurd nothing
    ]

module _ (platform : Platform) where
  seed_version-Advances :
      (m : ℕ) (sv : SeedVersion) (s : Store)
      → seeded_apply sv.scripts ≡ true
      → Sound s.tables
      → IsVacant m s.tables
      → Advances s.tables (seed_version platform m sv s).1.tables
  unfolding seed_version
  seed_version-Advances m sv s planned sound vacant =
      let creation = create_version m draft (seed_manifest platform sv) in
      let created =
        query-IsSafe creation (create_version-IsSafe m (seed_manifest platform sv)) s sound in
      bind-Advances (query creation) _ s created (λ ver done.
        let (read, after) = query-eq-ok creation s ver done in
        let (same, rows) = create_version-eq-ok m (seed_manifest platform sv) ver s.tables read in
        fill_and_publish-Advances ver.id m sv.scripts (query creation s).1 planned created.0 (
          new-IsSole m (seed_manifest platform sv) ver s.tables (query creation s).1.tables sound
            vacant same (rw after rows)))

  seed_versions-Advances :
      (m : ℕ) (svs : List SeedVersion) (s : Store)
      → IsSeedable svs
      → Sound s.tables
      → IsVacant m s.tables
      → Advances s.tables (seed_versions platform m svs s).1.tables
  unfolding seed_versions
  seed_versions-Advances m [] s seedable sound vacant = Advances-refl s.tables sound
  seed_versions-Advances m (sv ∷ []) s planned sound vacant =
      bind-Advances (seed_version platform m sv) _ s
        (seed_version-Advances m sv s planned sound vacant)
        (λ u done. Advances-refl _ (seed_version-Advances m sv s planned sound vacant).0)
  seed_versions-Advances m (sv ∷ sv' ∷ svs) s seedable sound vacant = absurd seedable

  seeded_module-Advances :
      (sm : SeedModule) (r : Result Error Module) (s : Store)
      → IsSeedable sm.versions
      → Sound s.tables
      → ((row : Module) → r ≡ ok row → IsVacant row.id s.tables)
      → Advances s.tables (seeded_module platform sm r s).1.tables
  seeded_module-Advances sm (ok row) s seedable sound vacant =
      seed_versions-Advances row.id sm.versions s seedable sound (vacant row refl)
  seeded_module-Advances sm (err unique_violation) s seedable sound vacant =
      Advances-refl s.tables sound
  seeded_module-Advances sm (err e) s seedable sound vacant = Advances-refl s.tables sound

  creation-IsSafe :
      (sm : SeedModule)
      → IsSeedable sm.versions
      → IsSafe (
          attempt (query (create_module_row sm.urn none sm.title (non_empty sm.description) true))
          >>= seeded_module platform sm)
  creation-IsSafe sm seedable s sound =
      let creation = create_module_row sm.urn none sm.title (non_empty sm.description) true in
      let created =
        query-IsSafe creation
          (create_module_row-IsSafe sm.urn none sm.title (non_empty sm.description) true) s sound in
      bind-Advances (attempt (query creation)) (seeded_module platform sm) s created (λ r done.
        seeded_module-Advances sm r (query creation s).1 seedable created.0 (λ row e v listed.
          let (read, after) = query-eq-ok creation s row cc in
          let (same, rows) =
            create_module_row-eq-ok sm.urn sm.title (non_empty sm.description) row s.tables read in
          rw same (
            ground (
              arith,
              sound.owners_bounded v (rw (after, rows) at listed),
              nat_eq_iff v.module_id s.tables.next_module,
            ))))

  seed_if_absent-IsSafe :
      (sm : SeedModule) (r : Result Error Module)
      → IsSeedable sm.versions
      → IsSafe (seed_if_absent platform sm r)
  seed_if_absent-IsSafe sm (ok present) seedable s = Advances-refl s.tables
  seed_if_absent-IsSafe sm (err no_rows) seedable s = creation-IsSafe sm seedable s
  seed_if_absent-IsSafe sm (err e) seedable s = Advances-refl s.tables

  pub seed_bundled-IsSafe :
      (sms : List SeedModule) → AreSeedable sms → IsSafe (seed_bundled platform sms)
  unfolding seed_bundled
  seed_bundled-IsSafe [] seedable = pure-IsSafe tt
  seed_bundled-IsSafe (sm ∷ sms) (seedable, later) =
      then-IsSafe (attempt (query (get_module_by_urn sm.urn)) >>= seed_if_absent platform sm)
        (seed_bundled platform sms)
        (bind-IsSafe (attempt (query (get_module_by_urn sm.urn))) (seed_if_absent platform sm)
          (query-IsSafe (get_module_by_urn sm.urn) (λ t. Advances-refl t))
          (λ r. seed_if_absent-IsSafe sm r seedable))
        (seed_bundled-IsSafe sms later)
