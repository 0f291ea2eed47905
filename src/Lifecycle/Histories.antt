-- ===== src/Lifecycle/Histories.antt =====
-- Everything that happens to the tables, request by request.
use pluris.Prelude.{ℕ, String, Bool, Option, List, [], ◌∷◌, refl, inl, arith}
use pluris.Lifecycle.{VersionFields, Module, Script, Action, Tables, Store, Platform}
use pluris.Lifecycle.Versions.{
  create_draft, update_draft, fork_latest_published, publish, revoke, revoke_versions, delete_draft,
}
use pluris.Lifecycle.Scripts.{
  upsert_script, set_script, rename_script, delete_script, upsert_action, delete_action,
  seed_module_defaults, restore_defaults, full_reset,
}
use pluris.Lifecycle.Applicability.{
  ConditionPayload, add_version_condition, update_version_condition, remove_version_condition,
  set_conditions_match_mode,
}
use pluris.Lifecycle.Modules.{
  create_module, update_module, delete_module, hard_delete_module, restore_module, seed_bundled,
}
use pluris.Lifecycle.Bundled.{bundled_seed, bundled_seed-AreSeedable}
use pluris.Lifecycle.Course.{stays, Sound, Evolves, Advances, Advances-refl}
use pluris.Lifecycle.Relations.Operations.{create_module-Obeys}
use pluris.Lifecycle.Safety.Rows.{cache_version_manifest-IsSafe}
use pluris.Lifecycle.Safety.{Keeps, Keeps-Order, Advances-trans}
use pluris.Lifecycle.Safety.Imports.{Keeps-Kept}
use pluris.Lifecycle.Safety.Publishing.{IsOrder, publish-IsSafe}
use pluris.Lifecycle.Safety.Versions.{
  create_draft-IsSafe, update_draft-IsSafe, fork_latest_published-IsSafe, revoke-IsSafe,
  revoke_versions-IsSafe, delete_draft-IsSafe,
}
use pluris.Lifecycle.Safety.Scripts.{
  upsert_script-IsSafe, set_script-IsSafe, rename_script-IsSafe, delete_script-IsSafe,
  upsert_action-IsSafe, delete_action-IsSafe, seed_module_defaults-IsSafe, restore_defaults-IsSafe,
  full_reset-IsSafe,
}
use pluris.Lifecycle.Safety.Applicability.{
  add_version_condition-IsSafe, update_version_condition-IsSafe, remove_version_condition-IsSafe,
  set_conditions_match_mode-IsSafe,
}
use pluris.Lifecycle.Safety.Modules.{
  update_module-IsSafe, delete_module-IsSafe, hard_delete_module-IsSafe, restore_module-IsSafe,
}
use pluris.Lifecycle.Safety.Seeding.{seed_bundled-IsSafe}
use pluris.Archives.{Parsed}
use pluris.Archives.Export.{Writer, export_module_bytes}
use pluris.Archives.Import.{Reader, import_module}
use pluris.Archives.Relations.{import_module-Obeys, export_module_bytes-Obeys}

-- The operations of the service with their arguments, and what changes around them: the time, the
-- references to modules, the identities and tenants that there are, and the setting of the retention.
pub data Request : Type 0 where
  adds_module : Option ℕ → Option ℕ → String → String → String → Request
  edits_module : ℕ → String → String → Request
  deletes_module : ℕ → ℕ → String → ℕ → Request
  purges_module : ℕ → ℕ → String → Request
  restores_module : ℕ → Request
  seeds_bundled : Request
  drafts : ℕ → VersionFields → Request
  edits_draft : ℕ → VersionFields → Request
  forks : ℕ → String → Request
  publishes_draft : ℕ → ℕ → Request
  revokes : ℕ → Request
  revokes_module : ℕ → Request
  drops_draft : ℕ → Request
  writes_script : Script → Request
  sets_script : ℕ → String → String → String → Request
  renames_script : ℕ → String → String → Request
  drops_script : ℕ → String → Request
  writes_action : Action → Request
  drops_action : ℕ → String → Request
  seeds_defaults : ℕ → Request
  restores_defaults : ℕ → Request
  resets : ℕ → Request
  adds_condition : ℕ → ConditionPayload → List String → Request
  edits_condition : ℕ → ℕ → ConditionPayload → List String → Request
  drops_condition : ℕ → ℕ → Request
  sets_mode : ℕ → String → Request
  imports : Parsed → ℕ → ℕ → Bool → Request
  exports : Module → List ℕ → Request
  passes_time : ℕ → Request
  refers : List (ℕ × String) → List ℕ → List ℕ → List ℕ → List ℕ → Request
  sets_retention : Option String → Request

module _ (platform : Platform) (reader : Reader) (writer : Writer) where
  -- a request, from a store that tells which of its queries fail
  unfoldable pub perform : Request → Store → Tables
  unfolding create_draft update_draft fork_latest_published publish revoke revoke_versions
      delete_draft upsert_script set_script rename_script delete_script upsert_action delete_action
      seed_module_defaults restore_defaults full_reset add_version_condition
      update_version_condition remove_version_condition set_conditions_match_mode create_module
      update_module delete_module hard_delete_module restore_module seed_bundled import_module
      export_module_bytes
  perform (adds_module tenant owner urn title text) s =
      (create_module tenant owner urn title text s).1.tables
  perform (edits_module i title text) s = (update_module i title text s).1.tables
  perform (deletes_module tenant i urn actor) s = (delete_module tenant i urn actor s).1.tables
  perform (purges_module tenant i urn) s = (hard_delete_module tenant i urn s).1.tables
  perform (restores_module i) s = (restore_module i s).1.tables
  perform seeds_bundled s = (seed_bundled platform bundled_seed s).1.tables
  perform (drafts m fields) s = (create_draft platform m fields s).1.tables
  perform (edits_draft i fields) s = (update_draft platform i fields s).1.tables
  perform (forks m name) s = (fork_latest_published platform m name s).1.tables
  perform (publishes_draft i by) s = (publish platform i by s).1.tables
  perform (revokes i) s = (revoke i s).1.tables
  perform (revokes_module m) s = (revoke_versions platform m s).1.tables
  perform (drops_draft i) s = (delete_draft i s).1.tables
  perform (writes_script sc) s = (upsert_script sc s).1.tables
  perform (sets_script i phase file text) s = (set_script i phase file text s).1.tables
  perform (renames_script i old new) s = (rename_script i old new s).1.tables
  perform (drops_script i name) s = (delete_script i name s).1.tables
  perform (writes_action a) s = (upsert_action a s).1.tables
  perform (drops_action i key) s = (delete_action i key s).1.tables
  perform (seeds_defaults i) s = (seed_module_defaults platform i s).1.tables
  perform (restores_defaults i) s = (restore_defaults platform i s).1.tables
  perform (resets i) s = (full_reset platform i s).1.tables
  perform (adds_condition i p values) s = (add_version_condition platform i p values s).1.tables
  perform (edits_condition i id p values) s =
      (update_version_condition platform i id p values s).1.tables
  perform (drops_condition i id) s = (remove_version_condition i id s).1.tables
  perform (sets_mode i mode) s = (set_conditions_match_mode i mode s).1.tables
  perform (imports p tenant owner copies) s =
      (import_module platform reader p tenant owner copies s).1.tables
  perform (exports row ids) s = (export_module_bytes writer platform row ids s).1.tables
  perform (passes_time n) s = record s.tables { now = n }
  perform (refers links bindings installations identities tenants) s = record s.tables {
    links = links;
    bindings = bindings;
    installations = installations;
    identities = identities;
    tenants = tenants;
  }
  perform (sets_retention mode) s = record s.tables { retention_mode = mode }

  -- Each request comes with the failures of its queries.
  unfoldable pub run : List (Request × List Bool) → Tables → Tables
  unfolding perform
  run [] t = t
  run ((r, faults) ∷ rs) t = run rs (perform r (record { tables = t; faults = faults }))

-- the columns that no guard of a version reads
environment-Advances :
    (t : Tables) (links : List (ℕ × String)) (bindings installations identities tenants : List ℕ)
    (mode : Option String) (now : ℕ)
    → Sound t
    → Advances t (record t {
      links = links;
      bindings = bindings;
      installations = installations;
      identities = identities;
      tenants = tenants;
      retention_mode = mode;
      now = now;
    })
environment-Advances t links bindings installations identities tenants mode now sound = (
  record {
    ids_bounded = sound.ids_bounded;
    ids_distinct = sound.ids_distinct;
    one_published = sound.one_published;
    applicable = sound.applicable;
    modules_bounded = sound.modules_bounded;
    owners_bounded = sound.owners_bounded;
  },
  record {
    ids_grow = omega arith;
    comes = λ w i. inl (
      w,
      i,
      record { same_id = refl; same_module = refl; course = stays; frozen = λ e. (refl, refl) },
    );
  },
)

module _ (platform : Platform) (reader : Reader) (writer : Writer)
    (order : IsOrder platform.by_seq_and_name) where
  perform-IsSafe :
      (r : Request) (s : Store)
      → Sound s.tables
      → Advances s.tables (perform platform reader writer r s)
  unfolding perform
  perform-IsSafe (adds_module tenant owner urn title text) =
      create_module-Obeys Keeps Keeps-Kept tenant owner urn title text
  perform-IsSafe (edits_module i title text) = update_module-IsSafe i title text
  perform-IsSafe (deletes_module tenant i urn actor) = delete_module-IsSafe tenant i urn actor
  perform-IsSafe (purges_module tenant i urn) = hard_delete_module-IsSafe tenant i urn
  perform-IsSafe (restores_module i) = restore_module-IsSafe i
  perform-IsSafe seeds_bundled = seed_bundled-IsSafe platform bundled_seed bundled_seed-AreSeedable
  perform-IsSafe (drafts m fields) = create_draft-IsSafe platform m fields
  perform-IsSafe (edits_draft i fields) = update_draft-IsSafe platform i fields
  perform-IsSafe (forks m name) = fork_latest_published-IsSafe platform m name
  perform-IsSafe (publishes_draft i by) = publish-IsSafe platform order i by
  perform-IsSafe (revokes i) = revoke-IsSafe i
  perform-IsSafe (revokes_module m) = revoke_versions-IsSafe platform m
  perform-IsSafe (drops_draft i) = delete_draft-IsSafe i
  perform-IsSafe (writes_script sc) = upsert_script-IsSafe sc
  perform-IsSafe (sets_script i phase file text) = set_script-IsSafe i phase file text
  perform-IsSafe (renames_script i old new) = rename_script-IsSafe i old new
  perform-IsSafe (drops_script i name) = delete_script-IsSafe i name
  perform-IsSafe (writes_action a) = upsert_action-IsSafe a
  perform-IsSafe (drops_action i key) = delete_action-IsSafe i key
  perform-IsSafe (seeds_defaults i) = seed_module_defaults-IsSafe platform i
  perform-IsSafe (restores_defaults i) = restore_defaults-IsSafe platform i
  perform-IsSafe (resets i) = full_reset-IsSafe platform i
  perform-IsSafe (adds_condition i p values) = add_version_condition-IsSafe platform i p values
  perform-IsSafe (edits_condition i id p values) =
      update_version_condition-IsSafe platform i id p values
  perform-IsSafe (drops_condition i id) = remove_version_condition-IsSafe i id
  perform-IsSafe (sets_mode i mode) = set_conditions_match_mode-IsSafe i mode
  perform-IsSafe (imports p tenant owner copies) =
      import_module-Obeys Keeps Keeps-Kept platform reader p tenant owner copies
  perform-IsSafe (exports row ids) =
      export_module_bytes-Obeys Keeps Keeps-Order cache_version_manifest-IsSafe writer platform row
        ids
  perform-IsSafe (passes_time n) = λ s.
      let t = s.tables in
      environment-Advances t t.links t.bindings t.installations t.identities t.tenants
        t.retention_mode n
  perform-IsSafe (refers links bindings installations identities tenants) = λ s.
      environment-Advances s.tables links bindings installations identities tenants
        s.tables.retention_mode s.tables.now
  perform-IsSafe (sets_retention mode) = λ s.
      let t = s.tables in
      environment-Advances t t.links t.bindings t.installations t.identities t.tenants mode t.now

  run-Advances :
      (rs : List (Request × List Bool)) (t : Tables)
      → Sound t
      → Advances t (run platform reader writer rs t)
  unfolding run
  run-Advances [] t sound = Advances-refl t sound
  run-Advances ((r, faults) ∷ rs) t sound =
      Advances-trans (perform-IsSafe r (record { tables = t; faults = faults }) sound) (
        run-Advances rs (perform platform reader writer r (record { tables = t; faults = faults })))

  -- The invariant of the tables survives every sequence of requests, whichever of their queries fail:
  -- no two versions have the same id, a module has at most one published version, and every version
  -- that is not a draft has a script named "apply". ORDER BY is assumed to add no row.
  pub run-IsSound :
      (rs : List (Request × List Bool)) (t : Tables)
      → Sound t
      → Sound (run platform reader writer rs t)
  run-IsSound rs t sound = (run-Advances rs t sound).0

  -- After every sequence of requests on tables that satisfy the invariant, whichever of their queries
  -- fail, each version either was created since and went from draft to its state by the steps of the
  -- lifecycle, or follows a version of the earlier tables: with the same id and module, in a state
  -- reached by steps of the lifecycle, and, if that version was no draft, with the same columns but
  -- for the state, the successor and the manifest that an export caches, and with the same scripts, actions and conditions. ORDER BY is
  -- assumed to add no row.
  pub run-Evolves :
      (rs : List (Request × List Bool)) (t : Tables)
      → Sound t
      → Evolves t (run platform reader writer rs t)
  run-Evolves rs t sound = (run-Advances rs t sound).1
