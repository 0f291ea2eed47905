-- ===== src/Lifecycle/Modules.antt =====
-- pkg/services/policymodules.go, "Module CRUD" and the seeding of the bundled modules.
use pluris.Prelude.{
  ℕ, String, Bool, true, false, Option, none, some, List, [], ◌∷◌, if◌then◌else◌, nat_eq, ◌==◌,
  string_eq, Result, ok, err, pure, fail, ◌>>=◌, ◌>>◌,
}
use pluris.Lifecycle.{
  draft, Dependency, SandboxProfile, Manifest, Script, Module, Error, no_rows, unique_violation,
  module_referenced, Platform, Operation, query, attempt,
}
use pluris.Lifecycle.Queries.{create_version, publish_version}
use pluris.Lifecycle.Queries.Contents.{upsert_script_row}
use pluris.Lifecycle.Queries.Modules.{
  create_module_row, get_module_by_urn, set_module_owner, update_module_row, soft_delete_module,
  restore_module_row, delete_module_row, count_links, count_bindings, count_installations,
  get_retention_mode,
}
use pluris.Lifecycle.Versions.{marshal_or, non_empty}
use pluris.Lifecycle.Scripts.{phase_language}

abbrev pub is_nil : Option ℕ → Bool
is_nil none = true
is_nil (some id) = false

abbrev pub owned : Option ℕ → Module → Operation Module
owned none row = pure row
owned (some owner) row =
    query (set_module_owner row.id (some owner))
    >> pure (record row { owner_identity_id = some owner })

-- `CreateModule`: without a tenant the module is bundled.
unfoldable pub create_module : Option ℕ → Option ℕ → String → String → String → Operation Module
unfolding create_module_row set_module_owner
create_module tenant_id owner urn title description =
    query (create_module_row urn tenant_id title (non_empty description) (is_nil tenant_id))
    >>= owned owner

-- `UpdateModule`
unfoldable pub update_module : ℕ → String → String → Operation Module
unfolding update_module_row
update_module i title description = query (update_module_row i title (non_empty description))

abbrev pub none_left : ℕ → Operation (Unit {0})
none_left n = if nat_eq n 0 then pure tt else fail module_referenced

-- `hardDeletePolicyModule`, which is also `PermanentlyDeleteModule`
unfoldable pub hard_delete_module : ℕ → ℕ → String → Operation (Unit {0})
unfolding delete_module_row
hard_delete_module tenant_id i urn =
    query (count_links tenant_id urn)
    >>= none_left
    >> (query (count_bindings i) >>= none_left)
    >> (query (count_installations i) >>= none_left)
    >> query (delete_module_row i)

-- `DeleteModule`
unfoldable pub delete_module : ℕ → ℕ → String → ℕ → Operation (Unit {0})
unfolding hard_delete_module soft_delete_module
delete_module tenant_id i urn actor = query get_retention_mode >>= λ mode.
    if mode == "immediate"
    then hard_delete_module tenant_id i urn
    else (query (soft_delete_module i actor) >> pure tt)

-- `RestoreModule`
unfoldable pub restore_module : ℕ → Operation (Unit {0})
unfolding restore_module_row
restore_module i = query (restore_module_row i) >> pure tt

-- `seedScript`, `seedVersion` and `seedModule`; the file name of a script is not read.
pub record SeedScript : Type 0 where
  pub phase : String
  pub source : String

pub record SeedVersion : Type 0 where
  pub version : String
  pub scope : String
  pub target_os : List String
  pub satisfies : List String
  pub depends_on : List Dependency
  pub conflicts : List String
  pub sandbox : SandboxProfile
  pub report_schema : String
  pub scripts : List SeedScript

pub record SeedModule : Type 0 where
  pub urn : String
  pub title : String
  pub description : String
  pub versions : List SeedVersion

abbrev pub seed_row : ℕ → SeedScript → Script
seed_row i sc = record {
  version_id = i;
  name = sc.phase;
  language = phase_language sc.phase;
  source = sc.source;
  origin = "custom";
  seq = 0;
}

unfoldable pub seed_scripts : ℕ → List SeedScript → Operation (Unit {0})
unfolding upsert_script_row
seed_scripts i [] = pure tt
seed_scripts i (sc ∷ scs) = query (upsert_script_row (seed_row i sc)) >> seed_scripts i scs

unfoldable pub fill_and_publish : ℕ → List SeedScript → Operation (Unit {0})
unfolding publish_version seed_scripts
fill_and_publish i scs = seed_scripts i scs >> (query (publish_version i none) >> pure tt)

module _ (platform : Platform) where
  abbrev pub seed_manifest : SeedVersion → Manifest
  seed_manifest sv = record {
    version = sv.version;
    target_os = marshal_or (platform.marshal_strings sv.target_os) "[]";
    scope = sv.scope;
    satisfies = marshal_or (platform.marshal_strings sv.satisfies) "[]";
    parameters_schema = none;
    depends_on = some (marshal_or (platform.marshal_dependencies sv.depends_on) "[]");
    conflicts = some (marshal_or (platform.marshal_strings sv.conflicts) "[]");
    sandbox_profile = marshal_or (platform.marshal_sandbox sv.sandbox) "{}";
    report_schema = sv.report_schema;
    manifest_yaml = "";
  }

  unfoldable pub seed_version : ℕ → SeedVersion → Operation (Unit {0})
  unfolding create_version fill_and_publish
  seed_version m sv = query (create_version m draft (seed_manifest sv)) >>= λ ver.
      fill_and_publish ver.id sv.scripts

  unfoldable pub seed_versions : ℕ → List SeedVersion → Operation (Unit {0})
  unfolding seed_version
  seed_versions m [] = pure tt
  seed_versions m (sv ∷ svs) = seed_version m sv >> seed_versions m svs

  -- A lost race for the URN is tolerated.
  abbrev pub seeded_module : SeedModule → Result Error Module → Operation (Unit {0})
  seeded_module sm (ok row) = seed_versions row.id sm.versions
  seeded_module sm (err unique_violation) = pure tt
  seeded_module sm (err e) = fail e

  abbrev pub seed_if_absent : SeedModule → Result Error Module → Operation (Unit {0})
  seed_if_absent sm (ok present) = pure tt
  seed_if_absent sm (err no_rows) =
      attempt (query (create_module_row sm.urn none sm.title (non_empty sm.description) true))
      >>= seeded_module sm
  seed_if_absent sm (err e) = fail e

  -- `SeedBundled`, over a list of modules in the place of `bundledSeed`
  unfoldable pub seed_bundled : List SeedModule → Operation (Unit {0})
  unfolding seed_versions create_module_row
  seed_bundled [] = pure tt
  seed_bundled (sm ∷ sms) =
      attempt (query (get_module_by_urn sm.urn)) >>= seed_if_absent sm >> seed_bundled sms
