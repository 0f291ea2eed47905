-- ===== src/Archives/Import.antt =====
-- `ImportModule` and `versionFieldsFromManifest` of pkg/services/policymodules_import.go.
use Prim.Native.String
use pluris.Prelude.{
  ℕ, zero, suc, String, Bool, ◌&&◌, not, Option, none, some, List, [], ◌∷◌, if◌then◌else◌, length,
  lookup, map, ◌==◌, string_eq, Result, ok, err, pure, fail, ◌>>=◌, ◌>>◌,
}
use pluris.Lifecycle.{
  Dependency, SandboxProfile, VersionFields, Version, Module, Error, urn_conflict, does_not_end,
  Platform, Operation, query, attempt,
}
use pluris.Lifecycle.Queries.Modules.{get_module_row, get_any_module_by_urn, set_module_origin}
use pluris.Lifecycle.Versions.{create_draft}
use pluris.Lifecycle.Scripts.{set_script}
use pluris.Lifecycle.Applicability.{
  ConditionPayload, add_version_condition, set_conditions_match_mode,
}
use pluris.Lifecycle.Modules.{create_module}
use pluris.Archives.{Test, Requirement, ScriptEntry, VersionManifest, ParsedVersion, Parsed}

-- strconv.Itoa, and the profile that json.Valid and json.Unmarshal read
pub record Reader : Type 0 where
  pub itoa : ℕ → String
  pub read_sandbox : String → SandboxProfile

abbrev or_machine : String → String
or_machine scope = if scope == "" then "machine" else scope

abbrev dependency : Requirement → Dependency
dependency r = record {
  module_urn = r.module_urn;
  version_constraint = if r.constraint == "" then "*" else r.constraint;
}

-- Portability: a reference with embedded source becomes inline source.
abbrev is_embedded : Test → Bool
is_embedded t = not (t.script_ref == "") && not (t.ref_source == "")

abbrev pub payload : Test → ConditionPayload
payload t = record {
  kind = t.kind;
  param_path = t.param_path;
  operator = t.operator;
  script_source = if is_embedded t then t.ref_source else t.script_source;
  script_ref = if is_embedded t then "" else t.script_ref;
}

-- the name of a script's file under `scripts/`
unfoldable pub script_key : ScriptEntry → String
script_key e =
    String.◌++◌ e.phase (String.◌++◌ "/" (String.◌++◌ e.seq (String.◌++◌ "_" e.filename)))

abbrev pub import_script : ℕ → ScriptEntry → Option String → Operation (Unit {0})
import_script i e none = pure tt
import_script i e (some source) = set_script i e.phase e.filename source >> pure tt

unfoldable pub import_scripts : ℕ → ParsedVersion → List ScriptEntry → Operation (Unit {0})
unfolding script_key set_script
import_scripts i v [] = pure tt
import_scripts i v (e ∷ es) =
    import_script i e (lookup (script_key e) v.scripts) >> import_scripts i v es

abbrev pub import_mode : ℕ → String → Operation (Unit {0})
import_mode i mode = if mode == "any" then set_conditions_match_mode i "any" else pure tt

module _ (platform : Platform) (reader : Reader) where
  -- `versionFieldsFromManifest`
  unfoldable pub version_fields_from_manifest : VersionManifest → VersionFields
  version_fields_from_manifest m = record {
    version = m.version;
    target_os = m.target_os;
    scope = or_machine m.scope;
    satisfies = m.satisfies;
    parameters_schema = m.parameters;
    depends_on = map dependency m.depends_on;
    conflicts = m.conflicts;
    sandbox_profile = reader.read_sandbox m.sandbox;
    report_schema = m.report_schema;
    manifest_yaml = "";
  }

  unfoldable pub import_tests : ℕ → List Test → Operation (Unit {0})
  unfolding add_version_condition
  import_tests i [] = pure tt
  import_tests i (t ∷ ts) =
      add_version_condition platform i (payload t) t.values >> import_tests i ts

  unfoldable pub import_contents : ParsedVersion → Version → Operation (Unit {0})
  unfolding import_scripts import_tests set_conditions_match_mode
  import_contents v d =
      import_scripts d.id v v.manifest.scripts
      >> (import_tests d.id v.manifest.tests >> import_mode d.id v.manifest.conditions_match_mode)

  unfoldable pub import_versions : ℕ → List ParsedVersion → Operation (Unit {0})
  unfolding create_draft version_fields_from_manifest import_contents
  import_versions m [] = pure tt
  import_versions m (v ∷ vs) =
      create_draft platform m (version_fields_from_manifest v.manifest)
      >>= import_contents v
      >> import_versions m vs

  -- the loop over the candidates for a copy, with `none` where the fuel is used up
  abbrev pub candidate : String → ℕ → String
  candidate urn n = String.◌++◌ (String.◌++◌ urn "-imported-") (reader.itoa n)

  abbrev pub next_candidate :
      String → Operation (Option String) → Result Error Module → Operation (Option String)
  next_candidate name later (ok taken) = later
  next_candidate name later (err e) = pure (some name)

  unfoldable pub free_urn : ℕ → String → ℕ → Operation (Option String)
  free_urn zero urn n = pure none
  free_urn (suc fuel) urn n =
      let later = free_urn fuel urn (suc n) in
      attempt (query (get_any_module_by_urn (candidate urn n)))
      >>= next_candidate (candidate urn n) later

  abbrev pub named : Option String → Operation String
  named none = fail does_not_end
  named (some urn) = pure urn

  -- Each candidate that is taken is the URN of a module, so that one more try than modules is enough.
  unfoldable pub copy_urn : String → Operation String
  unfolding free_urn
  copy_urn urn s = (free_urn (suc (length s.tables.modules)) urn 1 >>= named) s

  abbrev pub chosen_urn : String → Bool → Result Error Module → Operation String
  chosen_urn urn as_copy (err e) = pure urn
  chosen_urn urn as_copy (ok taken) = if as_copy then copy_urn urn else fail urn_conflict

  unfoldable pub import_as : Parsed → ℕ → ℕ → String → Operation Module
  unfolding create_module set_module_origin import_versions
  import_as p tenant_id owner_id urn =
      create_module (some tenant_id) (some owner_id) urn p.module_manifest.title
        p.module_manifest.description
      >>= λ row.
          query (set_module_origin row.id "imported")
          >> (import_versions row.id p.versions >> query (get_module_row row.id))

  -- `ImportModule`
  unfoldable pub import_module : Parsed → ℕ → ℕ → Bool → Operation Module
  unfolding copy_urn import_as
  import_module p tenant_id owner_id as_copy =
      attempt (query (get_any_module_by_urn p.module_manifest.urn))
      >>= chosen_urn p.module_manifest.urn as_copy
      >>= import_as p tenant_id owner_id
