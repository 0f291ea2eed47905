-- ===== src/Archives/Export.antt =====
-- pkg/services/policymodules_export.go: archives of policy modules are written. YAML, JSON, gzip, tar,
-- sort.Slice and the printing of numbers enter as a `Writer`.
use Prim.Native.String
use pluris.Prelude.{
  ℕ, String, Bool, not, Option, none, some, List, [], ◌∷◌, ◌++◌, map, if◌then◌else◌, nat_eq, ◌==◌,
  string_eq, pure, fail, ◌>>=◌, ◌>>◌,
}
use pluris.Lifecycle.{
  State, draft, published, superseded, revoked, Dependency, SandboxProfile, VersionFields, Version,
  Script, Condition, Module, Platform, Operation, query, attempt, is_published, marshal_failed,
  write_failed, foreign_version, no_exportable_version,
}
use pluris.Lifecycle.Queries.{get_version, list_versions, cache_version_manifest, first, keep_where}
use pluris.Lifecycle.Queries.Contents.{list_scripts}
use pluris.Lifecycle.Queries.Applicability.{list_conditions}
use pluris.Archives.{
  Bytes, format_version, ModuleManifest, Test, Requirement, ScriptEntry, VersionManifest,
}
use pluris.Archives.Names.{sanitize_filename, script_path}
use pluris.Archives.Stored.{Entry}
use pluris.Archives.Paths.{entry_name}

-- `accepts` says whether writing an entry works, and `pack` gives the compressed archive. What does
-- not parse as JSON reads as an empty list.
pub record Writer : Type 0 where
  pub marshal_module : ModuleManifest → Option Bytes
  pub marshal_version : VersionManifest → Option Bytes
  pub to_bytes : String → Bytes
  pub to_text : Bytes → String
  pub accepts : String → Bytes → Bool
  pub pack : List Entry → Bytes
  pub read_strings : String → List String
  pub read_dependencies : String → List Dependency
  pub read_sandbox : String → SandboxProfile
  pub trim_space : String → String
  pub two_digits : ℕ → String
  pub by_name_and_seq : List Script → List Script

-- `moduleOrigin`
unfoldable pub module_origin : Module → String
module_origin row =
    if not (row.origin == "") then row.origin else (if row.is_bundled then "bundled" else "tenant")

abbrev pub or_blank : Option String → String
or_blank none = ""
or_blank (some s) = s

abbrev pub state_text : State → String
state_text draft = "draft"
state_text published = "published"
state_text superseded = "superseded"
state_text revoked = "revoked"

abbrev pub requirement : Dependency → Requirement
requirement d = record { module_urn = d.module_urn; constraint = d.version_constraint }

unfoldable pub module_manifest_of : Module → ModuleManifest
unfolding module_origin
module_manifest_of row = record {
  format = some format_version;
  urn = row.module_urn;
  title = row.title;
  description = or_blank row.description;
  origin = module_origin row;
}

module _ (writer : Writer) where
  abbrev strings_or_none : Option String → List String
  strings_or_none none = []
  strings_or_none (some text) = writer.read_strings text

  abbrev dependencies_or_none : Option String → List Dependency
  dependencies_or_none none = []
  dependencies_or_none (some text) = writer.read_dependencies text

  -- `FieldsFromVersionRow`
  unfoldable pub fields_from_version_row : Version → VersionFields
  fields_from_version_row v =
      let m = v.manifest in
      record {
        version = m.version;
        target_os = writer.read_strings m.target_os;
        scope = m.scope;
        satisfies = writer.read_strings m.satisfies;
        parameters_schema = or_blank m.parameters_schema;
        depends_on = dependencies_or_none m.depends_on;
        conflicts = strings_or_none m.conflicts;
        sandbox_profile = writer.read_sandbox m.sandbox_profile;
        report_schema = m.report_schema;
        manifest_yaml = m.manifest_yaml;
      }

  abbrev test_of : Condition → Test
  test_of c = record {
    kind = c.kind;
    param_path = c.param_path;
    script_source = c.script_source;
    script_ref = c.script_ref;
    ref_source = "";
    operator = c.operator;
    values = writer.read_strings c.value_json;
  }

  abbrev script_entry : Script → ScriptEntry
  script_entry sc = record {
    phase = sc.name;
    seq = writer.two_digits sc.seq;
    filename = sanitize_filename writer.trim_space writer.two_digits sc.name sc.name;
  }

  -- the manifest that `buildVersionManifest` gives for the rows that it reads
  unfoldable pub manifest_of : Version → List Condition → List Script → VersionManifest
  unfolding fields_from_version_row sanitize_filename
  manifest_of v conds scripts =
      let fields = fields_from_version_row v in
      record {
        version = v.manifest.version;
        state = state_text v.state;
        target_os = fields.target_os;
        scope = v.manifest.scope;
        satisfies = fields.satisfies;
        parameters = fields.parameters_schema;
        sandbox = v.manifest.sandbox_profile;
        report_schema = v.manifest.report_schema;
        conditions_match_mode = v.conditions_match_mode;
        tests = map test_of conds;
        depends_on = map requirement fields.depends_on;
        conflicts = fields.conflicts;
        scripts = map script_entry (writer.by_name_and_seq scripts);
      }

  -- `writeFile`, with the entries so far
  abbrev pub write_file : String → Bytes → List Entry → Operation (List Entry)
  write_file name content es =
      if writer.accepts name content then pure (es ++ (name, content) ∷ []) else fail write_failed

  abbrev pub marshalled : Option Bytes → Operation Bytes
  marshalled none = fail marshal_failed
  marshalled (some content) = pure content

  abbrev pub script_name : String → Script → String
  script_name version sc =
      entry_name version
        (String.◌++◌ "scripts/" (script_path writer.trim_space writer.two_digits sc))

  unfoldable pub write_scripts : String → List Script → List Entry → Operation (List Entry)
  unfolding script_path
  write_scripts version [] es = pure es
  write_scripts version (sc ∷ scs) es =
      write_file (script_name version sc) (writer.to_bytes sc.source) es
      >>= write_scripts version scs

  module _ (platform : Platform) where
    -- `buildVersionManifest`
    unfoldable pub build_version_manifest : Version → Operation (VersionManifest × List Script)
    unfolding manifest_of
    build_version_manifest v = query (list_conditions platform v.id) >>= λ conds.
        query (list_scripts platform v.id) >>= λ scripts.
        pure (manifest_of v conds scripts, writer.by_name_and_seq scripts)

    -- what the loop of `ExportModule` does with one version
    abbrev pub write_version :
        Version → List Entry → VersionManifest × List Script → Operation (List Entry)
    write_version v es (manifest, scripts) =
        marshalled (writer.marshal_version manifest) >>= λ yaml.
        write_file (entry_name v.manifest.version "version.yaml") yaml es
        >>= write_scripts v.manifest.version scripts
        >>= λ written.
            attempt (query (cache_version_manifest v.id (writer.to_text yaml))) >> pure written

    abbrev pub export_version : ℕ → List Entry → Version → Operation (List Entry)
    export_version module_id es v =
        if not (nat_eq v.module_id module_id)
        then fail foreign_version
        else (build_version_manifest v >>= write_version v es)

    unfoldable pub export_versions : ℕ → List ℕ → List Entry → Operation (List Entry)
    unfolding build_version_manifest write_scripts cache_version_manifest
    export_versions module_id [] es = pure es
    export_versions module_id (i ∷ is) es =
        query (get_version i) >>= export_version module_id es >>= export_versions module_id is

    -- `ExportModule`, up to the closing of the archive
    unfoldable pub export_entries : Module → List ℕ → Operation (List Entry)
    unfolding module_manifest_of export_versions
    export_entries row ids = marshalled (writer.marshal_module (module_manifest_of row)) >>= λ yaml.
        write_file "module.yaml" yaml [] >>= export_versions row.id ids

    -- `ExportModuleBytes`
    unfoldable pub export_module_bytes : Module → List ℕ → Operation Bytes
    unfolding export_entries
    export_module_bytes row ids = export_entries row ids >>= λ es. pure (writer.pack es)

-- `ExportVersionIDs`: 0 stands for no explicit id.
abbrev ids_of : List Version → List ℕ
ids_of = map (λ v. v.id)

abbrev is_exportable : Version → Bool
is_exportable v = not (state_text v.state == "revoked")

abbrev some_id : List ℕ → Operation (List ℕ)
some_id [] = fail no_exportable_version
some_id (i ∷ is) = pure (i ∷ is)

abbrev one_id : Option Version → Operation (List ℕ)
one_id none = fail no_exportable_version
one_id (some v) = pure (v.id ∷ [])

abbrev or_latest : Version → Option Version → Operation (List ℕ)
or_latest latest none = pure (latest.id ∷ [])
or_latest latest (some v) = pure (v.id ∷ [])

unfoldable pub chosen_ids : ℕ → Bool → List Version → Operation (List ℕ)
chosen_ids explicit all [] = fail no_exportable_version
chosen_ids explicit all (v ∷ vs) =
    if not (nat_eq explicit 0)
    then one_id (first (λ r. nat_eq r.id explicit) (v ∷ vs))
    else (if all
        then some_id (ids_of (keep_where is_exportable (v ∷ vs)))
        else or_latest v (first (λ r. is_published r.state) (v ∷ vs)))

module _ (platform : Platform) where
  unfoldable pub export_version_ids : ℕ → ℕ → Bool → Operation (List ℕ)
  unfolding chosen_ids
  export_version_ids module_id explicit all =
      query (list_versions platform module_id) >>= chosen_ids explicit all
