-- ===== src/Archives/Tests/Exports.antt =====
-- An export that is read again.
use pluris.Prelude.{true, none, some, List, [], ◌∷◌}
use pluris.Lifecycle.{Version, published, Store}
use pluris.Archives.{
  Bytes, ModuleManifest, VersionManifest, ScriptEntry, Test, Parsed, Member, irregular, regular,
  Codec, no_files, Files, scan, too_large,
}
use pluris.Lifecycle.Queries.{cached}
use pluris.Lifecycle.Scripts.{default_apply}
use pluris.Archives.Stored.{Entry, members as members_of}
use pluris.Archives.Export.{Writer, module_manifest_of}
use pluris.Archives.Described.{manifest_in}
use pluris.Archives.Tests.{plain, strokes, codec, tables, row}

-- a module with one version, which has the default script
abbrev exported_version : Version
exported_version = record {
  id = 1;
  module_id = 1;
  state = published;
  manifest = record {
    version = "1";
    target_os = "[]";
    scope = "machine";
    satisfies = "[]";
    parameters_schema = none;
    depends_on = some "[]";
    conflicts = some "[]";
    sandbox_profile = "{}";
    report_schema = "";
    manifest_yaml = "";
  };
  published_at = some 100;
  published_by = some 4;
  superseded_by_version = none;
  created_at = 100;
  conditions_match_mode = "all";
}

abbrev exporting : Store
exporting = record {
  tables = record tables { versions = exported_version ∷ []; scripts = default_apply 1 ∷ [] };
  faults = [];
}

abbrev writer : Writer
writer = record {
  marshal_module = λ m. some (1 ∷ []);
  marshal_version = λ m. some (2 ∷ []);
  to_bytes = λ s. [];
  to_text = λ bytes. "cached";
  accepts = λ name content. true;
  pack = λ es. 3 ∷ [];
  read_strings = λ s. [];
  read_dependencies = λ s. [];
  read_sandbox = strokes.read_sandbox;
  trim_space = λ s. s;
  two_digits = λ n. "00";
  by_name_and_seq = λ xs. xs;
}

abbrev written : List Entry
written =
    ("module.yaml", 1 ∷ []) ∷ ("1/version.yaml", 2 ∷ []) ∷ ("1/scripts/apply/00_apply", []) ∷ []

abbrev reading : Codec
reading = record codec {
  read_archive = λ bytes. some (members_of written);
  parse_module = λ bytes. some (module_manifest_of (row 1 "acme"));
  parse_version = λ bytes. some (manifest_in writer plain exporting.tables exported_version);
}

abbrev after_export : Store
after_export = record exporting {
  tables = record exporting.tables { versions = cached "cached" exported_version ∷ [] };
}
