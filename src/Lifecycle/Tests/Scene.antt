-- ===== src/Lifecycle/Tests/Scene.antt =====
-- A module with a published version and a draft, and an archive of it.
use pluris.Prelude.{false, ℕ, zero, suc, String, Bool, true, false, none, some, List, [], ◌∷◌}
use pluris.Lifecycle.{draft, published, Manifest, Version, Module, Tables, Platform, VersionFields}
use pluris.Lifecycle.Scripts.{default_apply, default_action}
use pluris.Lifecycle.Applicability.{ConditionPayload}
use pluris.Lifecycle.Histories.{
  Request, adds_module, drafts, seeds_defaults, publishes_draft, forks, exports,
}
use pluris.Archives.{Parsed}
use pluris.Archives.Export.{Writer}
use pluris.Archives.Import.{Reader}

-- rows come in the order in which they were written
abbrev pub plain : Platform
plain = record {
  marshal_strings = λ xs. some "[]";
  marshal_dependencies = λ xs. some "[]";
  marshal_sandbox = λ p. some "{}";
  trim_space = λ s. s;
  by_created_at = λ xs. xs;
  by_published_at = λ xs. xs;
  by_seq_and_name = λ xs. xs;
  by_seq_and_id = λ xs. xs;
}

-- numbers print as tallies
abbrev pub tally : ℕ → String
tally zero = ""
tally (suc n) = String.◌∷◌ "i" (tally n)

abbrev pub printer : Reader
printer = record {
  itoa = tally;
  read_sandbox = λ s. record { fs_read = []; fs_write = []; net_egress = []; user = "" };
}

abbrev pub typist : Writer
typist = record {
  marshal_module = λ m. some [];
  marshal_version = λ m. some [];
  to_bytes = λ s. [];
  to_text = λ bytes. "cached";
  accepts = λ name content. true;
  pack = λ es. [];
  read_strings = λ s. [];
  read_dependencies = λ s. [];
  read_sandbox = printer.read_sandbox;
  trim_space = λ s. s;
  two_digits = tally;
  by_name_and_seq = λ xs. xs;
}

abbrev pub empty : Tables
empty = record {
  modules = [];
  versions = [];
  scripts = [];
  actions = [];
  conditions = [];
  links = [];
  bindings = [];
  installations = [];
  identities = 4 ∷ 5 ∷ [];
  tenants = 1 ∷ [];
  retention_mode = some "soft";
  next_module = 1;
  next_version = 1;
  next_condition = 1;
  now = 100;
}

abbrev pub fields : VersionFields
fields = record {
  version = "1.0.0";
  target_os = [];
  scope = "machine";
  satisfies = [];
  parameters_schema = "";
  depends_on = [];
  conflicts = [];
  sandbox_profile = record { fs_read = []; fs_write = []; net_egress = []; user = "root" };
  report_schema = "";
  manifest_yaml = "";
}

abbrev pub screen : Module
screen = record {
  id = 1;
  module_urn = "acme.screen";
  tenant_id = some 1;
  title = "Screen";
  description = none;
  is_bundled = false;
  created_at = 100;
  owner_identity_id = some 4;
  deleted_at = none;
  deleted_by = none;
  origin = "";
}

-- a module, a published version, and a draft forked from it
abbrev pub requests : List (Request × List Bool)
requests =
    (adds_module (some 1) (some 4) "acme.screen" "Screen" "", [])
    ∷ (drafts 1 fields, [])
    ∷ (seeds_defaults 1, [])
    ∷ (publishes_draft 1 4, false ∷ false ∷ false ∷ false ∷ true ∷ [])
    ∷ (publishes_draft 1 4, [])
    ∷ (forks 1 "1.1.0", [])
    ∷ (exports screen (1 ∷ []), [])
    ∷ []

abbrev pub manifest : String → Manifest
manifest version = record {
  version = version;
  target_os = "[]";
  scope = "machine";
  satisfies = "[]";
  parameters_schema = none;
  depends_on = some "[]";
  conflicts = some "[]";
  sandbox_profile = "{}";
  report_schema = "";
  manifest_yaml = "";
}

abbrev pub current : Version
current = record {
  id = 1;
  module_id = 1;
  state = published;
  manifest = record (manifest "1.0.0") { manifest_yaml = "cached" };
  published_at = some 100;
  published_by = some 4;
  superseded_by_version = none;
  created_at = 100;
  conditions_match_mode = "all";
}

abbrev pub candidate : Version
candidate = record {
  id = 2;
  module_id = 1;
  state = draft;
  manifest = manifest "1.1.0";
  published_at = none;
  published_by = none;
  superseded_by_version = none;
  created_at = 100;
  conditions_match_mode = "all";
}

abbrev pub two_versions : Tables
two_versions = record empty {
  modules = screen ∷ [];
  versions = current ∷ candidate ∷ [];
  scripts = default_apply 1 ∷ default_apply 2 ∷ [];
  actions = default_action 1 "apply" "apply" 0 ∷ [];
  next_module = 2;
  next_version = 3;
}

abbrev pub os_condition : ConditionPayload
os_condition = record {
  kind = "";
  param_path = "asset/os/family";
  operator = "equals";
  script_source = "";
  script_ref = "";
}

abbrev pub one_draft : Tables
one_draft = record empty {
  modules = screen ∷ [];
  versions = record candidate { id = 1 } ∷ [];
  next_module = 2;
  next_version = 2;
}

-- an archive of the module above, whose version says that it is published
abbrev pub archive : Parsed
archive = record {
  module_manifest = record {
    format = some 1;
    urn = "acme.screen";
    title = "Screen";
    description = "";
    origin = "";
  };
  versions =
      record {
        manifest = record {
          version = "1.0.0";
          state = "published";
          target_os = [];
          scope = "";
          satisfies = [];
          parameters = "";
          sandbox = "";
          report_schema = "";
          conditions_match_mode = "any";
          tests = [];
          depends_on = [];
          conflicts = [];
          scripts = record { phase = "apply"; seq = "00"; filename = "apply" } ∷ [];
        };
        scripts = ("apply/00_apply", "true") ∷ [];
      }
      ∷ [];
}
