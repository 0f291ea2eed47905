-- ===== src/Archives/Tests.antt =====
-- A small archive, and an import that breaks off.
mod Exports
use pluris.Prelude.{
  ℕ, zero, suc, String, true, false, none, some, List, [], ◌∷◌, length, ◌≡◌, refl, ap, arith, ok,
  err, any, All, Bool, ◌==◌, string_eq, eq_iff, if◌then◌else◌, ◌≢◌, ◌↔◌, ◌≤◌, inl, inr, Bool-cases,
  false,
}
use pluris.Lifecycle.{Version, published, Module, Tables, Store, Platform, invalid_lifecycle_phase}
use pluris.Archives.{
  Bytes, ModuleManifest, VersionManifest, ScriptEntry, Test, Parsed, Member, irregular, regular,
  Codec, no_files, Files, scan, parse_pmdl, too_large, invalid, is_unsafe, max_entries,
  max_archive_bytes,
}
use pluris.Archives.Limits.{file_count, byte_count, scan-IsFine}
use pluris.Archives.Inside.{later_parts, IsCleaned, IsAllowed, scan_iff}
use pluris.Archives.Names.{sanitize_filename}
use pluris.Archives.Import.{Reader, candidate, copy_urn, import_module}
use pluris.Lifecycle.Queries.{cached}
use pluris.Lifecycle.Scripts.{default_apply}
use pluris.Archives.Stored.{Entry, members as members_of}
use pluris.Archives.Blocks.{Block, dir}
use pluris.Archives.Reading.{parsed_versions}
use pluris.Archives.Export.{Writer, module_manifest_of, export_entries}
use pluris.Archives.Described.{manifest_in, DescribesAll}
use pluris.Archives.Naming.{IsFree, copy_urn-Finds}

abbrev plain : Platform
plain = record {
  marshal_strings = λ xs. some "[]";
  marshal_dependencies = λ xs. some "[]";
  marshal_sandbox = λ p. some "{}";
  trim_space = λ s. s;
  by_created_at = λ xs. xs;
  by_published_at = λ xs. xs;
  by_seq_and_name = λ xs. xs;
  by_seq_and_id = λ xs. xs;
}

-- a number as that many strokes
abbrev tally : ℕ → String
tally zero = ""
tally (suc n) = String.◌∷◌ "i" (tally n)

abbrev without_first : String → String
without_first String.[] = ""
without_first (String.◌∷◌ c s) = s

tally_distinct : (m n : ℕ) → tally m ≡ tally n → m ≡ n
tally_distinct zero zero e = refl
tally_distinct zero (suc n) e = cc
tally_distinct (suc m) zero e = cc
tally_distinct (suc m) (suc n) e = ap suc (tally_distinct m n (ap without_first e))

abbrev strokes : Reader
strokes = record {
  itoa = tally;
  read_sandbox = λ s. record { fs_read = []; fs_write = []; net_egress = []; user = "root" };
}

abbrev screen : ModuleManifest
screen = record { format = some 1; urn = "acme"; title = "Screen"; description = ""; origin = "" }

-- The script has the name that an edit of the default script leaves behind.
abbrev first_version : VersionManifest
first_version = record {
  version = "";
  state = "published";
  target_os = [];
  scope = "";
  satisfies = [];
  parameters = "";
  sandbox = "";
  report_schema = "";
  conditions_match_mode = "all";
  tests = [];
  depends_on = [];
  conflicts = [];
  scripts = record { phase = "apply (default)"; seq = "00"; filename = "a" } ∷ [];
}

abbrev members : List Member
members =
    irregular
    ∷ regular "module.yaml" 1 (some (1 ∷ []))
    ∷ regular "1/version.yaml" 1 (some (2 ∷ []))
    ∷ regular "1/scripts/apply (default)/00_a" 0 (some [])
    ∷ []

abbrev codec : Codec
codec = record {
  read_archive = λ bytes. some members;
  clean = λ s. s;
  text = λ bytes. "true";
  parse_module = λ bytes. some screen;
  parse_version = λ bytes. some first_version;
  sort_strings = λ xs. xs;
  trim_space = λ s. s;
}

-- a way to clean names that leaves no part ".." behind another
abbrev plain_clean : String → String
plain_clean s = if any (λ part. part == "..") (later_parts s) then "." else s

abbrev cleaning : Codec
cleaning = record codec { clean = plain_clean }

no_dots :
    (parts : List String)
    → any (λ part. part == "..") parts ≡ false
    → All (λ part. part ≢ "..") parts
no_dots [] e = tt
no_dots (p ∷ parts) e = ((λ same. ground (arith, eq_iff p "..")), no_dots parts (ground arith))

plain_clean-IsCleaned : (name : String) → IsCleaned (plain_clean name)
plain_clean-IsCleaned name = elim (Bool-cases (any (λ part. part == "..") (later_parts name))) [
  | inl dots ↦ rw dots (inr tt)
  | inr plain ↦ rw plain (inr (no_dots (later_parts name) plain))
]

-- the archive above is within the limits
scan_iff_example : ((g : Files) × (scan cleaning members no_files ≡ ok g)) ↔ (
    All (IsAllowed cleaning) members
    × (file_count members ≤ max_entries)
    × (byte_count members ≤ max_archive_bytes))
scan_iff_example = scan_iff cleaning plain_clean-IsCleaned members

within_limits : (g : Files) × (scan codec members no_files ≡ ok g)
unfolding pluris.Archives.is_unsafe
within_limits = (scan-IsFine codec members).1 (
  (
    tt,
    (
      (refl, ground arith, ground arith),
      ((refl, ground arith, ground arith), ((refl, ground arith, ground arith), tt)),
    ),
  ),
  ground arith,
  ground arith,
)

-- a name that begins with two dots and stays in the directory
dotted_name : scan codec (regular "..a" 0 (some []) ∷ []) no_files ≡ err invalid
unfolding scan is_unsafe
dotted_name = refl

large_file : scan codec (regular "a" 4194305 (some []) ∷ []) no_files ≡ err too_large
unfolding scan
large_file = refl

abbrev parsed : Parsed
parsed = record {
  module_manifest = screen;
  versions =
      record {
        manifest = record first_version { version = "1" };
        scripts = ("apply (default)/00_a", "true") ∷ [];
      }
      ∷ [];
}

-- The version takes the name of its directory.
parsed_test : parse_pmdl codec [] ≡ ok parsed
unfolding parse_pmdl
parsed_test = refl

abbrev row : ℕ → String → Module
row i urn = record {
  id = i;
  module_urn = urn;
  tenant_id = some 1;
  title = "Screen";
  description = none;
  is_bundled = false;
  created_at = 100;
  owner_identity_id = some 4;
  deleted_at = none;
  deleted_by = none;
  origin = "imported";
}

abbrev tables : Tables
tables = record {
  modules = row 1 "acme" ∷ row 2 "acme-imported-i" ∷ [];
  versions = [];
  scripts = [];
  actions = [];
  conditions = [];
  links = [];
  bindings = [];
  installations = [];
  identities = 4 ∷ 5 ∷ [];
  tenants = 1 ∷ [];
  retention_mode = some "soft";
  next_module = 3;
  next_version = 1;
  next_condition = 1;
  now = 100;
}

abbrev store : Store
store = record { tables = tables; faults = [] }

copy_urn-Finds_example :
    (n : ℕ) × ((copy_urn plain strokes "acme" store).0 ≡ ok (candidate plain strokes "acme" n))
    × IsFree plain strokes "acme" store (candidate plain strokes "acme" n)
copy_urn-Finds_example = copy_urn-Finds plain strokes "acme" tally_distinct store

second_copy : (copy_urn plain strokes "acme" store).0 ≡ ok "acme-imported-ii"
unfolding copy_urn
second_copy = refl

-- The name of the script is no lifecycle phase: the import fails, and its module stays with a draft.
import_breaks_off :
    let (answer, after) = import_module plain strokes parsed 1 4 true store in
    (answer ≡ err invalid_lifecycle_phase)
    × (length after.tables.modules ≡ 3)
    × (length after.tables.versions ≡ 1)
unfolding import_module
import_breaks_off = (refl, refl, refl)

sanitized : sanitize_filename (λ s. s) tally "a\\b/apply" "x" ≡ "apply"
unfolding sanitize_filename pluris.Conditions.Text.has_prefix
sanitized = refl

-- A name that ends in a slash falls back on the phase, with its slashes.
unsanitized : sanitize_filename (λ s. s) tally "../" "../" ≡ "../.script"
unfolding sanitize_filename pluris.Conditions.Text.has_prefix
unsanitized = refl
