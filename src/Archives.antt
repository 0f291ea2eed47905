-- ===== src/Archives.antt =====
-- pkg/services/policymodules_import.go: archives of policy modules. gzip and tar, path.Clean, YAML,
-- sort.Strings, strings.TrimSpace and the printing of numbers are not part of the repository: they
-- enter as a `Codec`. Bytes are numbers.
pub mod Text
pub mod Limits
pub mod Inside
pub mod Import
pub mod Naming
pub mod Drafts
pub mod Relations
pub mod Names
pub mod Paths
pub mod Stored
pub mod Blocks
pub mod Reading
pub mod Export
pub mod Cached
pub mod Described
pub mod Written
pub mod RoundTrip
mod Tests
use Prim.Native.Char.{code}
use Prim.Native.String
use pluris.Prelude.{
  ℕ, zero, suc, ◌+◌, String, Bool, true, false, ◌&&◌, ◌||◌, not, Option, none, some, List, [], ◌∷◌,
  ◌++◌, if◌then◌else◌, ltb, nat_eq, ◌==◌, string_eq, length, Dict, lookup, insert, Result, ok, err,
  and_then,
}
use pluris.Archives.Text.{slashes, split_first}
use pluris.Conditions.Text.{same_text, has_prefix, has_suffix, has_part}
use pluris.Lifecycle.Scripts.{trim_suffix}

abbrev pub Bytes : Type 0
Bytes = List ℕ

abbrev pub max_archive_bytes : ℕ
max_archive_bytes = 16777216

abbrev pub max_file_bytes : ℕ
max_file_bytes = 4194304

abbrev pub max_entries : ℕ
max_entries = 512

abbrev pub format_version : ℕ
format_version = 1

pub data Error : Type 0 where
  invalid too_large unsupported_version : Error

-- `pmdlModuleManifest`, `pmdlTest`, `pmdlDependency`, `pmdlScriptEntry` and `pmdlVersionManifest`; the
-- format version is `none` for a negative number, and the number of a script is kept as it prints.
pub record ModuleManifest : Type 0 where
  pub format : Option ℕ
  pub urn : String
  pub title : String
  pub description : String
  pub origin : String

pub record Test : Type 0 where
  pub kind : String
  pub param_path : String
  pub script_source : String
  pub script_ref : String
  pub ref_source : String
  pub operator : String
  pub values : List String

pub record Requirement : Type 0 where
  pub module_urn : String
  pub constraint : String

pub record ScriptEntry : Type 0 where
  pub phase : String
  pub seq : String
  pub filename : String

pub record VersionManifest : Type 0 where
  pub version : String
  pub state : String
  pub target_os : List String
  pub scope : String
  pub satisfies : List String
  pub parameters : String
  pub sandbox : String
  pub report_schema : String
  pub conditions_match_mode : String
  pub tests : List Test
  pub depends_on : List Requirement
  pub conflicts : List String
  pub scripts : List ScriptEntry

-- `pmdlParsed` and `pmdlParsedVersion`
pub record ParsedVersion : Type 0 where
  pub manifest : VersionManifest
  pub scripts : Dict String String

pub record Parsed : Type 0 where
  pub module_manifest : ModuleManifest
  pub versions : List ParsedVersion

-- What tar.Reader.Next gives: an error, or a header with what reading the entry gives, `none` for an
-- error.
pub data Member : Type 0 where
  broken : Member
  irregular : Member
  regular : String → ℕ → Option Bytes → Member

pub record Codec : Type 0 where
  pub read_archive : Bytes → Option (List Member)
  pub clean : String → String
  pub text : Bytes → String
  pub parse_module : Bytes → Option ModuleManifest
  pub parse_version : Bytes → Option VersionManifest
  pub sort_strings : List String → List String
  pub trim_space : String → String

-- what an io.LimitReader lets through
unfoldable pub limited : ℕ → Bytes → Bytes
limited zero xs = []
limited (suc n) [] = []
limited (suc n) (x ∷ xs) = x ∷ limited n xs

-- the variables of the loop of `ParsePmdl`
pub record Files : Type 0 where
  pub module_yaml : Option Bytes
  pub version_yaml : Dict String Bytes
  pub scripts : Dict String (Dict String String)
  pub entries : ℕ
  pub total_bytes : ℕ

abbrev pub no_files : Files
no_files = record {
  module_yaml = none;
  version_yaml = [];
  scripts = [];
  entries = 0;
  total_bytes = 0;
}

abbrev pub or_empty : Option (Dict String String) → Dict String String
or_empty none = []
or_empty (some d) = d

-- a cleaned name that leaves the directory
unfoldable pub is_unsafe : String → Bool
unfolding has_prefix has_part
is_unsafe name = has_prefix name "/" || (has_prefix name ".." || has_part name "/../")

module _ {A : Type 0} where
  abbrev parsed_or : Option A → Result Error A
  parsed_or none = err invalid
  parsed_or (some a) = ok a

abbrev present : Option Bytes → Result Error Bytes
present none = err invalid
present (some content) = ok content

abbrev pub or_nothing : Option Bytes → Bytes
or_nothing none = []
or_nothing (some content) = content

abbrev pub is_empty : Dict String Bytes → Bool
is_empty [] = true
is_empty (e ∷ d) = false

abbrev pub directories : Dict String Bytes → List String
directories [] = []
directories ((dir, content) ∷ d) = dir ∷ directories d

module _ (codec : Codec) where
  -- the switch at the end of the loop
  unfoldable pub store_file : String → Bytes → Files → Files
  unfolding has_suffix has_part slashes split_first trim_suffix
  store_file name content f =
      if name == "module.yaml"
      then record f { module_yaml = some content }
      else (if has_suffix name "/version.yaml" && nat_eq (slashes name) 1
          then record f {
            version_yaml = insert (trim_suffix name "/version.yaml") content f.version_yaml;
          }
          else (if has_part name "/scripts/"
              then (let (dir, file) = split_first name "/scripts/" in
                  record f {
                    scripts =
                        insert dir
                          (insert file (codec.text content) (or_empty (lookup dir f.scripts)))
                          f.scripts;
                  })
              else f))

  abbrev pub counted : ℕ → Files → Files
  counted n f = record f { total_bytes = f.total_bytes + n }

  abbrev pub read_file : String → Option Bytes → Files → Result Error Files
  read_file name none f = err invalid
  read_file name (some content) f =
      let n = length content in
      if ltb max_file_bytes n
      then err too_large
      else (if ltb max_archive_bytes (f.total_bytes + n)
          then err too_large
          else ok (store_file name content (counted n f)))

  abbrev pub limited_content : Option Bytes → Option Bytes
  limited_content none = none
  limited_content (some content) = some (limited (suc max_file_bytes) content)

  -- one round of the loop
  unfoldable pub accept : String → ℕ → Option Bytes → Files → Result Error Files
  unfolding is_unsafe store_file limited
  accept name size content f =
      if ltb max_entries (suc f.entries)
      then err too_large
      else (if is_unsafe (codec.clean name)
          then err invalid
          else (if ltb max_file_bytes size
              then err too_large
              else read_file (codec.clean name) (limited_content content)
                  (record f { entries = suc f.entries })))

  unfoldable pub scan : List Member → Files → Result Error Files
  unfolding accept
  scan [] f = ok f
  scan (broken ∷ ms) f = err invalid
  scan (irregular ∷ ms) f = scan ms f
  scan (regular name size content ∷ ms) f = and_then (accept name size content f) (scan ms)

  abbrev is_supported : Option ℕ → Bool
  is_supported none = false
  is_supported (some n) = not (ltb format_version n) && not (ltb n 1)

  abbrev pub is_blank : String → Bool
  is_blank s = codec.trim_space s == ""

  abbrev pub named_by : String → VersionManifest → VersionManifest
  named_by dir m = if is_blank m.version then record m { version = dir } else m

  -- the loop over the directories of the versions
  unfoldable pub parse_versions : Files → List String → Result Error (List ParsedVersion)
  parse_versions f [] = ok []
  parse_versions f (dir ∷ dirs) =
      and_then (parsed_or (codec.parse_version (or_nothing (lookup dir f.version_yaml)))) (λ m.
        and_then (parse_versions f dirs) (λ vs.
          ok
            (record { manifest = named_by dir m; scripts = or_empty (lookup dir f.scripts) } ∷ vs)))

  -- `ParsePmdl`, after the loop over the entries
  unfoldable pub parse_files : Files → Result Error Parsed
  unfolding parse_versions
  parse_files f = and_then (present f.module_yaml) (λ content.
      and_then (parsed_or (codec.parse_module content)) (λ m.
        if not (is_supported m.format)
        then err unsupported_version
        else (if is_blank m.urn || is_blank m.title
            then err invalid
            else (if is_empty f.version_yaml
                then err invalid
                else and_then (parse_versions f (codec.sort_strings (directories f.version_yaml)))
                    (λ vs. ok (record { module_manifest = m; versions = vs }))))))

  -- `ParsePmdl`
  unfoldable pub parse_pmdl : Bytes → Result Error Parsed
  unfolding limited scan parse_files
  parse_pmdl bytes =
      and_then (parsed_or (codec.read_archive (limited (suc max_archive_bytes) bytes)))
        (λ ms. and_then (scan ms no_files) parse_files)
