-- ===== src/Archives/Names.antt =====
-- The names of the entries that `ExportModule` writes (pkg/services/policymodules_export.go).
use Prim.Native.Char.{code}
use Prim.Native.String
use pluris.Prelude.{ℕ, String, ◌||◌, if◌then◌else◌, nat_eq, ◌==◌, string_eq}
use pluris.Lifecycle.{Script}
use pluris.Conditions.Text.{has_part}

-- strings.ReplaceAll of backslashes by slashes
unfoldable pub with_slashes : String → String
with_slashes String.[] = String.[]
with_slashes (String.◌∷◌ c s) =
    let rest = with_slashes s in
    if nat_eq (code c) b'\\' then String.◌∷◌ "/" rest else String.◌∷◌ c rest

-- what follows the last slash, or everything
unfoldable pub after_last_slash : String → String
unfolding has_part
after_last_slash String.[] = String.[]
after_last_slash (String.◌∷◌ c s) =
    let rest = after_last_slash s in
    if has_part s "/" then rest else (if nat_eq (code c) b'/' then s else String.◌∷◌ c s)

abbrev or_script : String → String → String
or_script phase name =
    if name == "" || (name == "." || name == "..") then String.◌++◌ phase ".script" else name

module _ (trim_space : String → String) (two_digits : ℕ → String) where
  -- `sanitizeFilename`
  unfoldable pub sanitize_filename : String → String → String
  unfolding with_slashes after_last_slash
  sanitize_filename name phase = or_script phase (after_last_slash (with_slashes (trim_space name)))

  -- the path of a script's file under `scripts/`
  unfoldable pub script_path : Script → String
  unfolding sanitize_filename
  script_path sc = String.◌++◌ sc.name (
      String.◌++◌ "/"
        (String.◌++◌ (two_digits sc.seq) (String.◌++◌ "_" (sanitize_filename sc.name sc.name))))
