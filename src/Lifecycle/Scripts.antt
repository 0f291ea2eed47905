-- ===== src/Lifecycle/Scripts.antt =====
-- pkg/services/policymodules_scripts.go, with SetScript and DeleteScript.
use Prim.Native.String
use pluris.Prelude.{
  ℕ, String, Bool, true, false, ◌&&◌, ◌||◌, not, List, [], ◌∷◌, if◌then◌else◌, nat_eq, ◌==◌,
  string_eq, contains, Result, ok, err, pure, fail, ◌>>=◌, ◌>>◌,
}
use pluris.Conditions.Text.{same_text, has_suffix}
use pluris.Lifecycle.{
  Version, Script, Action, Error, no_rows, version_not_draft, invalid_lifecycle_phase, Platform,
  Operation, query, attempt, is_draft,
}
use pluris.Lifecycle.Queries.{get_version}
use pluris.Lifecycle.Queries.Contents.{
  get_script, upsert_script_row, rename_script_row, delete_script_row, delete_custom_scripts,
  upsert_action_row, delete_action_row, delete_custom_actions, list_scripts, list_actions,
}
use pluris.Lifecycle.Versions.{or_not_draft}

abbrev pub default_reserved_suffix : String
default_reserved_suffix = " (default)"

-- `reservedDefaultName`
abbrev pub reserved_default_name : String → String
reserved_default_name name = String.◌++◌ name default_reserved_suffix

-- strings.TrimSuffix
unfoldable pub trim_suffix : String → String → String
trim_suffix String.[] suffix = String.[]
trim_suffix (String.◌∷◌ c s) suffix =
    let rest = trim_suffix s suffix in
    if same_text (String.◌∷◌ c s) suffix then String.[] else String.◌∷◌ c rest

abbrev or_sh : String → String
or_sh l = if l == "" then "sh" else l

module _ {A : Type 0} where
  abbrev pub or_frozen : ℕ → Operation A → Operation A
  or_frozen i m = attempt m >>= or_not_draft i

-- the end of RenameScript, DeleteAction and DeleteScript: no row on a real draft is a success
abbrev pub absent_or_frozen : Result Error Version → Operation (Unit {0})
absent_or_frozen (ok v) = if is_draft v.state then pure tt else fail version_not_draft
absent_or_frozen (err e) = pure tt

abbrev pub wrote_any : ℕ → ℕ → Operation (Unit {0})
wrote_any i n =
    if nat_eq n 0 then (attempt (query (get_version i)) >>= absent_or_frozen) else pure tt

-- `UpsertScript`: the pristine default is kept under its reserved name before its first edit.
abbrev pub reserved_copy : Script → Script
reserved_copy old = record old { name = reserved_default_name old.name; origin = "default" }

abbrev pub keep_reserved : Script → Result Error Script → Operation (Unit {0})
keep_reserved old (ok taken) = pure tt
keep_reserved old (err no_rows) =
    or_frozen old.version_id (query (upsert_script_row (reserved_copy old))) >> pure tt
keep_reserved old (err e) = fail e

abbrev pub keep_default : Result Error Script → Operation (Unit {0})
keep_default (ok old) =
    if old.origin == "default"
    then (attempt (query (get_script old.version_id (reserved_default_name old.name)))
        >>= keep_reserved old)
    else pure tt
keep_default (err no_rows) = pure tt
keep_default (err e) = fail e

abbrev pub written_script : Script → Script
written_script sc = record sc { language = or_sh sc.language; origin = "custom" }

unfoldable pub upsert_script : Script → Operation Script
unfolding upsert_script_row
upsert_script sc =
    attempt (query (get_script sc.version_id sc.name))
    >>= keep_default
    >> or_frozen sc.version_id (query (upsert_script_row (written_script sc)))

-- `AllLifecyclePhases`, and the language of a phase by its runtime
abbrev pub lifecycle_phases : List String
lifecycle_phases = "apply" ∷ "disable" ∷ "uninstall" ∷ "validate" ∷ "report" ∷ []

abbrev pub phase_language : String → String
phase_language phase = if phase == "validate" || phase == "report" then "python" else "sh"

-- `SetScript`, which drops the file name
abbrev pub phase_script : ℕ → String → String → Script
phase_script i phase source = record {
  version_id = i;
  name = phase;
  language = phase_language phase;
  source = source;
  origin = "custom";
  seq = 0;
}

unfoldable pub set_script : ℕ → String → String → String → Operation Script
unfolding upsert_script
set_script i phase filename source =
    if not (contains lifecycle_phases phase)
    then fail invalid_lifecycle_phase
    else upsert_script (phase_script i phase source)

-- `RenameScript`
unfoldable pub rename_script : ℕ → String → String → Operation (Unit {0})
unfolding rename_script_row
rename_script i old_name new_name = query (rename_script_row i old_name new_name) >>= wrote_any i

-- `DeleteScript`
unfoldable pub delete_script : ℕ → String → Operation (Unit {0})
unfolding delete_script_row
delete_script i name = query (delete_script_row i name) >>= wrote_any i

-- `UpsertAction`
abbrev pub written_action : Action → Action
written_action a = record a {
  kind = if a.kind == "" then "script" else a.kind;
  origin = if a.origin == "" then "custom" else a.origin;
}

unfoldable pub upsert_action : Action → Operation Action
unfolding upsert_action_row
upsert_action a = or_frozen a.version_id (query (upsert_action_row (written_action a)))

-- `DeleteAction`
unfoldable pub delete_action : ℕ → String → Operation (Unit {0})
unfolding delete_action_row
delete_action i key = query (delete_action_row i key) >>= wrote_any i

-- `defaultApplySource`
abbrev pub default_apply_source : String
default_apply_source = "#!/bin/sh\n# default apply\n"

abbrev pub default_apply : ℕ → Script
default_apply i = record {
  version_id = i;
  name = "apply";
  language = "sh";
  source = default_apply_source;
  origin = "default";
  seq = 0;
}

abbrev pub default_action : ℕ → String → String → ℕ → Action
default_action i key value seq = record {
  version_id = i;
  action_key = key;
  label = "";
  kind = "script";
  value = value;
  origin = "default";
  seq = seq;
}

abbrev pub is_empty : {A : Type 0} → List A → Bool
is_empty [] = true
is_empty (x ∷ xs) = false

abbrev pub is_reserved : Script → Bool
is_reserved sc = sc.origin == "default" && has_suffix sc.name default_reserved_suffix

-- the loop of `RestoreDefaults`
unfoldable pub repoint : ℕ → List Script → Operation (Unit {0})
unfolding trim_suffix upsert_action_row has_suffix
repoint i [] = pure tt
repoint i (sc ∷ scs) =
    let rest = repoint i scs in
    if is_reserved sc
    then or_frozen i (
        query (
          upsert_action_row
            (default_action i (trim_suffix sc.name default_reserved_suffix) sc.name sc.seq)))
      >> rest
    else rest

-- the loop of `FullReset`, which tells whether some reserved copy was restored
unfoldable pub restore : ℕ → List Script → Bool → Operation Bool
unfolding trim_suffix upsert_script_row upsert_action_row has_suffix
restore i [] any_restored = pure any_restored
restore i (sc ∷ scs) any_restored =
    let name = trim_suffix sc.name default_reserved_suffix in
    let rest = restore i scs in
    if is_reserved sc
    then or_frozen i
        (query (upsert_script_row (record sc { version_id = i; name = name; origin = "default" })))
      >> or_frozen i (query (upsert_action_row (default_action i name name sc.seq)))
      >> rest true
    else rest any_restored

module _ (platform : Platform) where
  -- `SeedModuleDefaults`
  unfoldable pub seed_module_defaults : ℕ → Operation (Unit {0})
  unfolding upsert_script_row upsert_action_row
  seed_module_defaults i = query (list_scripts platform i) >>= λ scripts.
      query (list_actions i) >>= λ actions.
      if not (is_empty scripts) || not (is_empty actions)
      then pure tt
      else (or_frozen i (query (upsert_script_row (default_apply i)))
          >> or_frozen i (query (upsert_action_row (default_action i "apply" "apply" 0)))
          >> pure tt)

  -- `RestoreDefaults`
  unfoldable pub restore_defaults : ℕ → Operation (Unit {0})
  unfolding repoint
  restore_defaults i = query (get_version i) >>= λ v.
      if not (is_draft v.state)
      then fail version_not_draft
      else (query (list_scripts platform i) >>= repoint i)

  -- `FullReset`, after the state was read
  abbrev pub reseeded : ℕ → Bool → Operation (Unit {0})
  reseeded i any_restored = if any_restored then pure tt else seed_module_defaults i

  unfoldable pub rewire : ℕ → Operation (Unit {0})
  unfolding restore seed_module_defaults
  rewire i = query (list_scripts platform i) >>= (λ scripts. restore i scripts false) >>= reseeded i

  unfoldable pub rebuild : ℕ → Operation (Unit {0})
  unfolding delete_custom_scripts delete_custom_actions rewire
  rebuild i = query (delete_custom_scripts i) >> (query (delete_custom_actions i) >> rewire i)

  unfoldable pub full_reset : ℕ → Operation (Unit {0})
  unfolding rebuild
  full_reset i = query (get_version i) >>= λ v.
      if not (is_draft v.state) then fail version_not_draft else rebuild i
