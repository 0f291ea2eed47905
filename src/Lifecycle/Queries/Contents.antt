-- ===== src/Lifecycle/Queries/Contents.antt =====
-- The statements of db/policy_modules.sql.go on the scripts and the actions of a version.
use pluris.Prelude.{
  ℕ, String, Bool, ◌&&◌, ◌||◌, not, Option, none, some, List, [], ◌∷◌, if◌then◌else◌, nat_eq, ◌==◌,
  string_eq, any, ok, err,
}
use pluris.Lifecycle.{
  Script, Action, no_rows, unique_violation, constraint_violation, Platform, Statement,
}
use pluris.Lifecycle.Queries.{
  update_where, keep_where, delete_where, count, first, found, is_editable,
}

abbrev pub scripts_of : ℕ → List Script → List Script
scripts_of i = keep_where (λ r. nat_eq r.version_id i)

abbrev pub actions_of : ℕ → List Action → List Action
actions_of i = keep_where (λ r. nat_eq r.version_id i)

abbrev pub is_script : ℕ → String → Script → Bool
is_script i name r = nat_eq r.version_id i && r.name == name

abbrev pub is_action : ℕ → String → Action → Bool
is_action i key r = nat_eq r.version_id i && r.action_key == key

-- GetScriptByName
abbrev pub get_script : ℕ → String → Statement Script
get_script i name t = (found (first (is_script i name) t.scripts), t)

-- CHECK(language IN …), CHECK(origin IN …) and CHECK(kind IN …)
abbrev pub valid_language : String → Bool
valid_language l = l == "sh" || (l == "powershell" || l == "python")

abbrev pub valid_origin : String → Bool
valid_origin o = o == "default" || o == "custom"

abbrev pub valid_kind : String → Bool
valid_kind k = k == "command" || k == "script"

-- ON CONFLICT DO UPDATE: the place of the row in the order stays.
abbrev pub replaced_script : Script → Script → Script
replaced_script sc r = record r { language = sc.language; source = sc.source; origin = sc.origin }

abbrev pub put_script : Script → List Script → List Script
put_script sc [] = sc ∷ []
put_script sc (r ∷ rs) =
    if is_script sc.version_id sc.name r then replaced_script sc r ∷ rs else r ∷ put_script sc rs

abbrev pub stored_script : Script → Option Script → Script
stored_script sc none = sc
stored_script sc (some r) = replaced_script sc r

-- UpsertModuleScriptGuarded
unfoldable pub upsert_script_row : Script → Statement Script
upsert_script_row sc t =
    if not (is_editable sc.version_id t)
    then (err no_rows, t)
    else (if not (valid_language sc.language && valid_origin sc.origin)
        then (err constraint_violation, t)
        else (
          ok (stored_script sc (first (is_script sc.version_id sc.name) t.scripts)),
          record t { scripts = put_script sc t.scripts },
        ))

-- RenameModuleScriptGuarded
unfoldable pub rename_script_row : ℕ → String → String → Statement ℕ
rename_script_row i old_name new_name t =
    if not (is_editable i t)
    then (ok 0, t)
    else (if any (is_script i old_name) t.scripts
          && (any (is_script i new_name) t.scripts && not (old_name == new_name))
        then (err unique_violation, t)
        else (
          ok (count (is_script i old_name) t.scripts),
          record t {
            scripts =
                update_where (is_script i old_name) (λ r. record r { name = new_name }) t.scripts;
          },
        ))

-- DeleteModuleScriptGuarded
unfoldable pub delete_script_row : ℕ → String → Statement ℕ
delete_script_row i name t = if not (is_editable i t) then (ok 0, t) else (
  ok (count (is_script i name) t.scripts),
  record t { scripts = delete_where (is_script i name) t.scripts },
)

-- DeleteCustomScriptsForVersion
unfoldable pub delete_custom_scripts : ℕ → Statement (Unit {0})
delete_custom_scripts i t = (
  ok tt,
  record t {
    scripts = delete_where (λ r. nat_eq r.version_id i && r.origin == "custom") t.scripts;
  },
)

abbrev pub replaced_action : Action → Action → Action
replaced_action a r = record r {
  label = a.label;
  kind = a.kind;
  value = a.value;
  origin = a.origin;
}

abbrev pub put_action : Action → List Action → List Action
put_action a [] = a ∷ []
put_action a (r ∷ rs) =
    if is_action a.version_id a.action_key r then replaced_action a r ∷ rs else r ∷ put_action a rs

abbrev pub stored_action : Action → Option Action → Action
stored_action a none = a
stored_action a (some r) = replaced_action a r

-- UpsertModuleActionGuarded
unfoldable pub upsert_action_row : Action → Statement Action
upsert_action_row a t =
    if not (is_editable a.version_id t)
    then (err no_rows, t)
    else (if not (valid_kind a.kind && valid_origin a.origin)
        then (err constraint_violation, t)
        else (
          ok (stored_action a (first (is_action a.version_id a.action_key) t.actions)),
          record t { actions = put_action a t.actions },
        ))

-- DeleteModuleActionGuarded
unfoldable pub delete_action_row : ℕ → String → Statement ℕ
delete_action_row i key t = if not (is_editable i t) then (ok 0, t) else (
  ok (count (is_action i key) t.actions),
  record t { actions = delete_where (is_action i key) t.actions },
)

-- DeleteCustomActionsForVersion
unfoldable pub delete_custom_actions : ℕ → Statement (Unit {0})
delete_custom_actions i t = (
  ok tt,
  record t {
    actions = delete_where (λ r. nat_eq r.version_id i && r.origin == "custom") t.actions;
  },
)

-- ListActionsForVersion, which no operation here needs in its order
abbrev pub list_actions : ℕ → Statement (List Action)
list_actions i t = (ok (actions_of i t.actions), t)

module _ (platform : Platform) where
  -- ListScriptsForVersion
  abbrev pub list_scripts : ℕ → Statement (List Script)
  list_scripts i t = (ok (platform.by_seq_and_name (scripts_of i t.scripts)), t)
