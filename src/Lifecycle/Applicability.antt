-- ===== src/Lifecycle/Applicability.antt =====
-- pkg/services/policymodules_conditions.go, with validateConditionPayload of
-- pkg/services/dependencygroups.go.
use pluris.Prelude.{
  ℕ, suc, String, Bool, true, false, ◌||◌, not, Option, none, some, List, [], ◌∷◌, if◌then◌else◌,
  ◌==◌, string_eq, contains, Result, ok, err, pure, fail, ◌>>=◌,
}
use pluris.Lifecycle.{
  Condition, Error, no_rows, invalid_match_mode, invalid_operator, param_path_required,
  script_source_required, script_source_ambiguous, invalid_condition_kind, Platform, Operation,
  query, attempt,
}
use pluris.Lifecycle.Queries.Applicability.{
  max_condition_seq, create_condition_row, update_condition_row, delete_condition_row,
  update_match_mode,
}
use pluris.Lifecycle.Versions.{marshal_or, version_not_draft_or_missing, wrote_some}

-- the texts of `AllOperators`
abbrev pub all_operators : List String
all_operators =
    "in" ∷ "not_in" ∷ "exists" ∷ "equals" ∷ "not_equals" ∷ "contains" ∷ "not_contains"
    ∷ "starts_with" ∷ "ends_with" ∷ "gt" ∷ "gte" ∷ "lt" ∷ "lte" ∷ "matches" ∷ []

-- `conditionPayload`
pub record ConditionPayload : Type 0 where
  pub kind : String
  pub param_path : String
  pub operator : String
  pub script_source : String
  pub script_ref : String

abbrev or_param : String → String
or_param kind = if kind == "" then "param" else kind

-- a script comes either inline or by reference
abbrev script_payload : String → Bool → Bool → Result Error String
script_payload kind true true = err script_source_ambiguous
script_payload kind false false = err script_source_required
script_payload kind _ _ = ok kind

abbrev pub next_seq : Option ℕ → ℕ
next_seq none = 0
next_seq (some n) = suc n

abbrev pub lifted : {A : Type 0} → Result Error A → Operation A
lifted (ok a) = pure a
lifted (err e) = fail e

-- AddVersionCondition maps ErrNoRows only.
abbrev pub or_missing : ℕ → Result Error Condition → Operation Condition
or_missing i (ok c) = pure c
or_missing i (err no_rows) = version_not_draft_or_missing i
or_missing i (err e) = fail e

module _ (platform : Platform) where
  -- `validateConditionPayload`
  unfoldable pub validate_condition_payload : ConditionPayload → Result Error String
  validate_condition_payload p =
      let kind = or_param p.kind in
      if not (contains all_operators p.operator)
      then err invalid_operator
      else (if kind == "param"
          then (if p.param_path == "" then err param_path_required else ok kind)
          else (if kind == "command"
              then (if platform.trim_space p.script_source == ""
                  then err script_source_required
                  else ok kind)
              else (if kind == "script"
                  then script_payload kind (not (platform.trim_space p.script_source == ""))
                      (not (platform.trim_space p.script_ref == ""))
                  else err invalid_condition_kind)))

  abbrev pub condition_row : ℕ → ℕ → ConditionPayload → String → List String → ℕ → Condition
  condition_row i id p kind values seq = record {
    id = id;
    version_id = i;
    kind = kind;
    param_path = p.param_path;
    operator = p.operator;
    value_json = marshal_or (platform.marshal_strings values) "";
    script_source = p.script_source;
    script_ref = p.script_ref;
    seq = seq;
  }

  -- `AddVersionCondition`
  unfoldable pub add_version_condition : ℕ → ConditionPayload → List String → Operation Condition
  unfolding create_condition_row validate_condition_payload
  add_version_condition i p values = lifted (validate_condition_payload p) >>= λ kind.
      query (max_condition_seq i) >>= λ top.
      attempt (query (create_condition_row (condition_row i 0 p kind values (next_seq top))))
      >>= or_missing i

  -- `UpdateVersionCondition`
  unfoldable pub update_version_condition :
      ℕ → ℕ → ConditionPayload → List String → Operation (Unit {0})
  unfolding update_condition_row validate_condition_payload
  update_version_condition i id p values = lifted (validate_condition_payload p) >>= λ kind.
      query (update_condition_row (condition_row i id p kind values 0)) >>= wrote_some i

-- `RemoveVersionCondition`
unfoldable pub remove_version_condition : ℕ → ℕ → Operation (Unit {0})
unfolding delete_condition_row
remove_version_condition i id = query (delete_condition_row i id) >>= wrote_some i

-- `SetConditionsMatchMode`
unfoldable pub set_conditions_match_mode : ℕ → String → Operation (Unit {0})
unfolding update_match_mode
set_conditions_match_mode i mode =
    if mode == "all" || mode == "any"
    then (query (update_match_mode i mode) >>= wrote_some i)
    else fail invalid_match_mode
