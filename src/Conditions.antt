-- ===== src/Conditions.antt =====
-- catalog/dependencygroups/types.go and eval.go: conditions over the facts that a device reports, the
-- groups that combine them, and the eligibility of a module. Number parsing, regular expressions and
-- `fmt` are not part of the repository: they enter as a `Runtime`.
pub mod Text
pub mod Kleene
pub mod Reports
pub mod Eligibility
mod Tests
use Prim.Native.Char.{nul}
use Prim.Native.String
use pluris.Prelude.{
  ℕ, String, Bool, true, false, ◌&&◌, not, Option, none, some, List, [], ◌∷◌, if◌then◌else◌, ◌==◌,
  string_eq, contains, Dict, lookup,
}
use pluris.Conditions.Text.{param_key, has_prefix, has_suffix, has_part}

-- The last constructor of the string enums stands for every other text.
pub data Operator : Type 0 where
  op_in op_not_in op_exists op_equals op_not_equals op_contains op_not_contains : Operator
  op_starts_with op_ends_with op_gt op_gte op_lt op_lte op_matches op_other : Operator

pub data ConditionKind : Type 0 where
  kind_param kind_script kind_command kind_other : ConditionKind

pub data MatchMode : Type 0 where
  match_all match_any match_other : MatchMode

-- the texts "pass", "fail" and "unknown"
pub data Verdict : Type 0 where
  pass fail unknown : Verdict

pub record Condition : Type 0 where
  pub id : ℕ
  pub param_path : String
  pub operator : Operator
  pub values : List String
  pub kind : ConditionKind

pub record Group : Type 0 where
  pub id : ℕ
  pub slug : String
  pub name : String
  pub match_mode : MatchMode
  pub conditions : List Condition

abbrev pub Facts : Type 0
Facts = Dict String String

-- strconv.ParseFloat with the comparisons of float64, regexp.Compile with MatchString, and `%d`.
pub record Runtime (F : Type 0) : Type 0 where
  pub parse_float : String → Option F
  pub gt : F → F → Bool
  pub gte : F → F → Bool
  pub lt : F → F → Bool
  pub lte : F → F → Bool
  pub compile : String → Option (String → Bool)
  pub sprint_int : ℕ → String

abbrev pub exit_fail_sentinel : String
exit_fail_sentinel = String.◌∷◌ nul "exit_fail"

abbrev pub verdict : Bool → Verdict
verdict true = pass
verdict false = fail

-- an operator with one operand: unknown with no fact or no operand
abbrev on_operand : (String → String → Verdict) → List String → Option String → Verdict
on_operand f values none = unknown
on_operand f [] (some v) = unknown
on_operand f (operand ∷ _) (some v) = f v operand

abbrev on_fact : (String → Bool) → Option String → Verdict
on_fact test none = unknown
on_fact test (some v) = verdict (test v)

module _ {F : Type 0} (run : Runtime F) where
  abbrev compared : (F → F → Bool) → String → String → Verdict
  compared holds v operand = elim (run.parse_float v) [
    | none ↦ unknown
    | some fv ↦ elim (run.parse_float operand) [ none ↦ unknown | some ov ↦ verdict (holds fv ov) ]
  ]

  abbrev matched : String → String → Verdict
  matched v pattern =
      if pattern == ""
      then unknown
      else elim (run.compile pattern) [ none ↦ unknown | some re ↦ verdict (re v) ]

  unfoldable pub eval_operator : Operator → List String → Option String → Verdict
  unfolding has_prefix has_suffix has_part
  eval_operator op_exists values fact = on_fact (λ v. not (v == "")) fact
  eval_operator op_in values fact = on_fact (λ v. contains values v) fact
  eval_operator op_not_in values fact = on_fact (λ v. not (contains values v)) fact
  eval_operator op_equals values fact = on_operand (λ v o. verdict (v == o)) values fact
  eval_operator op_not_equals values fact = on_operand (λ v o. verdict (not (v == o))) values fact
  eval_operator op_contains values fact = on_operand (λ v o. verdict (has_part v o)) values fact
  eval_operator op_not_contains values fact =
      on_operand (λ v o. verdict (not (has_part v o))) values fact
  eval_operator op_starts_with values fact =
      on_operand (λ v o. verdict (has_prefix v o)) values fact
  eval_operator op_ends_with values fact = on_operand (λ v o. verdict (has_suffix v o)) values fact
  eval_operator op_gt values fact = on_operand (compared run.gt) values fact
  eval_operator op_gte values fact = on_operand (compared run.gte) values fact
  eval_operator op_lt values fact = on_operand (compared run.lt) values fact
  eval_operator op_lte values fact = on_operand (compared run.lte) values fact
  eval_operator op_matches values fact = on_operand matched values fact
  eval_operator op_other values fact = unknown

  abbrev pub on_stdout : Condition → Option String → Verdict
  on_stdout c none = unknown
  on_stdout c (some v) =
      if v == exit_fail_sentinel then fail else eval_operator c.operator c.values (some v)

  unfoldable pub eval_script_condition : Condition → Facts → Verdict
  eval_script_condition c facts =
      on_stdout c (lookup (String.◌++◌ "script_result/" (run.sprint_int c.id)) facts)

  abbrev pub by_kind : ConditionKind → Condition → Facts → Verdict
  by_kind kind_script c facts = eval_script_condition c facts
  by_kind kind_command c facts = eval_script_condition c facts
  by_kind _ c facts = eval_operator c.operator c.values (lookup (param_key c.param_path) facts)

  unfoldable pub eval_condition : Condition → Facts → Verdict
  unfolding param_key
  eval_condition c facts = by_kind c.kind c facts

  -- the loop of `evalGroupAll`
  all_from : Verdict → List Condition → Facts → Verdict
  all_from so_far [] facts = so_far
  all_from so_far (c ∷ cs) facts = elim (eval_condition c facts) [
    | fail ↦ fail
    | unknown ↦ all_from unknown cs facts
    | pass ↦ all_from so_far cs facts
  ]

  -- the loop of `evalGroupAny`
  any_from : Bool → List Condition → Facts → Verdict
  any_from saw_unknown [] facts = if saw_unknown then unknown else fail
  any_from saw_unknown (c ∷ cs) facts = elim (eval_condition c facts) [
    | pass ↦ pass
    | unknown ↦ any_from true cs facts
    | fail ↦ any_from saw_unknown cs facts
  ]

  abbrev by_mode : MatchMode → List Condition → Facts → Verdict
  by_mode match_any cs facts = any_from false cs facts
  by_mode _ cs facts = all_from pass cs facts

  unfoldable pub eval_group : Group → Facts → Verdict
  unfolding all_from any_from
  eval_group g facts = by_mode g.match_mode g.conditions facts
