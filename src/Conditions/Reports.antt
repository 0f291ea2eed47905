-- ===== src/Conditions/Reports.antt =====
-- Verdicts on the facts that a device has reported so far, and on more of them.
use pluris.Prelude.{
  String, Option, none, some, List, [], ◌∷◌, lookup, string_eq, ◌≡◌, ◌⊎◌, inl, inr, refl, arith,
  Option-cases,
}
use Prim.Native.String
use pluris.Conditions.{
  Operator, op_in, Verdict, unknown, MatchMode, match_any, Condition, Group, Facts, Runtime,
  kind_script, kind_command, ConditionKind, by_kind, on_stdout, eval_operator,
  eval_script_condition, eval_condition, eval_group,
}
use pluris.Conditions.Text.{param_key}
use pluris.Conditions.Kleene.{both, either, every, some_of, verdicts, combined, eval_group-combined}

-- every fact of the first report stands in the second
pub record Extends (facts later : Facts) : Type 0 where
  pub keeps : (key v : String) → lookup key facts ≡ some v → lookup key later ≡ some v

-- `v` was open, or has not changed
abbrev pub Settles : Verdict → Verdict → Type 0
Settles v w = (v ≡ unknown) ⊎ (v ≡ w)

module _ {F : Type 0} (run : Runtime F) where
  -- Without the fact no operator decides.
  eval_operator-none :
      (op : Operator) (values : List String) → eval_operator run op values none ≡ unknown
  unfolding eval_operator
  eval_operator-none op_in values = refl
  eval_operator-none _ values = refl

  -- One look-up decides: what it finds is found again.
  one_fact-Settles :
      (judge : Option String → Verdict) (key : String) (facts later : Facts)
      → judge none ≡ unknown
      → Extends facts later
      → Settles (judge (lookup key facts)) (judge (lookup key later))
  one_fact-Settles judge key facts later open_none more = elim (Option-cases (lookup key facts)) [
    | inl absent ↦ inl (rw absent open_none)
    | inr (v, known) ↦ inr (rw (known, more.keeps key v known))
  ]

  eval_script_condition-Settles :
      (c : Condition) (facts later : Facts)
      → Extends facts later
      → Settles (eval_script_condition run c facts) (eval_script_condition run c later)
  unfolding eval_script_condition
  eval_script_condition-Settles c facts later more =
      one_fact-Settles (on_stdout run c) (String.◌++◌ "script_result/" (run.sprint_int c.id)) facts
        later refl more

  by_kind-Settles :
      (kind : ConditionKind) (c : Condition) (facts later : Facts)
      → Extends facts later
      → Settles (by_kind run kind c facts) (by_kind run kind c later)
  by_kind-Settles kind_script c facts later more = eval_script_condition-Settles c facts later more
  by_kind-Settles kind_command c facts later more = eval_script_condition-Settles c facts later more
  by_kind-Settles _ c facts later more =
      one_fact-Settles (eval_operator run c.operator c.values) (param_key c.param_path) facts later
        (eval_operator-none c.operator c.values) more

  eval_condition-Settles :
      (c : Condition) (facts later : Facts)
      → Extends facts later
      → Settles (eval_condition run c facts) (eval_condition run c later)
  unfolding eval_condition
  eval_condition-Settles c facts later more = by_kind-Settles c.kind c facts later more

pub both-Settles :
    (u u' w w' : Verdict) → Settles u u' → Settles w w' → Settles (both u w) (both u' w')
both-Settles u u' w w' h k = ground arith

pub either-Settles :
    (u u' w w' : Verdict) → Settles u u' → Settles w w' → Settles (either u w) (either u' w')
either-Settles u u' w w' h k = ground arith

module _ {F : Type 0} (run : Runtime F) (facts later : Facts) (more : Extends facts later) where
  every-Settles :
      (cs : List Condition)
      → Settles (every (verdicts run facts cs)) (every (verdicts run later cs))
  every-Settles [] = inr refl
  every-Settles (c ∷ cs) =
      both-Settles _ _ _ _ (eval_condition-Settles run c facts later more) (every-Settles cs)

  some_of-Settles :
      (cs : List Condition)
      → Settles (some_of (verdicts run facts cs)) (some_of (verdicts run later cs))
  some_of-Settles [] = inr refl
  some_of-Settles (c ∷ cs) =
      either-Settles _ _ _ _ (eval_condition-Settles run c facts later more) (some_of-Settles cs)

  combined-Settles :
      (mode : MatchMode) (cs : List Condition)
      → Settles (combined mode (verdicts run facts cs)) (combined mode (verdicts run later cs))
  combined-Settles match_any cs = some_of-Settles cs
  combined-Settles _ cs = every-Settles cs

-- A group that passes or fails on the facts reported so far does so whatever else is reported later,
-- as long as no reported fact changes.
pub eval_group-Settles :
    {F : Type 0} (run : Runtime F) (g : Group) (facts later : Facts)
    → Extends facts later
    → Settles (eval_group run g facts) (eval_group run g later)
eval_group-Settles run g facts later more =
    rw (eval_group-combined run facts g, eval_group-combined run later g)
      (combined-Settles run facts later more g.match_mode g.conditions)
