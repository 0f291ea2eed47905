-- ===== src/DynamicGroups/Tests.antt =====
-- One group of devices, reconciled.
use pluris.Prelude.{
  ℕ, String, false, ◌&&◌, not, none, List, [], ◌∷◌, contains, id_eq, ltb, leb, ok, ◌≡◌, refl,
}
use pluris.Conditions.{Group, Condition, Runtime, Facts, op_equals, kind_param, match_all}
use pluris.DynamicGroups.{
  Source, Column, asset_id, identity_id, direct, rule, Membership, Candidate, Database, reconcile,
}
use pluris.DynamicGroups.{DynamicGroup, mixed, same_column}
use pluris.DynamicGroups.Evaluation.{Directory, evaluate_dynamic_membership}
use pluris.DynamicGroups.Evaluation.Untouched.{untouched, evaluate-untouched}
use pluris.Prelude.{true, if◌then◌else◌}
use pluris.DynamicGroups.Members.{has, others}
use pluris.DynamicGroups.Reconciled.{wanted, reconcile-others, reconcile-members}

abbrev no_numbers : Runtime ℕ
no_numbers = record {
  parse_float = λ s. none;
  gt = λ a b. ltb b a;
  gte = λ a b. leb b a;
  lt = ltb;
  lte = leb;
  compile = λ p. none;
  sprint_int = λ n. "";
}

abbrev linux_only : Group
linux_only = record {
  id = 7;
  slug = "";
  name = "Linux";
  match_mode = match_all;
  conditions =
      record {
        id = 1;
        param_path = "asset/os";
        operator = op_equals;
        values = "linux" ∷ [];
        kind = kind_param;
      }
      ∷ [];
}

abbrev device : ℕ → String → Candidate
device id os = record { id = id; facts = ("os", os) ∷ [] }

abbrev devices : List Candidate
devices = device 1 "linux" ∷ device 2 "linux" ∷ device 3 "windows" ∷ []

abbrev row : ℕ → Column → Source → Membership
row id c s = record { group_id = 7; column = c; member = id; source = s }

-- 1 was added by hand; 3 passed the rules once
abbrev before : Database
before = record {
  memberships = row 1 asset_id direct ∷ row 3 asset_id rule ∷ row 3 identity_id direct ∷ [];
  fails = λ q. false;
}

reconciled_test : reconcile 7 asset_id no_numbers linux_only devices before ≡ (
  ok (1, 1),
  record before {
    memberships = row 1 asset_id direct ∷ row 3 identity_id direct ∷ row 2 asset_id rule ∷ [];
  },
)
unfolding reconcile pluris.Conditions.eval_group pluris.Conditions.eval_condition
    pluris.Conditions.eval_operator
reconciled_test = refl

counted : (reconcile 7 asset_id no_numbers linux_only devices before).0 ≡ ok (1, 1)
unfolding reconcile pluris.Conditions.eval_group pluris.Conditions.eval_condition
    pluris.Conditions.eval_operator
counted = refl

reconcile-others_example :
    others 7 asset_id (reconcile 7 asset_id no_numbers linux_only devices before).1.memberships
    ≡ others 7 asset_id before.memberships
reconcile-others_example = reconcile-others 7 asset_id no_numbers linux_only devices before

reconcile-members_example :
    has 7 asset_id rule 2 (reconcile 7 asset_id no_numbers linux_only devices before).1.memberships
    ≡ (contains (wanted 7 asset_id no_numbers linux_only devices) 2
        && not (has 7 asset_id direct 2 before.memberships))
reconcile-members_example =
    reconcile-members 7 asset_id no_numbers linux_only devices before (1, 1) 2 refl counted

abbrev linux_group : DynamicGroup
linux_group = record { id = 7; is_dynamic = true; member_kind = mixed; rules = linux_only }

abbrev site : Directory
site = record {
  candidates = λ c. if same_column c asset_id then devices else [];
  is_live = λ c id. true;
}

evaluated :
    (evaluate_dynamic_membership no_numbers site linux_group before).0
    ≡ ok (record { added = 1; removed = 1; total = 3 })
unfolding evaluate_dynamic_membership reconcile pluris.Conditions.eval_group
    pluris.Conditions.eval_condition pluris.Conditions.eval_operator
evaluated = refl

evaluate-untouched_example :
    untouched 7 (evaluate_dynamic_membership no_numbers site linux_group before).1.memberships
    ≡ untouched 7 before.memberships
evaluate-untouched_example = evaluate-untouched no_numbers site linux_group before
