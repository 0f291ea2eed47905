-- ===== src/Conditions/Tests.antt =====
-- Devices that report their facts in two rounds.
use pluris.Prelude.{
  ℕ, none, some, List, [], ◌∷◌, string_eq, id_eq, ◌==◌, ltb, leb, if◌then◌else◌, refl, ◌≡◌, ◌⊎◌,
  arith,
}
use mathlib.Core.List.{Permᴰ}
use pluris.Conditions.{
  Verdict, pass, fail, unknown, Operator, op_in, op_gte, kind_param, match_all, match_any,
  Condition, Group, Facts, Runtime, eval_group,
}
use pluris.Conditions.Kleene.{every, verdicts, combined, eval_group-perm, eval_group-combined}
use pluris.Conditions.Reports.{Extends, Settles, eval_group-Settles}
use pluris.Conditions.Eligibility.{
  ModuleLink, status_unknown, role_platform, role_requirement, status_of, eligible_links,
}
use pluris.Conditions.Eligibility.Aggregates.{agnostic}
use pluris.Conditions.Eligibility.Verdicts.{
  linked, is_platform, is_requirement, eligible_links-status,
}
use pluris.Conditions.Eligibility.LaterReports.{eligible_links-Settles}

-- numbers of one digit, and patterns that match their own text
abbrev digits : Runtime ℕ
digits = record {
  parse_float = λ s. if s == "7" then some 7 else if s == "9" then some 9 else none;
  gt = λ a b. ltb b a;
  gte = λ a b. leb b a;
  lt = ltb;
  lte = leb;
  compile = λ p. some (λ s. p == s);
  sprint_int = λ n. if ltb n 5 then "low" else "high";
}

abbrev on_linux : Condition
on_linux = record {
  id = 1;
  param_path = "system/os";
  operator = op_in;
  values = "linux" ∷ "bsd" ∷ [];
  kind = kind_param;
}

abbrev recent : Condition
recent = record {
  id = 2;
  param_path = "system/version";
  operator = op_gte;
  values = "7" ∷ [];
  kind = kind_param;
}

abbrev hosts : Group
hosts = record {
  id = 4;
  slug = "hosts";
  name = "Hosts";
  match_mode = match_all;
  conditions = on_linux ∷ recent ∷ [];
}

abbrev first_report : Facts
first_report = ("os", "plan9") ∷ []

abbrev second_report : Facts
second_report = ("os", "plan9") ∷ ("version", "9") ∷ []

first_verdict : eval_group digits hosts first_report ≡ fail
unfolding eval_group pluris.Conditions.eval_condition pluris.Conditions.eval_operator
first_verdict = refl

reports_extend : Extends first_report second_report
reports_extend = record { keeps = λ key v e. ground arith }

eval_group-Settles_example :
    Settles (eval_group digits hosts first_report) (eval_group digits hosts second_report)
eval_group-Settles_example =
    eval_group-Settles digits hosts first_report second_report reports_extend

eval_group-perm_example :
    eval_group digits (record hosts { conditions = on_linux ∷ recent ∷ [] }) second_report
    ≡ eval_group digits (record hosts { conditions = recent ∷ on_linux ∷ [] }) second_report
eval_group-perm_example =
    eval_group-perm digits second_report hosts (on_linux ∷ recent ∷ []) (recent ∷ on_linux ∷ [])
      ∣ Permᴰ.swap refl refl ∣₁

abbrev links : List ModuleLink
links =
    record { group_id = 4; role = role_platform }
    ∷ record { group_id = 5; role = role_requirement }
    ∷ []

eligible_links-Settles_example :
    ((eligible_links digits ((4, hosts) ∷ []) first_report links).status ≡ status_unknown)
    ⊎ ((eligible_links digits ((4, hosts) ∷ []) first_report links).status
        ≡ (eligible_links digits ((4, hosts) ∷ []) second_report links).status)
eligible_links-Settles_example =
    eligible_links-Settles digits ((4, hosts) ∷ []) links first_report second_report reports_extend

eval_group-combined_example :
    eval_group digits hosts second_report
    ≡ combined match_all (verdicts digits second_report (on_linux ∷ recent ∷ []))
eval_group-combined_example = eval_group-combined digits second_report hosts

eligible_links-status_example :
    (eligible_links digits ((4, hosts) ∷ []) first_report links).status
    ≡ status_of
        (agnostic (linked digits ((4, hosts) ∷ []) is_platform links first_report))
        (every (linked digits ((4, hosts) ∷ []) is_requirement links first_report))
eligible_links-status_example = eligible_links-status digits ((4, hosts) ∷ []) first_report links
