-- ===== src/Conditions/Eligibility.antt =====
-- `Eligible` of catalog/dependencygroups/eval.go: a module's links to groups, against the facts of a
-- device.
pub mod Aggregates
pub mod Verdicts
pub mod LaterReports
use Prim.Native.String
use pluris.Prelude.{
  ℕ, String, Bool, true, false, Option, none, some, List, [], ◌∷◌, ◌++◌, if◌then◌else◌, Dict,
  lookup, id_eq,
}
use pluris.Conditions.{Verdict, pass, fail, unknown, Group, Facts, Runtime, eval_group}

-- `role_other` stands for every other text.
pub data Role : Type 0 where
  role_platform role_requirement role_other : Role

pub data Status : Type 0 where
  eligible ineligible status_unknown : Status

pub record ModuleLink : Type 0 where
  pub group_id : ℕ
  pub role : Role

pub record GroupResult : Type 0 where
  pub group_id : ℕ
  pub slug : String
  pub name : String
  pub role : Role
  pub pass : Verdict
  pub reason : String

pub record Outcome : Type 0 where
  pub status : Status
  pub platforms : List GroupResult
  pub requirements : List GroupResult

-- the variables of the loop; a count is read only as being positive
pub record Tally : Type 0 where
  pub plat_any : Bool
  pub plat_unknown : Bool
  pub platforms : List GroupResult
  pub req_fail : Bool
  pub req_unknown : Bool
  pub requirements : List GroupResult

abbrev pub start : Tally
start = record {
  plat_any = false;
  plat_unknown = false;
  platforms = [];
  req_fail = false;
  req_unknown = false;
  requirements = [];
}

unfoldable pub reason_for : Group → Verdict → String
reason_for g pass = String.◌++◌ g.name " matched"
reason_for g fail = String.◌++◌ g.name " did not match"
reason_for g unknown = String.◌++◌ g.name " needs agent inventory"

abbrev pub is_verdict : Verdict → Verdict → Bool
is_verdict pass pass = true
is_verdict fail fail = true
is_verdict unknown unknown = true
is_verdict _ _ = false

-- the `switch l.Role` of the loop
unfoldable pub count_result : Role → GroupResult → Tally → Tally
count_result role_platform r t = record t {
  plat_any = if is_verdict r.pass pass then true else t.plat_any;
  plat_unknown = if is_verdict r.pass unknown then true else t.plat_unknown;
  platforms = t.platforms ++ r ∷ [];
}
count_result role_requirement r t = record t {
  req_fail = if is_verdict r.pass fail then true else t.req_fail;
  req_unknown = if is_verdict r.pass unknown then true else t.req_unknown;
  requirements = t.requirements ++ r ∷ [];
}
count_result role_other r t = t

abbrev is_empty : List GroupResult → Bool
is_empty [] = true
is_empty _ = false

abbrev pub platform_verdict : Tally → Verdict
platform_verdict t =
    if is_empty t.platforms
    then pass
    else if t.plat_any
    then pass
    else if t.plat_unknown
    then unknown
    else fail

abbrev pub requirement_verdict : Tally → Verdict
requirement_verdict t =
    if is_empty t.requirements
    then pass
    else if t.req_fail
    then fail
    else if t.req_unknown
    then unknown
    else pass

abbrev pub status_of : Verdict → Verdict → Status
status_of fail r = ineligible
status_of p fail = ineligible
status_of pass pass = eligible
status_of _ _ = status_unknown

module _ {F : Type 0} (run : Runtime F) (groups : Dict ℕ Group) (facts : Facts) where
  abbrev pub result_of : ModuleLink → Group → GroupResult
  result_of l g =
      let v = eval_group run g facts in
      record {
        group_id = g.id;
        slug = g.slug;
        name = g.name;
        role = l.role;
        pass = v;
        reason = reason_for g v;
      }

  -- one round of the loop
  count_link : ModuleLink → Tally → Tally
  unfolding count_result reason_for
  count_link l t = elim (lookup l.group_id groups) [
    | none ↦ t
    | some g ↦ count_result l.role (result_of l g) t
  ]

  tally : Tally → List ModuleLink → Tally
  unfolding count_link
  tally t [] = t
  tally t (l ∷ ls) = tally (count_link l t) ls

  unfoldable pub eligible_links : List ModuleLink → Outcome
  unfolding tally
  eligible_links links =
      let t = tally start links in
      record {
        status = status_of (platform_verdict t) (requirement_verdict t);
        platforms = t.platforms;
        requirements = t.requirements;
      }
