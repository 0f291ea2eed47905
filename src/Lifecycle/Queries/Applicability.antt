-- ===== src/Lifecycle/Queries/Applicability.antt =====
-- The statements of db/policy_modules.sql.go on the conditions of a version.
use pluris.Prelude.{
  ℕ, suc, String, Bool, ◌&&◌, not, Option, none, some, List, [], ◌∷◌, ◌++◌, if◌then◌else◌, ltb,
  nat_eq, any, ok, err,
}
use pluris.Lifecycle.{
  Version, Condition, no_rows, unique_violation, Platform, Statement, is_draft_of,
}
use pluris.Lifecycle.Queries.{update_where, keep_where, delete_where, count, is_editable}

abbrev pub conditions_of : ℕ → List Condition → List Condition
conditions_of i = keep_where (λ r. nat_eq r.version_id i)

abbrev larger : ℕ → Option ℕ → Option ℕ
larger n none = some n
larger n (some m) = some (if ltb n m then m else n)

-- MaxVersionConditionSeq, with `none` for its -1
abbrev pub max_seq : List Condition → Option ℕ
max_seq [] = none
max_seq (r ∷ rs) = larger r.seq (max_seq rs)

abbrev pub max_condition_seq : ℕ → Statement (Option ℕ)
max_condition_seq i t = (ok (max_seq (conditions_of i t.conditions)), t)

-- CreateVersionConditionGuarded: the row gets its id here.
unfoldable pub create_condition_row : Condition → Statement Condition
create_condition_row c t =
    if not (is_editable c.version_id t)
    then (err no_rows, t)
    else (if any (λ r. nat_eq r.version_id c.version_id && nat_eq r.seq c.seq) t.conditions
        then (err unique_violation, t)
        else (
          ok (record c { id = t.next_condition }),
          record t {
            conditions = t.conditions ++ record c { id = t.next_condition } ∷ [];
            next_condition = suc t.next_condition;
          },
        ))

abbrev pub is_condition : ℕ → ℕ → Condition → Bool
is_condition i id r = nat_eq r.version_id i && nat_eq r.id id

-- UpdateVersionConditionGuarded
abbrev pub replaced_condition : Condition → Condition → Condition
replaced_condition c r = record r {
  kind = c.kind;
  param_path = c.param_path;
  operator = c.operator;
  value_json = c.value_json;
  script_source = c.script_source;
  script_ref = c.script_ref;
}

unfoldable pub update_condition_row : Condition → Statement ℕ
update_condition_row c t = if not (is_editable c.version_id t) then (ok 0, t) else (
  ok (count (is_condition c.version_id c.id) t.conditions),
  record t {
    conditions = update_where (is_condition c.version_id c.id) (replaced_condition c) t.conditions;
  },
)

-- DeleteVersionConditionGuarded
unfoldable pub delete_condition_row : ℕ → ℕ → Statement ℕ
delete_condition_row i id t = if not (is_editable i t) then (ok 0, t) else (
  ok (count (is_condition i id) t.conditions),
  record t { conditions = delete_where (is_condition i id) t.conditions },
)

-- UpdateVersionConditionsMatchMode
abbrev pub with_mode : String → Version → Version
with_mode mode v = record v { conditions_match_mode = mode }

unfoldable pub update_match_mode : ℕ → String → Statement ℕ
update_match_mode i mode t = (
  ok (count (is_draft_of i) t.versions),
  record t { versions = update_where (is_draft_of i) (with_mode mode) t.versions },
)

module _ (platform : Platform) where
  -- ListVersionConditions
  abbrev pub list_conditions : ℕ → Statement (List Condition)
  list_conditions i t = (ok (platform.by_seq_and_id (conditions_of i t.conditions)), t)
