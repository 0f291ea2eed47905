-- ===== src/Lifecycle.antt =====
-- pkg/services/policymodules.go, policymodules_scripts.go and policymodules_conditions.go over the
-- tables of policy modules (db/policy_modules.sql.go, db/schema/012_module_scripts_actions.sql). A
-- query may fail at any time: the store carries, for the queries to come, whether each fails.
pub mod Queries
pub mod Rows
pub mod Course
pub mod Changes
pub mod Success
pub mod Safety
pub mod Bundled
pub mod Histories
pub mod Frozen
pub mod Publication
pub mod Quiet
pub mod Runs
pub mod Relations
mod Tests
pub mod Versions
pub mod Scripts
pub mod Applicability
pub mod Modules
use pluris.Prelude.{
  ℕ, String, Bool, true, false, ◌&&◌, Option, none, some, List, [], ◌∷◌, nat_eq, Result, ok, err,
  Exec,
}

pub data State : Type 0 where
  draft published superseded revoked : State

pub record Dependency : Type 0 where
  pub module_urn : String
  pub version_constraint : String

pub record SandboxProfile : Type 0 where
  pub fs_read : List String
  pub fs_write : List String
  pub net_egress : List String
  pub user : String

-- `ModuleVersionFields`
pub record VersionFields : Type 0 where
  pub version : String
  pub target_os : List String
  pub scope : String
  pub satisfies : List String
  pub parameters_schema : String
  pub depends_on : List Dependency
  pub conflicts : List String
  pub sandbox_profile : SandboxProfile
  pub report_schema : String
  pub manifest_yaml : String

-- The columns that hold what a version says, as text.
pub record Manifest : Type 0 where
  pub version : String
  pub target_os : String
  pub scope : String
  pub satisfies : String
  pub parameters_schema : Option String
  pub depends_on : Option String
  pub conflicts : Option String
  pub sandbox_profile : String
  pub report_schema : String
  pub manifest_yaml : String

-- a row of `policy_module_versions`, without the columns of the signature, which nothing writes
pub record Version : Type 0 where
  pub id : ℕ
  pub module_id : ℕ
  pub state : State
  pub manifest : Manifest
  pub published_at : Option ℕ
  pub published_by : Option ℕ
  pub superseded_by_version : Option String
  pub created_at : ℕ
  pub conditions_match_mode : String

-- rows of scripts and actions, without their ids, which nothing reads
pub record Script : Type 0 where
  pub version_id : ℕ
  pub name : String
  pub language : String
  pub source : String
  pub origin : String
  pub seq : ℕ

pub record Action : Type 0 where
  pub version_id : ℕ
  pub action_key : String
  pub label : String
  pub kind : String
  pub value : String
  pub origin : String
  pub seq : ℕ

-- a row of `module_version_conditions`, without `script_expect`, which nothing writes
pub record Condition : Type 0 where
  pub id : ℕ
  pub version_id : ℕ
  pub kind : String
  pub param_path : String
  pub operator : String
  pub value_json : String
  pub script_source : String
  pub script_ref : String
  pub seq : ℕ

pub record Module : Type 0 where
  pub id : ℕ
  pub module_urn : String
  pub tenant_id : Option ℕ
  pub title : String
  pub description : Option String
  pub is_bundled : Bool
  pub created_at : ℕ
  pub owner_identity_id : Option ℕ
  pub deleted_at : Option ℕ
  pub deleted_by : Option ℕ
  pub origin : String

-- The tables, and the references to modules that the guards of a deletion count: dependency links by
-- tenant and URN, bindings and installations by module id. `identities` and `tenants` are the ids
-- that foreign keys may name; `now` is CURRENT_TIMESTAMP.
pub record Tables : Type 0 where
  pub modules : List Module
  pub versions : List Version
  pub scripts : List Script
  pub actions : List Action
  pub conditions : List Condition
  pub links : List (ℕ × String)
  pub bindings : List ℕ
  pub installations : List ℕ
  pub identities : List ℕ
  pub tenants : List ℕ
  pub retention_mode : Option String
  pub next_module : ℕ
  pub next_version : ℕ
  pub next_condition : ℕ
  pub now : ℕ

pub record Store : Type 0 where
  pub tables : Tables
  pub faults : List Bool

pub data Error : Type 0 where
  no_rows query_failed unique_violation constraint_violation : Error
  version_not_draft publish_requires_apply_script module_referenced : Error
  invalid_lifecycle_phase module_not_found revoke_invalid_state : Error
  invalid_match_mode invalid_operator param_path_required : Error
  script_source_required script_source_ambiguous invalid_condition_kind : Error
  urn_conflict does_not_end : Error
  marshal_failed write_failed foreign_version no_exportable_version : Error

-- What encoding/json, SQLite's ORDER BY and strings.TrimSpace do: `json.Marshal` gives `none` where it
-- fails.
pub record Platform : Type 0 where
  pub marshal_strings : List String → Option String
  pub marshal_dependencies : List Dependency → Option String
  pub marshal_sandbox : SandboxProfile → Option String
  pub trim_space : String → String
  pub by_created_at : List Version → List Version
  pub by_published_at : List Version → List Version
  pub by_seq_and_name : List Script → List Script
  pub by_seq_and_id : List Condition → List Condition

-- A statement on the tables, and an operation of the service.
abbrev pub Statement : Type 0 → Type 0
Statement A = Exec Tables Error A

abbrev pub Operation : Type 0 → Type 0
Operation A = Exec Store Error A

abbrev pub next_fails : List Bool → Bool
next_fails [] = false
next_fails (b ∷ bs) = b

abbrev pub later_faults : List Bool → List Bool
later_faults [] = []
later_faults (b ∷ bs) = bs

module _ {A : Type 0} where
  abbrev pub executed : Bool → List Bool → Statement A → Tables → Result Error A × Store
  executed true bs q t = (err query_failed, record { tables = t; faults = bs })
  executed false bs q t = let (r, t') = q t in (r, record { tables = t'; faults = bs })

  -- One query or statement sent to the database.
  abbrev pub query : Statement A → Operation A
  query q s = executed (next_fails s.faults) (later_faults s.faults) q s.tables

  -- Go's `v, err := m` where the code goes on in both cases.
  abbrev pub attempt : Operation A → Operation (Result Error A)
  attempt m s = let (r, s') = m s in (ok r, s')

  abbrev pub committed : Result Error A → Store → Result Error A × Store
  committed (ok a) s = query (λ t. (ok a, t)) s
  committed (err e) s = (err e, s)

  abbrev pub kept_or_lost : Tables → Result Error A × Store → Result Error A × Store
  kept_or_lost before (ok a, s) = (ok a, s)
  kept_or_lost before (err e, s) = (err e, record s { tables = before })

  abbrev pub begun : Bool → Operation A → Store → Result Error A × Store
  begun true m s = (err query_failed, s)
  begun false m s = let (r, s') = m s in kept_or_lost s.tables (committed r s')

  -- BeginTx, the statements, Commit; the deferred Rollback where one of them fails.
  abbrev pub transaction : Operation A → Operation A
  transaction m s = begun (next_fails s.faults) m (record s { faults = later_faults s.faults })

-- The texts of the column `state`.
abbrev pub is_draft : State → Bool
is_draft draft = true
is_draft _ = false

abbrev pub is_published : State → Bool
is_published published = true
is_published _ = false

abbrev pub is_deployed : State → Bool
is_deployed published = true
is_deployed superseded = true
is_deployed _ = false

abbrev pub has_id : ℕ → Version → Bool
has_id i v = nat_eq v.id i

abbrev pub is_draft_of : ℕ → Version → Bool
is_draft_of i v = nat_eq v.id i && is_draft v.state
