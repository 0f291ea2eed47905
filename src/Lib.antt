-- ===== src/Lib.antt =====
-- Pluris decides what a console user may do, which policy modules a selection pulls in, and on
-- which devices a module applies. This library models those decisions and proves what they promise.
--
-- Grants (pkg/authz/grants.go): the map from action to scope that a role stores, the checks on it
--   and the union of several. `encoding/json` enters as a record `Json`.
-- ModuleAccess (pkg/authz/modules.go): who may view, edit and administer one policy module, from
--   the grants, the ownership and the rows of explicit grants; Grounds and Matrix have the documented
--   decision matrix as rules.
-- Permissions (catalog/permissions/registry.go, templates.go): the registry of actions, with the
--   index that `init` builds, and the templates of the builtin roles.
-- Roles (pkg/authz/service.go): the service that resolves roles through their parents, stores
--   overrides, and moves, clones and creates roles. Roles/Store has the tables and the queries of
--   db/roles.sql.go as explicit state; a predicate on queries says where the driver fails, the
--   same for every attempt of a query, and a failed operation keeps what it has already written. The
--   tenants that a role refers to are taken to exist. Slug is the service's `slugify`.
-- Conditions (catalog/dependencygroups/types.go, eval.go): conditions over the facts of a device,
--   the groups that combine them, and in Conditions/Eligibility the status of a module. Number
--   parsing and regular expressions enter as a record `Runtime`.
-- Resolver (catalog/policymodules/resolver.go): the closure of a selection of modules under
--   dependencies, by a depth-first search in three colours.
-- DynamicGroups (pkg/services/group_rules.go, db/group_rules.sql.go): the evaluation of a dynamic
--   group, which reconciles its rule-sourced members with its rules on the table of memberships. A
--   candidate comes with its facts; at most 10000 are listed, as in the code.
-- RoleCache (pkg/services/roles.go, console/handlers/group_roles.go): the slug that an identity's row
--   caches of the roles it holds; Directory has the tables and the operations that refresh it, Changes
--   their sequences, and Builtins the roles that every tenant has. Of the handlers only the writes are
--   modelled, and an UPDATE that its CHECK refuses is an error.
-- Lifecycle (pkg/services/policymodules.go, policymodules_scripts.go, policymodules_conditions.go):
--   the service of policy modules over its tables, with their constraints, guards and cascades from
--   db/policy_modules.sql.go and db/schema. Lifecycle/Queries has the statements; Versions, Scripts,
--   Applicability and Modules have the operations, Bundled the modules that are seeded. The tables
--   of identities and tenants are the ids that foreign keys may name. A store says for each query to
--   come whether it fails; a transaction that fails puts the tables back. JSON,
--   the order of rows and strings.TrimSpace enter as a record `Platform`. Course is the abstract
--   lifecycle of a version; Relations carries a relation between tables through the operations,
--   Changes, Safety and Success the proofs; and Histories runs any sequence of operations.
-- Archives (pkg/services/policymodules_import.go, policymodules_export.go): .pmdl archives. The
--   parsing with its limits, and the import by the operations of Lifecycle; the export, whose entries
--   are a list of names and contents. gzip, tar, path.Clean, YAML, JSON, sorting and the printing of
--   numbers enter as records `Codec`, `Reader` and `Writer`; an export that fails has written nothing
--   here. The search for the URN of a copy recurses on fuel, one more than there are modules
--   (Archives/Naming). Inside has the names that the guard on paths lets through. Paths, Stored, Blocks and Reading say what the parser makes of the files of
--   several versions, Described and Written what an export writes.
-- Auth (pkg/auth/session.go, rbac.go, middleware.go): the table of console sessions, the permission
--   that a path asks for, and the chain of middleware in front of the handlers. The random token,
--   SHA-256 and SQLite's comparison of times enter as arguments and a record `Platform`.
--
-- The grants of Roles feed the checks of Grants, ModuleAccess and Auth; Roles takes the keys and
-- templates of Permissions, and DynamicGroups the verdicts of Conditions. Maps are association
-- lists that replace the entry of a key, and the identifiers of rows are natural numbers. The walks
-- up the parents of a role are bounded as in the code, by `MaxRoleDepth` (5). The search of the
-- resolver recurses on fuel, the length of the catalog and one more: each level of the search turns
-- a white module of the catalog grey (Resolver/Total).
--
-- Not modelled: the console's handlers and pages, the generated queries beside those of the parts
-- above, the migrations, display texts such as labels, the times at which rows were written, and
-- the services that only pass validated forms on to the database.
pub mod Prelude
pub mod Grants
pub mod ModuleAccess
pub mod Permissions
pub mod Roles
pub mod Slug
pub mod Conditions
pub mod Resolver
pub mod Auth
pub mod DynamicGroups
pub mod RoleCache
pub mod Lifecycle
pub mod Archives
