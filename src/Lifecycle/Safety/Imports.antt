-- ===== src/Lifecycle/Safety/Imports.antt =====
-- Sound tables as a relation that the statements of an import keep to.
use pluris.Lifecycle.Relations.Operations.{Kept}
use pluris.Lifecycle.Safety.{Keeps, Keeps-Order}
use pluris.Lifecycle.Safety.Rows.{create_version-IsSafe, update_match_mode-IsSafe}
use pluris.Lifecycle.Safety.Contents.{upsert_script_row-IsSafe, create_condition_row-IsSafe}
use pluris.Lifecycle.Safety.Modules.{
  create_module_row-IsSafe, set_module_owner-IsSafe, set_module_origin-IsSafe,
}

pub Keeps-Kept : Kept Keeps
Keeps-Kept = record {
  order = Keeps-Order;
  creates_version = create_version-IsSafe;
  upserts_script = upsert_script_row-IsSafe;
  creates_condition = create_condition_row-IsSafe;
  updates_match_mode = update_match_mode-IsSafe;
  creates_module = create_module_row-IsSafe;
  sets_owner = set_module_owner-IsSafe;
  sets_origin = set_module_origin-IsSafe;
}
