-- ===== src/Lifecycle/Safety/Applicability.antt =====
-- The operations on the conditions of a version.
use pluris.Prelude.{ℕ, String, List, string_eq}
use pluris.Lifecycle.{Platform, query}
use pluris.Lifecycle.Queries.Applicability.{update_condition_row, delete_condition_row}
use pluris.Lifecycle.Versions.{wrote_some}
use pluris.Lifecycle.Applicability.{
  ConditionPayload, lifted, validate_condition_payload, condition_row, add_version_condition,
  update_version_condition, remove_version_condition, set_conditions_match_mode,
}
use pluris.Lifecycle.Relations.Operations.{
  add_version_condition-Obeys, set_conditions_match_mode-Obeys, lifted-Obeys,
}
use pluris.Lifecycle.Safety.Imports.{Keeps-Kept}
use pluris.Lifecycle.Safety.{Keeps, IsSafe, query-IsSafe, bind-IsSafe}
use pluris.Lifecycle.Safety.Contents.{update_condition_row-IsSafe, delete_condition_row-IsSafe}
use pluris.Lifecycle.Safety.Versions.{wrote_some-IsSafe}

module _ (platform : Platform) where
  pub add_version_condition-IsSafe :
      (i : ℕ) (p : ConditionPayload) (values : List String)
      → IsSafe (add_version_condition platform i p values)
  add_version_condition-IsSafe = add_version_condition-Obeys Keeps Keeps-Kept platform

  pub update_version_condition-IsSafe :
      (i id : ℕ) (p : ConditionPayload) (values : List String)
      → IsSafe (update_version_condition platform i id p values)
  unfolding update_version_condition
  update_version_condition-IsSafe i id p values =
      bind-IsSafe (lifted (validate_condition_payload platform p)) _
        (lifted-Obeys Keeps Keeps-Kept (validate_condition_payload platform p))
        (λ kind.
          let row = condition_row platform i id p kind values 0 in
          bind-IsSafe (query (update_condition_row row)) (wrote_some i)
            (query-IsSafe _ (update_condition_row-IsSafe row)) (wrote_some-IsSafe i))

pub remove_version_condition-IsSafe : (i id : ℕ) → IsSafe (remove_version_condition i id)
unfolding remove_version_condition
remove_version_condition-IsSafe i id =
    bind-IsSafe (query (delete_condition_row i id)) (wrote_some i)
      (query-IsSafe _ (delete_condition_row-IsSafe i id)) (wrote_some-IsSafe i)

pub set_conditions_match_mode-IsSafe :
    (i : ℕ) (mode : String) → IsSafe (set_conditions_match_mode i mode)
set_conditions_match_mode-IsSafe = set_conditions_match_mode-Obeys Keeps Keeps-Kept
