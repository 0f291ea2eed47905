-- ===== src/Lifecycle/Tests.antt =====
-- A module with a published version and a draft, and bundled modules whose seeding breaks off.
mod Scene
use pluris.Prelude.{
  In, ◌<◌, inl, false, ℕ, zero, suc, String, Bool, true, false, none, some, List, [], ◌∷◌, ◌≡◌,
  refl, arith, ok, err,
}
use pluris.Lifecycle.{
  draft, published, Manifest, Version, Script, Module, Tables, Platform, VersionFields,
  version_not_draft, constraint_violation,
}
use pluris.Lifecycle.Queries.{count}
use pluris.Lifecycle.Queries.Contents.{scripts_of, actions_of}
use pluris.Lifecycle.Versions.{has_apply, publish, publish_tx}
use pluris.Lifecycle.Scripts.{
  default_apply, default_action, upsert_script, upsert_action, full_reset, seed_module_defaults,
}
use pluris.Lifecycle.Applicability.{ConditionPayload, validate_condition_payload}
use pluris.Lifecycle.Course.{Sound, Evolves, is_current}
use pluris.Lifecycle.Histories.{
  Request, adds_module, drafts, seeds_defaults, publishes_draft, forks, exports, seeds_bundled,
  perform, run, run-IsSound, run-Evolves,
}
use pluris.Lifecycle.Frozen.{store, Refuses, frozen-Refuses}
use pluris.Lifecycle.Safety.Publishing.{IsOrder, published_rows}
use pluris.Archives.{Parsed}
use pluris.Archives.Export.{Writer}
use pluris.Archives.Import.{Reader, import_module}
use pluris.Archives.Drafts.{import_module-is_draft}
use pluris.Lifecycle.Publication.{
  Ends, Publishes, publish-Ends, KeepsRows, publish_lem, publish_tx-race,
}
use pluris.Lifecycle.Tests.Scene.{
  plain, tally, printer, typist, empty, fields, screen, requests, manifest, current, candidate,
  two_versions, os_condition, one_draft, archive,
}

plain-IsOrder : IsOrder plain.by_seq_and_name
plain-IsOrder x xs i = i

plain-KeepsRows : KeepsRows plain.by_seq_and_name
plain-KeepsRows x xs = (λ i. i, λ i. i)

empty-IsSound : Sound empty
empty-IsSound = record {
  ids_bounded = λ v i. absurd i;
  ids_distinct = λ i. omega arith;
  one_published = λ m. omega arith;
  applicable = λ v i. absurd i;
  modules_bounded = λ r i. absurd i;
  owners_bounded = λ v i. absurd i;
}

run-IsSound_example : Sound (run plain printer typist requests empty)
run-IsSound_example = run-IsSound plain printer typist plain-IsOrder requests empty empty-IsSound

run-Evolves_example : Evolves empty (run plain printer typist requests empty)
run-Evolves_example = run-Evolves plain printer typist plain-IsOrder requests empty empty-IsSound

-- The requests lead there: the first publication fails at its commit, and the fork has no actions.
requests_test : run plain printer typist requests empty ≡ two_versions
unfolding run perform
requests_test = refl

-- its second version, published
publish_lem_example :
    publish plain 2 4 (store two_versions)
    ≡ (ok tt, store (record two_versions { versions = published_rows candidate 2 4 two_versions }))
publish_lem_example = publish_lem plain plain-KeepsRows 2 4 two_versions candidate refl refl refl

-- a caller that is no identity
unknown_publisher :
    publish plain 2 9 (store two_versions) ≡ (err constraint_violation, store two_versions)
unknown_publisher = publish_lem plain plain-KeepsRows 2 9 two_versions candidate refl refl refl

publish-Ends_example :
    Ends
      (Publishes 2 4 two_versions)
      two_versions
      (publish plain 2 4 (record { tables = two_versions; faults = false ∷ false ∷ true ∷ [] }))
publish-Ends_example =
    publish-Ends plain plain-IsOrder 2 4
      (record { tables = two_versions; faults = false ∷ false ∷ true ∷ [] })

won : (publish_tx candidate 2 4 (store two_versions)).0 ≡ ok tt
unfolding publish_tx
won = refl

publish_tx-race_example :
    publish_tx candidate 2 5 (store (publish_tx candidate 2 4 (store two_versions)).1.tables)
    ≡ (err version_not_draft, store (publish_tx candidate 2 4 (store two_versions)).1.tables)
publish_tx-race_example = publish_tx-race candidate candidate 2 4 5 (store two_versions) won

two_versions-IsSound : Sound two_versions
unfolding run perform
two_versions-IsSound = run-IsSound_example

valid_condition : validate_condition_payload plain os_condition ≡ ok "param"
unfolding validate_condition_payload
valid_condition = refl

-- the published version refuses an edit of its fields, among the others
frozen-Refuses_example : Refuses (full_reset plain 1) two_versions
frozen-Refuses_example =
    (frozen-Refuses plain two_versions two_versions-IsSound 1 current refl refl os_condition "param"
      "any" valid_condition refl).9

-- The fork of a version with an action has none.
fork_drops_actions :
    (actions_of 1 two_versions.actions ≡ default_action 1 "apply" "apply" 0 ∷ [])
    × (actions_of 2 two_versions.actions ≡ [])
fork_drops_actions = (refl, refl)

-- FullReset after an edit of the default action alone: the action is gone, and not rebuilt.
reset_drops_action :
    let edited =
      (upsert_action
        (default_action 1 "apply" "other" 0)
        (store (seed_module_defaults plain 1 (store one_draft)).1.tables)).1.tables in
    let custom =
      (upsert_action
        (record (default_action 1 "apply" "other" 0) { origin = "" })
        (store (seed_module_defaults plain 1 (store one_draft)).1.tables)).1.tables in
    ((full_reset plain 1 (store edited)).1.tables.actions ≡ default_action 1 "apply" "other" 0 ∷ [])
    × ((full_reset plain 1 (store custom)).0 ≡ ok tt)
    × ((full_reset plain 1 (store custom)).1.tables.actions ≡ [])
unfolding seed_module_defaults upsert_action full_reset
reset_drops_action = (refl, refl, refl)

abbrev edited_default : String → Script
edited_default name = record (default_apply 1) { name = name; source = "true" }

-- FullReset after edits of "apply" and of its pristine copy: no script "apply" is left.
reset_drops_script :
    let seeded = (seed_module_defaults plain 1 (store one_draft)).1.tables in
    let forked = (upsert_script (edited_default "apply") (store seeded)).1.tables in
    let twice = (upsert_script (edited_default "apply (default)") (store forked)).1.tables in
    ((full_reset plain 1 (store twice)).0 ≡ ok tt)
    × (has_apply (scripts_of 1 (full_reset plain 1 (store twice)).1.tables.scripts) ≡ false)
unfolding seed_module_defaults upsert_script full_reset
reset_drops_script = (refl, refl)

-- The seeding fails when it publishes the first module, and is not made good by the next one.
seeding_breaks_off :
    let broken =
      run plain printer typist
        ((seeds_bundled, false ∷ false ∷ false ∷ false ∷ false ∷ false ∷ false ∷ true ∷ []) ∷ [])
        empty in
    (count (is_current 1) broken.versions ≡ 0)
    × (count (is_current 1) (run plain printer typist ((seeds_bundled, []) ∷ []) broken).versions
        ≡ 0)
    × (count (is_current 2) (run plain printer typist ((seeds_bundled, []) ∷ []) broken).versions
        ≡ 1)
unfolding run perform
seeding_breaks_off = (refl, refl, refl)

still_there :
    In current (import_module plain printer archive 1 4 true (store two_versions)).1.tables.versions
unfolding import_module
still_there = inl refl

import_module-is_draft_example : In current two_versions.versions × (1 < 2)
import_module-is_draft_example =
    import_module-is_draft plain printer archive 1 4 true (store two_versions) current
      two_versions-IsSound still_there refl
