-- ===== src/Lifecycle/Relations/Operations.antt =====
-- The operations that an import consists of, for a relation that their statements keep to.
use pluris.Prelude.{
  ℕ, String, Bool, List, not, ◌||◌, ◌==◌, string_eq, nat_eq, contains, Option, none, some, Result,
  ok, err, pure, fail, ◌>>=◌,
}
use pluris.Lifecycle.{
  draft, VersionFields, Manifest, Version, Script, Condition, Module, Platform, Tables, Error,
  no_rows, version_not_draft, invalid_lifecycle_phase, invalid_match_mode, query, attempt, is_draft,
}
use pluris.Lifecycle.Queries.{get_version, create_version}
use pluris.Lifecycle.Queries.Contents.{get_script, upsert_script_row}
use pluris.Lifecycle.Queries.Applicability.{
  max_condition_seq, create_condition_row, update_match_mode,
}
use pluris.Lifecycle.Queries.Modules.{create_module_row, set_module_owner, set_module_origin}
use pluris.Lifecycle.Versions.{
  non_empty, encoded, create_draft, or_not_draft, map_version_not_draft, frozen_or_missing,
  frozen_or_none, version_not_draft_or_missing, wrote_some,
}
use pluris.Lifecycle.Scripts.{
  or_frozen, reserved_default_name, reserved_copy, keep_reserved, keep_default, written_script,
  upsert_script, lifecycle_phases, phase_script, set_script,
}
use pluris.Lifecycle.Applicability.{
  ConditionPayload, lifted, or_missing, next_seq, condition_row, validate_condition_payload,
  add_version_condition, set_conditions_match_mode,
}
use pluris.Lifecycle.Modules.{is_nil, owned, create_module}
use pluris.Lifecycle.Relations.{
  Order, Obeys, query-Obeys, pure-Obeys, fail-Obeys, if-Obeys, bind-Obeys, then-Obeys,
}

module _ (R : Tables → Tables → Type 0) (order : Order R) where
  get_version-Obeys : (i : ℕ) → Obeys R (query (get_version i))
  get_version-Obeys i s = query-Obeys R order (get_version i) order.stays s

  module _ (A : Type 0) where
    frozen_or_missing-Obeys : (r : Result Error Version) → Obeys R (frozen_or_missing {A = A} r)
    frozen_or_missing-Obeys (ok v) = fail-Obeys R order A version_not_draft
    frozen_or_missing-Obeys (err e) = fail-Obeys R order A no_rows

    frozen_or_none-Obeys : (r : Result Error Version) → Obeys R (frozen_or_none {A = A} r)
    frozen_or_none-Obeys (ok v) =
        if-Obeys R order (is_draft v.state) (fail no_rows) (fail version_not_draft)
          (fail-Obeys R order A no_rows) (fail-Obeys R order A version_not_draft)
    frozen_or_none-Obeys (err e) = fail-Obeys R order A no_rows

    pub version_not_draft_or_missing-Obeys :
        (i : ℕ) → Obeys R (version_not_draft_or_missing {A = A} i)
    version_not_draft_or_missing-Obeys i =
        bind-Obeys R order (attempt (query (get_version i))) frozen_or_none (get_version-Obeys i)
          frozen_or_none-Obeys

    map_version_not_draft-Obeys : (i : ℕ) (e : Error) → Obeys R (map_version_not_draft {A = A} i e)
    map_version_not_draft-Obeys i no_rows =
        bind-Obeys R order (attempt (query (get_version i))) frozen_or_missing (get_version-Obeys i)
          frozen_or_missing-Obeys
    map_version_not_draft-Obeys i e = fail-Obeys R order A e

    pub or_not_draft-Obeys : (i : ℕ) (r : Result Error A) → Obeys R (or_not_draft i r)
    or_not_draft-Obeys i (ok a) = pure-Obeys R order a
    or_not_draft-Obeys i (err e) = map_version_not_draft-Obeys i e

  pub wrote_some-Obeys : (i n : ℕ) → Obeys R (wrote_some i n)
  wrote_some-Obeys i n =
      if-Obeys R order (nat_eq n 0) (version_not_draft_or_missing i) (pure tt)
        (version_not_draft_or_missing-Obeys (Unit {0}) i) (pure-Obeys R order tt)

-- A relation that the statements of an import keep to.
pub record Kept (R : Tables → Tables → Type 0) : Type 0 where
  pub order : Order R
  pub creates_version :
      (m : ℕ) (manifest : Manifest) (t : Tables) → R t (create_version m draft manifest t).1
  pub upserts_script : (sc : Script) (t : Tables) → R t (upsert_script_row sc t).1
  pub creates_condition : (c : Condition) (t : Tables) → R t (create_condition_row c t).1
  pub updates_match_mode : (i : ℕ) (mode : String) (t : Tables) → R t (update_match_mode i mode t).1
  pub creates_module :
      (urn : String) (tenant_id : Option ℕ) (title : String) (description : Option String)
      (is_bundled : Bool) (t : Tables)
      → R t (create_module_row urn tenant_id title description is_bundled t).1
  pub sets_owner : (i : ℕ) (o : Option ℕ) (t : Tables) → R t (set_module_owner i o t).1
  pub sets_origin : (i : ℕ) (origin : String) (t : Tables) → R t (set_module_origin i origin t).1

module _ (R : Tables → Tables → Type 0) (kept : Kept R) where
  pub upsert_row-Obeys :
      (i : ℕ) (sc : Script) → Obeys R (or_frozen i (query (upsert_script_row sc)))
  upsert_row-Obeys i sc =
      bind-Obeys R kept.order (attempt (query (upsert_script_row sc))) (or_not_draft i)
        (query-Obeys R kept.order _ (kept.upserts_script sc))
        (or_not_draft-Obeys R kept.order Script i)

  get_script-Obeys : (i : ℕ) (name : String) → Obeys R (query (get_script i name))
  get_script-Obeys i name s = query-Obeys R kept.order (get_script i name) kept.order.stays s

  keep_reserved-Obeys : (old : Script) (r : Result Error Script) → Obeys R (keep_reserved old r)
  keep_reserved-Obeys old (ok taken) = pure-Obeys R kept.order tt
  keep_reserved-Obeys old (err no_rows) =
      then-Obeys R kept.order
        (or_frozen old.version_id (query (upsert_script_row (reserved_copy old)))) (pure tt)
        (upsert_row-Obeys old.version_id (reserved_copy old)) (pure-Obeys R kept.order tt)
  keep_reserved-Obeys old (err e) = fail-Obeys R kept.order (Unit {0}) e

  keep_default-Obeys : (r : Result Error Script) → Obeys R (keep_default r)
  keep_default-Obeys (ok old) =
      let find = attempt (query (get_script old.version_id (reserved_default_name old.name))) in
      if-Obeys R kept.order (old.origin == "default") (find >>= keep_reserved old) (pure tt)
        (bind-Obeys R kept.order find (keep_reserved old)
          (get_script-Obeys old.version_id (reserved_default_name old.name))
          (keep_reserved-Obeys old))
        (pure-Obeys R kept.order tt)
  keep_default-Obeys (err no_rows) = pure-Obeys R kept.order tt
  keep_default-Obeys (err e) = fail-Obeys R kept.order (Unit {0}) e

  pub upsert_script-Obeys : (sc : Script) → Obeys R (upsert_script sc)
  unfolding upsert_script
  upsert_script-Obeys sc =
      let find = attempt (query (get_script sc.version_id sc.name)) in
      then-Obeys R kept.order (find >>= keep_default)
        (or_frozen sc.version_id (query (upsert_script_row (written_script sc))))
        (bind-Obeys R kept.order find keep_default (get_script-Obeys sc.version_id sc.name)
          keep_default-Obeys)
        (upsert_row-Obeys sc.version_id (written_script sc))

  pub set_script-Obeys :
      (i : ℕ) (phase filename source : String) → Obeys R (set_script i phase filename source)
  unfolding set_script
  set_script-Obeys i phase filename source =
      if-Obeys R kept.order (not (contains lifecycle_phases phase)) (fail invalid_lifecycle_phase)
        (upsert_script (phase_script i phase source))
        (fail-Obeys R kept.order Script invalid_lifecycle_phase)
        (upsert_script-Obeys (phase_script i phase source))

  pub lifted-Obeys : {A : Type 0} (r : Result Error A) → Obeys R (lifted r)
  lifted-Obeys (ok a) = pure-Obeys R kept.order a
  lifted-Obeys {A} (err e) = fail-Obeys R kept.order A e

  pub or_missing-Obeys : (i : ℕ) (r : Result Error Condition) → Obeys R (or_missing i r)
  or_missing-Obeys i (ok c) = pure-Obeys R kept.order c
  or_missing-Obeys i (err no_rows) = version_not_draft_or_missing-Obeys R kept.order Condition i
  or_missing-Obeys i (err e) = fail-Obeys R kept.order Condition e

  pub set_conditions_match_mode-Obeys :
      (i : ℕ) (mode : String) → Obeys R (set_conditions_match_mode i mode)
  unfolding set_conditions_match_mode
  set_conditions_match_mode-Obeys i mode =
      if-Obeys R kept.order (mode == "all" || mode == "any")
        (query (update_match_mode i mode) >>= wrote_some i) (fail invalid_match_mode)
        (bind-Obeys R kept.order (query (update_match_mode i mode)) (wrote_some i)
          (query-Obeys R kept.order _ (kept.updates_match_mode i mode))
          (wrote_some-Obeys R kept.order i))
        (fail-Obeys R kept.order (Unit {0}) invalid_match_mode)

  owned-Obeys : (owner : Option ℕ) (row : Module) → Obeys R (owned owner row)
  owned-Obeys none row = pure-Obeys R kept.order row
  owned-Obeys (some owner) row =
      then-Obeys R kept.order (query (set_module_owner row.id (some owner))) (pure _)
        (query-Obeys R kept.order _ (kept.sets_owner row.id (some owner)))
        (pure-Obeys R kept.order (record row { owner_identity_id = some owner }))

  pub create_module-Obeys :
      (tenant_id owner : Option ℕ) (urn title description : String)
      → Obeys R (create_module tenant_id owner urn title description)
  unfolding create_module
  create_module-Obeys tenant_id owner urn title description =
      let text = non_empty description in
      bind-Obeys R kept.order
        (query (create_module_row urn tenant_id title text (is_nil tenant_id))) (owned owner)
        (query-Obeys R kept.order _
          (kept.creates_module urn tenant_id title text (is_nil tenant_id)))
        (owned-Obeys owner)

  module _ (platform : Platform) where
    pub create_draft-Obeys :
        (m : ℕ) (fields : VersionFields) → Obeys R (create_draft platform m fields)
    unfolding create_draft
    create_draft-Obeys m fields =
        query-Obeys R kept.order _ (kept.creates_version m (encoded platform fields))

    pub add_version_condition-Obeys :
        (i : ℕ) (p : ConditionPayload) (values : List String)
        → Obeys R (add_version_condition platform i p values)
    unfolding add_version_condition
    add_version_condition-Obeys i p values =
        bind-Obeys R kept.order (lifted (validate_condition_payload platform p)) _
          (lifted-Obeys (validate_condition_payload platform p))
          (λ kind.
            bind-Obeys R kept.order (query (max_condition_seq i)) _
              (query-Obeys R kept.order _ kept.order.stays)
              (λ top.
                let row = condition_row platform i 0 p kind values (next_seq top) in
                bind-Obeys R kept.order (attempt (query (create_condition_row row))) (or_missing i)
                  (query-Obeys R kept.order _ (kept.creates_condition row)) (or_missing-Obeys i)))
