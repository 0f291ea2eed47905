-- ===== src/Lifecycle/Frozen.antt =====
-- What the operations answer on a version that is no longer a draft.
mod Absent
use pluris.Prelude.{
  ℕ, String, Bool, true, false, ◌||◌, Option, none, some, List, [], ◌∷◌, nat_eq, nat_eq_iff, any,
  any-In, In, In-any, ◌≡◌, ◌==◌, string_eq, refl, ◌⊎◌, ap, ◌∙◌, sym, inl, inr, arith, Bool-cases,
  and_parts, ok, err, Result, continue,
}
use pluris.Lifecycle.{
  VersionFields, Version, Script, Action, Condition, Tables, Store, Error, version_not_draft,
  Platform, query, is_draft, has_id, is_draft_of,
}
use pluris.Lifecycle.Queries.{
  first, found, count, update_where, delete_where, is_orphan, cascade, is_editable,
  update_version_draft, delete_draft_version,
}
use pluris.Lifecycle.Queries.Contents.{
  is_script, upsert_script_row, rename_script_row, delete_script_row, upsert_action_row,
  delete_action_row,
}
use pluris.Lifecycle.Queries.Applicability.{
  create_condition_row, update_condition_row, delete_condition_row, update_match_mode, with_mode,
}
use pluris.Lifecycle.Versions.{wrote_some, update_draft, publish, delete_draft}
use pluris.Lifecycle.Scripts.{
  or_frozen, keep_reserved, keep_default, reserved_copy, reserved_default_name, written_script,
  upsert_script, rename_script, delete_script, upsert_action, delete_action, restore_defaults,
  full_reset,
}
use pluris.Lifecycle.Applicability.{
  ConditionPayload, validate_condition_payload, add_version_condition, update_version_condition,
  remove_version_condition, set_conditions_match_mode,
}
use pluris.Lifecycle.Rows.{first-In}
use pluris.Lifecycle.Course.{Sound}
use pluris.Lifecycle.Changes.{same_row}
use pluris.Lifecycle.Frozen.Absent.{first-none, no_count, update_where_none, cascade_none}

abbrev pub store : Tables → Store
store t = record { tables = t; faults = [] }

-- the typed error, and nothing written
abbrev pub Refuses : {A : Type 0} → (Store → Result Error A × Store) → Tables → Type 0
Refuses m t = m (store t) ≡ (err version_not_draft, store t)

module _ (platform : Platform) (t : Tables) (sound : Sound t) (i : ℕ) (v : Version)
    (read : first (has_id i) t.versions ≡ some v) (frozen : is_draft v.state ≡ false) where
  not_editable : is_editable i t ≡ false
  not_editable = elim (Bool-cases (is_editable i t)) [
    | inr closed ↦ closed
    | inl guard ↦
        let (w, j, e) = any-In (is_draft_of i) t.versions guard in
        let (same, editable) = and_parts (nat_eq w.id i) (is_draft w.state) e in
        let (k, same') = first-In (has_id i) t.versions v read in
        cc (
          same_row t sound w v j k ((nat_eq_iff w.id i).0 same ∙ sym ((nat_eq_iff v.id i).0 same')))
  ]

  no_draft : first (is_draft_of i) t.versions ≡ none
  no_draft = first-none (is_draft_of i) t.versions not_editable

  none_written : count (is_draft_of i) t.versions ≡ 0
  none_written = no_count (is_draft_of i) t.versions not_editable

  update_draft-Refuses : (fields : VersionFields) → Refuses (update_draft platform i fields) t
  unfolding update_draft update_version_draft
  update_draft-Refuses fields = rw (no_draft, read) refl

  publish-Refuses : (by : ℕ) → Refuses (publish platform i by) t
  unfolding publish
  publish-Refuses by = rw (read, frozen) refl

  nothing_deleted : delete_draft_version i t ≡ (ok 0, t)
  unfolding delete_draft_version
  nothing_deleted = rw (none_written, cascade_none (is_draft_of i) t not_editable) refl

  answered : wrote_some i 0 (store t) ≡ (err version_not_draft, store t)
  answered = rw (read, frozen) refl

  delete_draft-Refuses : Refuses (delete_draft i) t
  unfolding delete_draft
  delete_draft-Refuses =
      ap (λ (o : Result Error ℕ × Tables). continue o.0 (wrote_some i) (store o.1)) nothing_deleted
      ∙ answered

  rename_script-Refuses : (old new : String) → Refuses (rename_script i old new) t
  unfolding rename_script rename_script_row
  rename_script-Refuses old new = rw (not_editable, read, frozen) refl

  delete_script-Refuses : (name : String) → Refuses (delete_script i name) t
  unfolding delete_script delete_script_row
  delete_script-Refuses name = rw (not_editable, read, frozen) refl

  delete_action-Refuses : (key : String) → Refuses (delete_action i key) t
  unfolding delete_action delete_action_row
  delete_action-Refuses key = rw (not_editable, read, frozen) refl

  upsert_action-Refuses : (a : Action) → a.version_id ≡ i → Refuses (upsert_action a) t
  unfolding upsert_action upsert_action_row
  upsert_action-Refuses a own = rw (own, not_editable, read) refl

  restore_defaults-Refuses : Refuses (restore_defaults platform i) t
  unfolding restore_defaults
  restore_defaults-Refuses = rw (read, frozen) refl

  full_reset-Refuses : Refuses (full_reset platform i) t
  unfolding full_reset
  full_reset-Refuses = rw (read, frozen) refl

  remove_version_condition-Refuses : (id : ℕ) → Refuses (remove_version_condition i id) t
  unfolding remove_version_condition delete_condition_row
  remove_version_condition-Refuses id = rw (not_editable, read, frozen) refl

  set_conditions_match_mode-Refuses :
      (mode : String)
      → (mode == "all" || mode == "any") ≡ true
      → Refuses (set_conditions_match_mode i mode) t
  unfolding set_conditions_match_mode update_match_mode
  set_conditions_match_mode-Refuses mode valid =
      rw
        (
          valid,
          none_written,
          update_where_none (is_draft_of i) (with_mode mode) t.versions not_editable,
          read,
          frozen,
        )
        refl

  add_version_condition-Refuses :
      (p : ConditionPayload) (values : List String) (kind : String)
      → validate_condition_payload platform p ≡ ok kind
      → Refuses (add_version_condition platform i p values) t
  unfolding add_version_condition create_condition_row
  add_version_condition-Refuses p values kind valid = rw (valid, not_editable, read, frozen) refl

  update_version_condition-Refuses :
      (id : ℕ) (p : ConditionPayload) (values : List String) (kind : String)
      → validate_condition_payload platform p ≡ ok kind
      → Refuses (update_version_condition platform i id p values) t
  unfolding update_version_condition update_condition_row
  update_version_condition-Refuses id p values kind valid =
      rw (valid, not_editable, read, frozen) refl

  row_refused :
      (sc : Script)
      → sc.version_id ≡ i
      → or_frozen sc.version_id (query (upsert_script_row sc)) (store t)
        ≡ (err version_not_draft, store t)
  unfolding upsert_script_row
  row_refused sc own = rw (own, not_editable, read) refl

  -- The pristine default is there, or its copy is refused.
  abbrev Passes : (Store → Result Error (Unit {0}) × Store) → Type 0
  Passes m = (m (store t) ≡ (ok tt, store t)) ⊎ (m (store t) ≡ (err version_not_draft, store t))

  keep_reserved-Passes :
      (old : Script) (o : Option Script) → old.version_id ≡ i → Passes (keep_reserved old (found o))
  keep_reserved-Passes old (some taken) own = inl refl
  keep_reserved-Passes old none own = inr (rw (row_refused (reserved_copy old) own) refl)

  keep_default-Passes :
      (o : Option Script)
      → ((old : Script) → o ≡ some old → old.version_id ≡ i)
      → Passes (keep_default (found o))
  keep_default-Passes none own = inl refl
  keep_default-Passes (some old) own = elim (Bool-cases (old.origin == "default")) [
    | inr custom ↦ rw custom (inl refl)
    | inl pristine ↦ rw pristine (
        keep_reserved-Passes old
          (first (is_script old.version_id (reserved_default_name old.name)) t.scripts)
          (own old refl))
  ]

  own_script :
      (sc old : Script)
      → sc.version_id ≡ i
      → first (is_script sc.version_id sc.name) t.scripts ≡ some old
      → old.version_id ≡ i
  own_script sc old own e =
      let (listed, same) = first-In (is_script sc.version_id sc.name) t.scripts old e in
      (nat_eq_iff old.version_id sc.version_id).0
        (and_parts (nat_eq old.version_id sc.version_id) _ same).0
      ∙ own

  upsert_script-Refuses : (sc : Script) → sc.version_id ≡ i → Refuses (upsert_script sc) t
  unfolding upsert_script upsert_script_row
  upsert_script-Refuses sc own =
      elim (keep_default-Passes (first (is_script sc.version_id sc.name) t.scripts)
        (λ old. own_script sc old own)) [
          | inl kept ↦ rw (kept, row_refused (written_script sc) own) refl
          | inr refused ↦ rw refused refl
        ]

  -- A version that is no draft refuses every operation on what it says with the error "not a draft",
  -- and nothing is written: UpdateDraft, Publish, DeleteDraftVersion, the writing, renaming and
  -- deleting of scripts and actions, RestoreDefaults, FullReset, and the operations on conditions
  -- with a valid condition or match mode. The tables satisfy the invariant, and no query fails.
  pub frozen-Refuses :
      (p : ConditionPayload) (kind mode : String)
      → validate_condition_payload platform p ≡ ok kind
      → (mode == "all" || mode == "any") ≡ true
      → ((fields : VersionFields) → Refuses (update_draft platform i fields) t)
        × ((by : ℕ) → Refuses (publish platform i by) t)
        × Refuses (delete_draft i) t
        × ((sc : Script) → Refuses (upsert_script (record sc { version_id = i })) t)
        × ((old new : String) → Refuses (rename_script i old new) t)
        × ((name : String) → Refuses (delete_script i name) t)
        × ((a : Action) → Refuses (upsert_action (record a { version_id = i })) t)
        × ((key : String) → Refuses (delete_action i key) t)
        × Refuses (restore_defaults platform i) t
        × Refuses (full_reset platform i) t
        × ((values : List String) → Refuses (add_version_condition platform i p values) t)
        × ((id : ℕ) (values : List String)
            → Refuses (update_version_condition platform i id p values) t)
        × ((id : ℕ) → Refuses (remove_version_condition i id) t)
        × Refuses (set_conditions_match_mode i mode) t
  frozen-Refuses p kind mode valid valid_mode = (
    update_draft-Refuses,
    publish-Refuses,
    delete_draft-Refuses,
    (λ sc. upsert_script-Refuses (record sc { version_id = i }) refl),
    rename_script-Refuses,
    delete_script-Refuses,
    (λ a. upsert_action-Refuses (record a { version_id = i }) refl),
    delete_action-Refuses,
    restore_defaults-Refuses,
    full_reset-Refuses,
    (λ values. add_version_condition-Refuses p values kind valid),
    (λ id values. update_version_condition-Refuses id p values kind valid),
    remove_version_condition-Refuses,
    set_conditions_match_mode-Refuses mode valid_mode,
  )
