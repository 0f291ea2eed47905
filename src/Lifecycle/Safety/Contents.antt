-- ===== src/Lifecycle/Safety/Contents.antt =====
-- The statements on the scripts, the actions and the conditions of versions.
use pluris.Prelude.{
  ℕ, String, true, false, not, ◌&&◌, [], ◌∷◌, List, any, any-In, and_parts, nat_eq, nat_eq_iff, In,
  ◌≡◌, ◌==◌, string_eq, refl, inl, inr, arith, Bool-cases,
}
use pluris.Lifecycle.{Version, Script, Action, Condition, Tables, is_draft, is_draft_of}
use pluris.Lifecycle.Queries.{delete_where, is_editable}
use pluris.Lifecycle.Queries.Contents.{
  scripts_of, actions_of, is_script, is_action, put_script, put_action, valid_language,
  valid_origin, valid_kind, upsert_script_row, rename_script_row, delete_script_row,
  delete_custom_scripts, upsert_action_row, delete_action_row, delete_custom_actions,
}
use pluris.Lifecycle.Queries.Applicability.{
  conditions_of, is_condition, replaced_condition, create_condition_row, update_condition_row,
  delete_condition_row,
}
use pluris.Lifecycle.Rows.{keep_where-delete_where, keep_where-update_where, keep_where-append}
use pluris.Lifecycle.Course.{Sound, Advances, Advances-refl}
use pluris.Lifecycle.Changes.{same_row, contents_advance}
use pluris.Lifecycle.Safety.{IsSafeStatement}

-- A frozen version is not the one that a guarded statement writes to.
pub editable_other :
    (t : Tables) (sound : Sound t) (i : ℕ) (v : Version)
    → is_editable i t ≡ true
    → In v t.versions
    → is_draft v.state ≡ false
    → nat_eq i v.id ≡ false
editable_other t sound i v guard listed frozen =
    let (w, j, e) = any-In (is_draft_of i) t.versions guard in
    let (same, editable) = and_parts (nat_eq w.id i) (is_draft w.state) e in
    elim (Bool-cases (nat_eq i v.id)) [
      | inr differs ↦ differs
      | inl equal ↦ cc (
          same_row t sound w v j listed
            (rw ((nat_eq_iff w.id i).0 same) ((nat_eq_iff i v.id).0 equal)))
    ]

-- Writes to the scripts of a draft, to its actions and to its conditions.
module _ (t : Tables) (sound : Sound t) (i : ℕ) (guard : is_editable i t ≡ true) where
  pub scripts_advance :
      (scripts : List Script)
      → ((j : ℕ) → nat_eq i j ≡ false → scripts_of j scripts ≡ scripts_of j t.scripts)
      → Advances t (record t { scripts = scripts })
  scripts_advance scripts keeps =
      contents_advance t sound scripts t.actions t.conditions t.next_condition
        (λ v listed frozen. rw (keeps v.id (editable_other t sound i v guard listed frozen)) refl)

  pub actions_advance :
      (actions : List Action)
      → ((j : ℕ) → nat_eq i j ≡ false → actions_of j actions ≡ actions_of j t.actions)
      → Advances t (record t { actions = actions })
  actions_advance actions keeps =
      contents_advance t sound t.scripts actions t.conditions t.next_condition
        (λ v listed frozen. rw (keeps v.id (editable_other t sound i v guard listed frozen)) refl)

  pub conditions_advance :
      (conditions : List Condition) (next : ℕ)
      → ((j : ℕ) → nat_eq i j ≡ false → conditions_of j conditions ≡ conditions_of j t.conditions)
      → Advances t (record t { conditions = conditions; next_condition = next })
  conditions_advance conditions next keeps =
      contents_advance t sound t.scripts t.actions conditions next
        (λ v listed frozen. rw (keeps v.id (editable_other t sound i v guard listed frozen)) refl)

scripts_of-put_script :
    (sc : Script) (j : ℕ) (xs : List Script)
    → nat_eq sc.version_id j ≡ false
    → scripts_of j (put_script sc xs) ≡ scripts_of j xs
scripts_of-put_script sc j [] other = ground arith
scripts_of-put_script sc j (r ∷ rs) other =
    ground (arith, nat_eq_iff r.version_id sc.version_id, scripts_of-put_script sc j rs)

actions_of-put_action :
    (a : Action) (j : ℕ) (xs : List Action)
    → nat_eq a.version_id j ≡ false
    → actions_of j (put_action a xs) ≡ actions_of j xs
actions_of-put_action a j [] other = ground arith
actions_of-put_action a j (r ∷ rs) other =
    ground (arith, nat_eq_iff r.version_id a.version_id, actions_of-put_action a j rs)

pub upsert_script_row-IsSafe : (sc : Script) → IsSafeStatement (upsert_script_row sc)
unfolding upsert_script_row
upsert_script_row-IsSafe sc t sound = elim (Bool-cases (is_editable sc.version_id t)) [
  | inr closed ↦ rw closed (Advances-refl t sound)
  | inl guard ↦ rw guard (elim (Bool-cases (valid_language sc.language && valid_origin sc.origin)) [
    | inr bad ↦ rw bad (Advances-refl t sound)
    | inl good ↦ rw good (
        scripts_advance t sound sc.version_id guard (put_script sc t.scripts)
          (λ j. scripts_of-put_script sc j t.scripts))
  ])
]

pub upsert_action_row-IsSafe : (a : Action) → IsSafeStatement (upsert_action_row a)
unfolding upsert_action_row
upsert_action_row-IsSafe a t sound = elim (Bool-cases (is_editable a.version_id t)) [
  | inr closed ↦ rw closed (Advances-refl t sound)
  | inl guard ↦ rw guard (elim (Bool-cases (valid_kind a.kind && valid_origin a.origin)) [
    | inr bad ↦ rw bad (Advances-refl t sound)
    | inl good ↦ rw good (
        actions_advance t sound a.version_id guard (put_action a t.actions)
          (λ j. actions_of-put_action a j t.actions))
  ])
]

pub rename_script_row-IsSafe :
    (i : ℕ) (old_name new_name : String) → IsSafeStatement (rename_script_row i old_name new_name)
unfolding rename_script_row
rename_script_row-IsSafe i old_name new_name t sound = elim (Bool-cases (is_editable i t)) [
  | inr closed ↦ rw closed (Advances-refl t sound)
  | inl guard ↦ rw guard (
      let clash =
        any (is_script i old_name) t.scripts
        && (any (is_script i new_name) t.scripts && not (old_name == new_name)) in
      elim (Bool-cases clash) [
        | inl taken ↦ rw taken (Advances-refl t sound)
        | inr free ↦ rw free (
            scripts_advance t sound i guard _ (λ j other.
              keep_where-update_where (is_script i old_name) (λ r. nat_eq r.version_id j) _
                t.scripts (λ r e. ground arith)))
      ])
]

pub delete_script_row-IsSafe : (i : ℕ) (name : String) → IsSafeStatement (delete_script_row i name)
unfolding delete_script_row
delete_script_row-IsSafe i name t sound = elim (Bool-cases (is_editable i t)) [
  | inr closed ↦ rw closed (Advances-refl t sound)
  | inl guard ↦ rw guard (
      scripts_advance t sound i guard (delete_where (is_script i name) t.scripts) (λ j other.
        keep_where-delete_where (is_script i name) (λ r. nat_eq r.version_id j) t.scripts
          (λ r d e. ground arith)))
]

pub delete_action_row-IsSafe : (i : ℕ) (key : String) → IsSafeStatement (delete_action_row i key)
unfolding delete_action_row
delete_action_row-IsSafe i key t sound = elim (Bool-cases (is_editable i t)) [
  | inr closed ↦ rw closed (Advances-refl t sound)
  | inl guard ↦ rw guard (
      actions_advance t sound i guard (delete_where (is_action i key) t.actions) (λ j other.
        keep_where-delete_where (is_action i key) (λ r. nat_eq r.version_id j) t.actions
          (λ r d e. ground arith)))
]

-- The unguarded deletions of FullReset, on a draft.
pub delete_custom_scripts_advance :
    (i : ℕ) (t : Tables)
    → Sound t
    → is_editable i t ≡ true
    → Advances t (delete_custom_scripts i t).1
unfolding delete_custom_scripts
delete_custom_scripts_advance i t sound guard = scripts_advance t sound i guard _ (λ j other.
    keep_where-delete_where (λ r. nat_eq r.version_id i && r.origin == "custom")
      (λ r. nat_eq r.version_id j) t.scripts (λ r d e. ground arith))

pub delete_custom_actions_advance :
    (i : ℕ) (t : Tables)
    → Sound t
    → is_editable i t ≡ true
    → Advances t (delete_custom_actions i t).1
unfolding delete_custom_actions
delete_custom_actions_advance i t sound guard = actions_advance t sound i guard _ (λ j other.
    keep_where-delete_where (λ r. nat_eq r.version_id i && r.origin == "custom")
      (λ r. nat_eq r.version_id j) t.actions (λ r d e. ground arith))

pub create_condition_row-IsSafe : (c : Condition) → IsSafeStatement (create_condition_row c)
unfolding create_condition_row
create_condition_row-IsSafe c t sound = elim (Bool-cases (is_editable c.version_id t)) [
  | inr closed ↦ rw closed (Advances-refl t sound)
  | inl guard ↦ rw guard (
      let taken =
        any (λ (r : Condition). nat_eq r.version_id c.version_id && nat_eq r.seq c.seq)
          t.conditions in
      elim (Bool-cases taken) [
        | inl clash ↦ rw clash (Advances-refl t sound)
        | inr free ↦ rw free (
            conditions_advance t sound c.version_id guard _ _ (λ j other.
              keep_where-append (λ r. nat_eq r.version_id j) t.conditions
                (record c { id = t.next_condition }) other))
      ])
]

pub update_condition_row-IsSafe : (c : Condition) → IsSafeStatement (update_condition_row c)
unfolding update_condition_row
update_condition_row-IsSafe c t sound = elim (Bool-cases (is_editable c.version_id t)) [
  | inr closed ↦ rw closed (Advances-refl t sound)
  | inl guard ↦ rw guard (
      conditions_advance t sound c.version_id guard _ t.next_condition (λ j other.
        keep_where-update_where (is_condition c.version_id c.id) (λ r. nat_eq r.version_id j)
          (replaced_condition c) t.conditions (λ r e. (ground arith, ground arith))))
]

pub delete_condition_row-IsSafe : (i id : ℕ) → IsSafeStatement (delete_condition_row i id)
unfolding delete_condition_row
delete_condition_row-IsSafe i id t sound = elim (Bool-cases (is_editable i t)) [
  | inr closed ↦ rw closed (Advances-refl t sound)
  | inl guard ↦ rw guard (
      conditions_advance t sound i guard _ t.next_condition (λ j other.
        keep_where-delete_where (is_condition i id) (λ r. nat_eq r.version_id j) t.conditions
          (λ r d e. ground arith)))
]
