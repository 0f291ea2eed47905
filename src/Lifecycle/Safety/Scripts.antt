-- ===== src/Lifecycle/Safety/Scripts.antt =====
-- The operations on scripts, actions and conditions.
use pluris.Prelude.{
  ℕ, String, Bool, true, false, ◌||◌, not, List, [], ◌∷◌, nat_eq, string_eq, In-any, arith, ◌≡◌,
  inl, inr, Bool-cases, Result, ok, err, pure, fail, ◌>>=◌, ◌>>◌,
}
use pluris.Lifecycle.{
  Version, Script, Action, Error, Platform, Store, Operation, query, attempt, is_draft,
  version_not_draft, is_draft_of, has_id,
}
use pluris.Lifecycle.Queries.{get_version, is_editable, first, found}
use pluris.Lifecycle.Queries.Contents.{
  upsert_script_row, rename_script_row, delete_script_row, delete_custom_scripts, upsert_action_row,
  delete_action_row, delete_custom_actions, list_scripts, list_actions,
}
use pluris.Lifecycle.Versions.{or_not_draft}
use pluris.Lifecycle.Scripts.{
  default_reserved_suffix, trim_suffix, or_frozen, absent_or_frozen, wrote_any, upsert_script,
  set_script, rename_script, delete_script, written_action, upsert_action, delete_action,
  default_apply, default_action, is_empty, is_reserved, repoint, restore, seed_module_defaults,
  restore_defaults, reseeded, rewire, rebuild, full_reset,
}
use pluris.Lifecycle.Rows.{first-In}
use pluris.Lifecycle.Course.{Sound, Advances, Advances-refl}
use pluris.Lifecycle.Relations.Operations.{upsert_row-Obeys, upsert_script-Obeys, set_script-Obeys}
use pluris.Lifecycle.Safety.Imports.{Keeps-Kept}
use pluris.Lifecycle.Safety.{
  Keeps, IsSafe, query-IsSafe, pure-IsSafe, fail-IsSafe, if-IsSafe, bind-IsSafe, then-IsSafe,
  reading-Advances, statement_then,
}
use pluris.Lifecycle.Safety.Contents.{
  rename_script_row-IsSafe, delete_script_row-IsSafe, upsert_action_row-IsSafe,
  delete_action_row-IsSafe, delete_custom_scripts_advance, delete_custom_actions_advance,
}
use pluris.Lifecycle.Safety.Publishing.{found-eq-ok}
use pluris.Lifecycle.Safety.Versions.{or_not_draft-IsSafe}

module _ (A : Type 0) where
  pub or_frozen-IsSafe : (i : ℕ) (m : Operation A) → IsSafe m → IsSafe (or_frozen i m)
  or_frozen-IsSafe i m safe =
      bind-IsSafe (attempt m) (or_not_draft i) safe (or_not_draft-IsSafe A i)

absent_or_frozen-IsSafe : (r : Result Error Version) → IsSafe (absent_or_frozen r)
absent_or_frozen-IsSafe (ok v) s =
    if-IsSafe (is_draft v.state) (pure tt) (fail version_not_draft) (pure-IsSafe tt)
      (fail-IsSafe (Unit {0}) version_not_draft) s
absent_or_frozen-IsSafe (err e) s = Advances-refl s.tables

wrote_any-IsSafe : (i n : ℕ) → IsSafe (wrote_any i n)
wrote_any-IsSafe i n =
    if-IsSafe (nat_eq n 0) (attempt (query (get_version i)) >>= absent_or_frozen) (pure tt)
      (bind-IsSafe (attempt (query (get_version i))) absent_or_frozen
        (query-IsSafe (get_version i) (λ t. Advances-refl t)) absent_or_frozen-IsSafe)
      (pure-IsSafe tt)

upsert_row-IsSafe : (i : ℕ) (sc : Script) → IsSafe (or_frozen i (query (upsert_script_row sc)))
upsert_row-IsSafe = upsert_row-Obeys Keeps Keeps-Kept

action_row-IsSafe : (i : ℕ) (a : Action) → IsSafe (or_frozen i (query (upsert_action_row a)))
action_row-IsSafe i a =
    or_frozen-IsSafe Action i (query (upsert_action_row a))
      (query-IsSafe _ (upsert_action_row-IsSafe a))

pub upsert_script-IsSafe : (sc : Script) → IsSafe (upsert_script sc)
upsert_script-IsSafe = upsert_script-Obeys Keeps Keeps-Kept

pub set_script-IsSafe :
    (i : ℕ) (phase filename source : String) → IsSafe (set_script i phase filename source)
set_script-IsSafe = set_script-Obeys Keeps Keeps-Kept

pub rename_script-IsSafe :
    (i : ℕ) (old_name new_name : String) → IsSafe (rename_script i old_name new_name)
unfolding rename_script
rename_script-IsSafe i old_name new_name =
    bind-IsSafe (query (rename_script_row i old_name new_name)) (wrote_any i)
      (query-IsSafe _ (rename_script_row-IsSafe i old_name new_name)) (wrote_any-IsSafe i)

pub delete_script-IsSafe : (i : ℕ) (name : String) → IsSafe (delete_script i name)
unfolding delete_script
delete_script-IsSafe i name =
    bind-IsSafe (query (delete_script_row i name)) (wrote_any i)
      (query-IsSafe _ (delete_script_row-IsSafe i name)) (wrote_any-IsSafe i)

pub upsert_action-IsSafe : (a : Action) → IsSafe (upsert_action a)
unfolding upsert_action
upsert_action-IsSafe a = action_row-IsSafe a.version_id (written_action a)

pub delete_action-IsSafe : (i : ℕ) (key : String) → IsSafe (delete_action i key)
unfolding delete_action
delete_action-IsSafe i key =
    bind-IsSafe (query (delete_action_row i key)) (wrote_any i)
      (query-IsSafe _ (delete_action_row-IsSafe i key)) (wrote_any-IsSafe i)

repoint-IsSafe : (i : ℕ) (scs : List Script) → IsSafe (repoint i scs)
unfolding repoint
repoint-IsSafe i [] = pure-IsSafe tt
repoint-IsSafe i (sc ∷ scs) =
    let action = default_action i (trim_suffix sc.name default_reserved_suffix) sc.name sc.seq in
    if-IsSafe (is_reserved sc) (or_frozen i (query (upsert_action_row action)) >> repoint i scs)
      (repoint i scs)
      (then-IsSafe (or_frozen i (query (upsert_action_row action))) (repoint i scs)
        (action_row-IsSafe i action) (repoint-IsSafe i scs))
      (repoint-IsSafe i scs)

restore-IsSafe : (i : ℕ) (scs : List Script) (done : Bool) → IsSafe (restore i scs done)
unfolding restore
restore-IsSafe i [] done = pure-IsSafe done
restore-IsSafe i (sc ∷ scs) done =
    let name = trim_suffix sc.name default_reserved_suffix in
    let copy : Script = record sc { version_id = i; name = name; origin = "default" } in
    let one = or_frozen i (query (upsert_script_row copy)) in
    let other = or_frozen i (query (upsert_action_row (default_action i name name sc.seq))) in
    if-IsSafe (is_reserved sc) (one >> other >> restore i scs true) (restore i scs done)
      (then-IsSafe (one >> other) (restore i scs true)
        (then-IsSafe one other (upsert_row-IsSafe i copy)
          (action_row-IsSafe i (default_action i name name sc.seq)))
        (restore-IsSafe i scs true))
      (restore-IsSafe i scs done)

module _ (platform : Platform) where
  pub seed_module_defaults-IsSafe : (i : ℕ) → IsSafe (seed_module_defaults platform i)
  unfolding seed_module_defaults
  seed_module_defaults-IsSafe i =
      let script = or_frozen i (query (upsert_script_row (default_apply i))) in
      let action = or_frozen i (query (upsert_action_row (default_action i "apply" "apply" 0))) in
      bind-IsSafe (query (list_scripts platform i)) _ (query-IsSafe _ (λ t. Advances-refl t))
        (λ scripts.
          bind-IsSafe (query (list_actions i)) _ (query-IsSafe _ (λ t. Advances-refl t)) (λ actions.
            if-IsSafe (not (is_empty scripts) || not (is_empty actions)) (pure tt)
              (script >> action >> pure tt) (pure-IsSafe tt)
              (then-IsSafe (script >> action) (pure tt)
                (then-IsSafe script action (upsert_row-IsSafe i (default_apply i))
                  (action_row-IsSafe i (default_action i "apply" "apply" 0)))
                (pure-IsSafe tt))))

  pub restore_defaults-IsSafe : (i : ℕ) → IsSafe (restore_defaults platform i)
  unfolding restore_defaults
  restore_defaults-IsSafe i =
      bind-IsSafe (query (get_version i)) _ (query-IsSafe _ (λ t. Advances-refl t)) (λ v.
        if-IsSafe (not (is_draft v.state)) (fail version_not_draft)
          (query (list_scripts platform i) >>= repoint i) (fail-IsSafe (Unit {0}) version_not_draft)
          (bind-IsSafe (query (list_scripts platform i)) (repoint i)
            (query-IsSafe _ (λ t. Advances-refl t)) (repoint-IsSafe i)))

  rewire-IsSafe : (i : ℕ) → IsSafe (rewire platform i)
  unfolding rewire
  rewire-IsSafe i =
      bind-IsSafe (query (list_scripts platform i) >>= (λ scripts. restore i scripts false))
        (reseeded platform i)
        (bind-IsSafe (query (list_scripts platform i)) (λ scripts. restore i scripts false)
          (query-IsSafe _ (λ t. Advances-refl t)) (λ scripts. restore-IsSafe i scripts false))
        (λ done.
          if-IsSafe done (pure tt) (seed_module_defaults platform i) (pure-IsSafe tt)
            (seed_module_defaults-IsSafe i))

  rebuild-Advances :
      (i : ℕ) (s : Store)
      → Sound s.tables
      → is_editable i s.tables ≡ true
      → Advances s.tables (rebuild platform i s).1.tables
  unfolding rebuild delete_custom_scripts delete_custom_actions
  rebuild-Advances i s sound guard =
      let t' = (delete_custom_scripts i s.tables).1 in
      let first_step = delete_custom_scripts_advance i s.tables sound guard in
      let second_step = delete_custom_actions_advance i t' first_step.0 guard in
      statement_then (delete_custom_scripts i)
        (query (delete_custom_actions i) >> rewire platform i) s sound first_step
        (λ faults.
          statement_then (delete_custom_actions i) (rewire platform i)
            (record { tables = t'; faults = faults }) first_step.0 second_step
            (λ faults'.
              rewire-IsSafe i (record { tables = (delete_custom_actions i t').1; faults = faults' })
                second_step.0))

  pub full_reset-IsSafe : (i : ℕ) → IsSafe (full_reset platform i)
  unfolding full_reset
  full_reset-IsSafe i s sound =
      reading-Advances (λ t. found (first (has_id i) t.versions)) _ s sound
        (λ v faults read. elim (Bool-cases (is_draft v.state)) [
          | inr frozen ↦ rw frozen (Advances-refl s.tables sound)
          | inl editable ↦ rw editable (
              let (listed, same) = first-In (has_id i) s.tables.versions v (found-eq-ok _ v read) in
              rebuild-Advances i (record s { faults = faults }) sound
                (In-any (is_draft_of i) v s.tables.versions listed (ground (arith, same))))
        ])
