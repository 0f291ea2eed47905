-- ===== src/Lifecycle/Safety/Versions.antt =====
-- The operations on versions, other than Publish.
use pluris.Prelude.{
  ℕ, String, ◌||◌, List, [], ◌∷◌, nat_eq, ◌==◌, string_eq, Result, ok, err, pure, fail, ◌>>◌,
}
use pluris.Lifecycle.{
  draft, VersionFields, Version, Script, Condition, Error, Platform, query, attempt, is_deployed,
  no_rows, revoke_invalid_state,
}
use pluris.Lifecycle.Queries.{
  get_version, create_version, update_version_draft, revoke_version, delete_draft_version,
  list_versions, latest_published,
}
use pluris.Lifecycle.Queries.Contents.{upsert_script_row, list_scripts}
use pluris.Lifecycle.Queries.Applicability.{
  create_condition_row, update_match_mode, list_conditions,
}
use pluris.Lifecycle.Versions.{
  or_not_draft, wrote_some, delete_draft, encoded, create_draft, update_draft, revoke, revoke_all,
  revoke_versions, copy_scripts, copy_conditions, copy_mode, fork_scripts, fork_conditions,
  fork_contents, fork_from, fork_latest_published,
}
use pluris.Lifecycle.Course.{Advances-refl}
use pluris.Lifecycle.Relations.Operations.{or_not_draft-Obeys, wrote_some-Obeys}
use pluris.Lifecycle.Safety.{
  Keeps, Keeps-Order, IsSafe, query-IsSafe, pure-IsSafe, fail-IsSafe, if-IsSafe, bind-IsSafe,
  then-IsSafe,
}
use pluris.Lifecycle.Safety.Rows.{
  create_version-IsSafe, update_version_draft-IsSafe, update_match_mode-IsSafe,
  revoke_version-IsSafe, delete_draft_version-IsSafe,
}
use pluris.Lifecycle.Safety.Contents.{upsert_script_row-IsSafe, create_condition_row-IsSafe}

get_version-IsSafe : (i : ℕ) → IsSafe (query (get_version i))
get_version-IsSafe i s sound = query-IsSafe (get_version i) (λ t. Advances-refl t) s sound

module _ (A : Type 0) where
  pub or_not_draft-IsSafe : (i : ℕ) (r : Result Error A) → IsSafe (or_not_draft i r)
  or_not_draft-IsSafe = or_not_draft-Obeys Keeps Keeps-Order A

pub wrote_some-IsSafe : (i n : ℕ) → IsSafe (wrote_some i n)
wrote_some-IsSafe = wrote_some-Obeys Keeps Keeps-Order

pub delete_draft-IsSafe : (i : ℕ) → IsSafe (delete_draft i)
unfolding delete_draft
delete_draft-IsSafe i =
    bind-IsSafe (query (delete_draft_version i)) (wrote_some i)
      (query-IsSafe (delete_draft_version i) (delete_draft_version-IsSafe i)) (wrote_some-IsSafe i)

pub revoke-IsSafe : (i : ℕ) → IsSafe (revoke i)
unfolding revoke
revoke-IsSafe i =
    bind-IsSafe (query (revoke_version i)) _
      (query-IsSafe (revoke_version i) (revoke_version-IsSafe i))
      (λ n.
        if-IsSafe (nat_eq n 0) (query (get_version i) >> fail revoke_invalid_state) (pure tt)
          (then-IsSafe (query (get_version i)) (fail revoke_invalid_state) (get_version-IsSafe i)
            (fail-IsSafe (Unit {0}) revoke_invalid_state))
          (pure-IsSafe tt))

revoke_all-IsSafe : (vs : List Version) → IsSafe (revoke_all vs)
unfolding revoke_all
revoke_all-IsSafe [] = pure-IsSafe tt
revoke_all-IsSafe (v ∷ vs) =
    if-IsSafe (is_deployed v.state) (revoke v.id >> revoke_all vs) (revoke_all vs)
      (then-IsSafe (revoke v.id) (revoke_all vs) (revoke-IsSafe v.id) (revoke_all-IsSafe vs))
      (revoke_all-IsSafe vs)

copy_scripts-IsSafe : (i : ℕ) (scs : List Script) → IsSafe (copy_scripts i scs)
unfolding copy_scripts
copy_scripts-IsSafe i [] = pure-IsSafe tt
copy_scripts-IsSafe i (sc ∷ scs) =
    then-IsSafe (query (upsert_script_row (record sc { version_id = i }))) (copy_scripts i scs)
      (query-IsSafe _ (upsert_script_row-IsSafe (record sc { version_id = i })))
      (copy_scripts-IsSafe i scs)

copy_conditions-IsSafe : (i : ℕ) (cs : List Condition) → IsSafe (copy_conditions i cs)
unfolding copy_conditions
copy_conditions-IsSafe i [] = pure-IsSafe tt
copy_conditions-IsSafe i (c ∷ cs) =
    then-IsSafe (query (create_condition_row (record c { version_id = i }))) (copy_conditions i cs)
      (query-IsSafe _ (create_condition_row-IsSafe (record c { version_id = i })))
      (copy_conditions-IsSafe i cs)

copy_mode-IsSafe : (i : ℕ) (mode : String) → IsSafe (copy_mode i mode)
unfolding copy_mode
copy_mode-IsSafe i mode =
    if-IsSafe (mode == "all" || mode == "") (pure tt) (query (update_match_mode i mode) >> pure tt)
      (pure-IsSafe tt)
      (then-IsSafe (query (update_match_mode i mode)) (pure tt)
        (query-IsSafe _ (update_match_mode-IsSafe i mode)) (pure-IsSafe tt))

module _ (platform : Platform) where
  pub create_draft-IsSafe :
      (m : ℕ) (fields : VersionFields) → IsSafe (create_draft platform m fields)
  unfolding create_draft
  create_draft-IsSafe m fields = query-IsSafe _ (create_version-IsSafe m (encoded platform fields))

  pub update_draft-IsSafe :
      (i : ℕ) (fields : VersionFields) → IsSafe (update_draft platform i fields)
  unfolding update_draft
  update_draft-IsSafe i fields =
      bind-IsSafe (attempt (query (update_version_draft i (encoded platform fields))))
        (or_not_draft i) (query-IsSafe _ (update_version_draft-IsSafe i (encoded platform fields)))
        (or_not_draft-IsSafe Version i)

  pub revoke_versions-IsSafe : (m : ℕ) → IsSafe (revoke_versions platform m)
  unfolding revoke_versions
  revoke_versions-IsSafe m =
      bind-IsSafe (query (list_versions platform m)) revoke_all
        (query-IsSafe _ (λ t. Advances-refl t)) revoke_all-IsSafe

  pub fork_scripts-IsSafe : (from into : ℕ) → IsSafe (fork_scripts platform from into)
  unfolding fork_scripts
  fork_scripts-IsSafe from into =
      bind-IsSafe (query (list_scripts platform from)) (copy_scripts into)
        (query-IsSafe _ (λ t. Advances-refl t)) (copy_scripts-IsSafe into)

  fork_conditions-IsSafe : (from into : ℕ) → IsSafe (fork_conditions platform from into)
  unfolding fork_conditions
  fork_conditions-IsSafe from into =
      bind-IsSafe (query (list_conditions platform from)) (copy_conditions into)
        (query-IsSafe _ (λ t. Advances-refl t)) (copy_conditions-IsSafe into)

  fork_contents-IsSafe : (src d : Version) → IsSafe (fork_contents platform src d)
  unfolding fork_contents
  fork_contents-IsSafe src d =
      then-IsSafe (fork_scripts platform src.id d.id) _ (fork_scripts-IsSafe src.id d.id) (
        then-IsSafe (fork_conditions platform src.id d.id) _ (fork_conditions-IsSafe src.id d.id) (
          then-IsSafe (copy_mode d.id src.conditions_match_mode) (pure d)
            (copy_mode-IsSafe d.id src.conditions_match_mode) (pure-IsSafe d)))

  fork_from-IsSafe :
      (m : ℕ) (new_name : String) (r : Result Error Version)
      → IsSafe (fork_from platform m new_name r)
  unfolding fork_from
  fork_from-IsSafe m new_name (err no_rows) s = Advances-refl s.tables
  fork_from-IsSafe m new_name (err e) s = Advances-refl s.tables
  fork_from-IsSafe m new_name (ok src) s =
      bind-IsSafe (query (create_version m draft (record src.manifest { version = new_name })))
        (fork_contents platform src)
        (query-IsSafe _ (create_version-IsSafe m (record src.manifest { version = new_name })))
        (fork_contents-IsSafe src) s

  pub fork_latest_published-IsSafe :
      (m : ℕ) (new_name : String) → IsSafe (fork_latest_published platform m new_name)
  unfolding fork_latest_published
  fork_latest_published-IsSafe m new_name =
      bind-IsSafe (attempt (query (latest_published platform m))) (fork_from platform m new_name)
        (query-IsSafe (latest_published platform m) (λ t. Advances-refl t))
        (fork_from-IsSafe m new_name)
