-- ===== src/Lifecycle/Versions.antt =====
-- pkg/services/policymodules.go, "Version lifecycle", with DeleteDraftVersion.
use pluris.Prelude.{
  ℕ, String, Bool, ◌||◌, not, Option, none, some, List, [], ◌∷◌, if◌then◌else◌, nat_eq, ◌==◌,
  string_eq, any, Result, ok, err, pure, fail, ◌>>=◌, ◌>>◌,
}
use pluris.Lifecycle.{
  draft, VersionFields, Manifest, Version, Script, Condition, Error, no_rows, version_not_draft,
  publish_requires_apply_script, module_not_found, revoke_invalid_state, Platform, Operation, query,
  attempt, transaction, is_draft, is_deployed,
}
use pluris.Lifecycle.Queries.{
  get_version, create_version, update_version_draft, publish_version, supersede_current,
  revoke_version, delete_draft_version, list_versions, latest_published,
}
use pluris.Lifecycle.Queries.Contents.{upsert_script_row, list_scripts}
use pluris.Lifecycle.Queries.Applicability.{
  create_condition_row, update_match_mode, list_conditions,
}

abbrev pub marshal_or : Option String → String → String
marshal_or none fallback = fallback
marshal_or (some text) fallback = text

abbrev pub non_empty : String → Option String
non_empty s = if s == "" then none else some s

module _ {A : Type 0} where
  abbrev pub frozen_or_missing : Result Error Version → Operation A
  frozen_or_missing (ok v) = fail version_not_draft
  frozen_or_missing (err e) = fail no_rows

  -- `mapVersionNotDraft`
  abbrev pub map_version_not_draft : ℕ → Error → Operation A
  map_version_not_draft i no_rows = attempt (query (get_version i)) >>= frozen_or_missing
  map_version_not_draft i e = fail e

  abbrev pub or_not_draft : ℕ → Result Error A → Operation A
  or_not_draft i (ok a) = pure a
  or_not_draft i (err e) = map_version_not_draft i e

  -- `versionNotDraftOrMissing`
  abbrev pub frozen_or_none : Result Error Version → Operation A
  frozen_or_none (ok v) = if is_draft v.state then fail no_rows else fail version_not_draft
  frozen_or_none (err e) = fail no_rows

  abbrev pub version_not_draft_or_missing : ℕ → Operation A
  version_not_draft_or_missing i = attempt (query (get_version i)) >>= frozen_or_none

-- A guarded statement that must have written a row.
abbrev pub wrote_some : ℕ → ℕ → Operation (Unit {0})
wrote_some i n = if nat_eq n 0 then version_not_draft_or_missing i else pure tt

-- `DeleteDraftVersion`
unfoldable pub delete_draft : ℕ → Operation (Unit {0})
unfolding delete_draft_version
delete_draft i = query (delete_draft_version i) >>= wrote_some i

-- the loop of `Publish` for a script named "apply"
abbrev pub has_apply : List Script → Bool
has_apply = any (λ sc. sc.name == "apply")

-- `Publish`, from BeginTx on, after the row `cur` was read
abbrev pub publication : Version → ℕ → ℕ → Operation (Unit {0})
publication cur i by = query (publish_version i (some by)) >>= λ n.
    if nat_eq n 0
    then fail version_not_draft
    else (query (supersede_current cur.module_id i cur.manifest.version) >> pure tt)

unfoldable pub publish_tx : Version → ℕ → ℕ → Operation (Unit {0})
unfolding publish_version supersede_current
publish_tx cur i by = transaction (publication cur i by)

-- `Revoke`
unfoldable pub revoke : ℕ → Operation (Unit {0})
unfolding revoke_version
revoke i = query (revoke_version i) >>= λ n.
    if nat_eq n 0 then (query (get_version i) >> fail revoke_invalid_state) else pure tt

unfoldable pub revoke_all : List Version → Operation (Unit {0})
unfolding revoke
revoke_all [] = pure tt
revoke_all (v ∷ vs) =
    let rest = revoke_all vs in if is_deployed v.state then revoke v.id >> rest else rest

unfoldable pub copy_scripts : ℕ → List Script → Operation (Unit {0})
unfolding upsert_script_row
copy_scripts i [] = pure tt
copy_scripts i (sc ∷ scs) =
    query (upsert_script_row (record sc { version_id = i })) >> copy_scripts i scs

unfoldable pub copy_conditions : ℕ → List Condition → Operation (Unit {0})
unfolding create_condition_row
copy_conditions i [] = pure tt
copy_conditions i (c ∷ cs) =
    query (create_condition_row (record c { version_id = i })) >> copy_conditions i cs

unfoldable pub copy_mode : ℕ → String → Operation (Unit {0})
unfolding update_match_mode
copy_mode i mode =
    if mode == "all" || mode == "" then pure tt else (query (update_match_mode i mode) >> pure tt)

module _ (platform : Platform) where
  -- the columns that CreateDraft and UpdateDraft write
  abbrev pub encoded : VersionFields → Manifest
  encoded f = record {
    version = f.version;
    target_os = marshal_or (platform.marshal_strings f.target_os) "[]";
    scope = f.scope;
    satisfies = marshal_or (platform.marshal_strings f.satisfies) "[]";
    parameters_schema = non_empty f.parameters_schema;
    depends_on = some (marshal_or (platform.marshal_dependencies f.depends_on) "[]");
    conflicts = some (marshal_or (platform.marshal_strings f.conflicts) "[]");
    sandbox_profile = marshal_or (platform.marshal_sandbox f.sandbox_profile) "{}";
    report_schema = f.report_schema;
    manifest_yaml = f.manifest_yaml;
  }

  -- `CreateDraft`
  unfoldable pub create_draft : ℕ → VersionFields → Operation Version
  unfolding create_version
  create_draft m fields = query (create_version m draft (encoded fields))

  -- `UpdateDraft`
  unfoldable pub update_draft : ℕ → VersionFields → Operation Version
  unfolding update_version_draft
  update_draft i fields =
      attempt (query (update_version_draft i (encoded fields))) >>= or_not_draft i

  -- `Publish`
  unfoldable pub publish : ℕ → ℕ → Operation (Unit {0})
  unfolding publish_tx
  publish i by = query (get_version i) >>= λ cur.
      if not (is_draft cur.state)
      then fail version_not_draft
      else (query (list_scripts platform i) >>= λ scripts.
          if not (has_apply scripts)
          then fail publish_requires_apply_script
          else publish_tx cur i by)

  -- `RevokeVersions`
  unfoldable pub revoke_versions : ℕ → Operation (Unit {0})
  unfolding revoke_all
  revoke_versions m = query (list_versions platform m) >>= revoke_all

  -- the loops of ForkLatestPublished, from one version to another
  unfoldable pub fork_scripts : ℕ → ℕ → Operation (Unit {0})
  unfolding copy_scripts
  fork_scripts from into = query (list_scripts platform from) >>= copy_scripts into

  unfoldable pub fork_conditions : ℕ → ℕ → Operation (Unit {0})
  unfolding copy_conditions
  fork_conditions from into = query (list_conditions platform from) >>= copy_conditions into

  unfoldable pub fork_contents : Version → Version → Operation Version
  unfolding fork_scripts fork_conditions copy_mode
  fork_contents src d =
      fork_scripts src.id d.id
      >> (fork_conditions src.id d.id >> (copy_mode d.id src.conditions_match_mode >> pure d))

  unfoldable pub fork_from : ℕ → String → Result Error Version → Operation Version
  unfolding create_version fork_contents
  fork_from m new_name (err no_rows) = fail module_not_found
  fork_from m new_name (err e) = fail e
  fork_from m new_name (ok src) =
      query (create_version m draft (record src.manifest { version = new_name }))
      >>= fork_contents src

  -- `ForkLatestPublished`
  unfoldable pub fork_latest_published : ℕ → String → Operation Version
  unfolding fork_from
  fork_latest_published m new_name =
      attempt (query (latest_published platform m)) >>= fork_from m new_name
