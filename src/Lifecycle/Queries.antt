-- ===== src/Lifecycle/Queries.antt =====
-- The statements of db/policy_modules.sql.go on versions, and the rows that the others select.
pub mod Contents
pub mod Applicability
pub mod Modules
use pluris.Prelude.{
  ℕ, suc, ◌+◌, String, Bool, true, false, ◌&&◌, ◌||◌, not, Option, none, some, List, [], ◌∷◌, ◌++◌,
  if◌then◌else◌, nat_eq, ◌==◌, string_eq, any, Result, ok, err,
}
use pluris.Lifecycle.{
  State, draft, published, superseded, revoked, Manifest, Version, Script, Action, Condition,
  Module, Tables, no_rows, unique_violation, constraint_violation, Error, Platform, Statement,
  is_draft, is_published, is_deployed, has_id, is_draft_of,
}

module _ {A : Type 0} where
  -- UPDATE, DELETE and SELECT over the rows that pass a test
  abbrev pub update_where : (A → Bool) → (A → A) → List A → List A
  update_where p f [] = []
  update_where p f (r ∷ rs) = (if p r then f r else r) ∷ update_where p f rs

  abbrev pub keep_where : (A → Bool) → List A → List A
  keep_where p [] = []
  keep_where p (r ∷ rs) = if p r then r ∷ keep_where p rs else keep_where p rs

  abbrev pub delete_where : (A → Bool) → List A → List A
  delete_where p = keep_where (λ r. not (p r))

  abbrev pub count : (A → Bool) → List A → ℕ
  count p [] = 0
  count p (r ∷ rs) = if p r then suc (count p rs) else count p rs

  abbrev pub first : (A → Bool) → List A → Option A
  first p [] = none
  first p (r ∷ rs) = if p r then some r else first p rs

  abbrev pub head : List A → Option A
  head [] = none
  head (r ∷ rs) = some r

  abbrev pub found : Option A → Result Error A
  found none = err no_rows
  found (some r) = ok r

-- EXISTS (… WHERE id = i AND state = 'draft')
abbrev pub is_editable : ℕ → Tables → Bool
is_editable i t = any (is_draft_of i) t.versions

-- GetPolicyModuleVersion
abbrev pub get_version : ℕ → Statement Version
get_version i t = (found (first (has_id i) t.versions), t)

-- CHECK(scope IN ('machine', 'user', 'both'))
abbrev pub valid_scope : String → Bool
valid_scope s = s == "machine" || (s == "user" || s == "both")

-- UNIQUE(module_id, version), against the rows other than `i`
abbrev pub is_taken : ℕ → ℕ → String → Tables → Bool
is_taken i m name t =
    any (λ v. not (nat_eq v.id i) && (nat_eq v.module_id m && v.manifest.version == name))
      t.versions

abbrev pub new_version : ℕ → State → Manifest → Tables → Version
new_version m state manifest t = record {
  id = t.next_version;
  module_id = m;
  state = state;
  manifest = manifest;
  published_at = none;
  published_by = none;
  superseded_by_version = none;
  created_at = t.now;
  conditions_match_mode = "all";
}

-- CreatePolicyModuleVersion
unfoldable pub create_version : ℕ → State → Manifest → Statement Version
create_version m state manifest t =
    if not (valid_scope manifest.scope)
    then (err constraint_violation, t)
    else (if is_taken t.next_version m manifest.version t
        then (err unique_violation, t)
        else (if not (any (λ r. nat_eq r.id m) t.modules) then (err constraint_violation, t) else (
          ok (new_version m state manifest t),
          record t {
            versions = t.versions ++ new_version m state manifest t ∷ [];
            next_version = suc t.next_version;
          },
        )))

-- UpdatePolicyModuleVersionDraft
abbrev pub rewritten : Manifest → Version → Version
rewritten manifest v = record v { manifest = manifest }

abbrev pub updated_draft : ℕ → Manifest → Option Version → Statement Version
updated_draft i manifest none t = (err no_rows, t)
updated_draft i manifest (some v) t =
    if not (valid_scope manifest.scope)
    then (err constraint_violation, t)
    else (if is_taken i v.module_id manifest.version t then (err unique_violation, t) else (
      ok (rewritten manifest v),
      record t { versions = update_where (is_draft_of i) (rewritten manifest) t.versions },
    ))

unfoldable pub update_version_draft : ℕ → Manifest → Statement Version
update_version_draft i manifest t = updated_draft i manifest (first (is_draft_of i) t.versions) t

-- A foreign key to rows with these ids, where NULL names none.
abbrev pub refers_to : Option ℕ → List ℕ → Bool
refers_to none ids = true
refers_to (some i) ids = any (λ j. nat_eq j i) ids

-- REFERENCES identities(id)
abbrev pub is_known : Option ℕ → Tables → Bool
is_known i t = refers_to i t.identities

-- a statement whose constraint holds or not
abbrev pub constrained : {A : Type 0} → Bool → Statement A → Statement A
constrained true q t = q t
constrained false q t = (err constraint_violation, t)

-- PublishModuleVersion, with the number of rows written
abbrev pub as_published : ℕ → Option ℕ → Version → Version
as_published now by v = record v { state = published; published_at = some now; published_by = by }

abbrev pub publish_rows : ℕ → Option ℕ → Statement ℕ
publish_rows i by t = (
  ok (count (is_draft_of i) t.versions),
  record t { versions = update_where (is_draft_of i) (as_published t.now by) t.versions },
)

-- `published_by` is checked where a row is written.
unfoldable pub publish_version : ℕ → Option ℕ → Statement ℕ
publish_version i by t = constrained (is_known by t || not (is_editable i t)) (publish_rows i by) t

-- SupersedeCurrentPublishedVersion
abbrev pub is_replaced : ℕ → ℕ → Version → Bool
is_replaced m exclude v =
    nat_eq v.module_id m && (is_published v.state && not (nat_eq v.id exclude))

abbrev pub as_superseded : String → Version → Version
as_superseded name v = record v { state = superseded; superseded_by_version = some name }

unfoldable pub supersede_current : ℕ → ℕ → String → Statement ℕ
supersede_current m exclude name t = (
  ok (count (is_replaced m exclude) t.versions),
  record t { versions = update_where (is_replaced m exclude) (as_superseded name) t.versions },
)

-- RevokeModuleVersion
abbrev pub is_revocable : ℕ → Version → Bool
is_revocable i v = nat_eq v.id i && is_deployed v.state

abbrev pub as_revoked : Version → Version
as_revoked v = record v { state = revoked }

unfoldable pub revoke_version : ℕ → Statement ℕ
revoke_version i t = (
  ok (count (is_revocable i) t.versions),
  record t { versions = update_where (is_revocable i) as_revoked t.versions },
)

-- ON DELETE CASCADE, from the versions that pass the test
abbrev pub is_orphan : (Version → Bool) → List Version → ℕ → Bool
is_orphan p vs i = any (λ v. nat_eq v.id i && p v) vs

abbrev pub cascade : (Version → Bool) → Tables → Tables
cascade p t = record t {
  versions = delete_where p t.versions;
  scripts = delete_where (λ r. is_orphan p t.versions r.version_id) t.scripts;
  actions = delete_where (λ r. is_orphan p t.versions r.version_id) t.actions;
  conditions = delete_where (λ r. is_orphan p t.versions r.version_id) t.conditions;
}

-- DeleteDraftModuleVersion
unfoldable pub delete_draft_version : ℕ → Statement ℕ
delete_draft_version i t = (ok (count (is_draft_of i) t.versions), cascade (is_draft_of i) t)

-- CacheVersionManifest, which asks for no state
abbrev pub cached : String → Version → Version
cached text v = record v { manifest = record v.manifest { manifest_yaml = text } }

unfoldable pub cache_version_manifest : ℕ → String → Statement (Unit {0})
cache_version_manifest i text t =
    (ok tt, record t { versions = update_where (has_id i) (cached text) t.versions })

module _ (platform : Platform) where
  -- ListVersionsByModule
  abbrev pub list_versions : ℕ → Statement (List Version)
  list_versions m t =
      (ok (platform.by_created_at (keep_where (λ v. nat_eq v.module_id m) t.versions)), t)

  -- GetLatestPublishedVersion
  abbrev pub latest_published : ℕ → Statement Version
  latest_published m t = (
    found (
        head (
          platform.by_published_at
            (keep_where (λ v. nat_eq v.module_id m && is_published v.state) t.versions))),
    t,
  )
