-- ===== src/Lifecycle/Safety/Rows.antt =====
-- The statements on the rows of versions.
use pluris.Prelude.{
  ℕ, ◌≤◌, String, Bool, true, not, Option, none, some, any, any-In, and_parts, nat_eq, nat_eq_iff,
  ◌≡◌, refl, inl, inr, arith, Bool-cases,
}
use pluris.Lifecycle.{
  has_id, State, draft, published, superseded, revoked, is_deployed, Manifest, Version, Module,
  Tables, is_draft_of,
}
use pluris.Lifecycle.Queries.{
  cached, cache_version_manifest, update_where, count, first, create_version, update_version_draft,
  updated_draft, rewritten, revoke_version, is_revocable, as_revoked, delete_draft_version,
  is_taken, valid_scope,
}
use pluris.Lifecycle.Queries.Applicability.{update_match_mode, with_mode}
use pluris.Lifecycle.Rows.{count-update_where_le}
use pluris.Lifecycle.Course.{
  is_withdrawn, is_retired, Course, stays, moves, Sound, Advances-refl, is_current,
}
use pluris.Lifecycle.Changes.{cascade-Advances, insert-Advances}
use pluris.Lifecycle.Changes.Updates.{update-Advances, Keeps}
use pluris.Lifecycle.Safety.{IsSafeStatement}

-- No row becomes the published one of a module.
one_published :
    (p : Version → Bool) (f : Version → Version) (t : Tables) (m : ℕ)
    → Sound t
    → ((v : Version) → p v ≡ true → is_current m (f v) ≡ true → is_current m v ≡ true)
    → count (is_current m) (update_where p f t.versions) ≤ 1
one_published p f t m sound keeps = omega (
  arith,
  sound.one_published m,
  count-update_where_le p (is_current m) (is_current m) f t.versions (λ v i e.
      elim (Bool-cases (p v)) [
        | inl written ↦ keeps v written (rw written at e)
        | inr other ↦ rw other at e
      ]),
)

pub create_version-IsSafe :
    (m : ℕ) (manifest : Manifest) → IsSafeStatement (create_version m draft manifest)
unfolding create_version
create_version-IsSafe m manifest t sound = elim (Bool-cases (not (valid_scope manifest.scope))) [
  | inl bad ↦ rw bad (Advances-refl t sound)
  | inr good ↦ rw good (elim (Bool-cases (is_taken t.next_version m manifest.version t)) [
    | inl taken ↦ rw taken (Advances-refl t sound)
    | inr free ↦ rw free (elim (Bool-cases (any (λ r. nat_eq r.id m) t.modules)) [
      | inr unknown ↦ rw unknown (Advances-refl t sound)
      | inl known ↦
          let (r, i, e) = any-In (λ (r : Module). nat_eq r.id m) t.modules known in
          rw known (
            insert-Advances t sound m (rw (← (nat_eq_iff r.id m).0 e) (sound.modules_bounded r i))
              manifest)
    ])
  ])
]

rewritten-Keeps :
    (t : Tables) (sound : Sound t) (i : ℕ) (manifest : Manifest)
    → Keeps t sound (is_draft_of i) (rewritten manifest)
rewritten-Keeps t sound i manifest v e = (refl, refl, stays, λ d. ground arith)

updated_draft-IsSafe :
    (i : ℕ) (manifest : Manifest) (o : Option Version)
    → IsSafeStatement (updated_draft i manifest o)
updated_draft-IsSafe i manifest none t sound = Advances-refl t sound
updated_draft-IsSafe i manifest (some v) t sound =
    elim (Bool-cases (not (valid_scope manifest.scope))) [
      | inl bad ↦ rw bad (Advances-refl t sound)
      | inr good ↦ rw good (elim (Bool-cases (is_taken i v.module_id manifest.version t)) [
        | inl taken ↦ rw taken (Advances-refl t sound)
        | inr free ↦ rw free (
            update-Advances t sound (is_draft_of i) (rewritten manifest)
              (rewritten-Keeps t sound i manifest)
              (λ m. one_published (is_draft_of i) (rewritten manifest) t m sound (λ v d e. e))
              (λ v j d open_now closed. ground arith))
      ])
    ]

pub update_version_draft-IsSafe :
    (i : ℕ) (manifest : Manifest) → IsSafeStatement (update_version_draft i manifest)
unfolding update_version_draft
update_version_draft-IsSafe i manifest t sound =
    updated_draft-IsSafe i manifest (first (is_draft_of i) t.versions) t sound

pub update_match_mode-IsSafe : (i : ℕ) (mode : String) → IsSafeStatement (update_match_mode i mode)
unfolding update_match_mode
update_match_mode-IsSafe i mode t sound =
    update-Advances t sound (is_draft_of i) (with_mode mode)
      (λ v e. (refl, refl, stays, λ d. ground arith))
      (λ m. one_published (is_draft_of i) (with_mode mode) t m sound (λ v d e. e))
      (λ v j d open_now closed. ground arith)

pub cache_version_manifest-IsSafe :
    (i : ℕ) (text : String) → IsSafeStatement (cache_version_manifest i text)
unfolding cache_version_manifest
cache_version_manifest-IsSafe i text t sound =
    update-Advances t sound (has_id i) (cached text) (λ v e. (refl, refl, stays, λ d. refl))
      (λ m. one_published (has_id i) (cached text) t m sound (λ v d e. e))
      (λ v j d open_now closed. cc)

revoked-Course : (s : State) → is_deployed s ≡ true → Course s revoked
revoked-Course draft e = cc
revoked-Course published e = moves is_withdrawn stays
revoked-Course superseded e = moves is_retired stays
revoked-Course revoked e = stays

pub revoke_version-IsSafe : (i : ℕ) → IsSafeStatement (revoke_version i)
unfolding revoke_version
revoke_version-IsSafe i t sound =
    update-Advances t sound (is_revocable i) as_revoked
      (λ v e. (
        refl,
        refl,
        revoked-Course v.state (and_parts (nat_eq v.id i) (is_deployed v.state) e).1,
        λ d. refl,
      ))
      (λ m. one_published (is_revocable i) as_revoked t m sound (λ v d e. ground arith))
      (λ v j d open_now closed. ground arith)

pub delete_draft_version-IsSafe : (i : ℕ) → IsSafeStatement (delete_draft_version i)
unfolding delete_draft_version
delete_draft_version-IsSafe i t sound = cascade-Advances t sound (is_draft_of i)
