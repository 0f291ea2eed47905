-- ===== src/Lifecycle/Changes.antt =====
-- The kinds of change that the statements make: to the contents of drafts, to modules, deletions and
-- insertions of versions, and in the child module updates.
pub mod Updates
use pluris.Prelude.{
  ℕ, suc, ◌+◌, ◌≤◌, ◌<◌, Bool, true, false, ◌&&◌, not, Option, List, [], ◌∷◌, ◌++◌, if◌then◌else◌,
  nat_eq, any, In, In-any, any-In, In-append_cases, ◌≡◌, refl, sym, ◌∙◌, ap, ◌⊎◌, inl, inr, arith,
  Bool-cases, and_parts, nat_eq_iff,
}
use pluris.Lifecycle.{
  State, draft, Manifest, Version, Script, Action, Condition, Module, Tables, is_draft, has_id,
}
use pluris.Lifecycle.Queries.{
  update_where, keep_where, delete_where, count, new_version, is_orphan, cascade,
}
use pluris.Lifecycle.Queries.Contents.{scripts_of, actions_of}
use pluris.Lifecycle.Queries.Applicability.{conditions_of}
use pluris.Lifecycle.Versions.{has_apply}
use pluris.Lifecycle.Rows.{
  In-update_where, In-keep_where, count-update_where_le, count-keep_where_le, count-append,
  count_zero, count_unique, keep_where-delete_where,
}
use pluris.Lifecycle.Course.{
  Course, stays, Contents, contents_of, Frozen, Follows, Comes, Evolves, Sound, Advances,
  is_current,
}

module _ (t : Tables) (sound : Sound t) where
  -- Rows of the same id are the same row.
  pub same_row : (v w : Version) → In v t.versions → In w t.versions → v.id ≡ w.id → v ≡ w
  same_row v w i j e =
      count_unique (has_id w.id) v w t.versions (sound.ids_distinct w.id) i j
        ((nat_eq_iff v.id w.id).1 e) ((nat_eq_iff w.id w.id).1 refl)

  -- scripts, actions and conditions of drafts
  pub contents_advance :
      (scripts : List Script) (actions : List Action) (conditions : List Condition) (next : ℕ)
      → ((v : Version)
          → In v t.versions
          → is_draft v.state ≡ false
          → contents_of v.id
              (record t { scripts = scripts; actions = actions; conditions = conditions })
            ≡ contents_of v.id t)
      → Advances t (record t {
        scripts = scripts;
        actions = actions;
        conditions = conditions;
        next_condition = next;
      })
  contents_advance scripts actions conditions next keeps = (
    record {
      ids_bounded = sound.ids_bounded;
      ids_distinct = sound.ids_distinct;
      one_published = sound.one_published;
      applicable = λ v i e.
          ap (λ (c : Contents). has_apply c.scripts) (keeps v i e) ∙ sound.applicable v i e;
      modules_bounded = sound.modules_bounded;
      owners_bounded = sound.owners_bounded;
    },
    record {
      ids_grow = omega arith;
      comes = λ w i. inl (
        w,
        i,
        record {
          same_id = refl;
          same_module = refl;
          course = stays;
          frozen = λ e. (refl, keeps w i e);
        },
      );
    },
  )

  -- the columns of modules
  pub modules_advance :
      (modules : List Module) (next : ℕ)
      → t.next_module ≤ next
      → ((r : Module) → In r modules → r.id < next)
      → Advances t (record t { modules = modules; next_module = next })
  modules_advance modules next grows bounded = (
    record {
      ids_bounded = sound.ids_bounded;
      ids_distinct = sound.ids_distinct;
      one_published = sound.one_published;
      applicable = sound.applicable;
      modules_bounded = bounded;
      owners_bounded = λ v i. omega (arith, sound.owners_bounded v i);
    },
    record {
      ids_grow = omega arith;
      comes = λ w i. inl (
        w,
        i,
        record { same_id = refl; same_module = refl; course = stays; frozen = λ e. (refl, refl) },
      );
    },
  )

  -- the versions that pass a test are deleted, with what belongs to them
  module _ (p : Version → Bool) where
    not_orphan : (w : Version) → In w t.versions → p w ≡ false → is_orphan p t.versions w.id ≡ false
    not_orphan w i kept = elim (Bool-cases (is_orphan p t.versions w.id)) [
      | inr clear ↦ clear
      | inl orphan ↦
          let (v, j, e) = any-In (λ v. nat_eq v.id w.id && p v) t.versions orphan in
          let (same, gone) = and_parts (nat_eq v.id w.id) (p v) e in
          cc (same_row v w j i ((nat_eq_iff v.id w.id).0 same))
    ]

    other_owner :
        (w : Version) (n : ℕ)
        → In w t.versions
        → p w ≡ false
        → is_orphan p t.versions n ≡ true
        → nat_eq n w.id ≡ false
    other_owner w n i kept orphan = elim (Bool-cases (nat_eq n w.id)) [
      | inr differs ↦ differs
      | inl same ↦ cc (not_orphan w i kept, (nat_eq_iff n w.id).0 same)
    ]

    contents_kept :
        (w : Version)
        → In w t.versions
        → p w ≡ false
        → contents_of w.id (cascade p t) ≡ contents_of w.id t
    contents_kept w i kept =
        rw
          (
            keep_where-delete_where (λ (r : Script). is_orphan p t.versions r.version_id)
                (λ r. nat_eq r.version_id w.id) t.scripts
                (λ r j. other_owner w r.version_id i kept),
            keep_where-delete_where (λ (r : Action). is_orphan p t.versions r.version_id)
                (λ r. nat_eq r.version_id w.id) t.actions
                (λ r j. other_owner w r.version_id i kept),
            keep_where-delete_where (λ (r : Condition). is_orphan p t.versions r.version_id)
                (λ r. nat_eq r.version_id w.id) t.conditions
                (λ r j. other_owner w r.version_id i kept),
          )
          refl

    left : (w : Version) → In w (delete_where p t.versions) → In w t.versions × (p w ≡ false)
    left w i = let (j, e) = In-keep_where (λ v. not (p v)) w t.versions i in (j, ground arith)

    pub cascade-Advances : Advances t (cascade p t)
    cascade-Advances = (
      record {
        ids_bounded = λ v i. sound.ids_bounded v (left v i).0;
        ids_distinct = λ i. omega (
          arith,
          sound.ids_distinct i,
          count-keep_where_le (λ v. not (p v)) (has_id i) t.versions,
        );
        one_published = λ m. omega (
          arith,
          sound.one_published m,
          count-keep_where_le (λ v. not (p v)) (is_current m) t.versions,
        );
        applicable = λ v i e.
            ap (λ (c : Contents). has_apply c.scripts) (contents_kept v (left v i).0 (left v i).1)
            ∙ sound.applicable v (left v i).0 e;
        modules_bounded = sound.modules_bounded;
        owners_bounded = λ v i. sound.owners_bounded v (left v i).0;
      },
      record {
        ids_grow = omega arith;
        comes = λ w i. inl (
          w,
          (left w i).0,
          record {
            same_id = refl;
            same_module = refl;
            course = stays;
            frozen = λ e. (refl, contents_kept w (left w i).0 (left w i).1);
          },
        );
      },
    )

  -- a row for a new draft of a known module
  module _ (m : ℕ) (known : m < t.next_module) (manifest : Manifest) where
    abbrev fresh : Version
    fresh = new_version m draft manifest t

    fresh_id : (v : Version) → In v t.versions → has_id t.next_version v ≡ false
    fresh_id v i = ground (arith, sound.ids_bounded v i)

    listed : (v : Version) → In v (t.versions ++ fresh ∷ []) → In v t.versions ⊎ (v ≡ fresh)
    listed v i = elim (In-append_cases v t.versions (fresh ∷ []) i) [
      | inl old ↦ inl old
      | inr (inl new) ↦ inr new
      | inr (inr none_left) ↦ absurd none_left
    ]

    id_count : (i : ℕ) → count (has_id i) (t.versions ++ fresh ∷ []) ≤ 1
    id_count i = elim (Bool-cases (has_id i fresh)) [
      | inl new ↦
          rw count-append
            (ground (arith, count_zero (has_id i) t.versions (λ v j. ground (arith, fresh_id v j))))
      | inr old ↦ rw count-append (ground (arith, sound.ids_distinct i))
    ]

    pub insert-Advances :
        Advances t
          (record t { versions = t.versions ++ fresh ∷ []; next_version = suc t.next_version })
    insert-Advances = (
      record {
        ids_bounded = λ v i. elim (listed v i) [
          | inl old ↦ omega (arith, sound.ids_bounded v old)
          | inr new ↦ rw new (omega arith)
        ];
        ids_distinct = id_count;
        one_published = λ n. rw count-append (ground (arith, sound.one_published n));
        applicable =
            λ v i e. elim (listed v i) [ inl old ↦ sound.applicable v old e | inr new ↦ cc ];
        modules_bounded = sound.modules_bounded;
        owners_bounded = λ v i. elim (listed v i) [
          | inl old ↦ sound.owners_bounded v old
          | inr new ↦ rw new known
        ];
      },
      record {
        ids_grow = omega arith;
        comes = λ w i. elim (listed w i) [
          | inl old ↦ inl (
            w,
            old,
            record {
              same_id = refl;
              same_module = refl;
              course = stays;
              frozen = λ e. (refl, refl);
            },
          )
          | inr new ↦ inr (rw new (omega arith, stays))
        ];
      },
    )
