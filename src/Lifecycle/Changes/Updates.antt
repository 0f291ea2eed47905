-- ===== src/Lifecycle/Changes/Updates.antt =====
-- Updates of the rows of versions.
use pluris.Prelude.{
  ℕ, ◌≤◌, Bool, true, false, List, if◌then◌else◌, In, ◌≡◌, refl, inl, inr, arith, Bool-cases,
}
use pluris.Lifecycle.{Version, Tables, is_draft, has_id}
use pluris.Lifecycle.Queries.{update_where, count}
use pluris.Lifecycle.Queries.Contents.{scripts_of}
use pluris.Lifecycle.Versions.{has_apply}
use pluris.Lifecycle.Rows.{In-update_where, count-update_where_le}
use pluris.Lifecycle.Course.{Course, stays, Frozen, Follows, Sound, Advances, is_current}

module _ (t : Tables) (sound : Sound t) where
  module _ (p : Version → Bool) (f : Version → Version) where
    abbrev pub Keeps : Type 0
    Keeps =
        (v : Version)
        → p v ≡ true
        → ((f v).id ≡ v.id)
          × ((f v).module_id ≡ v.module_id)
          × Course v.state (f v).state
          × (is_draft v.state ≡ false → Frozen v (f v))

    abbrev image : Version → Version
    image v = if p v then f v else v

    image_keeps :
        Keeps
        → (v : Version)
        → ((image v).id ≡ v.id)
          × ((image v).module_id ≡ v.module_id)
          × Course v.state (image v).state
          × (is_draft v.state ≡ false → Frozen v (image v))
    image_keeps keeps v = elim (Bool-cases (p v)) [
      | inl written ↦ rw written (keeps v written)
      | inr other ↦ rw other (refl, refl, stays, λ e. refl)
    ]

    abbrev updated : List Version
    updated = update_where p f t.versions

    image-Follows : Keeps → (v : Version) → Follows t (record t { versions = updated }) v (image v)
    image-Follows keeps v =
        let (same_id, same_module, course, frozen) = image_keeps keeps v in
        record {
          same_id = same_id;
          same_module = same_module;
          course = course;
          frozen = λ e. (frozen e, refl);
        }

    module _ (keeps : Keeps) (one : (m : ℕ) → count (is_current m) updated ≤ 1)
        (applies : (v : Version)
          → In v t.versions
          → p v ≡ true
          → is_draft v.state ≡ true
          → is_draft (f v).state ≡ false
          → has_apply (scripts_of v.id t.scripts) ≡ true) where
      still_applies :
          (v : Version)
          → In v t.versions
          → is_draft (image v).state ≡ false
          → has_apply (scripts_of v.id t.scripts) ≡ true
      still_applies v i e = elim (Bool-cases (is_draft v.state)) [
        | inr deployed ↦ sound.applicable v i deployed
        | inl editable ↦ elim (Bool-cases (p v)) [
          | inl written ↦ applies v i written editable (rw written at e)
          | inr other ↦ cc (rw other at e)
        ]
      ]

      update-Sound : Sound (record t { versions = updated })
      update-Sound = record {
        ids_bounded = λ w i.
            let (v, j, e) = In-update_where p f w t.versions i in
            rw (e, (image_keeps keeps v).0) (sound.ids_bounded v j);
        ids_distinct = λ i. omega (
          arith,
          sound.ids_distinct i,
          count-update_where_le p (has_id i) (has_id i) f t.versions
              (λ v j e. rw (← (image_keeps keeps v).0) e),
        );
        one_published = one;
        applicable = λ w i deployed.
            let (v, j, e) = In-update_where p f w t.versions i in
            rw (e, (image_keeps keeps v).0) (still_applies v j (rw e at deployed));
        modules_bounded = sound.modules_bounded;
        owners_bounded = λ w i.
            let (v, j, e) = In-update_where p f w t.versions i in
            rw (e, (image_keeps keeps v).1) (sound.owners_bounded v j);
      }

      pub update-Advances : Advances t (record t { versions = updated })
      update-Advances = (
        update-Sound,
        record {
          ids_grow = omega arith;
          comes = λ w i.
              let (v, j, e) = In-update_where p f w t.versions i in
              inl (v, j, rw e (image-Follows keeps v));
        },
      )
