-- ===== src/RoleCache/Changes.antt =====
-- Sequences of the changes of roles that refresh `identities.role`.
use pluris.Prelude.{
  ℕ, Bool, true, false, List, [], ◌∷◌, id_eq, ok, err, ◌≡◌, refl, sym, Result, continue, Exec, ◌>>◌,
}
use mathlib.Core.Path.{subst}
use pluris.Roles.Store.{Error}
use pluris.RoleCache.Held.{add_link-OnlyAt, drop_link-OnlyAt}
use pluris.RoleCache.Refreshed.{
  Reliable, refreshed, all_refreshed, recompute-refreshed, recompute_each-all_refreshed,
  all_refreshed-database,
}
use pluris.RoleCache.Current.{IsCurrent, identity-IsCurrent, group-IsCurrent}
use pluris.RoleCache.Directory.{
  Directory, add_link, drop_link, with_identity_roles, with_group_roles, wrote, members_of,
  list_identities_in_group, ignored, assign_role_to_identity, remove_role_from_identity,
  assign_role_to_group, remove_role_from_group, recompute, recompute_for_group_members, assign,
  remove, group_role_assign, group_role_remove,
}

-- A change with what it is about: an identity and a role, or a group and a role.
pub data Change : Type 0 where
  assigns removes : ℕ → ℕ → Change
  assigns_to_group removes_from_group : ℕ → ℕ → Change
  recomputes : ℕ → Change

-- the tables after a change, whatever it answers
unfoldable pub perform : Change → Directory → Directory
perform (assigns identity_id role_id) d = (assign identity_id role_id d).1
perform (removes identity_id role_id) d = (remove identity_id role_id d).1
perform (assigns_to_group group_id role_id) d = (group_role_assign group_id role_id d).1
perform (removes_from_group group_id role_id) d = (group_role_remove group_id role_id d).1
perform (recomputes identity_id) d = (recompute identity_id d).1

unfoldable pub run : List Change → Directory → Directory
unfolding perform
run [] d = d
run (c ∷ cs) d = run cs (perform c d)

-- the two facts that a run carries from step to step
abbrev Kept : Directory → Type 0
Kept d = Reliable d × IsCurrent d

refreshed-Kept :
    (i : ℕ) (d : Directory) (f : List (ℕ × ℕ) → List (ℕ × ℕ))
    → Reliable d
    → IsCurrent (refreshed i (with_identity_roles f d))
    → Kept (recompute i (with_identity_roles f d)).1
refreshed-Kept i d f reliable current =
    rw (recompute-refreshed i (with_identity_roles f d) reliable) (reliable, current)

group-Kept :
    (g : ℕ) (d : Directory) (f : List (ℕ × ℕ) → List (ℕ × ℕ))
    → Reliable d
    → IsCurrent (all_refreshed (members_of d.database g d.identities) (with_group_roles f d))
    → Kept (recompute_for_group_members g (with_group_roles f d)).1
unfolding recompute_for_group_members list_identities_in_group members_of
group-Kept g d f reliable current =
    let d' = with_group_roles f d in
    let members = members_of d.database g d.identities in
    rw (reliable _, recompute_each-all_refreshed members d' reliable)
      (
        subst (λ (db : _). (q : _) → db.fails q ≡ false) (sym (all_refreshed-database members d'))
            reliable,
        current,
      )

module _ (m n : Exec Directory Error (Unit {0})) (d : Directory) where
  done-Kept : (d' : Directory) → m d ≡ (ok tt, d') → Kept (n d').1 → Kept ((m >> n) d).1
  done-Kept d' e kept =
      subst (λ (r : Result Error (Unit {0}) × Directory). Kept (continue r.0 (λ u. n) r.1).1)
        (sym e) kept

  refused-Kept : (c : Error) → m d ≡ (err c, d) → Kept d → Kept ((m >> n) d).1
  refused-Kept c e kept =
      subst (λ (r : Result Error (Unit {0}) × Directory). Kept (continue r.0 (λ u. n) r.1).1)
        (sym e) kept

  -- the statement, behind a constraint and with a driver that does not fail
  wrote-Kept :
      (fails valid : Bool) (c : Error) (d' : Directory)
      → m d ≡ wrote fails valid c d' d
      → fails ≡ false
      → Kept d
      → Kept (n d').1
      → Kept ((m >> n) d).1
  wrote-Kept true valid c d' e works kept done = cc
  wrote-Kept false true c d' e works kept done = done-Kept d' e done
  wrote-Kept false false c d' e works kept done = refused-Kept c e kept

perform-Kept : (c : Change) (d : Directory) → Kept d → Kept (perform c d)
unfolding perform assign remove group_role_assign group_role_remove assign_role_to_identity
    remove_role_from_identity assign_role_to_group remove_role_from_group
perform-Kept (assigns i r) d (reliable, current) =
    wrote-Kept (assign_role_to_identity i r) (recompute i) d _ _ _
      (with_identity_roles (add_link i r) d) refl (reliable _) (reliable, current)
      (refreshed-Kept i d (add_link i r) reliable
        (identity-IsCurrent i d (add_link i r) (add_link-OnlyAt i r) current))
perform-Kept (removes i r) d (reliable, current) =
    wrote-Kept (remove_role_from_identity i r) (recompute i) d _ _ _
      (with_identity_roles (drop_link i r) d) refl (reliable _) (reliable, current)
      (refreshed-Kept i d (drop_link i r) reliable
        (identity-IsCurrent i d (drop_link i r) (drop_link-OnlyAt i r) current))
perform-Kept (assigns_to_group g r) d (reliable, current) =
    wrote-Kept (assign_role_to_group g r) (ignored (recompute_for_group_members g)) d _ _ _
      (with_group_roles (add_link g r) d) refl (reliable _) (reliable, current)
      (group-Kept g d (add_link g r) reliable
        (group-IsCurrent g d (add_link g r) (add_link-OnlyAt g r) current))
perform-Kept (removes_from_group g r) d (reliable, current) =
    wrote-Kept (remove_role_from_group g r) (ignored (recompute_for_group_members g)) d _ _ _
      (with_group_roles (drop_link g r) d) refl (reliable _) (reliable, current)
      (group-Kept g d (drop_link g r) reliable
        (group-IsCurrent g d (drop_link g r) (drop_link-OnlyAt g r) current))
perform-Kept (recomputes i) d (reliable, current) =
    refreshed-Kept i d (λ links. links) reliable
      (identity-IsCurrent i d (λ links. links) (λ p links blind. refl) current)

run-Kept : (cs : List Change) (d : Directory) → Kept d → Kept (run cs d)
unfolding run
run-Kept [] d kept = kept
run-Kept (c ∷ cs) d kept = run-Kept cs (perform c d) (perform-Kept c d kept)

-- When no query fails, any sequence of Assign, Remove, RecomputeForIdentity and the changes of the
-- roles of a group, whose unknown ids are refused, keeps `identities.role` of every identity that is
-- not deleted at the slug of the highest role that it holds directly or through a group, or at "user".
pub run-IsCurrent :
    (changes : List Change) (d : Directory) → Reliable d → IsCurrent d → IsCurrent (run changes d)
run-IsCurrent changes d reliable current = (run-Kept changes d (reliable, current)).1
