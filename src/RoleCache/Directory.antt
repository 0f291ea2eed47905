-- ===== src/RoleCache/Directory.antt =====
-- pkg/services/roles.go: the operations that keep `identities.role`, over the tables of roles and of
-- identities, and the part of the handlers of console/handlers/group_roles.go that writes. Who
-- assigned a role is left out.
use pluris.Prelude.{
  ℕ, String, Bool, true, false, ◌&&◌, ◌||◌, not, List, [], ◌∷◌, ◌++◌, if◌then◌else◌, any, ◌==◌,
  string_eq, id_eq, Result, ok, err, Exec, read, continue, pure, ◌>>=◌, ◌>>◌,
}
use pluris.Roles.Store.{
  Error, query_failed, foreign_key_violation, check_violation, Database, guarded, is_member,
  link_identity, unlink_identity, link_group, unlink_group, identities_in_group, write_role,
}
use pluris.RoleCache.{recompute_role_cache}

pub record Identity : Type 0 where
  pub id : ℕ
  pub role : String
  pub is_deleted : Bool

pub record Directory : Type 0 where
  pub database : Database
  pub identities : List Identity

-- INSERT OR IGNORE under UNIQUE
unfoldable pub add_link : ℕ → ℕ → List (ℕ × ℕ) → List (ℕ × ℕ)
add_link a b links = if any (λ l. l.0 == a && l.1 == b) links then links else links ++ (a, b) ∷ []

unfoldable pub drop_link : ℕ → ℕ → List (ℕ × ℕ) → List (ℕ × ℕ)
drop_link a b [] = []
drop_link a b (l ∷ links) =
    if l.0 == a && l.1 == b then drop_link a b links else l ∷ drop_link a b links

abbrev pub with_identity_roles : (List (ℕ × ℕ) → List (ℕ × ℕ)) → Directory → Directory
with_identity_roles f d = record {
  database = record (d.database) { identity_roles = f d.database.identity_roles };
  identities = d.identities;
}

abbrev pub with_group_roles : (List (ℕ × ℕ) → List (ℕ × ℕ)) → Directory → Directory
with_group_roles f d = record {
  database = record (d.database) { group_roles = f d.database.group_roles };
  identities = d.identities;
}

-- a statement that writes: the driver fails, or a constraint does, or it is done
abbrev pub wrote : Bool → Bool → Error → Directory → Exec Directory Error (Unit {0})
wrote true valid e d' d = (err query_failed, d)
wrote false false e d' d = (err e, d)
wrote false true e d' d = (ok tt, d')

-- AssignRoleToIdentity, whose foreign keys are checked
unfoldable pub assign_role_to_identity : ℕ → ℕ → Exec Directory Error (Unit {0})
unfolding add_link
assign_role_to_identity identity_id role_id d =
    wrote (d.database.fails (link_identity identity_id role_id))
      (any (λ x. x.id == identity_id) d.identities && any (λ r. r.id == role_id) d.database.roles)
      foreign_key_violation (with_identity_roles (add_link identity_id role_id) d) d

-- RemoveRoleFromIdentity
unfoldable pub remove_role_from_identity : ℕ → ℕ → Exec Directory Error (Unit {0})
unfolding drop_link
remove_role_from_identity identity_id role_id d =
    wrote (d.database.fails (unlink_identity identity_id role_id)) true query_failed
      (with_identity_roles (drop_link identity_id role_id) d) d

-- AssignRoleToGroup
unfoldable pub assign_role_to_group : ℕ → ℕ → Exec Directory Error (Unit {0})
unfolding add_link
assign_role_to_group group_id role_id d =
    wrote (d.database.fails (link_group group_id role_id))
      (any (λ g. g.id == group_id) d.database.groups && any (λ r. r.id == role_id) d.database.roles)
      foreign_key_violation (with_group_roles (add_link group_id role_id) d) d

-- RemoveRoleFromGroup
unfoldable pub remove_role_from_group : ℕ → ℕ → Exec Directory Error (Unit {0})
unfolding drop_link
remove_role_from_group group_id role_id d =
    wrote (d.database.fails (unlink_group group_id role_id)) true query_failed
      (with_group_roles (drop_link group_id role_id) d) d

-- the CHECK on `identities.role`
abbrev pub is_valid_role : String → Bool
is_valid_role slug =
    slug == "super_admin" || (slug == "admin" || (slug == "technician" || slug == "user"))

unfoldable pub write_roles : String → ℕ → List Identity → List Identity
write_roles slug id [] = []
write_roles slug id (x ∷ xs) =
    (if x.id == id then record x { role = slug } else x) ∷ write_roles slug id xs

-- UpdateIdentityRole
unfoldable pub update_identity_role : String → ℕ → Exec Directory Error (Unit {0})
unfolding write_roles
update_identity_role slug id d =
    wrote (d.database.fails (write_role id))
      (is_valid_role slug || not (any (λ x. x.id == id) d.identities)) check_violation
      (record d { identities = write_roles slug id d.identities }) d

abbrev pub is_live_member : Database → ℕ → Identity → Bool
is_live_member db group_id x = is_member db x.id group_id && not x.is_deleted

unfoldable pub members_of : Database → ℕ → List Identity → List Identity
unfolding is_member
members_of db group_id [] = []
members_of db group_id (x ∷ xs) =
    if is_live_member db group_id x
    then x ∷ members_of db group_id xs
    else members_of db group_id xs

-- ListIdentitiesInGroup
unfoldable pub list_identities_in_group : ℕ → Directory → Result Error (List Identity)
unfolding members_of
list_identities_in_group group_id d =
    guarded (d.database.fails (identities_in_group group_id))
      (ok (members_of d.database group_id d.identities))

-- `recomputeRoleCache`, and `RecomputeForIdentity`, which calls it
unfoldable pub recompute : ℕ → Exec Directory Error (Unit {0})
recompute identity_id d =
    continue (recompute_role_cache d.database identity_id)
      (λ best. update_identity_role best identity_id) d

unfoldable pub recompute_each : List Identity → Exec Directory Error (Unit {0})
recompute_each [] = pure tt
recompute_each (m ∷ members) = do recompute m.id; recompute_each members

unfoldable pub recompute_for_group_members : ℕ → Exec Directory Error (Unit {0})
unfolding recompute_each
recompute_for_group_members group_id = do
  members ← read (list_identities_in_group group_id)
  recompute_each members

unfoldable pub assign : ℕ → ℕ → Exec Directory Error (Unit {0})
assign identity_id role_id = do assign_role_to_identity identity_id role_id; recompute identity_id

unfoldable pub remove : ℕ → ℕ → Exec Directory Error (Unit {0})
remove identity_id role_id = do remove_role_from_identity identity_id role_id; recompute identity_id

-- `_ = ...`: the error is dropped, what was written stays
abbrev pub ignored : Exec Directory Error (Unit {0}) → Exec Directory Error (Unit {0})
ignored m d = (ok tt, (m d).1)

-- what `GroupRoleAssign` does behind its checks
unfoldable pub group_role_assign : ℕ → ℕ → Exec Directory Error (Unit {0})
group_role_assign group_id role_id = do
  assign_role_to_group group_id role_id
  ignored (recompute_for_group_members group_id)

-- what `GroupRoleRemove` does behind its checks
unfoldable pub group_role_remove : ℕ → ℕ → Exec Directory Error (Unit {0})
group_role_remove group_id role_id = do
  remove_role_from_group group_id role_id
  ignored (recompute_for_group_members group_id)
