-- ===== src/Roles/Store.antt =====
-- The tables `roles`, `identity_roles`, `group_roles`, `group_memberships` and `groups`, and the
-- queries of db/roles.sql.go on them. `fails` says at which queries the driver reports an error that
-- is not `sql.ErrNoRows`, the same for every attempt of a query; the theorems hold whatever it says.
-- The tenants that rows refer to are taken to exist. Timestamps are left out, and rows come in the
-- order of the table (the code takes unions over them).
use pluris.Prelude.{
  ℕ, ◌+◌, String, Bool, true, false, ◌&&◌, Option, none, some, List, [], ◌∷◌, ◌++◌, if◌then◌else◌,
  ◌==◌, string_eq, id_eq, any, Result, ok, err, Exec, not,
}

pub data Error : Type 0 where
  no_rows query_failed unique_violation foreign_key_violation check_violation : Error
  role_cycle builtin_parent : Error

pub record Role : Type 0 where
  pub id : ℕ
  pub tenant_id : ℕ
  pub slug : String
  pub name : String
  pub is_builtin : Bool
  pub template_slug : Option String
  pub permissions : String
  pub parent_role_id : Option ℕ

pub data Query : Type 0 where
  get_role_of : ℕ → Query
  role_by_slug : ℕ → String → Query
  roles_for_identity : ℕ → Query
  group_roles_for_identity : ℕ → Query
  insert_role : String → Query
  write_parent : ℕ → Query
  write_permissions : ℕ → Query
  link_identity : ℕ → ℕ → Query
  unlink_identity : ℕ → ℕ → Query
  link_group : ℕ → ℕ → Query
  unlink_group : ℕ → ℕ → Query
  identities_in_group : ℕ → Query
  write_role : ℕ → Query

pub record Group : Type 0 where
  pub id : ℕ
  pub deleted : Bool

pub record Database : Type 0 where
  pub roles : List Role
  pub identity_roles : List (ℕ × ℕ)
  pub group_roles : List (ℕ × ℕ)
  pub group_memberships : List (ℕ × ℕ)
  pub groups : List Group
  pub next_id : ℕ
  pub fails : Query → Bool

unfoldable pub find_role : ℕ → List Role → Option Role
find_role id [] = none
find_role id (r ∷ rs) = if r.id == id then some r else find_role id rs

abbrev pub or_no_rows {ℓ} : {A : Type ℓ} → Option A → Result Error A
or_no_rows none = err no_rows
or_no_rows (some a) = ok a

-- a query, unless the driver fails
abbrev pub guarded {ℓ} : {A : Type ℓ} → Bool → Result Error A → Result Error A
guarded true r = err query_failed
guarded false r = r

-- GetRole
unfoldable pub get_role : Database → ℕ → Result Error Role
get_role db id = guarded (db.fails (get_role_of id)) (or_no_rows (find_role id db.roles))

unfoldable pub find_slug : ℕ → String → List Role → Option Role
find_slug tenant_id slug [] = none
find_slug tenant_id slug (r ∷ rs) =
    if r.tenant_id == tenant_id && r.slug == slug then some r else find_slug tenant_id slug rs

-- GetRoleBySlug
unfoldable pub get_role_by_slug : Database → ℕ → String → Result Error Role
unfolding find_slug
get_role_by_slug db tenant_id slug =
    guarded (db.fails (role_by_slug tenant_id slug))
      (or_no_rows (find_slug tenant_id slug db.roles))

unfoldable pub select : (Role → Bool) → List Role → List Role
select p [] = []
select p (r ∷ rs) = if p r then r ∷ select p rs else select p rs

-- the joins of the two role listings
unfoldable pub holds_directly : Database → ℕ → Role → Bool
holds_directly db identity_id r = any (λ l. l.0 == identity_id && l.1 == r.id) db.identity_roles

unfoldable pub is_live : Database → ℕ → Bool
is_live db group_id = any (λ g. g.id == group_id && not g.deleted) db.groups

unfoldable pub is_member : Database → ℕ → ℕ → Bool
is_member db identity_id group_id =
    any (λ m. m.0 == group_id && m.1 == identity_id) db.group_memberships

unfoldable pub holds_via_group : Database → ℕ → Role → Bool
unfolding is_live is_member
holds_via_group db identity_id r =
    any (λ l. l.1 == r.id && (is_member db identity_id l.0 && is_live db l.0)) db.group_roles

-- ListRolesForIdentity
unfoldable pub list_roles_for_identity : Database → ℕ → Result Error (List Role)
unfolding select holds_directly
list_roles_for_identity db identity_id =
    guarded (db.fails (roles_for_identity identity_id))
      (ok (select (holds_directly db identity_id) db.roles))

-- ListGroupRolesForIdentity
unfoldable pub list_group_roles_for_identity : Database → ℕ → Result Error (List Role)
unfolding select holds_via_group
list_group_roles_for_identity db identity_id =
    guarded (db.fails (group_roles_for_identity identity_id))
      (ok (select (holds_via_group db identity_id) db.roles))

unfoldable pub update_role : ℕ → (Role → Role) → List Role → List Role
update_role id f [] = []
update_role id f (r ∷ rs) = (if r.id == id then f r else r) ∷ update_role id f rs

-- an UPDATE of the rows with this id
abbrev pub written : Bool → ℕ → (Role → Role) → Exec Database Error (Unit {0})
written true id f db = (err query_failed, db)
written false id f db = (ok tt, record db { roles = update_role id f db.roles })

-- UpdateRoleParent
unfoldable pub update_role_parent : ℕ → Option ℕ → Exec Database Error (Unit {0})
unfolding update_role
update_role_parent id parent db =
    written (db.fails (write_parent id)) id (λ r. record r { parent_role_id = parent }) db

-- UpdateRolePermissions
unfoldable pub update_role_permissions : ℕ → String → Exec Database Error (Unit {0})
unfolding update_role
update_role_permissions id text db =
    written (db.fails (write_permissions id)) id (λ r. record r { permissions = text }) db

abbrev created : Bool → Option Role → Role → Exec Database Error Role
created true taken r db = (err query_failed, db)
created false (some other) r db = (err unique_violation, db)
created false none r db = (ok r, record db { roles = db.roles ++ r ∷ []; next_id = db.next_id + 1 })

-- CreateRole. The pair of tenant and slug is unique, and a new row has no parent and the column's
-- default permissions.
unfoldable pub create_role : ℕ → String → String → Bool → Option String → Exec Database Error Role
unfolding find_slug
create_role tenant_id slug name is_builtin template_slug db =
    created (db.fails (insert_role slug)) (find_slug tenant_id slug db.roles)
      (record {
        id = db.next_id;
        tenant_id = tenant_id;
        slug = slug;
        name = name;
        is_builtin = is_builtin;
        template_slug = template_slug;
        permissions = "{}";
        parent_role_id = none;
      })
      db
