-- ===== src/Roles/Rows.antt =====
-- Rows of the table `roles`: reading one, and writing one in place.
use pluris.Prelude.{
  ℕ, Option, none, some, List, [], ◌∷◌, if◌then◌else◌, ◌==◌, id_eq, ok, err, ◌≡◌, ◌≢◌, ◌⊎◌, arith,
}
use pluris.Roles.Store.{no_rows, query_failed, Role, Database, find_role, get_role, update_role}

pub id-find_role : (id : ℕ) (rs : List Role) (r : Role) → find_role id rs ≡ some r → r.id ≡ id
unfolding find_role
id-find_role id [] r e = cc
id-find_role id (s ∷ rs) r e = ground (arith, id-find_role id rs r)

pub get_role-ok :
    (db : Database) (id : ℕ) (r : Role) → get_role db id ≡ ok r → find_role id db.roles ≡ some r
unfolding get_role
get_role-ok db id r e = ground arith

pub get_role-no_rows :
    (db : Database) (id : ℕ) → get_role db id ≡ err no_rows → find_role id db.roles ≡ none
unfolding get_role
get_role-no_rows db id e = ground arith

abbrev pub mapped : (Role → Role) → Option Role → Option Role
mapped f none = none
mapped f (some r) = some (f r)

pub find_role-update_role :
    (id j : ℕ) (f : Role → Role) (rs : List Role)
    → ((r : Role) → (f r).id ≡ r.id)
    → find_role j (update_role id f rs)
      ≡ (if id == j then mapped f (find_role j rs) else find_role j rs)
unfolding find_role update_role
find_role-update_role id j f [] keeps = ground arith
find_role-update_role id j f (r ∷ rs) keeps =
    ground (arith, keeps r, find_role-update_role id j f rs keeps)

-- An update that keeps the ids leaves the other rows, and the missing ones, as they are.
module _ (roles : List Role) (x : ℕ) (f : Role → Role) (keeps : (r : Role) → (f r).id ≡ r.id) where
  pub find_role-absent :
      (p : ℕ) → find_role p roles ≡ none → find_role p (update_role x f roles) ≡ none
  find_role-absent p gone = rw (find_role-update_role x p f roles keeps) (ground arith)

  pub find_role-other :
      (p : ℕ) (q : Role)
      → find_role p roles ≡ some q
      → q.id ≢ x
      → find_role p (update_role x f roles) ≡ some q
  find_role-other p q found other =
      rw (find_role-update_role x p f roles keeps) (ground (arith, id-find_role p roles q found))

-- Reading a row that is there succeeds, or the driver fails.
pub get_role_cases :
    (db : Database) (id : ℕ) (r : Role)
    → find_role id db.roles ≡ some r
    → (get_role db id ≡ ok r) ⊎ (get_role db id ≡ err query_failed)
unfolding get_role
get_role_cases db id r e = ground arith
