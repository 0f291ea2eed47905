-- ===== src/Auth/Middleware.antt =====
-- pkg/auth/middleware.go: SetupGate, RequireAuth and RequireRole, in the order in which
-- console/server/server.go puts them in front of the handlers. A reply says what the chain answers, or
-- with which session it reaches the handler. Echo's redirects and errors are values.
pub mod Authorised
use pluris.Prelude.{
  ℕ, String, Bool, true, false, ◌&&◌, ◌||◌, Option, none, some, List, [], ◌∷◌, if◌then◌else◌,
  nat_eq, not, ◌==◌, string_eq, id_eq, Result, ok, err, length,
}
use pluris.Conditions.Text.{has_prefix}
use pluris.Grants.{Grants, Json, bypass_key}
use pluris.Roles.{effective_grants}
use pluris.Roles.Store.{Database}
use pluris.Auth.Sessions.{Platform, Table, Session, lookup}
use pluris.Auth.Routes.{can_access_grants}

-- of the row, what the chain reads
pub record Identity : Type 0 where
  pub id : ℕ
  pub tenant_id : ℕ
  pub email : String
  pub display_name : String
  pub role : String
  pub deleted : Bool

pub record TenantOption : Type 0 where
  pub id : ℕ
  pub name : String

pub record UserSession : Type 0 where
  pub identity_id : ℕ
  pub email : String
  pub display_name : String
  pub role : String
  pub tenant_id : ℕ
  pub available_tenants : List TenantOption
  pub grants : Grants

pub data Reply : Type 0 where
  redirect : String → Reply
  http_error : ℕ → String → Reply
  handled : Option UserSession → Reply

pub record Request : Type 0 where
  pub path : String
  pub cookie : Option String

-- what the chain reads: the tables, and at which of its own queries the driver fails
pub record World : Type 0 where
  pub identities : List Identity
  pub sessions : Table
  pub roles : Database
  pub tenants : Option (List TenantOption)
  pub count_fails : Bool
  pub identity_fails : ℕ → Bool

abbrev pub role_super_admin : String
role_super_admin = "super_admin"

unfoldable pub is_static_path : String → Bool
unfolding has_prefix
is_static_path path = has_prefix path "/static/"

unfoldable pub setup_exempt : String → Bool
setup_exempt path = (path == "/setup" || path == "/healthz") || is_static_path path

unfoldable pub auth_exempt : String → Bool
auth_exempt path =
    (path == "/login" || (path == "/setup" || path == "/healthz")) || is_static_path path

-- CountIdentitiesGlobal
unfoldable pub count_identities : List Identity → ℕ
count_identities [] = 0
count_identities (i ∷ is) = let n = count_identities is in if i.deleted then n else ℕ.suc n

find_identity : ℕ → List Identity → Option Identity
find_identity id [] = none
find_identity id (i ∷ is) = if i.id == id && not i.deleted then some i else find_identity id is

-- GetIdentity: `none` stands for every error
unfoldable pub get_identity : World → ℕ → Option Identity
unfolding find_identity
get_identity w id = if w.identity_fails id then none else find_identity id w.identities

-- `effectiveTenant`
abbrev pub effective_tenant : Identity → Session → ℕ
effective_tenant i s =
    if i.role == role_super_admin && not (nat_eq s.active_tenant_id 0)
    then s.active_tenant_id
    else i.tenant_id

abbrev pub or_no_tenants : Option (List TenantOption) → List TenantOption
or_no_tenants none = []
or_no_tenants (some ts) = ts

abbrev or_no_grants : {E : Type 0} → Result E Grants → Grants
or_no_grants (ok g) = g
or_no_grants (err e) = []

module _ (platform : Platform) (json : Json) (now : ℕ) (w : World) where
  -- the session that RequireAuth puts in the request
  unfoldable pub user_session : Identity → Session → UserSession
  user_session i s =
      let super = i.role == role_super_admin in
      record {
        identity_id = i.id;
        email = i.email;
        display_name = i.display_name;
        role = i.role;
        tenant_id = effective_tenant i s;
        available_tenants = if super then or_no_tenants w.tenants else [];
        grants =
            if super
            then (bypass_key, "yes") ∷ []
            else or_no_grants (effective_grants json w.roles i.id);
      }

  unfoldable pub setup_gate : Request → (Option UserSession → Reply) → Option UserSession → Reply
  unfolding setup_exempt count_identities
  setup_gate request next ctx =
      if setup_exempt request.path
      then next ctx
      else if w.count_fails
      then http_error 500 "failed to check setup state"
      else if nat_eq (count_identities w.identities) 0
      then redirect "/setup"
      else next ctx

  unfoldable pub with_identity : (Option UserSession → Reply) → Session → Option Identity → Reply
  with_identity next s none = redirect "/login"
  with_identity next s (some i) = next (some (user_session i s))

  unfoldable pub with_token : (Option UserSession → Reply) → String → Reply
  with_token next token =
      if token == "" then redirect "/login" else elim (lookup platform now token w.sessions) [
        | err e ↦ redirect "/login"
        | ok s ↦ with_identity next s (get_identity w s.identity_id)
      ]

  unfoldable pub require_auth : Request → (Option UserSession → Reply) → Option UserSession → Reply
  require_auth request next ctx =
      if auth_exempt request.path
      then next ctx
      else elim request.cookie [ none ↦ redirect "/login" | some token ↦ with_token next token ]

unfoldable pub require_role : Request → (Option UserSession → Reply) → Option UserSession → Reply
require_role request next ctx = if auth_exempt request.path then next ctx else elim ctx [
  | none ↦ http_error 403 "no active session"
  | some user ↦
      if can_access_grants user.grants request.path
      then next (some user)
      else http_error 403 "not permitted for your role"
]

-- The chain, up to the handler.
unfoldable pub serve : Platform → Json → ℕ → World → Request → Reply
unfolding setup_gate require_auth require_role with_token with_identity
serve platform json now w request =
    setup_gate platform json now w request
      (require_auth platform json now w request (require_role request handled)) none
