-- ===== src/Auth/Tests.antt =====
-- One console session, from login to logout.
use pluris.Prelude.{
  ◌+◌, String, true, false, none, some, List, [], ◌∷◌, if◌then◌else◌, ltb, In, All, ok, err, ◌≡◌,
  ◌≢◌, refl, arith, eq_iff,
}
use Prim.Native.String
use pluris.Conditions.Text.{has_prefix}
use pluris.Grants.{Grants, Json}
use pluris.Roles.Store.{Database}
use pluris.Auth.Sessions.{
  Platform, IdentitySession, Table, Session, session_ttl, zero_or, no_rows, lookup, create, revoke,
}
use pluris.Auth.Sessions.Revocation.{Event, login, switched, Avoids, replay, lookup-revoke}
use pluris.Auth.Sessions.Lifetime.{lookup_sound, lookup-create}
use pluris.Auth.Routes.{routes, route_permission_key}
use pluris.Auth.Routes.Longest.{IsLongest, route_permission_key-IsLongest}
use pluris.Auth.Middleware.{
  Identity, UserSession, Reply, handled, Request, World, auth_exempt, user_session, serve,
}
use pluris.Auth.Middleware.Authorised.{IsAuthorised, serve-IsAuthorised, serve-revoke}

-- a hash that only marks the text, and a session that lasts until its expiry
abbrev marked : Platform
marked = record { hash_token = λ s. String.◌++◌ "#" s; is_after = λ expires now. ltb now expires }

abbrev no_sessions : Table
no_sessions = record { rows = []; next_id = 1; fails = λ q. false }

abbrev logged_in : Table
logged_in = (create marked 100 (some "t1") 5 "10.0.0.1" "" no_sessions).1

abbrev opened : Session
opened = record { id = 1; identity_id = 5; active_tenant_id = 0; expires_at = 100 + session_ttl }

login_opens : lookup marked 200 "t1" logged_in ≡ ok opened
unfolding lookup create pluris.Auth.Sessions.get_active
login_opens = refl

opened_session_row :
    (r : IdentitySession) × In r logged_in.rows
    × (r.token_hash ≡ marked.hash_token "t1")
    × (r.revoked_at ≡ none)
    × (marked.is_after r.expires_at 200 ≡ true)
    × (opened ≡ record {
      id = r.id;
      identity_id = r.identity_id;
      active_tenant_id = zero_or r.active_tenant_id;
      expires_at = r.expires_at;
    })
opened_session_row = lookup_sound marked 200 "t1" logged_in opened login_opens

created :
    (create marked 100 (some "t1") 5 "10.0.0.1" "" no_sessions).0 ≡ ok ("t1", 100 + session_ttl)
unfolding create
created = refl

lookup-create_example :
    lookup marked 9000000 "t1" (create marked 100 (some "t1") 5 "10.0.0.1" "" no_sessions).1 ≡ (
      if marked.is_after (100 + session_ttl) 9000000
      then ok (record {
        id = no_sessions.next_id;
        identity_id = 5;
        active_tenant_id = 0;
        expires_at = 100 + session_ttl;
      })
      else err no_rows)
lookup-create_example =
    lookup-create marked 100 9000000 "t1" 5 "10.0.0.1" "" no_sessions created refl

-- after the logout, another login and a switch of tenants
abbrev later : List Event
later = login 400 (some "t2") 6 "" "" ∷ switched 1 3 ∷ []

later-Avoids : All (Avoids marked (marked.hash_token "t1")) later
later-Avoids = (λ e. ground (arith, eq_iff "#t2" "#t1"), (tt, tt))

logged_out : (revoke marked 300 "t1" logged_in).0 ≡ ok tt
unfolding revoke create
logged_out = refl

lookup-revoke_example :
    lookup marked 500 "t1" (replay marked later (revoke marked 300 "t1" logged_in).1) ≢ ok opened
lookup-revoke_example =
    lookup-revoke marked "t1" 300 500 logged_in later opened logged_out later-Avoids

rooted : has_prefix "/policy/modules/7" "/" ≡ true
unfolding has_prefix
rooted = refl

modules_gated : route_permission_key "/policy/modules/7" ≡ "endpoint_policy.manage_modules"
unfolding route_permission_key
modules_gated = refl

route_permission_key-IsLongest_example :
    (best : String × String) × IsLongest "/policy/modules/7" routes best
    × (route_permission_key "/policy/modules/7" ≡ best.1)
route_permission_key-IsLongest_example = route_permission_key-IsLongest "/policy/modules/7" rooted

abbrev admin : Identity
admin = record {
  id = 5;
  tenant_id = 1;
  email = "root@example.org";
  display_name = "Root";
  role = "super_admin";
  deleted = false;
}

abbrev no_json : Json
no_json = record { marshal = λ g. "{}"; unmarshal = λ s. none }

abbrev no_roles : Database
no_roles = record {
  roles = [];
  identity_roles = [];
  group_roles = [];
  group_memberships = [];
  groups = [];
  next_id = 1;
  fails = λ q. false;
}

abbrev world : Table → World
world t = record {
  identities = admin ∷ [];
  sessions = t;
  roles = no_roles;
  tenants = some [];
  count_fails = false;
  identity_fails = λ id. false;
}

abbrev request : Request
request = record { path = "/policy/modules/7"; cookie = some "t1" }

gated : auth_exempt request.path ≡ false
unfolding auth_exempt pluris.Auth.Middleware.is_static_path
gated = refl

abbrev admin_session : UserSession
admin_session = record {
  identity_id = 5;
  email = "root@example.org";
  display_name = "Root";
  role = "super_admin";
  tenant_id = 1;
  available_tenants = [];
  grants = ("__super_admin__", "yes") ∷ [];
}

served : serve marked no_json 200 (world logged_in) request ≡ handled (some admin_session)
unfolding serve pluris.Auth.Middleware.is_static_path auth_exempt lookup
    pluris.Auth.Sessions.get_active create pluris.Auth.Middleware.get_identity
    pluris.Auth.Routes.can_access_grants route_permission_key pluris.Grants.can pluris.Grants.bypass
    user_session
served = refl

serve-IsAuthorised_example :
    (user : UserSession) × (some admin_session ≡ some user)
    × IsAuthorised marked no_json 200 (world logged_in) request user
serve-IsAuthorised_example =
    serve-IsAuthorised marked no_json 200 (world logged_in) request (some admin_session) gated
      served

serve-revoke_example :
    serve marked no_json 500
      (world (replay marked later (revoke marked 300 "t1" logged_in).1))
      request
    ≢ handled (some admin_session)
serve-revoke_example =
    serve-revoke marked no_json 300 500 logged_in later
      (world (replay marked later (revoke marked 300 "t1" logged_in).1)) request "t1"
      (some admin_session) logged_out later-Avoids refl refl gated
