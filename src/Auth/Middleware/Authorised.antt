-- ===== src/Auth/Middleware/Authorised.antt =====
-- Who reaches a handler: the chain, taken apart.
use pluris.Prelude.{
  ℕ, String, true, false, Option, none, some, List, ◌==◌, string_eq, ok, err, All, ◌≡◌, ◌≢◌, inl,
  inr, refl, sym, ap₂, ◌∙◌, arith, Bool-cases, Option-cases, Result-cases,
}
use pluris.Grants.{Json}
use pluris.Auth.Sessions.{Platform, Error, Table, Session, lookup, revoke}
use pluris.Auth.Sessions.Revocation.{Event, Avoids, replay, lookup-revoke}
use pluris.Auth.Routes.{can_access_grants}
use pluris.Auth.Middleware.{
  Identity, UserSession, Reply, redirect, handled, Request, World, auth_exempt, get_identity,
  user_session, setup_gate, with_identity, with_token, require_auth, require_role, serve,
}

-- What stands behind a request that reaches a handler as `user`.
pub record IsAuthorised (platform : Platform) (json : Json) (now : ℕ) (w : World)
    (request : Request) (user : UserSession) : Type 0 where
  pub token : String
  pub session : Session
  pub identity : Identity
  pub sent : request.cookie ≡ some token
  pub open_now : lookup platform now token w.sessions ≡ ok session
  pub found : get_identity w session.identity_id ≡ some identity
  pub is_user : user ≡ user_session platform json now w identity session
  pub permitted : can_access_grants user.grants request.path ≡ true

module _ (platform : Platform) (json : Json) (now : ℕ) (w : World) (request : Request)
    (gated : auth_exempt request.path ≡ false) where
  abbrev last : Option UserSession → Reply
  last = require_role request handled

  require_role-handled :
      (user : UserSession) (ctx : Option UserSession)
      → last (some user) ≡ handled ctx
      → (ctx ≡ some user) × (can_access_grants user.grants request.path ≡ true)
  unfolding require_role
  require_role-handled user ctx e = elim (Bool-cases (can_access_grants user.grants request.path)) [
    | inl passes ↦ (ground arith, passes)
    | inr denied ↦ ground arith
  ]

  setup_gate-handled :
      (next : Option UserSession → Reply) (ctx : Option UserSession)
      → setup_gate platform json now w request next none ≡ handled ctx
      → next none ≡ handled ctx
  unfolding setup_gate
  setup_gate-handled next ctx e = ground arith

  -- The cookie, the session and the identity that RequireAuth finds.
  record Found (next : Option UserSession → Reply) (ctx : Option UserSession) : Type 0 where
    pub token : String
    pub session : Session
    pub identity : Identity
    pub sent : request.cookie ≡ some token
    pub open_now : lookup platform now token w.sessions ≡ ok session
    pub found : get_identity w session.identity_id ≡ some identity
    pub goes_on : next (some (user_session platform json now w identity session)) ≡ handled ctx

  with_token-closed :
      (next : Option UserSession → Reply) (token : String) (f : Error) (ctx : Option UserSession)
      → lookup platform now token w.sessions ≡ err f
      → with_token platform json now w next token ≢ handled ctx
  unfolding with_token
  with_token-closed next token f ctx closed e = elim (Bool-cases (token == "")) [
    | inl blank ↦ ground arith
    | inr sent ↦ ground arith
  ]

  with_token-open :
      (next : Option UserSession → Reply) (token : String) (s : Session) (ctx : Option UserSession)
      → lookup platform now token w.sessions ≡ ok s
      → with_token platform json now w next token ≡ handled ctx
      → with_identity platform json now w next s (get_identity w s.identity_id) ≡ handled ctx
  unfolding with_token
  with_token-open next token s ctx opened e = elim (Bool-cases (token == "")) [
    | inl blank ↦ ground arith
    | inr sent ↦ ground arith
  ]

  with_identity-handled :
      (next : Option UserSession → Reply) (s : Session) (o : Option Identity)
      (ctx : Option UserSession)
      → with_identity platform json now w next s o ≡ handled ctx
      → (i : Identity) × (o ≡ some i)
        × (next (some (user_session platform json now w i s)) ≡ handled ctx)
  unfolding with_identity
  with_identity-handled next s none ctx e = cc
  with_identity-handled next s (some i) ctx e = (i, refl, e)

  with_token-Found :
      (next : Option UserSession → Reply) (token : String) (ctx : Option UserSession)
      → request.cookie ≡ some token
      → with_token platform json now w next token ≡ handled ctx
      → Found next ctx
  with_token-Found next token ctx sent e =
      elim (Result-cases (lookup platform now token w.sessions)) [
        | inr (f, closed) ↦ absurd (with_token-closed next token f ctx closed e)
        | inl (s, open_now) ↦
            let (i, found, goes_on) =
              with_identity-handled next s (get_identity w s.identity_id) ctx
                (with_token-open next token s ctx open_now e) in
            record {
              token = token;
              session = s;
              identity = i;
              sent = sent;
              open_now = open_now;
              found = found;
              goes_on = goes_on;
            }
      ]

  to_token :
      (next : Option UserSession → Reply) (token : String)
      → request.cookie ≡ some token
      → require_auth platform json now w request next none
        ≡ with_token platform json now w next token
  unfolding require_auth
  to_token next token sent = rw (gated, require_auth) (rw (sent, require_auth))

  to_login :
      (next : Option UserSession → Reply)
      → request.cookie ≡ none
      → require_auth platform json now w request next none ≡ redirect "/login"
  unfolding require_auth
  to_login next absent = rw (gated, require_auth) (rw (absent, require_auth))

  require_auth-Found :
      (next : Option UserSession → Reply) (ctx : Option UserSession)
      → require_auth platform json now w request next none ≡ handled ctx
      → Found next ctx
  require_auth-Found next ctx e = elim (Option-cases request.cookie) [
    | inl absent ↦ cc (to_login next absent)
    | inr (token, sent) ↦ with_token-Found next token ctx sent (sym (to_token next token sent) ∙ e)
  ]

-- A handler of a path that is not exempt is reached only with a session in the request: the cookie's
-- token opens a session, its identity exists, the request carries that identity's grants, and these
-- give access to the path.
pub serve-IsAuthorised :
    (platform : Platform) (json : Json) (now : ℕ) (w : World) (request : Request)
    (ctx : Option UserSession)
    → auth_exempt request.path ≡ false
    → serve platform json now w request ≡ handled ctx
    → (user : UserSession) × (ctx ≡ some user) × IsAuthorised platform json now w request user
unfolding serve
serve-IsAuthorised platform json now w request ctx gated e =
    let next = require_auth platform json now w request (require_role request handled) in
    let f =
      require_auth-Found platform json now w request gated (require_role request handled) ctx
        (setup_gate-handled platform json now w request gated next ctx e) in
    let user = user_session platform json now w f.identity f.session in
    let (same, permitted) =
      require_role-handled platform json now w request gated user ctx f.goes_on in
    (
      user,
      same,
      record {
        token = f.token;
        session = f.session;
        identity = f.identity;
        sent = f.sent;
        open_now = f.open_now;
        found = f.found;
        is_user = refl;
        permitted = permitted;
      },
    )

-- After a logout that reports no error, a request with its token reaches no handler of a path that is
-- not exempt, whatever logins, switches and logouts follow, unless a login draws a token of the same
-- hash.
pub serve-revoke :
    (platform : Platform) (json : Json) (at_logout now : ℕ) (t : Table) (later : List Event)
    (w : World) (request : Request) (token : String) (ctx : Option UserSession)
    → (revoke platform at_logout token t).0 ≡ ok tt
    → All (Avoids platform (platform.hash_token token)) later
    → w.sessions ≡ replay platform later (revoke platform at_logout token t).1
    → request.cookie ≡ some token
    → auth_exempt request.path ≡ false
    → serve platform json now w request ≢ handled ctx
serve-revoke platform json at_logout now t later w request token ctx done avoids after sent gated
      e =
    let (user, _, a) = serve-IsAuthorised platform json now w request ctx gated e in
    let same : a.token ≡ token = ground (arith, a.sent) in
    lookup-revoke platform token at_logout now t later a.session done avoids
      (ap₂ (λ k u. lookup platform now k u) (sym same) (sym after) ∙ a.open_now)
