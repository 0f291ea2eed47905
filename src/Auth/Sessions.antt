-- ===== src/Auth/Sessions.antt =====
-- pkg/auth/session.go over the table `identity_sessions` (db/sessions.sql.go). Times are seconds. The
-- random token is an argument, `none` where the generator fails. SHA-256 and SQLite's comparison of
-- the stored expiry with CURRENT_TIMESTAMP are not part of the repository: they enter as a `Platform`.
pub mod Revocation
pub mod Lifetime
use pluris.Prelude.{
  ℕ, ◌+◌, String, Bool, true, false, ◌&&◌, Option, none, some, List, [], ◌∷◌, ◌++◌, if◌then◌else◌,
  ◌==◌, string_eq, id_eq, Result, ok, err, Exec,
}

pub record Platform : Type 0 where
  pub hash_token : String → String
  pub is_after : ℕ → ℕ → Bool

pub data Error : Type 0 where
  no_rows query_failed unique_violation no_token : Error

pub record IdentitySession : Type 0 where
  pub id : ℕ
  pub identity_id : ℕ
  pub token_hash : String
  pub active_tenant_id : Option ℕ
  pub ip_address : Option String
  pub user_agent : Option String
  pub expires_at : ℕ
  pub revoked_at : Option ℕ

pub data Query : Type 0 where
  insert_session select_session revoke_session : String → Query
  write_tenant : ℕ → Query

pub record Table : Type 0 where
  pub rows : List IdentitySession
  pub next_id : ℕ
  pub fails : Query → Bool

-- `Session`: 0 stands for no active tenant
pub record Session : Type 0 where
  pub id : ℕ
  pub identity_id : ℕ
  pub active_tenant_id : ℕ
  pub expires_at : ℕ

-- `SessionTTL`: 30 days
abbrev pub session_ttl : ℕ
session_ttl = 2592000

abbrev pub is_none {ℓ} : {A : Type ℓ} → Option A → Bool
is_none none = true
is_none (some a) = false

abbrev pub non_empty : String → Option String
non_empty s = if s == "" then none else some s

unfoldable pub has_hash : String → List IdentitySession → Bool
has_hash h [] = false
has_hash h (r ∷ rs) = if r.token_hash == h then true else has_hash h rs

-- an UPDATE of the rows that pass the test
unfoldable pub update_where :
    (IdentitySession → Bool)
    → (IdentitySession → IdentitySession)
    → List IdentitySession
    → List IdentitySession
update_where p f [] = []
update_where p f (r ∷ rs) = (if p r then f r else r) ∷ update_where p f rs

abbrev pub zero_or : Option ℕ → ℕ
zero_or none = 0
zero_or (some id) = id

module _ (platform : Platform) where
  -- the WHERE clause of GetActiveSessionByTokenHash
  abbrev pub is_active : ℕ → String → IdentitySession → Bool
  is_active now h r =
      r.token_hash == h && (is_none r.revoked_at && platform.is_after r.expires_at now)

  unfoldable pub find_active : ℕ → String → List IdentitySession → Option IdentitySession
  find_active now h [] = none
  find_active now h (r ∷ rs) = if is_active now h r then some r else find_active now h rs

  abbrev pub guarded : Bool → Option IdentitySession → Result Error IdentitySession
  guarded true o = err query_failed
  guarded false none = err no_rows
  guarded false (some r) = ok r

  -- GetActiveSessionByTokenHash
  unfoldable pub get_active : ℕ → String → Table → Result Error IdentitySession
  unfolding find_active
  get_active now h t = guarded (t.fails (select_session h)) (find_active now h t.rows)

  abbrev pub resolved : Result Error IdentitySession → Result Error Session
  resolved (err e) = err e
  resolved (ok row) = ok (record {
    id = row.id;
    identity_id = row.identity_id;
    active_tenant_id = zero_or row.active_tenant_id;
    expires_at = row.expires_at;
  })

  -- `Lookup`
  unfoldable pub lookup : ℕ → String → Table → Result Error Session
  lookup now raw_token t = resolved (get_active now (platform.hash_token raw_token) t)

  -- CreateIdentitySession, whose column `token_hash` is unique
  abbrev pub inserted : Bool → Bool → IdentitySession → Exec Table Error (Unit {0})
  inserted true taken r t = (err query_failed, t)
  inserted false true r t = (err unique_violation, t)
  inserted false false r t = (ok tt, record t { rows = t.rows ++ r ∷ []; next_id = t.next_id + 1 })

  abbrev pub issued : Result Error (Unit {0}) → String → ℕ → Result Error (String × ℕ)
  issued (err e) raw_token expires_at = err e
  issued (ok done) raw_token expires_at = ok (raw_token, expires_at)

  -- `Create`
  unfoldable pub create : ℕ → Option String → ℕ → String → String → Exec Table Error (String × ℕ)
  unfolding has_hash
  create now none identity_id ip user_agent t = (err no_token, t)
  create now (some raw_token) identity_id ip user_agent t =
      let h = platform.hash_token raw_token in
      let row : IdentitySession = record {
        id = t.next_id;
        identity_id = identity_id;
        token_hash = h;
        active_tenant_id = none;
        ip_address = non_empty ip;
        user_agent = non_empty user_agent;
        expires_at = now + session_ttl;
        revoked_at = none;
      } in
      let (r, t') = inserted (t.fails (insert_session h)) (has_hash h t.rows) row t in
      (issued r raw_token (now + session_ttl), t')

  abbrev pub updated :
      Bool
      → (IdentitySession → Bool)
      → (IdentitySession → IdentitySession)
      → Exec Table Error (Unit {0})
  updated true p f t = (err query_failed, t)
  updated false p f t = (ok tt, record t { rows = update_where p f t.rows })

  -- `SetActiveTenant`
  unfoldable pub set_active_tenant : ℕ → ℕ → Exec Table Error (Unit {0})
  unfolding update_where
  set_active_tenant session_id tenant_id t =
      updated (t.fails (write_tenant session_id)) (λ r. r.id == session_id)
        (λ r. record r { active_tenant_id = some tenant_id }) t

  -- `Revoke`
  unfoldable pub revoke : ℕ → String → Exec Table Error (Unit {0})
  unfolding update_where
  revoke now raw_token t =
      let h = platform.hash_token raw_token in
      updated (t.fails (revoke_session h)) (λ r. r.token_hash == h)
        (λ r. record r { revoked_at = some now }) t
