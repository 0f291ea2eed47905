-- ===== src/Auth/Sessions/Revocation.antt =====
-- Revoked sessions, through the logins, switches and logouts that follow.
use pluris.Prelude.{
  ℕ, String, Bool, true, false, ◌&&◌, Option, none, some, List, [], ◌∷◌, ◌==◌, string_eq, id_eq, ok,
  All, All-append, ◌≡◌, ◌≢◌, refl, arith, eq_iff,
}
use pluris.Auth.Sessions.{
  Platform, IdentitySession, Table, Session, is_none, update_where, find_active, get_active, lookup,
  create, set_active_tenant, revoke, has_hash, inserted, updated, insert_session, write_tenant,
  revoke_session,
}

-- What the console does to the table: logins, tenant switches and logouts, each at its time. A login
-- carries the token that was drawn.
pub data Event : Type 0 where
  login : ℕ → Option String → ℕ → String → String → Event
  switched : ℕ → ℕ → Event
  logout : ℕ → String → Event

module _ (platform : Platform) where
  abbrev pub apply_event : Event → Table → Table
  apply_event (login now token identity_id ip user_agent) t =
      (create platform now token identity_id ip user_agent t).1
  apply_event (switched session_id tenant_id) t =
      (set_active_tenant platform session_id tenant_id t).1
  apply_event (logout now token) t = (revoke platform now token t).1

  unfoldable pub replay : List Event → Table → Table
  replay [] t = t
  replay (e ∷ es) t = replay es (apply_event e t)

  -- No login draws a token with this hash.
  abbrev pub Avoids : String → Event → Type 0
  Avoids h (login now none identity_id ip user_agent) = Unit
  Avoids h (login now (some token) identity_id ip user_agent) = platform.hash_token token ≢ h
  Avoids h _ = Unit

  -- the row has another hash or is revoked
  abbrev Closed : String → IdentitySession → Type 0
  Closed h r = (r.token_hash == h && is_none r.revoked_at) ≡ false

  update_where-Closed :
      (h : String) (p : IdentitySession → Bool) (f : IdentitySession → IdentitySession)
      (rs : List IdentitySession)
      → ((r : IdentitySession) → Closed h r → Closed h (f r))
      → All (Closed h) rs
      → All (Closed h) (update_where p f rs)
  unfolding update_where
  update_where-Closed h p f [] keeps c = tt
  update_where-Closed h p f (r ∷ rs) keeps (c, cs) =
      (ground (arith, keeps r), update_where-Closed h p f rs keeps cs)

  revoked-Closed :
      (h : String) (now : ℕ) (rs : List IdentitySession)
      → All
          (Closed h)
          (update_where (λ r. r.token_hash == h) (λ r. record r { revoked_at = some now }) rs)
  unfolding update_where
  revoked-Closed h now [] = tt
  revoked-Closed h now (r ∷ rs) = (ground arith, revoked-Closed h now rs)

  find_active-Closed :
      (h : String) (now : ℕ) (rs : List IdentitySession)
      → All (Closed h) rs
      → find_active platform now h rs ≡ none
  unfolding find_active
  find_active-Closed h now [] c = refl
  find_active-Closed h now (r ∷ rs) (c, cs) = ground (arith, find_active-Closed h now rs cs)

  inserted-Closed :
      (h : String) (broken taken : Bool) (r : IdentitySession) (t : Table)
      → r.token_hash ≢ h
      → All (Closed h) t.rows
      → All (Closed h) (inserted platform broken taken r t).1.rows
  inserted-Closed h true taken r t other c = c
  inserted-Closed h false true r t other c = c
  inserted-Closed h false false r t other c =
      All-append (Closed h) t.rows (r ∷ []) c (ground (arith, eq_iff r.token_hash h), tt)

  updated-Closed :
      (h : String) (broken : Bool) (p : IdentitySession → Bool)
      (f : IdentitySession → IdentitySession) (t : Table)
      → ((r : IdentitySession) → Closed h r → Closed h (f r))
      → All (Closed h) t.rows
      → All (Closed h) (updated platform broken p f t).1.rows
  updated-Closed h true p f t keeps c = c
  updated-Closed h false p f t keeps c = update_where-Closed h p f t.rows keeps c

  logged_out-Closed :
      (h : String) (broken : Bool) (now : ℕ) (t : Table)
      → (updated platform broken
          (λ r. r.token_hash == h)
          (λ r. record r { revoked_at = some now })
          t).0
        ≡ ok tt
      → All
          (Closed h)
          (updated platform broken
            (λ r. r.token_hash == h)
            (λ r. record r { revoked_at = some now })
            t).1.rows
  logged_out-Closed h true now t done = cc
  logged_out-Closed h false now t done = revoked-Closed h now t.rows

  event-Closed :
      (h : String) (e : Event) (t : Table)
      → Avoids h e
      → All (Closed h) t.rows
      → All (Closed h) (apply_event e t).rows
  unfolding create set_active_tenant revoke
  event-Closed h (login now none identity_id ip user_agent) t a c = c
  event-Closed h (login now (some token) identity_id ip user_agent) t a c =
      inserted-Closed h (t.fails (insert_session (platform.hash_token token)))
        (has_hash (platform.hash_token token) t.rows) _ t a c
  event-Closed h (switched session_id tenant_id) t a c =
      updated-Closed h (t.fails (write_tenant session_id)) (λ r. r.id == session_id) _ t (λ r k. k)
        c
  event-Closed h (logout now token) t a c =
      updated-Closed h (t.fails (revoke_session (platform.hash_token token)))
        (λ r. r.token_hash == platform.hash_token token) _ t (λ r k. ground arith) c

  replay-Closed :
      (h : String) (es : List Event) (t : Table)
      → All (Avoids h) es
      → All (Closed h) t.rows
      → All (Closed h) (replay es t).rows
  unfolding replay
  replay-Closed h [] t a c = c
  replay-Closed h (e ∷ es) t (a, rest) c =
      replay-Closed h es (apply_event e t) rest (event-Closed h e t a c)

  lookup-Closed :
      (token : String) (now : ℕ) (t : Table) (s : Session)
      → All (Closed (platform.hash_token token)) t.rows
      → lookup platform now token t ≢ ok s
  unfolding lookup get_active
  lookup-Closed token now t s c e =
      ground (arith, find_active-Closed (platform.hash_token token) now t.rows c)

-- After a logout that reports no error, its token opens no session at any time, whatever logins,
-- switches and logouts follow, unless a login draws a token of the same hash.
pub lookup-revoke :
    (platform : Platform) (token : String) (at_logout now : ℕ) (t : Table) (later : List Event)
    (s : Session)
    → (revoke platform at_logout token t).0 ≡ ok tt
    → All (Avoids platform (platform.hash_token token)) later
    → lookup platform now token (replay platform later (revoke platform at_logout token t).1) ≢ ok s
unfolding revoke
lookup-revoke platform token at_logout now t later s done avoids =
    lookup-Closed platform token now (replay platform later (revoke platform at_logout token t).1) s
      (replay-Closed platform (platform.hash_token token) later
        (revoke platform at_logout token t).1 avoids
        (logged_out-Closed platform (platform.hash_token token)
          (t.fails (revoke_session (platform.hash_token token))) at_logout t done))
