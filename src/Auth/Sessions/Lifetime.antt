-- ===== src/Auth/Sessions/Lifetime.antt =====
-- From login to expiry: which tokens open a session, and for how long.
use pluris.Prelude.{
  ℕ, ◌+◌, String, Bool, true, false, none, some, List, [], ◌∷◌, ◌++◌, if◌then◌else◌, string_eq,
  id_eq, Result, ok, err, In, ◌≡◌, inl, inr, refl, arith, eq_iff, Bool-cases, Option-cases,
}
use pluris.Auth.Sessions.{
  Platform, Error, no_rows, IdentitySession, Table, Session, session_ttl, select_session,
  insert_session, zero_or, is_active, find_active, get_active, lookup, create, has_hash, inserted,
  guarded, issued, resolved, non_empty,
}

module _ (platform : Platform) (now : ℕ) (h : String) where
  find_active_sound :
      (rs : List IdentitySession) (r : IdentitySession)
      → find_active platform now h rs ≡ some r
      → In r rs × (is_active platform now h r ≡ true)
  unfolding find_active
  find_active_sound [] r e = cc
  find_active_sound (s ∷ rs) r e = elim (Bool-cases (is_active platform now h s)) [
    | inl active ↦ let same : r ≡ s = ground arith in (inl same, rw same active)
    | inr other ↦
        let (listed, active) = find_active_sound rs r (ground arith) in (inr listed, active)
  ]

  -- a new row behind rows of other hashes
  find_active-append :
      (rs : List IdentitySession) (r : IdentitySession)
      → has_hash h rs ≡ false
      → find_active platform now h (rs ++ r ∷ []) ≡ find_active platform now h (r ∷ [])
  unfolding find_active has_hash
  find_active-append [] r e = refl
  find_active-append (s ∷ rs) r e = ground (arith, find_active-append rs r)

-- A session that a lookup opens is that of a row of the token's hash which is neither revoked nor
-- expired at that time.
pub lookup_sound :
    (platform : Platform) (now : ℕ) (token : String) (t : Table) (s : Session)
    → lookup platform now token t ≡ ok s
    → (r : IdentitySession) × In r t.rows
      × (r.token_hash ≡ platform.hash_token token)
      × (r.revoked_at ≡ none)
      × (platform.is_after r.expires_at now ≡ true)
      × (s ≡ record {
        id = r.id;
        identity_id = r.identity_id;
        active_tenant_id = zero_or r.active_tenant_id;
        expires_at = r.expires_at;
      })
unfolding lookup get_active
lookup_sound platform now token t s e =
    let h = platform.hash_token token in
    elim (Option-cases (find_active platform now h t.rows)) [
      | inl absent ↦ ground arith
      | inr (r, found) ↦
          let (listed, active) = find_active_sound platform now h t.rows r found in
          (
            r,
            listed,
            ground (arith, eq_iff r.token_hash h),
            ground arith,
            ground arith,
            ground arith,
          )
    ]

one_row :
    (platform : Platform) (moment : ℕ) (r : IdentitySession)
    → r.revoked_at ≡ none
    → find_active platform moment r.token_hash (r ∷ [])
      ≡ (if platform.is_after r.expires_at moment then some r else none)
unfolding find_active
one_row platform moment r open_here = ground (arith, eq_iff r.token_hash r.token_hash)

-- a lookup behind an insert that succeeded
lookup-inserted :
    (platform : Platform) (moment : ℕ) (broken taken : Bool) (r : IdentitySession) (t : Table)
    → r.revoked_at ≡ none
    → has_hash r.token_hash t.rows ≡ taken
    → t.fails (select_session r.token_hash) ≡ false
    → (inserted platform broken taken r t).0 ≡ ok tt
    → get_active platform moment r.token_hash (inserted platform broken taken r t).1
      ≡ guarded platform false (if platform.is_after r.expires_at moment then some r else none)
unfolding get_active
lookup-inserted platform moment true taken r t open_here fresh works e = cc
lookup-inserted platform moment false true r t open_here fresh works e = cc
lookup-inserted platform moment false false r t open_here fresh works e =
    rw
      (
        works,
        find_active-append platform moment r.token_hash t.rows r fresh,
        one_row platform moment r open_here,
      )
      refl

issued-ok :
    (platform : Platform) (r : Result Error (Unit {0})) (token : String) (expires_at : ℕ)
    (out : String × ℕ)
    → issued platform r token expires_at ≡ ok out
    → r ≡ ok tt
issued-ok platform (ok tt) token expires_at out e = refl
issued-ok platform (err f) token expires_at out e = cc

opened :
    (platform : Platform) (lasts : Bool) (r : IdentitySession)
    → resolved platform (guarded platform false (if lasts then some r else none)) ≡ (
        if lasts
        then ok (record {
          id = r.id;
          identity_id = r.identity_id;
          active_tenant_id = zero_or r.active_tenant_id;
          expires_at = r.expires_at;
        })
        else err no_rows)
opened platform true r = refl
opened platform false r = refl

-- The token of a login that succeeded opens a session of that identity without an active tenant up to
-- its expiry, 30 days after the login, and none from then on, if the driver does not fail.
pub lookup-create :
    (platform : Platform) (now moment : ℕ) (token : String) (identity_id : ℕ)
    (ip user_agent : String) (t : Table)
    → (create platform now (some token) identity_id ip user_agent t).0
      ≡ ok (token, now + session_ttl)
    → t.fails (select_session (platform.hash_token token)) ≡ false
    → lookup platform moment token (create platform now (some token) identity_id ip user_agent t).1
      ≡ (if platform.is_after (now + session_ttl) moment
          then ok (record {
            id = t.next_id;
            identity_id = identity_id;
            active_tenant_id = 0;
            expires_at = now + session_ttl;
          })
          else err no_rows)
unfolding lookup create
lookup-create platform now moment token identity_id ip user_agent t e works =
    let h = platform.hash_token token in
    let row : IdentitySession = record {
      id = t.next_id;
      identity_id = identity_id;
      token_hash = h;
      active_tenant_id = none;
      ip_address = non_empty ip;
      user_agent = non_empty user_agent;
      expires_at = now + session_ttl;
      revoked_at = none;
    } in
    let done = inserted platform (t.fails (insert_session h)) (has_hash h t.rows) row t in
    rw
      (lookup-inserted platform moment (t.fails (insert_session h)) (has_hash h t.rows) row t refl
        refl works (issued-ok platform done.0 token (now + session_ttl) _ e))
      (opened platform (platform.is_after (now + session_ttl) moment) row)
