-- ===== src/Lifecycle/Runs.antt =====
-- Operations that succeed, and what they read on the way.
use pluris.Prelude.{Bool, true, false, List, Result, ok, err, continue, ◌>>=◌, ◌≡◌, refl, ap, sym}
use pluris.Lifecycle.{
  Tables, Store, Error, Statement, Operation, query, executed, next_fails, later_faults,
}

module _ {A : Type 0} where
  -- The operation succeeds with an answer and a store.
  abbrev pub Runs : Operation A → Store → A → Store → Type 0
  Runs m s a s' = m s ≡ (ok a, s')

  pub answers :
      (a b : A) (s s' : Store)
      → ◌≡◌ {A = Result Error A × Store} (ok a, s) (ok b, s')
      → (a ≡ b) × (s ≡ s')
  answers a b s s' e =
      let same : ◌≡◌ {A = Result Error A} (ok a) (ok b) =
        ap (λ (r : Result Error A × Store). r.0) e in
      (cc same, ap (λ (r : Result Error A × Store). r.1) e)

  pub fails :
      (c : Error) (b : A) (s s' : Store)
      → ◌≡◌ {A = Result Error A × Store} (err c, s) (ok b, s')
      → ⊥
  fails c b s s' e =
      let same : ◌≡◌ {A = Result Error A} (err c) (ok b) =
        ap (λ (r : Result Error A × Store). r.0) e in
      cc same

  executed-Runs :
      (broken : Bool) (faults : List Bool) (q : Statement A) (t : Tables) (a : A) (s' : Store)
      → executed broken faults q t ≡ (ok a, s')
      → q t ≡ (ok a, s'.tables)
  executed-Runs true faults q t a s' e = absurd (fails _ a _ s' e)
  executed-Runs false faults q t a s' e = ap (λ (r : Result Error A × Store). (r.0, r.1.tables)) e

  pub query-Runs :
      (q : Statement A) (s s' : Store) (a : A)
      → Runs (query q) s a s'
      → q s.tables ≡ (ok a, s'.tables)
  query-Runs q s s' a e =
      executed-Runs (next_fails s.faults) (later_faults s.faults) q s.tables a s' e

  -- a query that lists rows
  pub listing-Runs :
      (f : Tables → A) (s s' : Store) (a : A)
      → Runs (query (λ t. (ok (f t), t))) s a s'
      → (a ≡ f s.tables) × (s'.tables ≡ s.tables)
  listing-Runs f s s' a e =
      let read = query-Runs (λ t. (ok (f t), t)) s s' a e in
      let same : ◌≡◌ {A = Result Error A} (ok (f s.tables)) (ok a) =
        ap (λ (r : Result Error A × Tables). r.0) read in
      (sym (cc same), sym (ap (λ (r : Result Error A × Tables). r.1) read))

module _ {A B : Type 0} where
  continue-Runs :
      (r : Result Error A) (f : A → Operation B) (s s'' : Store) (b : B)
      → continue r f s ≡ (ok b, s'')
      → (a : A) × (r ≡ ok a) × Runs (f a) s b s''
  continue-Runs (ok a) f s s'' b e = (a, refl, e)
  continue-Runs (err c) f s s'' b e = absurd (fails c b s s'' e)

  pub bind-Runs :
      (m : Operation A) (f : A → Operation B) (s s'' : Store) (b : B)
      → Runs (m >>= f) s b s''
      → (a : A) × (s' : Store) × Runs m s a s' × Runs (f a) s' b s''
  bind-Runs m f s s'' b e =
      let (a, answer, later) = continue-Runs (m s).0 f (m s).1 s'' b e in
      (a, (m s).1, ap (λ (r : Result Error A). (r, (m s).1)) answer, later)
