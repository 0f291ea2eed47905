-- ===== src/Lifecycle/Success.antt =====
-- Operations that succeed: each of their steps did.
use pluris.Prelude.{
  Bool, true, false, List, Result, ok, err, continue, pure, fail, ◌>>=◌, ◌>>◌, ◌≡◌, refl, ap, ◌∙◌,
  if◌then◌else◌,
}
use pluris.Lifecycle.{
  Tables, Store, Error, Statement, Operation, query, executed, next_fails, later_faults,
}
use pluris.Lifecycle.Queries.{constrained}

module _ {A B : Type 0} where
  continue-eq-ok :
      (r : Result Error A) (f : A → Operation B) (s : Store) (b : B)
      → (continue r f s).0 ≡ ok b
      → (a : A) × (r ≡ ok a) × (continue r f s ≡ f a s)
  continue-eq-ok (ok a) f s b done = (a, refl, refl)
  continue-eq-ok (err e) f s b done = cc

  pub bind-eq-ok :
      (m : Operation A) (f : A → Operation B) (s : Store) (b : B)
      → ((m >>= f) s).0 ≡ ok b
      → (a : A) × ((m s).0 ≡ ok a) × ((m >>= f) s ≡ f a (m s).1)
  bind-eq-ok m f s b done = continue-eq-ok (m s).0 f (m s).1 b done

module _ {A : Type 0} where
  executed-eq-ok :
      (broken : Bool) (faults : List Bool) (q : Statement A) (t : Tables) (a : A)
      → (executed broken faults q t).0 ≡ ok a
      → ((q t).0 ≡ ok a)
        × (executed broken faults q t).1 ≡ record { tables = (q t).1; faults = faults }
  executed-eq-ok true faults q t a done = cc
  executed-eq-ok false faults q t a done = (done, refl)

  pub query-eq-ok :
      (q : Statement A) (s : Store) (a : A)
      → (query q s).0 ≡ ok a
      → ((q s.tables).0 ≡ ok a)
        × (query q s).1 ≡ record { tables = (q s.tables).1; faults = later_faults s.faults }
  query-eq-ok q s a done =
      executed-eq-ok (next_fails s.faults) (later_faults s.faults) q s.tables a done

  -- a test that must have failed, since its branch fails
  pub checked-eq-ok :
      (b : Bool) (e : Error) (m : Operation A) (s : Store) (a : A)
      → ((if b then fail e else m) s).0 ≡ ok a
      → (b ≡ false) × ((if b then fail e else m) s ≡ m s)
  checked-eq-ok true e m s a done = cc
  checked-eq-ok false e m s a done = (refl, refl)

  -- a statement whose constraint holds
  pub constrained-eq-ok :
      (b : Bool) (q : Statement A) (t : Tables) (a : A)
      → (constrained b q t).0 ≡ ok a
      → constrained b q t ≡ q t
  constrained-eq-ok true q t a done = refl
  constrained-eq-ok false q t a done = cc

  -- What holds before, and after the statement, holds after it with a constraint.
  pub constrained_cases :
      (P : Tables → Type 0) (b : Bool) (q : Statement A) (t : Tables)
      → P t
      → P (q t).1
      → P (constrained b q t).1
  constrained_cases P true q t before after = after
  constrained_cases P false q t before after = before

module _ {A B : Type 0} where
  -- one statement and an answer
  pub answered-eq-ok :
      (q : Statement A) (b c : B) (s : Store)
      → ((query q >> pure b) s).0 ≡ ok c
      → ((query q >> pure b) s).1.tables ≡ (q s.tables).1
  answered-eq-ok q b c s done =
      let (a, first_ok, step) = bind-eq-ok (query q) (λ a. pure b) s c done in
      let (read, after) = query-eq-ok q s a first_ok in
      ap (λ (r : Result Error B × Store). r.1.tables) step ∙ ap (λ (s' : Store). s'.tables) after
