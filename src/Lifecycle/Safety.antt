-- ===== src/Lifecycle/Safety.antt =====
-- Statements and operations from sound tables, and how operations are put together.
pub mod Rows
pub mod Contents
pub mod Versions
pub mod Scripts
pub mod Modules
pub mod Publishing
pub mod Applicability
pub mod Seeding
pub mod Imports
use pluris.Prelude.{
  Bool, true, false, Bool-cases, inl, inr, ◌≡◌, refl, List, if◌then◌else◌, continue, Result, ok,
  err, pure, fail, ◌>>=◌, ◌>>◌,
}
use pluris.Lifecycle.{
  Tables, Store, Error, Statement, Operation, executed, query, attempt, next_fails, later_faults,
}
use pluris.Lifecycle.Course.{Sound, Advances, Advances-refl, Evolves-trans}
use pluris.Lifecycle.Relations.{
  Order, Obeys, query-Obeys, pure-Obeys, fail-Obeys, if-Obeys, bind-Obeys, then-Obeys,
}

pub Advances-trans :
    {t t' t'' : Tables} → Advances t t' → (Sound t' → Advances t' t'') → Advances t t''
Advances-trans (sound, e) next = let (sound', e') = next sound in (sound', Evolves-trans e e')

-- From sound tables, the later ones are sound and have evolved.
abbrev pub Keeps : Tables → Tables → Type 0
Keeps t t' = Sound t → Advances t t'

pub Keeps-Order : Order Keeps
Keeps-Order = record {
  stays = Advances-refl;
  goes_on = λ t t' t'' kept kept' sound. Advances-trans (kept sound) kept';
}

module _ {A : Type 0} where
  abbrev pub IsSafeStatement : Statement A → Type 0
  IsSafeStatement q = (t : Tables) → Keeps t (q t).1

  abbrev pub IsSafe : Operation A → Type 0
  IsSafe = Obeys Keeps

  pub query-IsSafe : (q : Statement A) → IsSafeStatement q → IsSafe (query q)
  query-IsSafe = query-Obeys Keeps Keeps-Order

  pub pure-IsSafe : (a : A) → IsSafe (pure {S = Store} {E = Error} a)
  pure-IsSafe = pure-Obeys Keeps Keeps-Order

  pub if-IsSafe : (b : Bool) (m n : Operation A) → IsSafe m → IsSafe n → IsSafe (if b then m else n)
  if-IsSafe = if-Obeys Keeps Keeps-Order

pub fail-IsSafe : (A : Type 0) (e : Error) → IsSafe {A = A} (fail e)
fail-IsSafe = fail-Obeys Keeps Keeps-Order

module _ {A B : Type 0} where
  pub bind-IsSafe :
      (m : Operation A) (f : A → Operation B)
      → IsSafe m
      → ((a : A) → IsSafe (f a))
      → IsSafe (m >>= f)
  bind-IsSafe = bind-Obeys Keeps Keeps-Order

  pub then-IsSafe : (m : Operation A) (n : Operation B) → IsSafe m → IsSafe n → IsSafe (m >> n)
  then-IsSafe = then-Obeys Keeps Keeps-Order

-- A read, and what goes on with its result.
module _ {A B : Type 0} where
  continue_read :
      (r : Result Error A) (f : A → Operation B) (t : Tables) (faults : List Bool)
      → Sound t
      → ((a : A) → r ≡ ok a → Advances t (f a (record { tables = t; faults = faults })).1.tables)
      → Advances t (continue r f (record { tables = t; faults = faults })).1.tables
  continue_read (ok a) f t faults sound safe = safe a refl
  continue_read (err e) f t faults sound safe = Advances-refl t sound

  pub reading-Advances :
      (r : Tables → Result Error A) (f : A → Operation B) (s : Store)
      → Sound s.tables
      → ((a : A) (faults : List Bool)
          → r s.tables ≡ ok a
          → Advances s.tables (f a (record { tables = s.tables; faults = faults })).1.tables)
      → Advances s.tables ((query (λ t. (r t, t)) >>= f) s).1.tables
  reading-Advances r f s sound safe = elim (Bool-cases (next_fails s.faults)) [
    | inl broken ↦ rw broken (Advances-refl s.tables sound)
    | inr works ↦ rw works (
        continue_read (r s.tables) f s.tables (later_faults s.faults) sound
          (λ a e. safe a (later_faults s.faults) e))
  ]

  -- A statement that is right in the present tables, and what follows it.
  executed_then :
      (r : Result Error A × Tables) (n : Operation B) (t : Tables) (faults : List Bool)
      → Advances t r.1
      → ((faults : List Bool)
          → Advances r.1 (n (record { tables = r.1; faults = faults })).1.tables)
      → Advances t (continue r.0 (λ a. n) (record { tables = r.1; faults = faults })).1.tables
  executed_then (ok a, t') n t faults h next = Advances-trans h (λ sound. next faults)
  executed_then (err e, t') n t faults h next = h

  pub statement_then :
      (q : Statement A) (n : Operation B) (s : Store)
      → Sound s.tables
      → Advances s.tables (q s.tables).1
      → ((faults : List Bool)
          → Advances
              (q s.tables).1
              (n (record { tables = (q s.tables).1; faults = faults })).1.tables)
      → Advances s.tables ((query q >> n) s).1.tables
  statement_then q n s sound h next = elim (Bool-cases (next_fails s.faults)) [
    | inl broken ↦ rw broken (Advances-refl s.tables sound)
    | inr works ↦ rw works (executed_then (q s.tables) n s.tables (later_faults s.faults) h next)
  ]

  -- What follows a step may use that the step succeeded.
  continue-Advances :
      (r : Result Error A) (f : A → Operation B) (t : Tables) (s : Store)
      → Advances t s.tables
      → ((a : A) → r ≡ ok a → Advances s.tables (f a s).1.tables)
      → Advances t (continue r f s).1.tables
  continue-Advances (ok a) f t s h next = Advances-trans h (λ sound. next a refl)
  continue-Advances (err e) f t s h next = h

  pub bind-Advances :
      (m : Operation A) (f : A → Operation B) (s : Store)
      → Advances s.tables (m s).1.tables
      → ((a : A) → (m s).0 ≡ ok a → Advances (m s).1.tables (f a (m s).1).1.tables)
      → Advances s.tables ((m >>= f) s).1.tables
  bind-Advances m f s h next = continue-Advances (m s).0 f s.tables (m s).1 h next
