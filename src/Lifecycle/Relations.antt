-- ===== src/Lifecycle/Relations.antt =====
-- Relations between the tables before and after: what holds of every statement and query, and along
-- their sequence, holds of an operation.
pub mod Operations
use pluris.Prelude.{
  Bool, true, false, List, if◌then◌else◌, continue, Result, ok, err, pure, fail, ◌>>=◌, ◌>>◌,
}
use pluris.Lifecycle.{
  Tables, Store, Error, Statement, Operation, executed, query, attempt, next_fails, later_faults,
}

pub record Order (R : Tables → Tables → Type 0) : Type 0 where
  pub stays : (t : Tables) → R t t
  pub goes_on : (t t' t'' : Tables) → R t t' → R t' t'' → R t t''

module _ (R : Tables → Tables → Type 0) where
  module _ {A : Type 0} where
    abbrev pub Obeys : Operation A → Type 0
    Obeys m = (s : Store) → R s.tables (m s).1.tables

  module _ (order : Order R) where
    module _ {A : Type 0} where
      executed-R :
          (q : Statement A) (broken : Bool) (faults : List Bool) (t : Tables)
          → R t (q t).1
          → R t (executed broken faults q t).1.tables
      executed-R q true faults t kept = order.stays t
      executed-R q false faults t kept = kept

      pub query-Obeys : (q : Statement A) → ((t : Tables) → R t (q t).1) → Obeys (query q)
      query-Obeys q kept s =
          executed-R q (next_fails s.faults) (later_faults s.faults) s.tables (kept s.tables)

      pub pure-Obeys : (a : A) → Obeys (pure {S = Store} {E = Error} a)
      pure-Obeys a s = order.stays s.tables

      pub if-Obeys : (b : Bool) (m n : Operation A) → Obeys m → Obeys n → Obeys (if b then m else n)
      if-Obeys true m n kept kept' = kept
      if-Obeys false m n kept kept' = kept'

    pub fail-Obeys : (A : Type 0) (e : Error) → Obeys {A = A} (fail e)
    fail-Obeys A e s = order.stays s.tables

    module _ {A B : Type 0} where
      continue-R :
          (r : Result Error A) (f : A → Operation B) (t : Tables) (s : Store)
          → ((a : A) → Obeys (f a))
          → R t s.tables
          → R t (continue r f s).1.tables
      continue-R (ok a) f t s kept before =
          order.goes_on t s.tables (f a s).1.tables before (kept a s)
      continue-R (err e) f t s kept before = before

      pub bind-Obeys :
          (m : Operation A) (f : A → Operation B)
          → Obeys m
          → ((a : A) → Obeys (f a))
          → Obeys (m >>= f)
      bind-Obeys m f kept later s = continue-R (m s).0 f s.tables (m s).1 later (kept s)

      pub then-Obeys : (m : Operation A) (n : Operation B) → Obeys m → Obeys n → Obeys (m >> n)
      then-Obeys m n kept kept' = bind-Obeys m (λ a. n) kept (λ a. kept')
