-- ===== src/Lifecycle/Publication.antt =====
-- What Publish leaves behind, whichever of its queries fail, and two calls that race.
use pluris.Prelude.{
  ℕ, String, Bool, true, false, some, List, [], ◌∷◌, nat_eq, any, if◌then◌else◌, any-In, In-any, In,
  ◌≤◌, ◌↔◌, string_eq, ◌≡◌, ◌==◌, refl, inl, inr, arith, Bool-cases, Result, ok, err, continue,
  ◌>>=◌,
}
use pluris.Lifecycle.{
  Version, Script, Tables, Store, Error, constraint_violation, version_not_draft, Platform,
  Operation, query, transaction, committed, kept_or_lost, next_fails, later_faults, is_draft,
  is_draft_of, has_id,
}
use pluris.Lifecycle.Queries.{
  is_editable, first, found, count, update_where, publish_version, supersede_current,
}
use pluris.Lifecycle.Queries.Contents.{scripts_of}
use pluris.Lifecycle.Versions.{has_apply, publication, publish_tx, publish}
use pluris.Lifecycle.Frozen.{store}
use pluris.Lifecycle.Rows.{first-In, In-count}
use pluris.Lifecycle.Safety.Publishing.{
  touched, transformed, both_updates, publication_tables, published_rows, found-eq-ok,
  has_apply_ordered, IsOrder,
}

-- A success leaves tables of the kind `Q`, a failure the tables as they were.
abbrev pub Ends : {A : Type 0} → (Tables → Type 0) → Tables → Result Error A × Store → Type 0
Ends Q t (ok a, s) = Q s.tables
Ends Q t (err e, s) = s.tables ≡ t

module _ {A : Type 0} (Q : Tables → Type 0) where
  kept-Ends :
      (r : Result Error A) (t : Tables) (s : Store)
      → ((a : A) → r ≡ ok a → Q s.tables)
      → Ends Q t (kept_or_lost t (committed r s))
  kept-Ends (err e) t s new = refl
  kept-Ends (ok a) t s new = elim (Bool-cases (next_fails s.faults)) [
    | inl broken ↦ rw broken refl
    | inr works ↦ rw works (new a refl)
  ]

  transaction-Ends :
      (m : Operation A) (s : Store)
      → ((a : A)
          → (m (record s { faults = later_faults s.faults })).0 ≡ ok a
          → Q (m (record s { faults = later_faults s.faults })).1.tables)
      → Ends Q s.tables (transaction m s)
  transaction-Ends m s new =
      let s' : Store = record s { faults = later_faults s.faults } in
      elim (Bool-cases (next_fails s.faults)) [
        | inl broken ↦ rw broken refl
        | inr works ↦ rw works (kept-Ends (m s').0 s.tables (m s').1 new)
      ]

  module _ {B : Type 0} where
    continue-Ends :
        (r : Result Error B) (f : B → Operation A) (t : Tables) (faults : List Bool)
        → ((b : B) → r ≡ ok b → Ends Q t (f b (record { tables = t; faults = faults })))
        → Ends Q t (continue r f (record { tables = t; faults = faults }))
    continue-Ends (ok b) f t faults next = next b refl
    continue-Ends (err e) f t faults next = refl

    -- a read, and what goes on with its result
    reading-Ends :
        (r : Tables → Result Error B) (f : B → Operation A) (s : Store)
        → ((b : B) (faults : List Bool)
            → r s.tables ≡ ok b
            → Ends Q s.tables (f b (record { tables = s.tables; faults = faults })))
        → Ends Q s.tables ((query (λ t. (r t, t)) >>= f) s)
    reading-Ends r f s next = elim (Bool-cases (next_fails s.faults)) [
      | inl broken ↦ rw broken refl
      | inr works ↦ rw works (
          continue-Ends (r s.tables) f s.tables (later_faults s.faults)
            (λ b. next b (later_faults s.faults)))
    ]

-- The version `i` was a draft with a script named "apply"; it is published, and the version of its
-- module that was published before is superseded by it. Nothing else differs.
abbrev pub Publishes : ℕ → ℕ → Tables → Tables → Type 0
Publishes i by t t' =
    (cur : Version) × (first (has_id i) t.versions ≡ some cur)
    × (is_draft cur.state ≡ true)
    × (has_apply (scripts_of i t.scripts) ≡ true)
    × (t' ≡ record t { versions = published_rows cur i by t })

module _ (platform : Platform) (order : IsOrder platform.by_seq_and_name) where
  publish_tx-Ends :
      (cur : Version) (i by : ℕ) (s : Store)
      → first (has_id i) s.tables.versions ≡ some cur
      → is_draft cur.state ≡ true
      → has_apply (scripts_of i s.tables.scripts) ≡ true
      → Ends (Publishes i by s.tables) s.tables (publish_tx cur i by s)
  unfolding publish_tx publish_version supersede_current
  publish_tx-Ends cur i by s read editable applies =
      transaction-Ends (Publishes i by s.tables) (publication cur i by) s (λ u done. (
        cur,
        read,
        editable,
        applies,
        publication_tables cur i by (record s { faults = later_faults s.faults }) done,
      ))

  -- Publish is atomic, whichever of its queries fail, the commit included: if it reports an error,
  -- the tables are as they were; if it reports none, the version was a draft with a script named
  -- "apply", it is now published at the present time by the caller, every other version of the module
  -- that was published is superseded by its version string, and nothing else differs. ORDER BY is
  -- assumed to add no row.
  pub publish-Ends :
      (i by : ℕ) (s : Store) → Ends (Publishes i by s.tables) s.tables (publish platform i by s)
  unfolding publish
  publish-Ends i by s =
      let Q = Publishes i by s.tables in
      reading-Ends Q (λ t. found (first (has_id i) t.versions)) _ s
        (λ cur faults read. elim (Bool-cases (is_draft cur.state)) [
          | inr frozen ↦ rw frozen refl
          | inl editable ↦ rw editable (
              reading-Ends Q (λ t. ok (platform.by_seq_and_name (scripts_of i t.scripts))) _
                (record s { faults = faults })
                (λ scripts faults' read'. elim (Bool-cases (has_apply scripts)) [
                  | inr missing ↦ rw missing refl
                  | inl present ↦ rw present (
                      publish_tx-Ends cur i by (record s { faults = faults' })
                        (found-eq-ok _ cur read) editable
                        (has_apply_ordered platform.by_seq_and_name (scripts_of i s.tables.scripts)
                          order cc))
                ]))
        ])

nonzero : (n : ℕ) → 1 ≤ n → nat_eq n 0 ≡ false
nonzero n h = ground arith

some_draft :
    (i : ℕ) (cur : Version) (vs : List Version)
    → first (has_id i) vs ≡ some cur
    → is_draft cur.state ≡ true
    → nat_eq (count (is_draft_of i) vs) 0 ≡ false
some_draft i cur vs read editable =
    let (listed, same) = first-In (has_id i) vs cur read in
    nonzero _ (In-count (is_draft_of i) cur vs listed (ground arith))

-- ORDER BY neither adds nor drops a row.
abbrev pub KeepsRows : {A : Type 0} → (List A → List A) → Type 0
KeepsRows {A} f = (x : A) (xs : List A) → In x (f xs) ↔ In x xs

module _ (platform : Platform) (order : KeepsRows platform.by_seq_and_name) where
  ordered_apply :
      (scripts : List Script)
      → has_apply scripts ≡ true
      → has_apply (platform.by_seq_and_name scripts) ≡ true
  ordered_apply scripts e =
      let (sc, listed, named) = any-In (λ (sc : Script). sc.name == "apply") scripts e in
      In-any (λ (sc : Script). sc.name == "apply") sc _ ((order sc scripts).1 listed) named

  -- If the driver does not fail, a draft with a script named "apply" is published where the caller is
  -- an identity: Publish reports no error, and leaves the version published by the caller and the
  -- other published versions of its module superseded. Where there is no such identity, it reports the
  -- foreign key and changes nothing. ORDER BY is assumed to add and drop no row.
  pub publish_lem :
      (i by : ℕ) (t : Tables) (cur : Version)
      → first (has_id i) t.versions ≡ some cur
      → is_draft cur.state ≡ true
      → has_apply (scripts_of i t.scripts) ≡ true
      → publish platform i by (store t) ≡ (
          if any (λ j. nat_eq j by) t.identities
          then (ok tt, store (record t { versions = published_rows cur i by t }))
          else (err constraint_violation, store t))
  unfolding publish publish_tx publish_version supersede_current
  publish_lem i by t cur read editable applies =
      let (listed, same) = first-In (has_id i) t.versions cur read in
      let guard : is_editable i t ≡ true =
        In-any (is_draft_of i) cur t.versions listed (rw (same, editable) refl) in
      let ordered = ordered_apply (scripts_of i t.scripts) applies in
      elim (Bool-cases (any (λ j. nat_eq j by) t.identities)) [
        | inr unknown ↦ rw (read, editable, ordered, unknown, guard) refl
        | inl known ↦
            rw
              (
                read,
                editable,
                ordered,
                known,
                some_draft i cur t.versions read editable,
                both_updates cur.module_id i t.now by cur.manifest.version t.versions,
              )
              refl
      ]

no_draft_left :
    (m i now by : ℕ) (name : String) (vs : List Version)
    → count
        (is_draft_of i)
        (update_where (touched m i now by name) (transformed m i now by name) vs)
      ≡ 0
no_draft_left m i now by name [] = refl
no_draft_left m i now by name (v ∷ vs) = ground (arith, no_draft_left m i now by name vs)

lost_race :
    (cur : Version) (i by : ℕ) (t : Tables)
    → count (is_draft_of i) t.versions ≡ 0
    → publish_tx cur i by (store t) ≡ (err version_not_draft, store t)
unfolding publish_tx publish_version supersede_current
lost_race cur i by t none_left =
    let closed : is_editable i t ≡ false = elim (Bool-cases (is_editable i t)) [
      | inr closed ↦ closed
      | inl guard ↦
          let (v, listed, e) = any-In (is_draft_of i) t.versions guard in
          let some_row = In-count (is_draft_of i) v t.versions listed e in
          absurd (omega (arith, some_row, none_left))
    ] in
    elim (Bool-cases (any (λ j. nat_eq j by) t.identities)) [
      | inl known ↦ rw (known, none_left) refl
      | inr unknown ↦ rw (unknown, closed, none_left) refl
    ]

Ends-eq-ok :
    {A : Type 0} (Q : Tables → Type 0) (t : Tables) (o : Result Error A × Store) (a : A)
    → Ends Q t o
    → o.0 ≡ ok a
    → Q o.1.tables
Ends-eq-ok Q t (ok a, s) b ends e = ends
Ends-eq-ok Q t (err e, s) b ends e' = cc

won_tables :
    (cur : Version) (i by : ℕ) (s : Store)
    → (publish_tx cur i by s).0 ≡ ok tt
    → (publish_tx cur i by s).1.tables
      ≡ record s.tables { versions = published_rows cur i by s.tables }
unfolding publish_tx publish_version supersede_current
won_tables cur i by s won =
    let Q : Tables → Type 0 =
      λ t'. t' ≡ record s.tables { versions = published_rows cur i by s.tables } in
    Ends-eq-ok Q s.tables (publish_tx cur i by s) tt
      (transaction-Ends Q (publication cur i by) s
        (λ u done. publication_tables cur i by (record s { faults = later_faults s.faults }) done))
      won

-- Two calls of Publish for one version that have both read it as a draft: if the transaction of the
-- first succeeds, whichever of its queries could have failed, the transaction of the second reports
-- "not a draft" and writes nothing. No query of the second fails.
pub publish_tx-race :
    (cur cur' : Version) (i by by' : ℕ) (s : Store)
    → (publish_tx cur i by s).0 ≡ ok tt
    → let t = (publish_tx cur i by s).1.tables in
      publish_tx cur' i by' (store t) ≡ (err version_not_draft, store t)
unfolding publish_tx publish_version supersede_current
publish_tx-race cur cur' i by by' s won = lost_race cur' i by' (publish_tx cur i by s).1.tables (
    rw (won_tables cur i by s won)
      (no_draft_left cur.module_id i s.tables.now by cur.manifest.version s.tables.versions))
