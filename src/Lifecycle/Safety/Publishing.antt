-- ===== src/Lifecycle/Safety/Publishing.antt =====
-- Publish: the reads, and the transaction that publishes one version and supersedes the others.
use pluris.Prelude.{
  ℕ, ◌≤◌, String, Bool, true, ◌||◌, not, Option, none, some, List, [], ◌∷◌, if◌then◌else◌, nat_eq,
  nat_eq_iff, In, any-In, In-any, ◌≡◌, ◌==◌, string_eq, refl, ap, ◌∙◌, inl, inr, and_parts, arith,
  Bool-cases, Result, ok, err, pure, ◌>>◌,
}
use pluris.Lifecycle.{
  State, draft, published, superseded, revoked, Error, Operation, version_not_draft, committed,
  kept_or_lost, Version, Script, Tables, Store, Platform, query, transaction, next_fails,
  later_faults, is_draft, is_published, is_draft_of, has_id,
}
use pluris.Lifecycle.Queries.{
  update_where, count, first, found, is_known, is_editable, publish_rows, publish_version,
  as_published, supersede_current, is_replaced, as_superseded,
}
use pluris.Lifecycle.Queries.Contents.{scripts_of}
use pluris.Lifecycle.Versions.{has_apply, publication, publish, publish_tx}
use pluris.Lifecycle.Rows.{count-update_where_le, first-In}
use pluris.Lifecycle.Course.{
  publishes, is_succeeded, Course, stays, moves, Sound, Advances, Advances-refl, is_current,
}
use pluris.Lifecycle.Changes.{same_row}
use pluris.Lifecycle.Changes.Updates.{Keeps, update-Advances}
use pluris.Lifecycle.Success.{
  constrained-eq-ok, bind-eq-ok, query-eq-ok, checked-eq-ok, answered-eq-ok,
}
use pluris.Lifecycle.Safety.{IsSafe, reading-Advances}

pub draft-Course : (s : State) → is_draft s ≡ true → Course s published
draft-Course draft e = moves publishes stays
draft-Course published e = cc
draft-Course superseded e = cc
draft-Course revoked e = cc

published-Course : (s : State) → is_published s ≡ true → Course s superseded
published-Course draft e = cc
published-Course published e = moves is_succeeded stays
published-Course superseded e = cc
published-Course revoked e = cc

-- Publication and supersession are one update of the rows.
module _ (m i : ℕ) (now by : ℕ) (name : String) where
  abbrev pub touched : Version → Bool
  touched v = if is_draft_of i v then true else is_replaced m i v

  abbrev pub transformed : Version → Version
  transformed v = if is_draft_of i v then as_published now (some by) v else as_superseded name v

  pub both_updates :
      (vs : List Version)
      → update_where
          (is_replaced m i)
          (as_superseded name)
          (update_where (is_draft_of i) (as_published now (some by)) vs)
        ≡ update_where touched transformed vs
  both_updates [] = refl
  both_updates (v ∷ vs) = ground (arith, both_updates vs)

  module _ (t : Tables) (sound : Sound t) where
    transformed-Keeps : Keeps t sound touched transformed
    transformed-Keeps v e = elim (Bool-cases (is_draft_of i v)) [
      | inl chosen ↦ rw chosen (
          let (same, editable) = and_parts (nat_eq v.id i) (is_draft v.state) chosen in
          (refl, refl, draft-Course v.state editable, λ frozen. cc))
      | inr other ↦ rw other (
          let replaced : is_replaced m i v ≡ true = rw other at e in
          let (same, rest) = and_parts (nat_eq v.module_id m) _ replaced in
          let (current, differs) = and_parts (is_published v.state) _ rest in
          (refl, refl, published-Course v.state current, λ frozen. refl))
    ]

    module _ (owner : (v : Version) → In v t.versions → has_id i v ≡ true → v.module_id ≡ m)
        (applies : has_apply (scripts_of i t.scripts) ≡ true) where
      transformed-count :
          (n : ℕ) → count (is_current n) (update_where touched transformed t.versions) ≤ 1
      transformed-count n = elim (Bool-cases (nat_eq m n)) [
        | inl same ↦ omega (
          arith,
          sound.ids_distinct i,
          count-update_where_le touched (is_current n) (has_id i) transformed t.versions
              (λ v listed e. ground (arith, nat_eq_iff m n)),
        )
        | inr other ↦ omega (
          arith,
          sound.one_published n,
          count-update_where_le touched (is_current n) (is_current n) transformed t.versions
              (λ v listed e. ground (arith, owner v listed)),
        )
      ]

      pub publication-Advances :
          Advances t (record t { versions = update_where touched transformed t.versions })
      publication-Advances =
          update-Advances t sound touched transformed transformed-Keeps transformed-count
            (λ v listed e editable closed. ground (arith, nat_eq_iff v.id i, applies))

-- A transaction leaves the tables of its statements, where all of them succeed, or those before it.
module _ {A : Type 0} (P : Tables → Type 0) where
  committed_or_kept :
      (r : Result Error A) (before : Tables) (s : Store)
      → P before
      → ((a : A) → r ≡ ok a → P s.tables)
      → P (kept_or_lost before (committed r s)).1.tables
  committed_or_kept (err e) before s old new = old
  committed_or_kept (ok a) before s old new = elim (Bool-cases (next_fails s.faults)) [
    | inl broken ↦ rw broken old
    | inr works ↦ rw works (new a refl)
  ]

  pub transaction_cases :
      (m : Operation A) (s : Store)
      → P s.tables
      → ((a : A)
          → (m (record s { faults = later_faults s.faults })).0 ≡ ok a
          → P (m (record s { faults = later_faults s.faults })).1.tables)
      → P (transaction m s).1.tables
  transaction_cases m s old new = elim (Bool-cases (next_fails s.faults)) [
    | inl broken ↦ rw broken old
    | inr works ↦ rw works (committed_or_kept _ s.tables _ old new)
  ]

module _ (cur : Version) (i by : ℕ) where
  abbrev pub published_rows : Tables → List Version
  published_rows t =
      update_where (touched cur.module_id i t.now by cur.manifest.version)
        (transformed cur.module_id i t.now by cur.manifest.version) t.versions

  pub publication_tables :
      (s : Store)
      → (publication cur i by s).0 ≡ ok tt
      → (publication cur i by s).1.tables ≡ record s.tables { versions = published_rows s.tables }
  unfolding publish_version supersede_current
  publication_tables s done =
      let (n, first_ok, step) = bind-eq-ok (query (publish_version i (some by))) _ s tt done in
      let (read, after) = query-eq-ok (publish_version i (some by)) s n first_ok in
      let published_now =
        constrained-eq-ok (is_known (some by) s.tables || not (is_editable i s.tables))
          (publish_rows i (some by)) s.tables n read in
      let (some_row, step') =
        checked-eq-ok (nat_eq n 0) version_not_draft
          (query (supersede_current cur.module_id i cur.manifest.version) >> pure tt)
          (query (publish_version i (some by)) s).1 tt (rw step at done) in
      let path =
        step
        ∙ step'
        ∙ ap (query (supersede_current cur.module_id i cur.manifest.version) >> pure tt) after in
      ap (λ (r : Result Error (Unit {0}) × Store). r.1.tables) path
      ∙ answered-eq-ok (supersede_current cur.module_id i cur.manifest.version) tt tt
          (record {
            tables = (publish_version i (some by) s.tables).1;
            faults = later_faults s.faults;
          })
          (rw path at done)
      ∙ ap
          (λ (r : Result Error ℕ × Tables).
            (supersede_current cur.module_id i cur.manifest.version r.1).1)
          published_now
      ∙ ap (λ rows. record s.tables { versions = rows })
          (both_updates cur.module_id i s.tables.now by cur.manifest.version s.tables.versions)

  pub publish_tx-Advances :
      (s : Store)
      → Sound s.tables
      → ((v : Version) → In v s.tables.versions → has_id i v ≡ true → v.module_id ≡ cur.module_id)
      → has_apply (scripts_of i s.tables.scripts) ≡ true
      → Advances s.tables (publish_tx cur i by s).1.tables
  unfolding publish_tx publish_version supersede_current
  publish_tx-Advances s sound owner applies =
      transaction_cases (Advances s.tables) (publication cur i by) s (Advances-refl s.tables sound)
        (λ u done. rw (publication_tables (record s { faults = later_faults s.faults }) done) (
          publication-Advances cur.module_id i s.tables.now by cur.manifest.version s.tables sound
            owner applies))

-- The rows with an id that was read belong to the module that was read.
read_owner :
    (t : Tables) (i : ℕ) (cur : Version)
    → Sound t
    → first (has_id i) t.versions ≡ some cur
    → (v : Version) → In v t.versions
    → has_id i v ≡ true
    → v.module_id ≡ cur.module_id
read_owner t i cur sound e v listed same =
    let (listed', same') = first-In (has_id i) t.versions cur e in
    ap (λ (w : Version). w.module_id)
      (same_row t sound v cur listed listed'
        (ground (arith, nat_eq_iff v.id i, nat_eq_iff cur.id i)))

pub found-eq-ok : {A : Type 0} (o : Option A) (a : A) → found o ≡ ok a → o ≡ some a
found-eq-ok none a e = cc
found-eq-ok (some b) a e = cc

-- ORDER BY neither drops nor adds a row.
abbrev pub IsOrder : {A : Type 0} → (List A → List A) → Type 0
IsOrder {A} f = (x : A) (xs : List A) → In x (f xs) → In x xs

pub has_apply_ordered :
    (f : List Script → List Script) (scripts : List Script)
    → IsOrder f
    → has_apply (f scripts) ≡ true
    → has_apply scripts ≡ true
has_apply_ordered f scripts order e =
    let (sc, listed, named) = any-In (λ (sc : Script). sc.name == "apply") (f scripts) e in
    In-any (λ (sc : Script). sc.name == "apply") sc scripts (order sc scripts listed) named

module _ (platform : Platform) (order : IsOrder platform.by_seq_and_name) where
  pub publish-IsSafe : (i by : ℕ) → IsSafe (publish platform i by)
  unfolding publish publish_version supersede_current
  publish-IsSafe i by s sound =
      reading-Advances (λ t. found (first (has_id i) t.versions)) _ s sound
        (λ cur faults read.
          let from = read_owner s.tables i cur sound (found-eq-ok _ cur read) in
          elim (Bool-cases (is_draft cur.state)) [
            | inr frozen ↦ rw frozen (Advances-refl s.tables sound)
            | inl editable ↦ rw editable (
                reading-Advances (λ t. ok (platform.by_seq_and_name (scripts_of i t.scripts))) _
                  (record s { faults = faults }) sound
                  (λ scripts faults' read'. elim (Bool-cases (has_apply scripts)) [
                    | inr missing ↦ rw missing (Advances-refl s.tables sound)
                    | inl present ↦ rw present (
                        publish_tx-Advances cur i by (record s { faults = faults' }) sound from
                          (has_apply_ordered platform.by_seq_and_name
                            (scripts_of i s.tables.scripts) order cc))
                  ]))
          ])
