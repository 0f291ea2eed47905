-- ===== src/Archives/Written.antt =====
-- What ExportModule writes, from the rows that it reads.
use mathlib.Core.List.{append_assoc, append-nil}
use mathlib.Core.Path.{subst}
use pluris.Prelude.{
  ℕ, String, Option, none, some, List, [], ◌∷◌, ◌++◌, nat_eq, nat_eq_iff, not, Result, pure, ◌>>=◌,
  ◌≡◌, ap, ap₂, sym, ◌∙◌, inl, inr, arith, Bool-cases,
}
use pluris.Lifecycle.{
  Version, Script, Module, Tables, Store, Platform, Error, query, attempt, next_fails, later_faults,
  has_id, write_failed, foreign_version,
}
use pluris.Lifecycle.Queries.{get_version, first, cache_version_manifest}
use pluris.Lifecycle.Queries.Contents.{list_scripts, scripts_of}
use pluris.Lifecycle.Queries.Applicability.{list_conditions, conditions_of}
use pluris.Lifecycle.Safety.Publishing.{found-eq-ok}
use pluris.Archives.{Bytes, VersionManifest}
use pluris.Archives.Paths.{entry_name}
use pluris.Archives.Stored.{Entry}
use pluris.Archives.Blocks.{Block, script_entries, entries_of, all_entries}
use pluris.Archives.Export.{
  Writer, manifest_of, module_manifest_of, write_file, marshalled, script_name, write_scripts,
  build_version_manifest, write_version, export_version, export_versions, export_entries,
}
use pluris.Lifecycle.Runs.{Runs, answers, fails, query-Runs, listing-Runs, bind-Runs}
use pluris.Archives.Cached.{SameRows, executed-SameRows}
use pluris.Archives.Described.{
  manifest_in, files_of, DescribesAll, Holds, version-manifest_in, DescribesAll-cons,
}

module _ (writer : Writer) (platform : Platform) where
  write_file-Runs :
      (name : String) (content : Bytes) (es es' : List Entry) (s s' : Store)
      → Runs (write_file writer name content es) s es' s'
      → (es' ≡ es ++ (name, content) ∷ []) × (s' ≡ s)
  write_file-Runs name content es es' s s' e = elim (Bool-cases (writer.accepts name content)) [
    | inl works ↦
        let (same, here) = answers (es ++ (name, content) ∷ []) es' s s' (rw works at e) in
        (sym same, sym here)
    | inr broken ↦ absurd (fails write_failed es' s s' (rw broken at e))
  ]

  marshalled-Runs :
      (o : Option Bytes) (content : Bytes) (s s' : Store)
      → Runs (marshalled writer o) s content s'
      → (o ≡ some content) × (s' ≡ s)
  marshalled-Runs none content s s' e = absurd (fails _ content s s' e)
  marshalled-Runs (some x) content s s' e =
      let (same, here) = answers x content s s' e in (ap some same, sym here)

  write_scripts-Runs :
      (version : String) (scs : List Script) (es es' : List Entry) (s s' : Store)
      → Runs (write_scripts writer version scs es) s es' s'
      → (es' ≡ es ++ script_entries version (files_of writer platform scs)) × (s' ≡ s)
  unfolding write_scripts
  write_scripts-Runs version [] es es' s s' e =
      let (same, here) = answers es es' s s' e in (sym same ∙ sym (append-nil es), sym here)
  write_scripts-Runs version (sc ∷ scs) es es' s s' e =
      let name = script_name writer version sc in
      let content = writer.to_bytes sc.source in
      let (es1, s1, here, later) =
        bind-Runs (write_file writer name content es) (write_scripts writer version scs) s s' es'
          e in
      let (wrote, same) = write_file-Runs name content es es1 s s1 here in
      let (rest, same') = write_scripts-Runs version scs es1 es' s1 s' later in
      (
        rest
            ∙ ap (λ (x : List Entry). x ++ script_entries version (files_of writer platform scs))
                wrote
            ∙ append_assoc es ((name, content) ∷ [])
                (script_entries version (files_of writer platform scs)),
        same' ∙ same,
      )

  build_version_manifest-Runs :
      (v : Version) (manifest : VersionManifest) (scs : List Script) (s s' : Store)
      → Runs (build_version_manifest writer platform v) s (manifest, scs) s'
      → (manifest ≡ manifest_in writer platform s.tables v)
        × (scs
            ≡ writer.by_name_and_seq (platform.by_seq_and_name (scripts_of v.id s.tables.scripts)))
        × (s'.tables ≡ s.tables)
  unfolding build_version_manifest
  build_version_manifest-Runs v manifest scs s s' e =
      let (conds, s1, read, e1) = bind-Runs (query (list_conditions platform v.id)) _ s s' _ e in
      let (scripts, s2, read', e2) = bind-Runs (query (list_scripts platform v.id)) _ s1 s' _ e1 in
      let (listed, same) =
        listing-Runs (λ t. platform.by_seq_and_id (conditions_of v.id t.conditions)) s s1 conds
          read in
      let (listed', same') =
        listing-Runs (λ t. platform.by_seq_and_name (scripts_of v.id t.scripts)) s1 s2 scripts
          read' in
      let (built, here) =
        answers (manifest_of writer v conds scripts, writer.by_name_and_seq scripts) (manifest, scs)
          s2 s' e2 in
      let scripts_read : scripts ≡ platform.by_seq_and_name (scripts_of v.id s.tables.scripts) =
        listed' ∙ ap (λ (t : Tables). platform.by_seq_and_name (scripts_of v.id t.scripts)) same in
      (
        sym (ap (λ (r : VersionManifest × List Script). r.0) built)
            ∙ ap₂ (manifest_of writer v) listed scripts_read,
        sym (ap (λ (r : VersionManifest × List Script). r.1) built)
            ∙ ap writer.by_name_and_seq scripts_read,
        ap (λ (x : Store). x.tables) (sym here) ∙ (same' ∙ same),
      )

  write_version-Runs :
      (v : Version) (es es' : List Entry) (manifest : VersionManifest) (scs : List Script)
      (s s' : Store)
      → Runs (write_version writer platform v es (manifest, scs)) s es' s'
      → (yaml : Bytes) × (writer.marshal_version manifest ≡ some yaml)
        × (es'
            ≡ es
              ++ (entry_name v.manifest.version "version.yaml", yaml)
                ∷ script_entries v.manifest.version (files_of writer platform scs))
        × SameRows s.tables s'.tables
  write_version-Runs v es es' manifest scs s s' e =
      let (yaml, s1, marshals, e1) =
        bind-Runs (marshalled writer (writer.marshal_version manifest)) _ s s' es' e in
      let name = entry_name v.manifest.version "version.yaml" in
      let (some_yaml, same1) =
        marshalled-Runs (writer.marshal_version manifest) yaml s s1 marshals in
      let (written, s3, writes, e3) =
        bind-Runs (write_file writer name yaml es >>= write_scripts writer v.manifest.version scs) _
          s1 s' es' e1 in
      let (es1, s2, first_file, e2) =
        bind-Runs (write_file writer name yaml es) (write_scripts writer v.manifest.version scs) s1
          s3 written writes in
      let (head, same2) = write_file-Runs name yaml es es1 s1 s2 first_file in
      let (tail, same3) = write_scripts-Runs v.manifest.version scs es1 written s2 s3 e2 in
      let cache = query (cache_version_manifest v.id (writer.to_text yaml)) in
      let (r, s4, caches, e4) = bind-Runs (attempt cache) (λ r. pure written) s3 s' es' e3 in
      let (same_entries, same4) = answers written es' s4 s' e4 in
      let after : s' ≡ (cache s).1 =
        sym same4
        ∙ sym (ap (λ (x : Result Error (Result Error (Unit {0})) × Store). x.1) caches)
        ∙ ap (λ (x : Store). (cache x).1) (same3 ∙ (same2 ∙ same1)) in
      let files = script_entries v.manifest.version (files_of writer platform scs) in
      (
        yaml,
        some_yaml,
        sym same_entries
            ∙ (tail
                ∙ (ap (λ (x : List Entry). x ++ files) head
                    ∙ append_assoc es ((name, yaml) ∷ []) files)),
        rw after (
            executed-SameRows v.id (writer.to_text yaml) (next_fails s.faults)
              (later_faults s.faults) s.tables),
      )

  export_version-Runs :
      (m : ℕ) (es es' : List Entry) (v : Version) (s s' : Store)
      → Runs (export_version writer platform m es v) s es' s'
      → (b : Block) × (es' ≡ es ++ entries_of b)
        × Holds writer platform m s.tables v b
        × SameRows s.tables s'.tables
  export_version-Runs m es es' v s s' e = elim (Bool-cases (not (nat_eq v.module_id m))) [
    | inl foreign ↦ absurd (fails foreign_version es' s s' (rw foreign at e))
    | inr own ↦
        let (built, s1, builds, writes) =
          bind-Runs (build_version_manifest writer platform v) (write_version writer platform v es)
            s s' es' (rw own at e) in
        let (manifest, scripts, same) = build_version_manifest-Runs v built.0 built.1 s s1 builds in
        let (yaml, marshals, wrote, kept) =
          write_version-Runs v es es' built.0 built.1 s1 s' writes in
        let version : built.0.version ≡ v.manifest.version =
          ap (λ (x : VersionManifest). x.version) manifest
          ∙ version-manifest_in writer platform s.tables v in
        (
          record { manifest = built.0; yaml = yaml; files = files_of writer platform built.1 },
          rw version wrote,
          (
            ground (arith, nat_eq_iff v.module_id m),
            manifest,
            marshals,
            ap (files_of writer platform) scripts,
          ),
          rw (← same) kept,
        )
  ]

  export_versions-Runs :
      (m : ℕ) (is : List ℕ) (es es' : List Entry) (s s' : Store)
      → Runs (export_versions writer platform m is es) s es' s'
      → (bs : List Block) × (es' ≡ es ++ all_entries bs)
        × DescribesAll writer platform m s.tables is bs
  unfolding export_versions
  export_versions-Runs m [] es es' s s' e =
      let (same, here) = answers es es' s s' e in ([], sym same ∙ sym (append-nil es), tt)
  export_versions-Runs m (i ∷ is) es es' s s' e =
      let (es1, s2, here, later) =
        bind-Runs (query (get_version i) >>= export_version writer platform m es)
          (export_versions writer platform m is) s s' es' e in
      let (v, s1, read, one) =
        bind-Runs (query (get_version i)) (export_version writer platform m es) s s2 es1 here in
      let found_row = query-Runs (get_version i) s s1 v read in
      let at =
        found-eq-ok (first (has_id i) s.tables.versions) v
          (ap (λ (r : Result Error Version × Tables). r.0) found_row) in
      let same : s.tables ≡ s1.tables = ap (λ (r : Result Error Version × Tables). r.1) found_row in
      let (b, wrote, held, kept) = export_version-Runs m es es1 v s1 s2 one in
      let (bs, rest, all) = export_versions-Runs m is es1 es' s2 s' later in
      (
        b ∷ bs,
        rest
            ∙ (ap (λ (x : List Entry). x ++ all_entries bs) wrote
                ∙ append_assoc es (entries_of b) (all_entries bs)),
        DescribesAll-cons writer platform m i is b bs v s.tables s1.tables s2.tables same at held
            kept all,
      )

  -- An export that succeeds has written the module and its versions, as the tables have them.
  pub export_entries-Runs :
      (row : Module) (ids : List ℕ) (es : List Entry) (s s' : Store)
      → Runs (export_entries writer platform row ids) s es s'
      → (content : Bytes) × (bs : List Block) × (writer.marshal_module (module_manifest_of row)
          ≡ some content)
        × (es ≡ ("module.yaml", content) ∷ all_entries bs)
        × DescribesAll writer platform row.id s.tables ids bs
  unfolding export_entries
  export_entries-Runs row ids es s s' e =
      let (content, s1, marshals, e1) =
        bind-Runs (marshalled writer (writer.marshal_module (module_manifest_of row))) _ s s' es
          e in
      let (some_content, same1) = marshalled-Runs _ content s s1 marshals in
      let (es1, s2, wrote, later) =
        bind-Runs (write_file writer "module.yaml" content [])
          (export_versions writer platform row.id ids) s1 s' es e1 in
      let (head, same2) = write_file-Runs "module.yaml" content [] es1 s1 s2 wrote in
      let (bs, rest, all) = export_versions-Runs row.id ids es1 es s2 s' later in
      (
        content,
        bs,
        some_content,
        rest ∙ ap (λ (x : List Entry). x ++ all_entries bs) head,
        subst (λ (x : Store). DescribesAll writer platform row.id x.tables ids bs) (same2 ∙ same1)
            all,
      )
