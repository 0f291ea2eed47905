-- ===== src/Archives/Relations.antt =====
-- ImportModule and ExportModule, for a relation between tables that their statements keep to.
use pluris.Prelude.{
  not, nat_eq, ◌++◌, ℕ, zero, suc, String, Bool, Option, none, some, List, [], ◌∷◌, length, lookup,
  ◌==◌, string_eq, Result, ok, err, pure, fail, ◌>>=◌, ◌>>◌,
}
use pluris.Lifecycle.{
  Script, write_failed, marshal_failed, foreign_version, Tables, Version, Module, Error,
  urn_conflict, does_not_end, Platform, Operation, query, attempt,
}
use pluris.Lifecycle.Queries.Modules.{get_module_row, get_any_module_by_urn, set_module_origin}
use pluris.Lifecycle.Versions.{create_draft}
use pluris.Lifecycle.Scripts.{set_script}
use pluris.Lifecycle.Applicability.{add_version_condition, set_conditions_match_mode}
use pluris.Lifecycle.Modules.{create_module}
use pluris.Lifecycle.Relations.{
  Order, Obeys, query-Obeys, pure-Obeys, fail-Obeys, if-Obeys, bind-Obeys, then-Obeys,
}
use pluris.Lifecycle.Relations.Operations.{
  Kept, create_module-Obeys, create_draft-Obeys, set_script-Obeys, add_version_condition-Obeys,
  set_conditions_match_mode-Obeys,
}
use pluris.Archives.Paths.{entry_name}
use pluris.Archives.Stored.{Entry}
use pluris.Archives.Export.{
  Writer, manifest_of, write_file, marshalled, script_name, write_scripts, write_version,
  build_version_manifest, export_version, export_versions, export_entries, export_module_bytes,
  module_manifest_of,
}
use pluris.Lifecycle.Queries.{get_version, cache_version_manifest}
use pluris.Lifecycle.Queries.Contents.{list_scripts}
use pluris.Lifecycle.Queries.Applicability.{list_conditions}
use pluris.Archives.{Bytes, VersionManifest, Test, ScriptEntry, ParsedVersion, Parsed}
use pluris.Archives.Import.{
  Reader, payload, script_key, import_script, import_scripts, import_mode,
  version_fields_from_manifest, import_tests, import_contents, import_versions, candidate,
  next_candidate, free_urn, named, copy_urn, chosen_urn, import_as, import_module,
}

module _ (R : Tables → Tables → Type 0) (kept : Kept R) where
  import_script-Obeys :
      (i : ℕ) (e : ScriptEntry) (o : Option String) → Obeys R (import_script i e o)
  import_script-Obeys i e none = pure-Obeys R kept.order tt
  import_script-Obeys i e (some source) =
      then-Obeys R kept.order (set_script i e.phase e.filename source) (pure tt)
        (set_script-Obeys R kept i e.phase e.filename source) (pure-Obeys R kept.order tt)

  import_scripts-Obeys :
      (i : ℕ) (v : ParsedVersion) (es : List ScriptEntry) → Obeys R (import_scripts i v es)
  unfolding import_scripts
  import_scripts-Obeys i v [] = pure-Obeys R kept.order tt
  import_scripts-Obeys i v (e ∷ es) =
      then-Obeys R kept.order (import_script i e (lookup (script_key e) v.scripts))
        (import_scripts i v es) (import_script-Obeys i e (lookup (script_key e) v.scripts))
        (import_scripts-Obeys i v es)

  module _ (platform : Platform) (reader : Reader) where
    import_tests-Obeys : (i : ℕ) (ts : List Test) → Obeys R (import_tests platform reader i ts)
    unfolding import_tests
    import_tests-Obeys i [] = pure-Obeys R kept.order tt
    import_tests-Obeys i (t ∷ ts) =
        then-Obeys R kept.order (add_version_condition platform i (payload t) t.values)
          (import_tests platform reader i ts)
          (add_version_condition-Obeys R kept platform i (payload t) t.values)
          (import_tests-Obeys i ts)

    import_contents-Obeys :
        (v : ParsedVersion) (d : Version) → Obeys R (import_contents platform reader v d)
    unfolding import_contents
    import_contents-Obeys v d =
        let mode = v.manifest.conditions_match_mode in
        then-Obeys R kept.order (import_scripts d.id v v.manifest.scripts)
          (import_tests platform reader d.id v.manifest.tests >> import_mode d.id mode)
          (import_scripts-Obeys d.id v v.manifest.scripts)
          (then-Obeys R kept.order (import_tests platform reader d.id v.manifest.tests)
            (import_mode d.id mode) (import_tests-Obeys d.id v.manifest.tests)
            (if-Obeys R kept.order (mode == "any") (set_conditions_match_mode d.id "any") (pure tt)
              (set_conditions_match_mode-Obeys R kept d.id "any") (pure-Obeys R kept.order tt)))

    import_versions-Obeys :
        (m : ℕ) (vs : List ParsedVersion) → Obeys R (import_versions platform reader m vs)
    unfolding import_versions
    import_versions-Obeys m [] = pure-Obeys R kept.order tt
    import_versions-Obeys m (v ∷ vs) =
        let fields = version_fields_from_manifest platform reader v.manifest in
        then-Obeys R kept.order
          (create_draft platform m fields >>= import_contents platform reader v)
          (import_versions platform reader m vs)
          (bind-Obeys R kept.order (create_draft platform m fields)
            (import_contents platform reader v) (create_draft-Obeys R kept platform m fields)
            (import_contents-Obeys v))
          (import_versions-Obeys m vs)

    next_candidate-Obeys :
        (name : String) (later : Operation (Option String)) (r : Result Error Module)
        → Obeys R later
        → Obeys R (next_candidate platform reader name later r)
    next_candidate-Obeys name later (ok taken) safe = safe
    next_candidate-Obeys name later (err e) safe = pure-Obeys R kept.order (some name)

    free_urn-Obeys :
        (fuel : ℕ) (urn : String) (n : ℕ) → Obeys R (free_urn platform reader fuel urn n)
    unfolding free_urn
    free_urn-Obeys zero urn n = pure-Obeys R kept.order {A = Option String} none
    free_urn-Obeys (suc fuel) urn n =
        let name = candidate platform reader urn n in
        let later = free_urn platform reader fuel urn (suc n) in
        bind-Obeys R kept.order (attempt (query (get_any_module_by_urn name)))
          (next_candidate platform reader name later)
          (query-Obeys R kept.order (get_any_module_by_urn name) kept.order.stays)
          (λ r. next_candidate-Obeys name later r (free_urn-Obeys fuel urn (suc n)))

    named-Obeys : (o : Option String) → Obeys R (named platform reader o)
    named-Obeys none = fail-Obeys R kept.order String does_not_end
    named-Obeys (some urn) = pure-Obeys R kept.order urn

    copy_urn-Obeys : (urn : String) → Obeys R (copy_urn platform reader urn)
    unfolding copy_urn
    copy_urn-Obeys urn s =
        let fuel = suc (length s.tables.modules) in
        bind-Obeys R kept.order (free_urn platform reader fuel urn 1) (named platform reader)
          (free_urn-Obeys fuel urn 1) named-Obeys s

    chosen_urn-Obeys :
        (urn : String) (as_copy : Bool) (r : Result Error Module)
        → Obeys R (chosen_urn platform reader urn as_copy r)
    chosen_urn-Obeys urn as_copy (err e) = pure-Obeys R kept.order urn
    chosen_urn-Obeys urn as_copy (ok taken) =
        if-Obeys R kept.order as_copy (copy_urn platform reader urn) (fail urn_conflict)
          (copy_urn-Obeys urn) (fail-Obeys R kept.order String urn_conflict)

    import_as-Obeys :
        (p : Parsed) (tenant_id owner_id : ℕ) (urn : String)
        → Obeys R (import_as platform reader p tenant_id owner_id urn)
    unfolding import_as
    import_as-Obeys p tenant_id owner_id urn =
        let m = p.module_manifest in
        bind-Obeys R kept.order
          (create_module (some tenant_id) (some owner_id) urn m.title m.description) _
          (create_module-Obeys R kept (some tenant_id) (some owner_id) urn m.title m.description)
          (λ row.
            then-Obeys R kept.order (query (set_module_origin row.id "imported"))
              (import_versions platform reader row.id p.versions >> query (get_module_row row.id))
              (query-Obeys R kept.order _ (kept.sets_origin row.id "imported"))
              (then-Obeys R kept.order (import_versions platform reader row.id p.versions)
                (query (get_module_row row.id)) (import_versions-Obeys row.id p.versions)
                (query-Obeys R kept.order (get_module_row row.id) kept.order.stays)))

    pub import_module-Obeys :
        (p : Parsed) (tenant_id owner_id : ℕ) (as_copy : Bool)
        → Obeys R (import_module platform reader p tenant_id owner_id as_copy)
    unfolding import_module
    import_module-Obeys p tenant_id owner_id as_copy =
        let urn = p.module_manifest.urn in
        let find = attempt (query (get_any_module_by_urn urn)) in
        bind-Obeys R kept.order (find >>= chosen_urn platform reader urn as_copy)
          (import_as platform reader p tenant_id owner_id)
          (bind-Obeys R kept.order find (chosen_urn platform reader urn as_copy)
            (query-Obeys R kept.order (get_any_module_by_urn urn) kept.order.stays)
            (chosen_urn-Obeys urn as_copy))
          (import_as-Obeys p tenant_id owner_id)

module _ (R : Tables → Tables → Type 0) (order : Order R)
    (cache : (i : ℕ) (text : String) (t : Tables) → R t (cache_version_manifest i text t).1)
    (writer : Writer) where
  write_file-Obeys :
      (name : String) (content : Bytes) (es : List Entry)
      → Obeys R (write_file writer name content es)
  write_file-Obeys name content es =
      if-Obeys R order (writer.accepts name content) (pure (es ++ (name, content) ∷ []))
        (fail write_failed) (pure-Obeys R order (es ++ (name, content) ∷ []))
        (fail-Obeys R order (List Entry) write_failed)

  marshalled-Obeys : (o : Option Bytes) → Obeys R (marshalled writer o)
  marshalled-Obeys none = fail-Obeys R order Bytes marshal_failed
  marshalled-Obeys (some content) = pure-Obeys R order content

  write_scripts-Obeys :
      (version : String) (scs : List Script) (es : List Entry)
      → Obeys R (write_scripts writer version scs es)
  unfolding write_scripts
  write_scripts-Obeys version [] es = pure-Obeys R order es
  write_scripts-Obeys version (sc ∷ scs) es =
      let name = script_name writer version sc in
      bind-Obeys R order (write_file writer name (writer.to_bytes sc.source) es)
        (write_scripts writer version scs) (write_file-Obeys name (writer.to_bytes sc.source) es)
        (write_scripts-Obeys version scs)

  module _ (platform : Platform) where
    write_version-Obeys :
        (v : Version) (es : List Entry) (built : VersionManifest × List Script)
        → Obeys R (write_version writer platform v es built)
    write_version-Obeys v es (manifest, scs) =
        let name = entry_name v.manifest.version "version.yaml" in
        bind-Obeys R order (marshalled writer (writer.marshal_version manifest)) _
          (marshalled-Obeys (writer.marshal_version manifest))
          (λ yaml.
            bind-Obeys R order
              (write_file writer name yaml es >>= write_scripts writer v.manifest.version scs) _
              (bind-Obeys R order (write_file writer name yaml es)
                (write_scripts writer v.manifest.version scs) (write_file-Obeys name yaml es)
                (write_scripts-Obeys v.manifest.version scs))
              (λ written.
                then-Obeys R order
                  (attempt (query (cache_version_manifest v.id (writer.to_text yaml))))
                  (pure written) (query-Obeys R order _ (cache v.id (writer.to_text yaml)))
                  (pure-Obeys R order written)))

    build_version_manifest-Obeys :
        (v : Version) → Obeys R (build_version_manifest writer platform v)
    unfolding build_version_manifest
    build_version_manifest-Obeys v =
        bind-Obeys R order (query (list_conditions platform v.id)) _
          (query-Obeys R order _ order.stays)
          (λ conds.
            bind-Obeys R order (query (list_scripts platform v.id)) _
              (query-Obeys R order _ order.stays)
              (λ scs.
                let built : VersionManifest × List Script =
                  (manifest_of writer v conds scs, writer.by_name_and_seq scs) in
                pure-Obeys R order built))

    export_version-Obeys :
        (m : ℕ) (es : List Entry) (v : Version) → Obeys R (export_version writer platform m es v)
    export_version-Obeys m es v =
        if-Obeys R order (not (nat_eq v.module_id m)) (fail foreign_version)
          (build_version_manifest writer platform v >>= write_version writer platform v es)
          (fail-Obeys R order (List Entry) foreign_version)
          (bind-Obeys R order (build_version_manifest writer platform v)
            (write_version writer platform v es) (build_version_manifest-Obeys v)
            (write_version-Obeys v es))

    export_versions-Obeys :
        (m : ℕ) (is : List ℕ) (es : List Entry) → Obeys R (export_versions writer platform m is es)
    unfolding export_versions
    export_versions-Obeys m [] es = pure-Obeys R order es
    export_versions-Obeys m (i ∷ is) es =
        bind-Obeys R order (query (get_version i) >>= export_version writer platform m es)
          (export_versions writer platform m is)
          (bind-Obeys R order (query (get_version i)) (export_version writer platform m es)
            (query-Obeys R order (get_version i) order.stays) (export_version-Obeys m es))
          (export_versions-Obeys m is)

    pub export_module_bytes-Obeys :
        (row : Module) (ids : List ℕ) → Obeys R (export_module_bytes writer platform row ids)
    unfolding export_module_bytes export_entries
    export_module_bytes-Obeys row ids =
        let top = writer.marshal_module (module_manifest_of row) in
        bind-Obeys R order (export_entries writer platform row ids) _
          (bind-Obeys R order (marshalled writer top) _ (marshalled-Obeys top) (λ yaml.
            bind-Obeys R order (write_file writer "module.yaml" yaml [])
              (export_versions writer platform row.id ids) (write_file-Obeys "module.yaml" yaml [])
              (export_versions-Obeys row.id ids)))
          (λ es. pure-Obeys R order (writer.pack es))
