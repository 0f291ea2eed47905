-- ===== src/Archives/Described.antt =====
-- What an archive has to hold of the tables, and that a cached manifest does not change it.
use mathlib.Core.Path.{subst}
use pluris.Prelude.{ℕ, String, some, List, [], ◌∷◌, ◌≡◌, refl, ap, sym, ◌∙◌}
use pluris.Lifecycle.{Version, Script, Tables, Platform, has_id}
use pluris.Lifecycle.Queries.{first, cached}
use pluris.Lifecycle.Queries.Contents.{scripts_of}
use pluris.Lifecycle.Queries.Applicability.{conditions_of}
use pluris.Archives.{Bytes, VersionManifest}
use pluris.Archives.Names.{script_path}
use pluris.Archives.Blocks.{Block}
use pluris.Archives.Export.{
  Writer, manifest_of, module_manifest_of, write_file, marshalled, script_name, write_scripts,
  build_version_manifest, write_version, export_version, export_versions, export_entries,
}
use pluris.Archives.Cached.{SameRows, uncached, uncached-some}

module _ (writer : Writer) (platform : Platform) where
  -- the manifest of a version by the tables
  abbrev pub manifest_in : Tables → Version → VersionManifest
  manifest_in t v =
      manifest_of writer v (platform.by_seq_and_id (conditions_of v.id t.conditions))
        (platform.by_seq_and_name (scripts_of v.id t.scripts))

  abbrev pub files_of : List Script → List (String × Bytes)
  files_of [] = []
  files_of (sc ∷ scs) =
      (script_path writer.trim_space writer.two_digits sc, writer.to_bytes sc.source) ∷ files_of scs

  -- `b` has what the tables say of the version `i` of the module `m`.
  abbrev pub Describes : ℕ → Tables → ℕ → Block → Type 0
  Describes m t i b =
      (v : Version) × (first (has_id i) t.versions ≡ some v)
      × (v.module_id ≡ m)
      × (b.manifest ≡ manifest_in t v)
      × (writer.marshal_version b.manifest ≡ some b.yaml)
      × (b.files
          ≡ files_of
              (writer.by_name_and_seq (platform.by_seq_and_name (scripts_of v.id t.scripts))))

  abbrev pub DescribesAll : ℕ → Tables → List ℕ → List Block → Type 0
  DescribesAll m t [] [] = Unit
  DescribesAll m t (i ∷ is) (b ∷ bs) = Describes m t i b × DescribesAll m t is bs
  DescribesAll m t _ _ = ⊥

  -- the cached manifest is not part of what is exported
  cached-manifest_in :
      (t : Tables) (v w : Version) → cached "" w ≡ cached "" v → manifest_in t w ≡ manifest_in t v
  unfolding manifest_of pluris.Archives.Export.fields_from_version_row
  cached-manifest_in t v w e = ap (manifest_in t) e

  Describes-SameRows :
      (m i : ℕ) (b : Block) (t t' : Tables) → SameRows t t' → Describes m t' i b → Describes m t i b
  Describes-SameRows m i b t t' (rows, scripts, conditions) (w, at, owned, manifest, yaml, files) =
      let (v, at', e) =
        uncached-some (first (has_id i) t.versions) w (sym (ap uncached at) ∙ rows i) in
      let same_id : w.id ≡ v.id = ap (λ (x : Version). x.id) e in
      (
        v,
        at',
        sym (ap (λ (x : Version). x.module_id) e) ∙ owned,
        manifest ∙ (rw (conditions, scripts) refl ∙ cached-manifest_in t v w e),
        yaml,
        files ∙ rw (scripts, same_id) refl,
      )

  DescribesAll-SameRows :
      (m : ℕ) (is : List ℕ) (bs : List Block) (t t' : Tables)
      → SameRows t t'
      → DescribesAll m t' is bs
      → DescribesAll m t is bs
  DescribesAll-SameRows m [] [] t t' same all = tt
  DescribesAll-SameRows m [] (b ∷ bs) t t' same all = all
  DescribesAll-SameRows m (i ∷ is) [] t t' same all = all
  DescribesAll-SameRows m (i ∷ is) (b ∷ bs) t t' same (one, all) =
      (Describes-SameRows m i b t t' same one, DescribesAll-SameRows m is bs t t' same all)

  pub version-manifest_in :
      (t : Tables) (v : Version) → (manifest_in t v).version ≡ v.manifest.version
  unfolding manifest_of
  version-manifest_in t v = refl

  -- `b` is what was written for the row `v`.
  abbrev pub Holds : ℕ → Tables → Version → Block → Type 0
  Holds m t v b =
      (v.module_id ≡ m)
      × (b.manifest ≡ manifest_in t v)
      × (writer.marshal_version b.manifest ≡ some b.yaml)
      × (b.files
          ≡ files_of
              (writer.by_name_and_seq (platform.by_seq_and_name (scripts_of v.id t.scripts))))

  pub DescribesAll-cons :
      (m i : ℕ) (is : List ℕ) (b : Block) (bs : List Block) (v : Version) (t t1 t2 : Tables)
      → t ≡ t1
      → first (has_id i) t.versions ≡ some v
      → Holds m t1 v b
      → SameRows t1 t2
      → DescribesAll m t2 is bs
      → DescribesAll m t (i ∷ is) (b ∷ bs)
  DescribesAll-cons m i is b bs v t t1 t2 same at (owned, manifest, yaml, files) kept all = (
    (v, at, owned, rw same manifest, yaml, rw same files),
    subst (λ (x : Tables). DescribesAll m x is bs) (sym same)
        (DescribesAll-SameRows m is bs t1 t2 kept all),
  )
