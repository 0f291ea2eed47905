-- ===== src/Archives/RoundTrip.antt =====
-- ParsePmdl reads what ExportModule wrote.
use pluris.Prelude.{ℕ, some, List, [], ◌∷◌, string_eq, In, All, ◌≡◌, ◌≢◌}
use pluris.Lifecycle.{Version, Tables, Platform}
use pluris.Archives.{Bytes, ModuleManifest, Codec, limited, scan, parsed_or}
use pluris.Archives.Paths.{IsSegment}
use pluris.Archives.Export.{Writer}
use pluris.Archives.Described.{manifest_in}

-- No id stands twice.
abbrev pub AreUnique : List ℕ → Type 0
AreUnique [] = Unit
AreUnique (i ∷ is) = All (λ j. i ≢ j) is × AreUnique is

module _ (m : ℕ) (t : Tables) where
  -- UNIQUE(module_id, version)
  abbrev pub IsKeyed : Type 0
  IsKeyed =
      (v w : Version)
      → In v t.versions
      → In w t.versions
      → v.module_id ≡ m
      → w.module_id ≡ m
      → v.manifest.version ≡ w.manifest.version
      → v.id ≡ w.id

  -- The versions of the module have no slash in their names.
  abbrev pub AreSegments : Type 0
  AreSegments = (v : Version) → In v t.versions → v.module_id ≡ m → IsSegment v.manifest.version

module _ (writer : Writer) (platform : Platform) (codec : Codec) (m : ℕ) (t : Tables) where
  -- The YAML of each version reads as its manifest.
  abbrev pub ReadsVersions : Type 0
  ReadsVersions =
      (v : Version) (yaml : Bytes)
      → In v t.versions
      → writer.marshal_version (manifest_in writer platform t v) ≡ some yaml
      → codec.parse_version yaml ≡ some (manifest_in writer platform t v)
