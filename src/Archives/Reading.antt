-- ===== src/Archives/Reading.antt =====
-- What ParsePmdl makes of the files of several versions.
use pluris.Prelude.{
  String, true, false, ◌||◌, Option, none, some, List, [], ◌∷◌, map, ◌==◌, string_eq, eq_iff, In,
  All, All-In, All-of_In, Bool-cases, Dict, lookup, ok, ◌≡◌, refl, sym, arith, inl, inr,
}
use pluris.Lifecycle.Queries.{first}
use pluris.Archives.{
  Bytes, format_version, ModuleManifest, VersionManifest, ParsedVersion, Codec, Files, directories,
  is_empty, named_by, is_blank, parse_versions, parse_files,
}
use pluris.Archives.Blocks.{
  Block, dir, AreDistinct, put_yaml, put_all, put_scripts, lookup-put_yaml, lookup-put_scripts,
  directories-put_yaml,
}

not_empty :
    (m : Dict String Bytes) (d : String) (ds : List String)
    → directories m ≡ d ∷ ds
    → is_empty m ≡ false
not_empty [] d ds e = cc
not_empty (x ∷ m) d ds e = refl

abbrev pub block_at : String → List Block → Option Block
block_at d = first (λ b. dir b == d)

module _ (codec : Codec) where
  abbrev pub parsed_version : Block → ParsedVersion
  parsed_version b = record { manifest = b.manifest; scripts = put_all codec b.files [] }

  abbrev pub with_block : Option Block → List ParsedVersion → List ParsedVersion
  with_block none vs = vs
  with_block (some b) vs = parsed_version b ∷ vs

  -- the versions of the directories, in their order
  abbrev pub parsed_versions : List String → List Block → List ParsedVersion
  parsed_versions [] bs = []
  parsed_versions (d ∷ ds) bs = with_block (block_at d bs) (parsed_versions ds bs)

  -- the YAML of each version reads as its manifest
  abbrev pub AreReadable : List Block → Type 0
  AreReadable = All (λ b. codec.parse_version b.yaml ≡ some b.manifest)

  named_by_self : (m : VersionManifest) → named_by codec m.version m ≡ m
  named_by_self m = ground arith

  found_block :
      (d : String) (bs : List Block)
      → In d (map dir bs)
      → (b : Block) × (block_at d bs ≡ some b) × In b bs × (dir b ≡ d)
  found_block d [] listed = absurd listed
  found_block d (b ∷ bs) (inl same) =
      let at : (dir b == d) ≡ true = (eq_iff (dir b) d).1 (sym same) in
      rw at (b, refl, inl refl, sym same)
  found_block d (b ∷ bs) (inr later) = elim (Bool-cases (dir b == d)) [
    | inl same ↦ rw same (b, refl, inl refl, (eq_iff (dir b) d).0 same)
    | inr other ↦
        let (c, at, listed, same) = found_block d bs later in rw other (c, at, inr listed, same)
  ]

  pub parse_versions-blocks :
      (bs : List Block) (f : Files) (ds : List String)
      → AreDistinct bs
      → AreReadable bs
      → ((d : String) → In d ds → In d (map dir bs))
      → f.version_yaml ≡ put_yaml bs []
      → f.scripts ≡ put_scripts codec bs []
      → parse_versions codec f ds ≡ ok (parsed_versions ds bs)
  unfolding parse_versions
  parse_versions-blocks bs f [] distinct readable known yaml scripts = refl
  parse_versions-blocks bs f (d ∷ ds) distinct readable known yaml scripts =
      let (b, at, listed, same) = found_block d bs (known d (inl refl)) in
      let later =
        parse_versions-blocks bs f ds distinct readable (λ x i. known x (inr i)) yaml scripts in
      let at' : block_at (dir b) bs ≡ some b = rw same at in
      let readable' =
        All-In (λ (c : Block). codec.parse_version c.yaml ≡ some c.manifest) b bs readable listed in
      rw (← same) (
        rw
          (
            yaml,
            scripts,
            lookup-put_yaml b bs [] listed distinct,
            readable',
            later,
            named_by_self b.manifest,
            lookup-put_scripts codec b bs [] listed distinct refl,
            at',
          )
          refl)

  -- The files of a module and of its versions parse to what they were written from.
  pub parse_files-blocks :
      (m : ModuleManifest) (content : Bytes) (b : Block) (bs : List Block) (f : Files)
      → m.format ≡ some format_version
      → (is_blank codec m.urn || is_blank codec m.title) ≡ false
      → codec.parse_module content ≡ some m
      → AreDistinct (b ∷ bs)
      → AreReadable (b ∷ bs)
      → ((d : String) → In d (codec.sort_strings (map dir (b ∷ bs))) → In d (map dir (b ∷ bs)))
      → f.module_yaml ≡ some content
      → f.version_yaml ≡ put_yaml (b ∷ bs) []
      → f.scripts ≡ put_scripts codec (b ∷ bs) []
      → parse_files codec f
        ≡ ok (record {
          module_manifest = m;
          versions = parsed_versions (codec.sort_strings (map dir (b ∷ bs))) (b ∷ bs);
        })
  unfolding parse_files
  parse_files-blocks m content b bs f format named parsed distinct readable known top yaml scripts =
      let listing : directories (put_yaml (b ∷ bs) []) ≡ map dir (b ∷ bs) =
        directories-put_yaml (b ∷ bs) [] distinct
          (All-of_In (λ (c : Block). lookup (dir c) [] ≡ none) (b ∷ bs) (λ c i. refl)) in
      let versions =
        parse_versions-blocks (b ∷ bs) f (codec.sort_strings (map dir (b ∷ bs))) distinct readable
          known yaml scripts in
      let some_version : is_empty f.version_yaml ≡ false =
        rw yaml (not_empty (put_yaml (b ∷ bs) []) (dir b) (map dir bs) listing) in
      let listing' : directories f.version_yaml ≡ map dir (b ∷ bs) = rw yaml listing in
      rw (top, parsed, format, named, some_version, listing', versions) refl
