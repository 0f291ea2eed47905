-- ===== src/Archives/Blocks.antt =====
-- The versions in an archive: for each, `version.yaml` and the files under `scripts/`.
use Prim.Native.String
use mathlib.Core.List.{append-nil, append_assoc}
use pluris.Prelude.{
  String, false, Option, none, some, List, [], ◌∷◌, ◌++◌, map, ◌==◌, string_eq, eq_iff, In, All,
  All-In, Bool-cases, Dict, lookup, insert, lookup-insert, ◌≡◌, refl, ap, sym, ◌∙◌, arith, inl, inr,
}
use pluris.Archives.{Bytes, VersionManifest, Codec, Files, or_empty, directories}
use pluris.Archives.Paths.{IsSegment, entry_name, store_file-version, store_file-script}
use pluris.Archives.Stored.{Entry, counted_entry, stored, stored-append}

-- A version: its manifest, that manifest as YAML, and the files under `scripts/` by their paths there.
pub record Block : Type 0 where
  pub manifest : VersionManifest
  pub yaml : Bytes
  pub files : List (String × Bytes)

abbrev pub dir : Block → String
dir b = b.manifest.version

abbrev pub script_entries : String → List (String × Bytes) → List Entry
script_entries v [] = []
script_entries v ((path, content) ∷ fs) =
    (entry_name v (String.◌++◌ "scripts/" path), content) ∷ script_entries v fs

abbrev pub entries_of : Block → List Entry
entries_of b = (entry_name (dir b) "version.yaml", b.yaml) ∷ script_entries (dir b) b.files

abbrev pub all_entries : List Block → List Entry
all_entries [] = []
all_entries (b ∷ bs) = entries_of b ++ all_entries bs

-- No version has the directory `d`.
abbrev pub Differs : String → List Block → Type 0
Differs d = All (λ b. (dir b == d) ≡ false)

abbrev pub AreDistinct : List Block → Type 0
AreDistinct [] = Unit
AreDistinct (b ∷ bs) = Differs (dir b) bs × AreDistinct bs

unfoldable pub put_yaml : List Block → Dict String Bytes → Dict String Bytes
put_yaml [] m = m
put_yaml (b ∷ bs) m = put_yaml bs (insert (dir b) b.yaml m)

module _ {V : Type 0} where
  lookup_inserted : (d : String) (x : V) (m : Dict String V) → lookup d (insert d x m) ≡ some x
  lookup_inserted d x m = lookup-insert d d x m ∙ ground (arith, eq_iff d d)

lookup-put_yaml_other :
    (d : String) (bs : List Block) (m : Dict String Bytes)
    → Differs d bs
    → lookup d (put_yaml bs m) ≡ lookup d m
unfolding put_yaml
lookup-put_yaml_other d [] m differs = refl
lookup-put_yaml_other d (b ∷ bs) m (other, differs) =
    lookup-put_yaml_other d bs (insert (dir b) b.yaml m) differs
    ∙ lookup-insert (dir b) d b.yaml m
    ∙ rw other refl

pub lookup-put_yaml :
    (b : Block) (bs : List Block) (m : Dict String Bytes)
    → In b bs
    → AreDistinct bs
    → lookup (dir b) (put_yaml bs m) ≡ some b.yaml
unfolding put_yaml
lookup-put_yaml b [] m listed distinct = absurd listed
lookup-put_yaml b (c ∷ bs) m (inl same) (differs, distinct) = rw same (
    lookup-put_yaml_other (dir c) bs (insert (dir c) c.yaml m) differs
    ∙ lookup_inserted (dir c) c.yaml m)
lookup-put_yaml b (c ∷ bs) m (inr later) (differs, distinct) =
    lookup-put_yaml b bs (insert (dir c) c.yaml m) later distinct

directories-insert :
    (d : String) (content : Bytes) (m : Dict String Bytes)
    → lookup d m ≡ none
    → directories (insert d content m) ≡ directories m ++ d ∷ []
directories-insert d content [] new = refl
directories-insert d content ((v, old) ∷ m) new = elim (Bool-cases (v == d)) [
  | inl same ↦ cc (rw same at new)
  | inr other ↦
      rw other
        (ap (λ (ds : List String). v ∷ ds) (directories-insert d content m (rw other at new)))
]

still_new :
    (b : Block) (bs : List Block) (m : Dict String Bytes)
    → Differs (dir b) bs
    → All (λ c. lookup (dir c) m ≡ none) bs
    → All (λ c. lookup (dir c) (insert (dir b) b.yaml m) ≡ none) bs
still_new b [] m differs news = tt
still_new b (c ∷ bs) m (other, differs) (new, news) =
    let apart : (dir b == dir c) ≡ false =
      ground (arith, eq_iff (dir b) (dir c), eq_iff (dir c) (dir b)) in
    (lookup-insert (dir b) (dir c) b.yaml m ∙ rw apart new, still_new b bs m differs news)

-- The versions are listed in the order in which they were written.
pub directories-put_yaml :
    (bs : List Block) (m : Dict String Bytes)
    → AreDistinct bs
    → All (λ b. lookup (dir b) m ≡ none) bs
    → directories (put_yaml bs m) ≡ directories m ++ map dir bs
unfolding put_yaml
directories-put_yaml [] m distinct new = sym (append-nil (directories m))
directories-put_yaml (b ∷ bs) m (differs, distinct) (new, news) =
    directories-put_yaml bs (insert (dir b) b.yaml m) distinct (still_new b bs m differs news)
    ∙ ap (λ (ds : List String). ds ++ map dir bs) (directories-insert (dir b) b.yaml m new)
    ∙ append_assoc (directories m) (dir b ∷ []) (map dir bs)

module _ (codec : Codec) where
  -- the files of a version, as the map that ParsePmdl builds
  abbrev pub put_all : List (String × Bytes) → Dict String String → Dict String String
  put_all [] m = m
  put_all ((path, content) ∷ fs) m = put_all fs (insert path (codec.text content) m)

  unfoldable put_files :
      String
      → List (String × Bytes)
      → Dict String (Dict String String)
      → Dict String (Dict String String)
  put_files v [] m = m
  put_files v ((path, content) ∷ fs) m =
      put_files v fs (insert v (insert path (codec.text content) (or_empty (lookup v m))) m)

  unfoldable pub put_scripts :
      List Block → Dict String (Dict String String) → Dict String (Dict String String)
  unfolding put_files
  put_scripts [] m = m
  put_scripts (b ∷ bs) m = put_scripts bs (put_files (dir b) b.files m)

  lookup-put_files :
      (v : String) (fs : List (String × Bytes)) (m : Dict String (Dict String String))
      → or_empty (lookup v (put_files v fs m)) ≡ put_all fs (or_empty (lookup v m))
  unfolding put_files
  lookup-put_files v [] m = refl
  lookup-put_files v ((path, content) ∷ fs) m =
      let new = insert path (codec.text content) (or_empty (lookup v m)) in
      lookup-put_files v fs (insert v new m)
      ∙ ap (λ (o : Option (Dict String String)). put_all fs (or_empty o)) (lookup_inserted v new m)

  lookup-put_files_other :
      (d v : String) (fs : List (String × Bytes)) (m : Dict String (Dict String String))
      → (v == d) ≡ false
      → lookup d (put_files v fs m) ≡ lookup d m
  unfolding put_files
  lookup-put_files_other d v [] m other = refl
  lookup-put_files_other d v ((path, content) ∷ fs) m other =
      let new = insert path (codec.text content) (or_empty (lookup v m)) in
      lookup-put_files_other d v fs (insert v new m) other ∙ lookup-insert v d new m ∙ rw other refl

  lookup-put_scripts_other :
      (d : String) (bs : List Block) (m : Dict String (Dict String String))
      → Differs d bs
      → lookup d (put_scripts bs m) ≡ lookup d m
  unfolding put_scripts
  lookup-put_scripts_other d [] m differs = refl
  lookup-put_scripts_other d (b ∷ bs) m (other, differs) =
      lookup-put_scripts_other d bs (put_files (dir b) b.files m) differs
      ∙ lookup-put_files_other d (dir b) b.files m other

  pub lookup-put_scripts :
      (b : Block) (bs : List Block) (m : Dict String (Dict String String))
      → In b bs
      → AreDistinct bs
      → lookup (dir b) m ≡ none
      → or_empty (lookup (dir b) (put_scripts bs m)) ≡ put_all b.files []
  unfolding put_scripts
  lookup-put_scripts b [] m listed distinct new = absurd listed
  lookup-put_scripts b (c ∷ bs) m (inl same) (differs, distinct) new =
      let new' : lookup (dir c) m ≡ none = rw (← same) new in
      rw same (
        ap or_empty (lookup-put_scripts_other (dir c) bs (put_files (dir c) c.files m) differs)
        ∙ lookup-put_files (dir c) c.files m
        ∙ ap (λ (o : Option (Dict String String)). put_all c.files (or_empty o)) new')
  lookup-put_scripts b (c ∷ bs) m (inr later) (differs, distinct) new =
      let other : (dir c == dir b) ≡ false = ground (
        arith,
        eq_iff (dir c) (dir b),
        eq_iff (dir b) (dir c),
        All-In (λ (x : Block). (dir x == dir c) ≡ false) b bs differs later,
      ) in
      lookup-put_scripts b bs (put_files (dir c) c.files m) later distinct
        (lookup-put_files_other (dir b) (dir c) c.files m other ∙ new)

  stored-script_entries :
      (v : String) (fs : List (String × Bytes)) (f : Files)
      → IsSegment v
      → ((stored codec (script_entries v fs) f).module_yaml ≡ f.module_yaml)
        × ((stored codec (script_entries v fs) f).version_yaml ≡ f.version_yaml)
        × ((stored codec (script_entries v fs) f).scripts ≡ put_files v fs f.scripts)
  unfolding put_files
  stored-script_entries v [] f segment = (refl, refl, refl)
  stored-script_entries v ((path, content) ∷ fs) f segment =
      let g = counted_entry codec content f in
      let new = insert path (codec.text content) (or_empty (lookup v f.scripts)) in
      rw (store_file-script codec v path content g segment, stored)
        (stored-script_entries v fs (record g { scripts = insert v new f.scripts }) segment)

  pub stored-all_entries :
      (bs : List Block) (f : Files)
      → All (λ b. IsSegment (dir b)) bs
      → ((stored codec (all_entries bs) f).module_yaml ≡ f.module_yaml)
        × ((stored codec (all_entries bs) f).version_yaml ≡ put_yaml bs f.version_yaml)
        × ((stored codec (all_entries bs) f).scripts ≡ put_scripts bs f.scripts)
  unfolding put_yaml put_scripts
  stored-all_entries [] f segments = (refl, refl, refl)
  stored-all_entries (b ∷ bs) f (segment, segments) =
      let g = record (counted_entry codec b.yaml f) {
        version_yaml = insert (dir b) b.yaml f.version_yaml;
      } in
      let h = stored codec (script_entries (dir b) b.files) g in
      let (same, yaml, scripts) = stored-script_entries (dir b) b.files g segment in
      let (same', yaml', scripts') = stored-all_entries bs h segments in
      rw
        (
          store_file-version codec (dir b) b.yaml (counted_entry codec b.yaml f) segment,
          stored-append codec (script_entries (dir b) b.files) (all_entries bs) g,
          stored,
        )
        (same' ∙ same, yaml' ∙ ap (put_yaml bs) yaml, scripts' ∙ ap (put_scripts bs) scripts)
