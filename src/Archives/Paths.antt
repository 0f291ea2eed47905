-- ===== src/Archives/Paths.antt =====
-- Where the loop of ParsePmdl puts the files of one version, by the names they have in an archive.
use Prim.Native.Char.{Char, code}
use Prim.Native.String
use pluris.Prelude.{
  suc, ◌+◌, String, true, false, nat_eq, ◌==◌, string_eq, eq_iff, insert, lookup, ◌≡◌, refl, arith,
  Bool-cases, inl, inr,
}
use text.Mathlib.TextLemmas.{nil-append, cons-append}
use pluris.Conditions.Text.{same_text, has_prefix, has_part, has_suffix}
use pluris.Lifecycle.Scripts.{trim_suffix}
use pluris.Archives.Text.{slashes, drop_prefix, split_first}
use pluris.Archives.{Bytes, Codec, Files, store_file, or_empty}

-- A name of one directory.
abbrev pub IsSegment : String → Type 0
IsSegment s = slashes s ≡ 0

slashes-append : (s t : String) → slashes (String.◌++◌ s t) ≡ slashes s + slashes t
unfolding slashes
slashes-append String.[] t = rw (nil-append t) (omega arith)
slashes-append (String.◌∷◌ c s) t = rw (cons-append c s t) (ground (arith, slashes-append s t))

same_text_refl : (s : String) → same_text s s ≡ true
same_text_refl String.[] = refl
same_text_refl (String.◌∷◌ c s) = ground (arith, same_text_refl s)

pub has_prefix-append : (p s : String) → has_prefix (String.◌++◌ p s) p ≡ true
unfolding has_prefix
has_prefix-append String.[] s = refl
has_prefix-append (String.◌∷◌ c p) s =
    rw (cons-append c p s) (ground (arith, has_prefix-append p s))

has_suffix_self : (t : String) → has_suffix t t ≡ true
unfolding has_suffix
has_suffix_self String.[] = refl
has_suffix_self (String.◌∷◌ c t) = ground (arith, same_text_refl t)

has_suffix-append : (s t : String) → has_suffix (String.◌++◌ s t) t ≡ true
unfolding has_suffix
has_suffix-append String.[] t = rw (nil-append t) (has_suffix_self t)
has_suffix-append (String.◌∷◌ c s) t =
    rw (cons-append c s t) (ground (arith, has_suffix-append s t))

drop_prefix_nil : (s : String) → drop_prefix s "" ≡ s
unfolding drop_prefix
drop_prefix_nil String.[] = refl
drop_prefix_nil (String.◌∷◌ c s) = refl

drop_prefix-append : (p s : String) → drop_prefix (String.◌++◌ p s) p ≡ s
unfolding drop_prefix
drop_prefix-append String.[] s = rw (nil-append s) (drop_prefix_nil s)
drop_prefix-append (String.◌∷◌ c p) s = rw (cons-append c p s) (drop_prefix-append p s)

-- The name of an entry in the directory `v`.
abbrev pub entry_name : String → String → String
entry_name v rest = String.◌++◌ v (String.◌∷◌ "/" rest)

IsSegment-cons :
    (c : Char) (v : String)
    → IsSegment (String.◌∷◌ c v)
    → (nat_eq (code c) b'/' ≡ false) × IsSegment v
unfolding slashes
IsSegment-cons c v segment = ground arith

slashes-entry_name :
    (v rest : String) → slashes (entry_name v rest) ≡ slashes v + suc (slashes rest)
unfolding slashes
slashes-entry_name v rest = slashes-append v (String.◌∷◌ "/" rest)

-- A suffix that starts with a slash is cut off a name without slashes.
trim_suffix-entry_name :
    (v rest : String) → IsSegment v → trim_suffix (entry_name v rest) (String.◌∷◌ "/" rest) ≡ v
unfolding trim_suffix
trim_suffix-entry_name String.[] rest segment =
    rw (nil-append (String.◌∷◌ "/" rest)) (ground (arith, same_text_refl rest))
trim_suffix-entry_name (String.◌∷◌ c v) rest segment =
    let (other, segment') = IsSegment-cons c v segment in
    rw (cons-append c v (String.◌∷◌ "/" rest))
      (ground (arith, trim_suffix-entry_name v rest segment'))

-- The first slash is the one behind `v`.
split_first-entry_name :
    (v rest part : String)
    → IsSegment v
    → split_first (entry_name v (String.◌++◌ part rest)) (String.◌∷◌ "/" part) ≡ (v, rest)
unfolding split_first has_prefix drop_prefix
split_first-entry_name String.[] rest part segment =
    let later = String.◌++◌ part rest in
    rw
      (nil-append (String.◌∷◌ "/" later), has_prefix-append part rest, drop_prefix-append part rest)
      refl
split_first-entry_name (String.◌∷◌ c v) rest part segment =
    let later = String.◌∷◌ "/" (String.◌++◌ part rest) in
    let (other, segment') = IsSegment-cons c v segment in
    rw (cons-append c v later, other, split_first-entry_name v rest part segment') refl

has_part-entry_name :
    (v rest part : String)
    → has_part (entry_name v (String.◌++◌ part rest)) (String.◌∷◌ "/" part) ≡ true
unfolding has_part has_prefix
has_part-entry_name String.[] rest part =
    let later = String.◌++◌ part rest in
    rw (nil-append (String.◌∷◌ "/" later)) (ground (arith, has_prefix-append part rest))
has_part-entry_name (String.◌∷◌ c v) rest part =
    let later = String.◌∷◌ "/" (String.◌++◌ part rest) in
    rw (cons-append c v later) (ground (arith, has_part-entry_name v rest part))

other_name : (v rest : String) → (entry_name v rest == "module.yaml") ≡ false
unfolding slashes
other_name v rest = elim (Bool-cases (entry_name v rest == "module.yaml")) [
  | inl same ↦
      let e = (eq_iff (entry_name v rest) "module.yaml").0 same in
      let none_left : slashes (entry_name v rest) ≡ 0 = rw e refl in
      absurd (omega (arith, none_left, slashes-entry_name v rest))
  | inr other ↦ other
]

one_slash : (v : String) → IsSegment v → slashes (entry_name v "version.yaml") ≡ 1
unfolding slashes
one_slash v segment = omega (arith, slashes-entry_name v "version.yaml")

more_slashes :
    (v path : String) → nat_eq (slashes (entry_name v (String.◌++◌ "scripts/" path))) 1 ≡ false
unfolding slashes
more_slashes v path =
    ground
      (arith, slashes-entry_name v (String.◌++◌ "scripts/" path), slashes-append "scripts/" path)

module _ (codec : Codec) where
  -- `<version>/version.yaml`
  pub store_file-version :
      (v : String) (content : Bytes) (f : Files)
      → IsSegment v
      → store_file codec (entry_name v "version.yaml") content f
        ≡ record f { version_yaml = insert v content f.version_yaml }
  unfolding store_file
  store_file-version v content f segment =
      rw
        (
          other_name v "version.yaml",
          has_suffix-append v "/version.yaml",
          one_slash v segment,
          trim_suffix-entry_name v "version.yaml" segment,
        )
        refl

  -- `<version>/scripts/<path>`
  pub store_file-script :
      (v path : String) (content : Bytes) (f : Files)
      → IsSegment v
      → store_file codec (entry_name v (String.◌++◌ "scripts/" path)) content f ≡ record f {
        scripts =
            insert v (insert path (codec.text content) (or_empty (lookup v f.scripts))) f.scripts;
      }
  unfolding store_file
  store_file-script v path content f segment =
      rw
        (
          other_name v (String.◌++◌ "scripts/" path),
          more_slashes v path,
          has_part-entry_name v path "scripts/",
          split_first-entry_name v path "scripts/" segment,
        )
        (ground arith)
