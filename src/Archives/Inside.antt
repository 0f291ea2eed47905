-- ===== src/Archives/Inside.antt =====
-- Which cleaned names ParsePmdl refuses, by the parts between the slashes of a name.
use Prim.Native.Char.{Char, code}
use Prim.Native.String
use text.Mathlib.TextLemmas.{nil-append, cons-append}
use text.Mathlib.TextEquality.{Char-path}
use pluris.Prelude.{
  ◌≤◌, String, true, false, if◌then◌else◌, nat_eq, nat_eq_iff, none, some, List, [], ◌∷◌, In, All,
  All-In, All-of_In, or_cases, length, ok, ◌≡◌, ◌≢◌, ◌↔◌, ◌⊎◌, refl, sym, ap, ◌∙◌, inl, inr, arith,
  Bool-cases,
}
use pluris.Conditions.Text.{has_prefix, has_part}
use pluris.Archives.{
  Codec, Member, broken, irregular, regular, Files, no_files, is_unsafe, scan, max_file_bytes,
  max_entries, max_archive_bytes,
}
use pluris.Archives.Paths.{has_prefix-append}
use pluris.Archives.Limits.{IsFine, file_count, byte_count, scan-IsFine}

-- The parts of a name: up to its first slash, and from there on.
abbrev pub first_part : String → String
first_part String.[] = String.[]
first_part (String.◌∷◌ c s) =
    if nat_eq (code c) b'/' then String.[] else String.◌∷◌ c (first_part s)

abbrev pub later_parts : String → List String
later_parts String.[] = []
later_parts (String.◌∷◌ c s) =
    if nat_eq (code c) b'/' then first_part s ∷ later_parts s else later_parts s

-- The name is not rooted, its first part does not begin with two dots, and no later part is "..".
abbrev pub IsLocal : String → Type 0
IsLocal name =
    ((rest : String) → name ≢ String.◌∷◌ "/" rest)
    × ((rest : String) → first_part name ≢ String.◌++◌ ".." rest)
    × All (λ part. part ≢ "..") (later_parts name)

-- path.Clean: the parts ".." that are left stand in front of all others.
abbrev pub IsCleaned : String → Type 0
IsCleaned name = (first_part name ≡ "..") ⊎ All (λ part. part ≢ "..") (later_parts name)

char-eq : (c d : Char) → nat_eq (code c) (code d) ≡ true → c ≡ d
char-eq c d e = Char-path c d ((nat_eq_iff (code c) (code d)).0 e)

rooted :
    (name : String) → has_prefix name "/" ≡ true → (rest : String) × (name ≡ String.◌∷◌ "/" rest)
unfolding has_prefix
rooted String.[] e = cc
rooted (String.◌∷◌ c s) e =
    let same : c ≡ "/" = char-eq c "/" (ground arith) in (s, ap (λ d. String.◌∷◌ d s) same)

dots_first : (name : String) → has_prefix name "../" ≡ true → first_part name ≡ ".."
unfolding has_prefix
dots_first String.[] e = cc
dots_first (String.◌∷◌ c String.[]) e = ground arith
dots_first (String.◌∷◌ c (String.◌∷◌ d String.[])) e = ground arith
dots_first (String.◌∷◌ c (String.◌∷◌ d (String.◌∷◌ f s))) e =
    let one : c ≡ "." = char-eq c "." (ground arith) in
    let two : d ≡ "." = char-eq d "." (ground arith) in
    let three : f ≡ "/" = char-eq f "/" (ground arith) in rw (one, two, three) refl

two_dots : (s : String) → String.◌++◌ ".." s ≡ String.◌∷◌ "." (String.◌∷◌ "." s)
two_dots s =
    cons-append "." "." s
    ∙ ap (String.◌∷◌ ".") (cons-append "." "" s ∙ ap (String.◌∷◌ ".") (nil-append s))

dots_prefix :
    (name : String)
    → has_prefix name ".." ≡ true
    → (rest : String) × (first_part name ≡ String.◌++◌ ".." rest)
unfolding has_prefix
dots_prefix String.[] e = cc
dots_prefix (String.◌∷◌ c String.[]) e = ground arith
dots_prefix (String.◌∷◌ c (String.◌∷◌ d s)) e =
    let one : c ≡ "." = char-eq c "." (ground arith) in
    let two : d ≡ "." = char-eq d "." (ground arith) in
    (first_part s, rw (one, two) (sym (two_dots (first_part s))))

-- what the first part begins with, the name begins with
prefix-first_part :
    (name : String) → has_prefix (first_part name) ".." ≡ true → has_prefix name ".." ≡ true
unfolding has_prefix
prefix-first_part String.[] e = e
prefix-first_part (String.◌∷◌ c s) e = elim (Bool-cases (nat_eq (code c) b'/')) [
  | inl slash ↦ cc (rw slash at e)
  | inr other ↦ second_dot c s (rw other at e)
]
  where
    second_dot :
        (c : Char) (s : String)
        → has_prefix (String.◌∷◌ c (first_part s)) ".." ≡ true
        → has_prefix (String.◌∷◌ c s) ".." ≡ true
    second_dot c String.[] e = e
    second_dot c (String.◌∷◌ d s) e = elim (Bool-cases (nat_eq (code d) b'/')) [
      | inl slash ↦
          let shorter : has_prefix (String.◌∷◌ c String.[]) ".." ≡ true = rw slash at e in
          ground arith
      | inr other ↦
          let longer : has_prefix (String.◌∷◌ c (String.◌∷◌ d (first_part s))) ".." ≡ true =
            rw other at e in
          ground arith
    ]

part-In : (name : String) → has_part name "/../" ≡ true → In ".." (later_parts name)
unfolding has_part has_prefix
part-In String.[] e = cc
part-In (String.◌∷◌ c s) e = elim (or_cases (has_prefix (String.◌∷◌ c s) "/../") _ e) [
  | inl here ↦
      let slash : nat_eq (code c) b'/' ≡ true = ground arith in
      rw slash (inl (sym (dots_first s (ground arith))))
  | inr later ↦ elim (Bool-cases (nat_eq (code c) b'/')) [
    | inl slash ↦ rw slash (inr (part-In s later))
    | inr other ↦ rw other (part-In s later)
  ]
]

-- a cleaned name that passes the tests
safe-IsLocal : (name : String) → IsCleaned name → is_unsafe name ≡ false → IsLocal name
unfolding is_unsafe has_prefix
safe-IsLocal name cleaned safe =
    let no_dots : has_prefix name ".." ≡ false = ground arith in
    (
      λ rest e. cc (rw e at safe),
      λ rest e.
          let dots = prefix-first_part name (rw e (has_prefix-append ".." rest)) in
          cc (no_dots, dots),
      elim cleaned [
        | inl first ↦
            let dots = prefix-first_part name (rw first refl) in absurd (cc (no_dots, dots))
        | inr all ↦ all
      ],
    )

IsLocal-safe : (name : String) → IsLocal name → is_unsafe name ≡ false
unfolding is_unsafe
IsLocal-safe name (relative, dotless, inner) = elim (Bool-cases (has_prefix name "/")) [
  | inl root ↦ let (rest, e) = rooted name root in absurd (relative rest e)
  | inr free ↦ elim (Bool-cases (has_prefix name "..")) [
    | inl dots ↦ let (rest, e) = dots_prefix name dots in absurd (dotless rest e)
    | inr plain ↦ elim (Bool-cases (has_part name "/../")) [
      | inl part ↦
          absurd
            (All-In (λ part. part ≢ "..") ".." (later_parts name) inner (part-In name part) refl)
      | inr safe ↦ rw (free, plain, safe) refl
    ]
  ]
]

module _ (codec : Codec) where
  -- An entry that can be read and, if it is a file, has a name in the directory, with a header and
  -- content of 4 MiB at most.
  abbrev pub IsAllowed : Member → Type 0
  IsAllowed broken = ⊥
  IsAllowed irregular = Unit
  IsAllowed (regular name size none) = ⊥
  IsAllowed (regular name size (some content)) =
      IsLocal (codec.clean name) × (size ≤ max_file_bytes) × (length content ≤ max_file_bytes)

  module _ (cleans : (name : String) → IsCleaned (codec.clean name)) where
    fine-IsAllowed : (m : Member) → IsFine codec m → IsAllowed m
    fine-IsAllowed broken fine = fine
    fine-IsAllowed (regular name size none) fine = fine
    fine-IsAllowed irregular fine = tt
    fine-IsAllowed (regular name size (some content)) (safe, small, short) =
        (safe-IsLocal (codec.clean name) (cleans name) safe, small, short)

    allowed-IsFine : (m : Member) → IsAllowed m → IsFine codec m
    allowed-IsFine broken fine = fine
    allowed-IsFine (regular name size none) fine = fine
    allowed-IsFine irregular fine = tt
    allowed-IsFine (regular name size (some content)) (inside, small, short) =
        (IsLocal-safe (codec.clean name) inside, small, short)

    -- The loop over the entries of an archive ends without an error exactly when every entry can be
    -- read; every file has 4 MiB at most, by its header and by its content, and a cleaned name that is
    -- not rooted, whose first part does not begin with two dots, and with no part ".." behind a slash;
    -- there are 512 files at most; and together they have 16 MiB at most. path.Clean is assumed to
    -- leave parts ".." in front of all others only.
    pub scan_iff :
        (ms : List Member)
        → ((g : Files) × (scan codec ms no_files ≡ ok g))
          ↔ (All IsAllowed ms × (file_count ms ≤ max_entries) × (byte_count ms ≤ max_archive_bytes))
    scan_iff ms =
        let (sound, complete) = scan-IsFine codec ms in
        (
          λ done.
              let (fine, few, short) = sound done in
              (
                All-of_In IsAllowed ms
                    (λ m listed. fine-IsAllowed m (All-In (IsFine codec) m ms fine listed)),
                few,
                short,
              ),
          λ (allowed, few, short). complete (
            All-of_In (IsFine codec) ms
                (λ m listed. allowed-IsFine m (All-In IsAllowed m ms allowed listed)),
            few,
            short,
          ),
        )
