-- ===== src/Archives/Limits.antt =====
-- The limits on archives: what the loop over the entries accepts.
use pluris.Prelude.{
  ap, ℕ, zero, suc, ◌+◌, ◌≤◌, String, false, Option, none, some, List, [], ◌∷◌, if◌then◌else◌, ltb,
  length, All, ok, and_then-eq-ok, ◌≡◌, ◌↔◌, refl, arith, inl, inr, Bool-cases,
}
use pluris.Archives.{
  Bytes, max_archive_bytes, max_file_bytes, max_entries, Member, broken, irregular, regular, Codec,
  limited, Files, no_files, is_unsafe, store_file, counted, read_file, limited_content, accept,
  scan,
}

length-limited :
    (n : ℕ) (xs : Bytes) → length (limited n xs) ≡ (if ltb (length xs) n then length xs else n)
unfolding limited
length-limited zero xs = ground arith
length-limited (suc n) [] = ground arith
length-limited (suc n) (x ∷ xs) = ground (arith, length-limited n xs)

pub limited_short : (n : ℕ) (xs : Bytes) → length xs ≤ n → limited n xs ≡ xs
unfolding limited
limited_short zero [] short = refl
limited_short zero (x ∷ xs) short = absurd (omega arith)
limited_short (suc n) [] short = refl
limited_short (suc n) (x ∷ xs) short =
    ap (λ (ys : Bytes). x ∷ ys) (limited_short n xs (omega arith))

not_ltb : (a b : ℕ) → b ≤ a → ltb a b ≡ false
not_ltb a b h = ground arith

-- The number of the entries that are files, and of their bytes.
abbrev pub file_count : List Member → ℕ
file_count [] = 0
file_count (regular name size content ∷ ms) = suc (file_count ms)
file_count (m ∷ ms) = file_count ms

abbrev bytes_of : Option Bytes → ℕ
bytes_of none = 0
bytes_of (some content) = length content

abbrev pub byte_count : List Member → ℕ
byte_count [] = 0
byte_count (regular name size content ∷ ms) = bytes_of content + byte_count ms
byte_count (m ∷ ms) = byte_count ms

module _ (codec : Codec) where
  -- An entry that can be read and, if it is a file, stays in the directory, with a header and content
  -- of 4 MiB at most.
  abbrev pub IsFine : Member → Type 0
  IsFine broken = ⊥
  IsFine irregular = Unit
  IsFine (regular name size none) = ⊥
  IsFine (regular name size (some content)) =
      (is_unsafe (codec.clean name) ≡ false)
      × (size ≤ max_file_bytes)
      × (length content ≤ max_file_bytes)

  stored_total :
      (name : String) (content : Bytes) (f : Files)
      → (store_file codec name content f).total_bytes ≡ f.total_bytes
  unfolding store_file
  stored_total name content f = ground arith

  stored_entries :
      (name : String) (content : Bytes) (f : Files)
      → (store_file codec name content f).entries ≡ f.entries
  unfolding store_file
  stored_entries name content f = ground arith

  -- the content as the loop sees it, with the limit on its length
  content_length :
      (content : Bytes)
      → ltb max_file_bytes (length (limited (suc max_file_bytes) content)) ≡ false
      → (length (limited (suc max_file_bytes) content) ≡ length content)
        × (length content ≤ max_file_bytes)
  content_length content e = (
    ground (arith, length-limited (suc max_file_bytes) content),
    ground (arith, length-limited (suc max_file_bytes) content),
  )

  -- Where the loop goes on, and with which counts.
  abbrev pub Accepted : Files → ℕ → Files → Type 0
  Accepted f n g =
      (g.entries ≡ suc f.entries)
      × (g.total_bytes ≡ f.total_bytes + n)
      × (suc f.entries ≤ max_entries)
      × (f.total_bytes + n ≤ max_archive_bytes)

  read_fine :
      (name : String) (content : Bytes) (f g : Files)
      → read_file codec name (limited_content codec (some content)) f ≡ ok g
      → (length content ≤ max_file_bytes)
        × (g.entries ≡ f.entries)
        × (g.total_bytes ≡ f.total_bytes + length content)
        × (f.total_bytes + length content ≤ max_archive_bytes)
  read_fine name content f g e =
      let seen = limited (suc max_file_bytes) content in
      elim (Bool-cases (ltb max_file_bytes (length seen))) [
        | inl long ↦ cc (rw long at e)
        | inr short ↦ elim (Bool-cases (ltb max_archive_bytes (f.total_bytes + length seen))) [
          | inl full ↦ cc (rw (short, full) at e)
          | inr fits ↦
              let (same, bounded) = content_length content short in
              let stored : store_file codec name seen (counted codec (length seen) f) ≡ g =
                cc (rw (short, fits) at e) in
              (
                bounded,
                rw (← stored) (stored_entries name seen (counted codec (length seen) f)),
                rw (← stored, ← same) (stored_total name seen (counted codec (length seen) f)),
                ground arith,
              )
        ]
      ]

  accept-IsFine :
      (name : String) (size : ℕ) (content : Bytes) (f g : Files)
      → accept codec name size (some content) f ≡ ok g
      → IsFine (regular name size (some content)) × Accepted f (length content) g
  unfolding accept
  accept-IsFine name size content f g e = elim (Bool-cases (ltb max_entries (suc f.entries))) [
    | inl full ↦ cc (rw full at e)
    | inr room ↦ elim (Bool-cases (is_unsafe (codec.clean name))) [
      | inl unsafe ↦ cc (rw (room, unsafe) at e)
      | inr safe ↦ elim (Bool-cases (ltb max_file_bytes size)) [
        | inl large ↦ cc (rw (room, safe, large) at e)
        | inr small ↦
            let (short, entries, total, fits) =
              read_fine (codec.clean name) content (record f { entries = suc f.entries }) g
                (rw (room, safe, small) at e) in
            ((safe, ground arith, short), (entries, total, ground arith, fits))
      ]
    ]
  ]

  -- what the loop makes of a file that it accepts
  abbrev pub taken : String → Bytes → Files → Files
  taken name content f =
      store_file codec (codec.clean name) content
        (counted codec (length content) (record f { entries = suc f.entries }))

  pub accept-taken :
      (name : String) (size : ℕ) (content : Bytes) (f : Files)
      → IsFine (regular name size (some content))
      → suc f.entries ≤ max_entries
      → f.total_bytes + length content ≤ max_archive_bytes
      → accept codec name size (some content) f ≡ ok (taken name content f)
  unfolding accept
  accept-taken name size content f (safe, small, short) room fits =
      let a : ltb max_entries (suc f.entries) ≡ false = not_ltb _ _ room in
      let b : ltb max_file_bytes size ≡ false = not_ltb _ _ small in
      let c : ltb max_file_bytes (length content) ≡ false = not_ltb _ _ short in
      let d : ltb max_archive_bytes (f.total_bytes + length content) ≡ false = not_ltb _ _ fits in
      rw (limited_short (suc max_file_bytes) content (omega arith), a, safe, b, c, d) refl

  pub Accepted-counts :
      (name : String) (size : ℕ) (content : Bytes) (f g : Files)
      → accept codec name size (some content) f ≡ ok g
      → Accepted f (length content) g
  Accepted-counts name size content f g e = (accept-IsFine name size content f g e).1

  unread : (name : String) (size : ℕ) (f g : Files) → accept codec name size none f ≡ ok g → ⊥
  unfolding accept
  unread name size f g e = elim (Bool-cases (ltb max_entries (suc f.entries))) [
    | inl full ↦ cc (rw full at e)
    | inr room ↦ elim (Bool-cases (is_unsafe (codec.clean name))) [
      | inl unsafe ↦ cc (rw (room, unsafe) at e)
      | inr safe ↦ elim (Bool-cases (ltb max_file_bytes size)) [
        | inl large ↦ cc (rw (room, safe, large) at e)
        | inr small ↦ cc (rw (room, safe, small) at e)
      ]
    ]
  ]

  -- the limits, from the counts of the entries before
  abbrev pub Fits : List Member → Files → Type 0
  Fits ms f =
      All IsFine ms
      × (f.entries + file_count ms ≤ max_entries)
      × (f.total_bytes + byte_count ms ≤ max_archive_bytes)

  scan-Fits :
      (ms : List Member) (f g : Files)
      → f.entries ≤ max_entries
      → f.total_bytes ≤ max_archive_bytes
      → scan codec ms f ≡ ok g
      → Fits ms f
  unfolding scan
  scan-Fits [] f g entries total e = (tt, omega arith, omega arith)
  scan-Fits (broken ∷ ms) f g entries total e = cc
  scan-Fits (irregular ∷ ms) f g entries total e =
      let (fine, few, short) = scan-Fits ms f g entries total e in ((tt, fine), few, short)
  scan-Fits (regular name size none ∷ ms) f g entries total e =
      let (h, accepted, later) =
        and_then-eq-ok (accept codec name size none f) (scan codec ms) g e in
      absurd (unread name size f h accepted)
  scan-Fits (regular name size (some content) ∷ ms) f g entries total e =
      let (h, accepted, later) =
        and_then-eq-ok (accept codec name size (some content) f) (scan codec ms) g e in
      let (fine, (counts, sum, room, fits)) = accept-IsFine name size content f h accepted in
      let (rest, few, short) = scan-Fits ms h g (rw counts room) (rw sum fits) later in
      ((fine, rest), omega (arith, counts, few), omega (arith, sum, short))

  Fits-scan : (ms : List Member) (f : Files) → Fits ms f → (g : Files) × (scan codec ms f ≡ ok g)
  unfolding scan
  Fits-scan [] f fits = (f, refl)
  Fits-scan (broken ∷ ms) f ((bad, rest), few, short) = absurd bad
  Fits-scan (irregular ∷ ms) f ((fine, rest), few, short) = Fits-scan ms f (rest, few, short)
  Fits-scan (regular name size none ∷ ms) f ((bad, rest), few, short) = absurd bad
  Fits-scan (regular name size (some content) ∷ ms) f ((fine, rest), few, short) =
      let h = taken name content f in
      let accepted =
        accept-taken name size content f fine (omega (arith, few)) (omega (arith, short)) in
      let (counts, sum, room, fits) = Accepted-counts name size content f h accepted in
      let (g, later) =
        Fits-scan ms h (rest, omega (arith, counts, few), omega (arith, sum, short)) in
      (g, rw accepted later)

  -- the loop against the counts over all the entries
  pub scan-IsFine :
      (ms : List Member)
      → ((g : Files) × (scan codec ms no_files ≡ ok g))
        ↔ (All IsFine ms × (file_count ms ≤ max_entries) × (byte_count ms ≤ max_archive_bytes))
  scan-IsFine ms = (
    λ (g, e).
        let (fine, few, short) = scan-Fits ms no_files g (omega arith) (omega arith) e in
        (fine, omega (arith, few), omega (arith, short)),
    λ (fine, few, short). Fits-scan ms no_files (fine, omega (arith, few), omega (arith, short)),
  )
