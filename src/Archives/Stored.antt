-- ===== src/Archives/Stored.antt =====
-- What the loop of ParsePmdl has stored of an archive that is within the limits.
use pluris.Prelude.{suc, String, some, List, [], ◌∷◌, ◌++◌, length, ok, ◌≡◌, refl, ap, ◌∙◌, arith}
use pluris.Archives.{Bytes, Member, regular, Codec, Files, store_file, counted, accept, scan}
use pluris.Archives.Limits.{Fits, accept-taken, Accepted-counts}

-- A file of an archive: its name and its content.
abbrev pub Entry : Type 0
Entry = String × Bytes

-- What tar.Reader.Next gives for a file that tar.Writer wrote.
abbrev pub members : List Entry → List Member
members [] = []
members ((name, content) ∷ es) = regular name (length content) (some content) ∷ members es

pub members-append : (es fs : List Entry) → members (es ++ fs) ≡ members es ++ members fs
members-append [] fs = refl
members-append ((name, content) ∷ es) fs =
    ap (λ (ms : List Member). regular name (length content) (some content) ∷ ms)
      (members-append es fs)

-- The names that path.Clean leaves alone.
abbrev pub AreClean : Codec → List Entry → Type 0
AreClean codec [] = Unit
AreClean codec ((name, content) ∷ es) = (codec.clean name ≡ name) × AreClean codec es

module _ (codec : Codec) where
  abbrev pub counted_entry : Bytes → Files → Files
  counted_entry content f = counted codec (length content) (record f { entries = suc f.entries })

  -- The files one after the other, without the tests.
  abbrev pub stored : List Entry → Files → Files
  stored [] f = f
  stored ((name, content) ∷ es) f =
      stored es (store_file codec name content (counted_entry content f))

  pub stored-append :
      (es fs : List Entry) (f : Files) → stored (es ++ fs) f ≡ stored fs (stored es f)
  stored-append [] fs f = refl
  stored-append ((name, content) ∷ es) fs f =
      stored-append es fs (store_file codec name content (counted_entry content f))

  pub scan-stored :
      (es : List Entry) (f : Files)
      → AreClean codec es
      → Fits codec (members es) f
      → scan codec (members es) f ≡ ok (stored es f)
  unfolding scan
  scan-stored [] f clean fits = refl
  scan-stored ((name, content) ∷ es) f (clean, cleans) ((fine, rest), few, short) =
      let n = length content in
      let h = store_file codec name content (counted_entry content f) in
      let accepted : accept codec name n (some content) f ≡ ok h =
        accept-taken codec name n content f fine (omega (arith, few)) (omega (arith, short))
        ∙ ap (λ (u : String). ok (store_file codec u content (counted_entry content f))) clean in
      let (counts, sum, room, fits) = Accepted-counts codec name n content f h accepted in
      let later =
        scan-stored es h cleans (rest, omega (arith, counts, few), omega (arith, sum, short)) in
      rw accepted later
