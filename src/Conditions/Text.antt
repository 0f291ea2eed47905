-- ===== src/Conditions/Text.antt =====
-- The functions of Go's `strings` that the conditions use, on the characters of a text.
use Prim.Native.Char.{Char, code}
use Prim.Native.String.{[], ◌∷◌}
use pluris.Prelude.{String, Bool, true, false, ◌&&◌, ◌||◌, if◌then◌else◌, nat_eq}

abbrev same_char : Char → Char → Bool
same_char c d = nat_eq (code c) (code d)

-- strings.HasPrefix
unfoldable pub has_prefix : String → String → Bool
has_prefix v [] = true
has_prefix [] (c ∷ p) = false
has_prefix (d ∷ v) (c ∷ p) = same_char d c && has_prefix v p

-- strings.Contains
unfoldable pub has_part : String → String → Bool
has_part [] part = has_prefix [] part
has_part (d ∷ v) part = has_prefix (d ∷ v) part || has_part v part

abbrev pub same_text : String → String → Bool
same_text [] [] = true
same_text [] (d ∷ t) = false
same_text (c ∷ s) [] = false
same_text (c ∷ s) (d ∷ t) = same_char c d && same_text s t

-- strings.HasSuffix
unfoldable pub has_suffix : String → String → Bool
has_suffix [] suffix = same_text [] suffix
has_suffix (d ∷ v) suffix = same_text (d ∷ v) suffix || has_suffix v suffix

trailing : String → String → String
trailing kept [] = kept
trailing kept (c ∷ s) = trailing (if nat_eq (code c) b'/' then s else kept) s

-- `paramKey`: what follows the last slash, or the whole path.
unfoldable pub param_key : String → String
unfolding trailing
param_key path = trailing path path
