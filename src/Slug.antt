-- ===== src/Slug.antt =====
-- The `slugify` helper of pkg/authz/service.go: a display name as a lowercase, dash-separated slug.
use Prim.Native.Char.{Char, code}
use Prim.Native.String.{[], ◌∷◌}
use pluris.Prelude.{
  ℕ, zero, suc, ◌-◌, String, Bool, true, false, ◌&&◌, ◌||◌, not, if◌then◌else◌, leb, nat_eq,
}

abbrev char_at : String → ℕ → Char → Char
char_at [] n d = d
char_at (c ∷ s) zero d = c
char_at (c ∷ s) (suc n) d = char_at s n d

-- `strings.ToLower` on one character, as far as `slugify` can see it: U+0130 and U+212A are the two
-- characters outside ASCII that it lowers to ASCII, and no other is a letter or digit of a slug.
unfoldable pub lower : Char → Char
lower c =
    if leb 65 (code c) && leb (code c) 90
    then char_at "abcdefghijklmnopqrstuvwxyz" (code c - 65) c
    else if nat_eq (code c) 0x130
    then char_at "i" 0 c
    else if nat_eq (code c) 0x212a
    then char_at "k" 0 c
    else c

-- the test `r >= 'a' && r <= 'z' || r >= '0' && r <= '9'`
abbrev pub is_slug_code : ℕ → Bool
is_slug_code n = (leb b'a' n && leb n b'z') || (leb b'0' n && leb n b'9')

-- What the loop writes from here on, given `prevDash` and whether the builder holds anything.
unfoldable pub slug_from : Bool → Bool → String → String
slug_from prev_dash nonempty [] = []
slug_from prev_dash nonempty (c ∷ s) =
    let kept = lower c ∷ slug_from false true s in
    let dashed = char_at "-" 0 c ∷ slug_from true true s in
    let skipped = slug_from prev_dash nonempty s in
    if is_slug_code (code (lower c))
    then kept
    else if not prev_dash && nonempty
    then dashed
    else skipped

-- `strings.TrimSuffix(s, "-")`
unfoldable pub trim_dash : String → String
trim_dash [] = []
trim_dash (c ∷ []) = if nat_eq (code c) b'-' then [] else c ∷ []
trim_dash (c ∷ d ∷ s) = c ∷ trim_dash (d ∷ s)

unfoldable pub slugify : String → String
unfolding slug_from trim_dash lower
slugify name = trim_dash (slug_from false false name)
