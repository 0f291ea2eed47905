-- ===== src/Archives/Text.antt =====
-- What ParsePmdl of pkg/services/policymodules_import.go uses of the package strings.
use Prim.Native.Char.{code}
use pluris.Prelude.{ℕ, suc, String, if◌then◌else◌, nat_eq}
use pluris.Conditions.Text.{has_prefix}

-- strings.Count of a slash
unfoldable pub slashes : String → ℕ
slashes String.[] = 0
slashes (String.◌∷◌ c s) = if nat_eq (code c) b'/' then suc (slashes s) else slashes s

unfoldable pub drop_prefix : String → String → String
drop_prefix String.[] p = String.[]
drop_prefix (String.◌∷◌ c s) String.[] = String.◌∷◌ c s
drop_prefix (String.◌∷◌ c s) (String.◌∷◌ d p) = drop_prefix s p

-- strings.SplitN(s, part, 2), where the part occurs
unfoldable pub split_first : String → String → String × String
unfolding drop_prefix has_prefix
split_first String.[] part = (String.[], String.[])
split_first (String.◌∷◌ c s) part =
    let rest = split_first s part in
    if has_prefix (String.◌∷◌ c s) part
    then (String.[], drop_prefix (String.◌∷◌ c s) part)
    else (String.◌∷◌ c rest.0, rest.1)
