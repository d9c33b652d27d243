-- ===== src/Text/Cut.antt =====
-- Trimming, lower case, prefixes and suffixes, splitting and joining.
use mathlib.Core.List.{reverse}
use sni_shaper_linux.Prelude.{
  ℕ, ◌+◌, ◌-◌, Bool, true, false, ◌&&◌, ◌||◌, List, [], ◌∷◌, ◌++◌, map, leb, ◌==◌, if◌then◌else◌,
  length, take, drop,
}
use sni_shaper_linux.Text.Equality.{Bytes}

-- '\t', '\n', '\v', '\f', '\r' and ' '
unfoldable pub is_space : ℕ → Bool
is_space c = (leb 9 c && leb c 13) || c == 32

unfoldable pub trim_left : Bytes → Bytes
unfolding is_space
trim_left [] = []
trim_left (c ∷ s) = if is_space c then trim_left s else c ∷ s

-- `strings.TrimSpace`
unfoldable pub trim_space : Bytes → Bytes
unfolding trim_left
trim_space s = reverse (trim_left (reverse (trim_left s)))

unfoldable pub lower : ℕ → ℕ
lower c = if leb b'A' c && leb c b'Z' then c + 32 else c

-- `strings.ToLower`
unfoldable pub to_lower : Bytes → Bytes
unfolding lower
to_lower s = map lower s

unfoldable pub is_empty : Bytes → Bool
is_empty [] = true
is_empty (c ∷ s) = false

-- `strings.HasPrefix(s, p)`
unfoldable pub has_prefix : Bytes → Bytes → Bool
has_prefix s [] = true
has_prefix [] (d ∷ p) = false
has_prefix (c ∷ s) (d ∷ p) = c == d && has_prefix s p

-- `strings.HasSuffix(s, p)`
unfoldable pub has_suffix : Bytes → Bytes → Bool
unfolding has_prefix
has_suffix s p = has_prefix (reverse s) (reverse p)

-- `strings.TrimPrefix(s, p)`
unfoldable pub trim_prefix : Bytes → Bytes → Bytes
unfolding has_prefix
trim_prefix s p = if has_prefix s p then drop (length p) s else s

-- `strings.TrimSuffix(s, p)`
unfoldable pub trim_suffix : Bytes → Bytes → Bytes
unfolding has_suffix
trim_suffix s p = if has_suffix s p then take (length s - length p) s else s

-- puts a byte in front of the first part
abbrev pub prepend : ℕ → List Bytes → List Bytes
prepend c [] = (c ∷ []) ∷ []
prepend c (p ∷ ps) = (c ∷ p) ∷ ps

-- `strings.Split(s, sep)` with a separator of one byte
unfoldable pub split : Bytes → ℕ → List Bytes
split [] sep = [] ∷ []
split (c ∷ s) sep = let parts = split s sep in if c == sep then [] ∷ parts else prepend c parts

-- `strings.Join(parts, sep)` with a separator of one byte
unfoldable pub join : List Bytes → ℕ → Bytes
join [] sep = []
join (p ∷ []) sep = p
join (p ∷ q ∷ ps) sep = p ++ sep ∷ join (q ∷ ps) sep

-- `strings.Contains(s, p)`
unfoldable pub contains : Bytes → Bytes → Bool
unfolding has_prefix
contains [] p = is_empty p
contains (c ∷ s) p = has_prefix (c ∷ s) p || contains s p

-- `strings.Count(s, c)` of one byte
unfoldable pub count_byte : Bytes → ℕ → ℕ
count_byte [] c = 0
count_byte (d ∷ s) c = (if d == c then 1 else 0) + count_byte s c

-- `strings.ReplaceAll(s, c, d)` of one byte by another
unfoldable pub replace_byte : ℕ → ℕ → Bytes → Bytes
replace_byte c d [] = []
replace_byte c d (x ∷ s) = (if x == c then d else x) ∷ replace_byte c d s
