-- ===== src/Text/Equality.antt =====
-- Bytes of a text, and the comparison of two texts.
use Prim.Native.Char.{code}
use Prim.Native.String.{String}
use sni_shaper_linux.Prelude.{
  ℕ, ◌≡◌, refl, ◌↔◌, Bool, true, false, ◌&&◌, ◌||◌, List, [], ◌∷◌, ◌==◌, arith,
}

abbrev pub Bytes : Type 0
Bytes = List ℕ

-- the code points of a literal; these are its bytes, since it is ASCII
abbrev pub codes : String → Bytes
codes String.[] = []
codes (String.◌∷◌ c s) = code c ∷ codes s

-- `s == t`
unfoldable pub str_eq : Bytes → Bytes → Bool
str_eq [] [] = true
str_eq [] (d ∷ t) = false
str_eq (c ∷ s) [] = false
str_eq (c ∷ s) (d ∷ t) = c == d && str_eq s t

str_eq→≡ : (s t : Bytes) → str_eq s t ≡ true → s ≡ t
unfolding str_eq
str_eq→≡ [] [] h = refl
str_eq→≡ [] (d ∷ t) h = ground arith
str_eq→≡ (c ∷ s) [] h = ground arith
str_eq→≡ (c ∷ s) (d ∷ t) h = ground (arith, str_eq→≡ s t)

pub str_eq_refl : (s : Bytes) → str_eq s s ≡ true
unfolding str_eq
str_eq_refl [] = refl
str_eq_refl (c ∷ s) = ground (arith, str_eq_refl s)

pub str_eq_iff : (s t : Bytes) → (str_eq s t ≡ true) ↔ (s ≡ t)
str_eq_iff s t = (str_eq→≡ s t, λ e. rw e (str_eq_refl t))

-- Membership of a text in a list of texts.
unfoldable pub mem_str : Bytes → List Bytes → Bool
mem_str s [] = false
mem_str s (t ∷ ts) = elim (str_eq t s) [ true ↦ true | false ↦ mem_str s ts ]

-- A member is one of the elements.
pub mem_str_cons :
    (s t : Bytes) (ts : List Bytes) → mem_str s (t ∷ ts) ≡ (str_eq t s || mem_str s ts)
unfolding mem_str
mem_str_cons s t ts = ground arith
