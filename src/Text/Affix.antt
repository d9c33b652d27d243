-- ===== src/Text/Affix.antt =====
-- What prefixes, suffixes and membership mean.
use mathlib.Core.List.{reverse, reverse-append, reverse-reverse}
use sni_shaper_linux.Prelude.{
  ◌-◌, ◌≤◌, ◌≡◌, ◌∙◌, refl, sym, ap, ◌↔◌, true, [], ◌∷◌, ◌++◌, length, take, arith, length-append,
}
use sni_shaper_linux.Text.Equality.{Bytes}
use sni_shaper_linux.Text.Cut.{has_prefix, has_suffix, trim_suffix}

has_prefix→ : (s p : Bytes) → has_prefix s p ≡ true → (q : Bytes) × (s ≡ p ++ q)
unfolding has_prefix
has_prefix→ s [] h = (s, refl)
has_prefix→ [] (d ∷ p) h = ground arith
has_prefix→ (c ∷ s) (d ∷ p) h = let (q, e) = has_prefix→ s p (ground arith) in (q, ground arith)

pub has_prefix-append : (p q : Bytes) → has_prefix (p ++ q) p ≡ true
unfolding has_prefix
has_prefix-append [] q = refl
has_prefix-append (c ∷ p) q = ground (arith, has_prefix-append p q)

-- A prefix is what the text begins with.
pub has_prefix_iff : (s p : Bytes) → (has_prefix s p ≡ true) ↔ ((q : Bytes) × (s ≡ p ++ q))
has_prefix_iff s p = (has_prefix→ s p, λ (q, e). rw e (has_prefix-append p q))

pub has_suffix-append : (q p : Bytes) → has_suffix (q ++ p) p ≡ true
unfolding has_suffix
has_suffix-append q p = rw (reverse-append q p) (has_prefix-append (reverse p) (reverse q))

has_suffix→ : (s p : Bytes) → has_suffix s p ≡ true → (q : Bytes) × (s ≡ q ++ p)
unfolding has_suffix
has_suffix→ s p h =
    let (q, e) = has_prefix→ (reverse s) (reverse p) h in
    (
      reverse q,
      sym (reverse-reverse s)
          ∙ ap reverse e
          ∙ reverse-append (reverse p) q
          ∙ ap (λ x. reverse q ++ x) (reverse-reverse p),
    )

-- A suffix is what the text ends with.
pub has_suffix_iff : (s p : Bytes) → (has_suffix s p ≡ true) ↔ ((q : Bytes) × (s ≡ q ++ p))
has_suffix_iff s p = (has_suffix→ s p, λ (q, e). rw e (has_suffix-append q p))

pub has_suffix-le : (s p : Bytes) → has_suffix s p ≡ true → length p ≤ length s
has_suffix-le s p h =
    let (q, e) = has_suffix→ s p h in omega (arith, ap length e, length-append q p)

take-append : (q p : Bytes) → take (length q) (q ++ p) ≡ q
take-append [] p = refl
take-append (c ∷ q) p = rw (take-append q p)

pub trim_suffix-append : (q p : Bytes) → trim_suffix (q ++ p) p ≡ q
unfolding trim_suffix
trim_suffix-append q p =
    let kept : length (q ++ p) - length p ≡ length q = omega (arith, length-append q p) in
    rw (has_suffix-append q p, kept) (take-append q p)
