-- ===== src/Text/Parts.antt =====
-- Splitting at a byte, label by label.
use sni_shaper_linux.Prelude.{
  ℕ, ◌≡◌, ◌∙◌, refl, sym, ap, false, List, [], ◌∷◌, arith, Bool-cases, inl, inr, ◌==◌, ==_iff,
}
use sni_shaper_linux.Text.Equality.{Bytes}
use sni_shaper_linux.Text.Cut.{split, join, prepend}

pub split-cons : (s : Bytes) (sep : ℕ) → (p : Bytes) × (ps : List Bytes) × (split s sep ≡ p ∷ ps)
unfolding split
split-cons [] sep = ([], [], refl)
split-cons (c ∷ s) sep = elim (Bool-cases (c == sep)) [
  | inl cut ↦ ([], split s sep, rw cut)
  | inr keep ↦ let (p, ps, e) = split-cons s sep in (c ∷ p, ps, rw (keep, e))
]

pub split_at_sep : (s : Bytes) (sep : ℕ) → split (sep ∷ s) sep ≡ [] ∷ split s sep
unfolding split
split_at_sep s sep = ground arith

pub split_other :
    (c : ℕ) (s : Bytes) (sep : ℕ) → (c == sep) ≡ false → split (c ∷ s) sep ≡ prepend c (split s sep)
unfolding split
split_other c s sep h = ground arith

join-prepend :
    (c sep : ℕ) (p : Bytes) (ps : List Bytes) → join ((c ∷ p) ∷ ps) sep ≡ c ∷ join (p ∷ ps) sep
unfolding join
join-prepend c sep p [] = refl
join-prepend c sep p (q ∷ ps) = refl

join_blank :
    (sep : ℕ) (p : Bytes) (ps : List Bytes) → join ([] ∷ p ∷ ps) sep ≡ sep ∷ join (p ∷ ps) sep
unfolding join
join_blank sep p ps = refl

-- Joining the parts of a split gives the text back.
pub join-split : (s : Bytes) (sep : ℕ) → join (split s sep) sep ≡ s
join-split [] sep = unfold join split in refl
join-split (c ∷ s) sep =
    let (p, ps, e) = split-cons s sep in
    let again : join (p ∷ ps) sep ≡ s = ap (λ x. join x sep) (sym e) ∙ join-split s sep in
    elim (Bool-cases (c == sep)) [
      | inl cut ↦
          rw ((==_iff c sep).0 cut, split_at_sep s sep, e)
            (join_blank sep p ps ∙ ap (λ x. sep ∷ x) again)
      | inr keep ↦
          rw (split_other c s sep keep, e) (join-prepend c sep p ps ∙ ap (λ x. c ∷ x) again)
    ]
