-- ===== src/Tls/Fragment/Split.antt =====
-- `splitAndAppend` loses no byte: the parts, joined, are the data.
use sni_shaper_linux.Prelude.{
  ℕ, zero, suc, ◌+◌, ◌*◌, ◌/◌, ◌≤◌, ◌≡◌, ◌∙◌, refl, sym, [], ◌∷◌, arith, length, drop, concat,
  append-nil, take-append-drop, ltb, ◌==◌, ◌||◌, ap, length-take, length-drop, All, Bool-cases, inl,
  inr,
}
use sni_shaper_linux.Text.{Bytes}
use sni_shaper_linux.Tls.Fragment.{split_loop, split_parts}

drop-nil : (n : ℕ) → drop {A = ℕ} n [] ≡ []
drop-nil zero = refl
drop-nil (suc n) = refl

pub drop-drop : (m n k : ℕ) (d : Bytes) → m + n ≡ k → drop n (drop m d) ≡ drop k d
drop-drop zero n k d e = ap (λ (x : ℕ). drop x d) (omega arith)
drop-drop (suc m) n k [] e = drop-nil n ∙ sym (drop-nil k)
drop-drop (suc m) n zero (c ∷ d) e = absurd (omega arith)
drop-drop (suc m) n (suc k) (c ∷ d) e = drop-drop m n k d (omega arith)

concat-split_loop : (d : Bytes) (base i k : ℕ) → concat (split_loop d base i k) ≡ drop (i * base) d
unfolding split_loop
concat-split_loop d base i zero = append-nil _
concat-split_loop d base i (suc k) =
    rw
      (
        concat-split_loop d base (i + 1) k,
        ← drop-drop (i * base) base ((i + 1) * base) d (grind arith),
      )
      (take-append-drop base (drop (i * base) d))

pub concat-split_loop_all : (d : Bytes) (base k : ℕ) → concat (split_loop d base 0 k) ≡ d
concat-split_loop_all d base k =
    let none_dropped : 0 * base ≡ 0 = omega arith in concat-split_loop d base 0 k ∙ rw none_dropped

pub concat-split_parts : (d : Bytes) (k : ℕ) → concat (split_parts d (suc k)) ≡ d
unfolding split_parts
concat-split_parts d k = elim (Bool-cases (suc k == 1 || ltb (length d) (suc k))) [
  | inl whole ↦ rw whole (append-nil d)
  | inr cut ↦ rw cut (concat-split_loop_all d (length d / suc k) k)
]

split_loop_lengths :
    (d : Bytes) (base i k m : ℕ) → length d ≤ m → All (λ p. length p ≤ m) (split_loop d base i k)
unfolding split_loop
split_loop_lengths d base i zero m h = (omega (arith, length-drop (i * base) d), tt)
split_loop_lengths d base i (suc k) m h = (
  omega (arith, length-take base (drop (i * base) d), length-drop (i * base) d),
  split_loop_lengths d base (i + 1) k m h,
)

-- No part is longer than the data.
pub split_parts_lengths :
    (d : Bytes) (n m : ℕ) → length d ≤ m → All (λ p. length p ≤ m) (split_parts d n)
unfolding split_parts
split_parts_lengths d zero m h = tt
split_parts_lengths d (suc k) m h = elim (Bool-cases (suc k == 1 || ltb (length d) (suc k))) [
  | inl whole ↦ rw (whole, All) (h, tt)
  | inr cut ↦ rw (cut, All) (split_loop_lengths d (length d / suc k) 0 k m h)
]

length-split_loop : (d : Bytes) (base i k : ℕ) → length (split_loop d base i k) ≡ suc k
unfolding split_loop
length-split_loop d base i zero = refl
length-split_loop d base i (suc k) = ap suc (length-split_loop d base (i + 1) k)

-- There are `n` parts at most.
pub length-split_parts-le : (d : Bytes) (k : ℕ) → length (split_parts d (suc k)) ≤ suc k
unfolding split_parts
length-split_parts-le d k = ground (arith, length-split_loop d (length d / suc k) 0 k)
