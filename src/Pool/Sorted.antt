-- ===== src/Pool/Sorted.antt =====
-- A list of objects that is sorted by latency, and an object that is put into it.
use sni_shaper_linux.Prelude.{
  ℕ, ◌≤◌, ◌≡◌, sym, inl, inr, true, false, List, [], ◌∷◌, arith, ltb, IsIn, All, subst, Bool-cases,
}
use sni_shaper_linux.Pool.Stats.{IpStats, stats_at, insert_ref}

abbrev pub latency_at : List IpStats → ℕ → ℕ
latency_at heap x = (stats_at heap x).latency_val

-- The latencies do not fall.
abbrev pub IsSorted : List IpStats → List ℕ → Type 0
IsSorted heap [] = Unit
IsSorted heap (x ∷ xs) = All (λ y. latency_at heap x ≤ latency_at heap y) xs × IsSorted heap xs

insert-behind :
    (heap : List IpStats) (r x : ℕ) (xs : List ℕ)
    → ltb (latency_at heap x) (latency_at heap r) ≡ true
    → insert_ref heap r (x ∷ xs) ≡ x ∷ insert_ref heap r xs
unfolding insert_ref
insert-behind heap r x xs h = ground arith

insert-before :
    (heap : List IpStats) (r x : ℕ) (xs : List ℕ)
    → ltb (latency_at heap x) (latency_at heap r) ≡ false
    → insert_ref heap r (x ∷ xs) ≡ r ∷ x ∷ xs
unfolding insert_ref
insert-before heap r x xs h = ground arith

All-insert_ref :
    (P : ℕ → Type 0) (heap : List IpStats) (r : ℕ) (xs : List ℕ)
    → P r
    → All P xs
    → All P (insert_ref heap r xs)
unfolding insert_ref
All-insert_ref P heap r [] pr ps = (pr, tt)
All-insert_ref P heap r (x ∷ xs) pr (px, ps) =
    elim (Bool-cases (ltb (latency_at heap x) (latency_at heap r))) [
      | inl e ↦
          subst (All P) (sym (insert-behind heap r x xs e)) (px, All-insert_ref P heap r xs pr ps)
      | inr e ↦ subst (All P) (sym (insert-before heap r x xs e)) (pr, (px, ps))
    ]

-- What holds of all by one bound holds by a lower one.
All-le :
    (heap : List IpStats) (a b : ℕ) (xs : List ℕ)
    → a ≤ b
    → All (λ y. b ≤ latency_at heap y) xs
    → All (λ y. a ≤ latency_at heap y) xs
All-le heap a b [] h ps = tt
All-le heap a b (x ∷ xs) h (p, ps) = (omega arith, All-le heap a b xs h ps)

pub insert_ref-IsSorted :
    (heap : List IpStats) (r : ℕ) (xs : List ℕ)
    → IsSorted heap xs
    → IsSorted heap (insert_ref heap r xs)
unfolding insert_ref
insert_ref-IsSorted heap r [] h = (tt, tt)
insert_ref-IsSorted heap r (x ∷ xs) (low, h) =
    elim (Bool-cases (ltb (latency_at heap x) (latency_at heap r))) [
      | inl e ↦
          let le : latency_at heap x ≤ latency_at heap r = ground arith in
          subst (IsSorted heap) (sym (insert-behind heap r x xs e)) (
            All-insert_ref (λ y. latency_at heap x ≤ latency_at heap y) heap r xs le low,
            insert_ref-IsSorted heap r xs h,
          )
      | inr e ↦
          let le : latency_at heap r ≤ latency_at heap x = ground arith in
          subst (IsSorted heap) (sym (insert-before heap r x xs e))
            ((le, All-le heap (latency_at heap r) (latency_at heap x) xs le low), (low, h))
    ]

pub insert→ :
    (heap : List IpStats) (r z : ℕ) (xs : List ℕ) → IsIn z (insert_ref heap r xs) → IsIn z (r ∷ xs)
unfolding insert_ref
insert→ heap r z [] h = h
insert→ heap r z (x ∷ xs) h = elim (Bool-cases (ltb (latency_at heap x) (latency_at heap r))) [
  | inl e ↦ elim (subst (IsIn z) (insert-behind heap r x xs e) h) [
    | inl same ↦ inr (inl same)
    | inr rest ↦ elim (insert→ heap r z xs rest) [ inl new ↦ inl new | inr old ↦ inr (inr old) ]
  ]
  | inr e ↦ subst (IsIn z) (insert-before heap r x xs e) h
]

pub →insert :
    (heap : List IpStats) (r z : ℕ) (xs : List ℕ) → IsIn z (r ∷ xs) → IsIn z (insert_ref heap r xs)
unfolding insert_ref
→insert heap r z [] h = h
→insert heap r z (x ∷ xs) h = elim (Bool-cases (ltb (latency_at heap x) (latency_at heap r))) [
  | inl e ↦ subst (IsIn z) (sym (insert-behind heap r x xs e)) (elim h [
    | inl new ↦ inr (→insert heap r z xs (inl new))
    | inr rest ↦ elim rest [ inl same ↦ inl same | inr old ↦ inr (→insert heap r z xs (inr old)) ]
  ])
  | inr e ↦ subst (IsIn z) (sym (insert-before heap r x xs e)) h
]
