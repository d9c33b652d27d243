-- ===== src/Prelude/Lists.antt =====
-- Lists measured and indexed by native numbers, under the library's names.
use Prim.Native.Nat.{ℕ, zero, suc, ◌+◌, ◌-◌, min}
use mathlib.Core.Path.{◌≡◌, refl, ap, sym, ◌∙◌}
use mathlib.Core.Bool.{Bool, true, false, ◌||◌}
use mathlib.Core.List.{List, [], ◌∷◌, ◌++◌, map}
use mathlib.Core.Option.{Option, none, some}
use mathlib.Core.Logic.{◌⊎◌, inl, inr, ◌↔◌}
use native.Mathlib.Omega.{arith}
use sni_shaper_linux.Prelude.Tests.{if◌then◌else◌, Bool-cases}

module _ {ℓ} {A : Type ℓ} where
  abbrev pub length : List A → ℕ
  length [] = 0
  length (x ∷ xs) = suc (length xs)

  abbrev pub get_elem? : List A → ℕ → Option A
  get_elem? [] i = none
  get_elem? (x ∷ xs) zero = some x
  get_elem? (x ∷ xs) (suc i) = get_elem? xs i

  abbrev pub get_or : List A → ℕ → A → A
  get_or [] i d = d
  get_or (x ∷ xs) zero d = x
  get_or (x ∷ xs) (suc i) d = get_or xs i d

  -- A write out of bounds changes nothing.
  abbrev pub set : List A → ℕ → A → List A
  set [] i v = []
  set (x ∷ xs) zero v = v ∷ xs
  set (x ∷ xs) (suc i) v = x ∷ set xs i v

  abbrev pub take : ℕ → List A → List A
  take zero xs = []
  take (suc n) [] = []
  take (suc n) (x ∷ xs) = x ∷ take n xs

  abbrev pub drop : ℕ → List A → List A
  drop zero xs = xs
  drop (suc n) [] = []
  drop (suc n) (x ∷ xs) = drop n xs

  -- The elements that pass a test, in order.
  abbrev pub select : (A → Bool) → List A → List A
  select p [] = []
  select p (x ∷ xs) = if p x then x ∷ select p xs else select p xs

  abbrev pub any : (A → Bool) → List A → Bool
  any p [] = false
  any p (x ∷ xs) = p x || any p xs

  abbrev pub concat : List (List A) → List A
  concat [] = []
  concat (x ∷ xs) = x ++ concat xs

  -- The list without the element at a place.
  abbrev pub without : ℕ → List A → List A
  without i xs = take i xs ++ drop (suc i) xs

  pub length-append : (xs ys : List A) → length (xs ++ ys) ≡ length xs + length ys
  length-append [] ys = omega arith
  length-append (x ∷ xs) ys = omega (arith, length-append xs ys)

  pub take-append-drop : (n : ℕ) (xs : List A) → take n xs ++ drop n xs ≡ xs
  take-append-drop zero xs = refl
  take-append-drop (suc n) [] = refl
  take-append-drop (suc n) (x ∷ xs) = rw (take-append-drop n xs)

  pub length-take : (n : ℕ) (xs : List A) → length (take n xs) ≡ min n (length xs)
  length-take zero xs = omega arith
  length-take (suc n) [] = omega arith
  length-take (suc n) (x ∷ xs) = omega (arith, length-take n xs)

  pub length-drop : (n : ℕ) (xs : List A) → length (drop n xs) ≡ length xs - n
  length-drop zero xs = omega arith
  length-drop (suc n) [] = omega arith
  length-drop (suc n) (x ∷ xs) = omega (arith, length-drop n xs)

  pub length-set : (xs : List A) (i : ℕ) (v : A) → length (set xs i v) ≡ length xs
  length-set [] i v = refl
  length-set (x ∷ xs) zero v = refl
  length-set (x ∷ xs) (suc i) v = ap suc (length-set xs i v)

module _ {ℓ κ} {A : Type ℓ} (P : A → Type κ) where
  -- `P` holds of every element.
  abbrev pub All : List A → Type κ
  All [] = Unit
  All (x ∷ xs) = P x × All xs

  pub All-append : (xs ys : List A) → All xs → All ys → All (xs ++ ys)
  All-append [] ys _ hy = hy
  All-append (x ∷ xs) ys (px, hx) hy = (px, All-append xs ys hx hy)

module _ {A : Type 0} where
  abbrev pub IsIn : A → List A → Type 0
  IsIn x [] = ⊥
  IsIn x (y ∷ ys) = (x ≡ y) ⊎ IsIn x ys

  any→ : (p : A → Bool) (xs : List A) → any p xs ≡ true → (x : A) × (IsIn x xs × (p x ≡ true))
  any→ p [] h = ground arith
  any→ p (x ∷ xs) h = elim (Bool-cases (p x)) [
    | inl e ↦ (x, (inl refl, e))
    | inr e ↦ let (y, (i, at_y)) = any→ p xs (ground arith) in (y, (inr i, at_y))
  ]

  →any : (p : A → Bool) (xs : List A) (x : A) → IsIn x xs → p x ≡ true → any p xs ≡ true
  →any p [] x i h = absurd i
  →any p (y ∷ xs) x (inl e) h = let here : p y ≡ true = ap p (sym e) ∙ h in ground arith
  →any p (y ∷ xs) x (inr i) h = ground (arith, →any p xs x i h)

  pub any_iff :
      (p : A → Bool) (xs : List A) → (any p xs ≡ true) ↔ ((x : A) × (IsIn x xs × (p x ≡ true)))
  any_iff p xs = (any→ p xs, λ (x, (i, h)). →any p xs x i h)

module _ {A B : Type 0} (f : A → B) where
  pub IsIn-map : (y : B) (xs : List A) → IsIn y (map f xs) → (x : A) × (IsIn x xs × (y ≡ f x))
  IsIn-map y [] h = absurd h
  IsIn-map y (x ∷ xs) (inl e) = (x, (inl refl, e))
  IsIn-map y (x ∷ xs) (inr h) = let (z, (i, e)) = IsIn-map y xs h in (z, (inr i, e))

  pub map-IsIn : (y : B) (x : A) (xs : List A) → IsIn x xs → y ≡ f x → IsIn y (map f xs)
  map-IsIn y x [] h e = absurd h
  map-IsIn y x (z ∷ xs) (inl p) e = inl (e ∙ ap f p)
  map-IsIn y x (z ∷ xs) (inr h) e = inr (map-IsIn y x xs h e)
