-- ===== src/Prelude/Members.antt =====
-- What is in a list that is put together, or chosen, of others.
use mathlib.Core.Path.{◌≡◌, ap, sym, subst, ◌∙◌}
use mathlib.Core.Bool.{Bool, true}
use mathlib.Core.List.{List, [], ◌∷◌, ◌++◌}
use mathlib.Core.Logic.{◌⊎◌, inl, inr}
use sni_shaper_linux.Prelude.Tests.{if◌then◌else◌, Bool-cases}
use sni_shaper_linux.Prelude.Lists.{IsIn, select}

module _ {A : Type 0} where
  pub IsIn-append : (x : A) (xs ys : List A) → IsIn x (xs ++ ys) → IsIn x xs ⊎ IsIn x ys
  IsIn-append x [] ys h = inr h
  IsIn-append x (y ∷ xs) ys (inl e) = inl (inl e)
  IsIn-append x (y ∷ xs) ys (inr h) = elim (IsIn-append x xs ys h) [
    | inl l ↦ inl (inr l)
    | inr r ↦ inr r
  ]

  pub append-IsIn-left : (x : A) (xs ys : List A) → IsIn x xs → IsIn x (xs ++ ys)
  append-IsIn-left x [] ys h = absurd h
  append-IsIn-left x (y ∷ xs) ys (inl e) = inl e
  append-IsIn-left x (y ∷ xs) ys (inr h) = inr (append-IsIn-left x xs ys h)

  pub append-IsIn-right : (x : A) (xs ys : List A) → IsIn x ys → IsIn x (xs ++ ys)
  append-IsIn-right x [] ys h = h
  append-IsIn-right x (y ∷ xs) ys h = inr (append-IsIn-right x xs ys h)

module _ {A : Type 0} (p : A → Bool) where
  pub select→ : (xs : List A) (x : A) → IsIn x (select p xs) → IsIn x xs × (p x ≡ true)
  select→ [] x i = absurd i
  select→ (y ∷ ys) x i = elim (Bool-cases (p y)) [
    | inl keep ↦
        let here : IsIn x (y ∷ select p ys) =
          subst (λ b. IsIn x (if b then y ∷ select p ys else select p ys)) keep i in
        elim here [
          | inl e ↦ (inl e, ap p e ∙ keep)
          | inr j ↦ let (k, h) = select→ ys x j in (inr k, h)
        ]
    | inr drop ↦
        let there : IsIn x (select p ys) =
          subst (λ b. IsIn x (if b then y ∷ select p ys else select p ys)) drop i in
        let (k, h) = select→ ys x there in (inr k, h)
  ]

  pub →select : (xs : List A) (x : A) → IsIn x xs → p x ≡ true → IsIn x (select p xs)
  →select [] x i h = absurd i
  →select (y ∷ ys) x (inl e) h =
      subst (λ b. IsIn x (if b then y ∷ select p ys else select p ys)) (sym (ap p (sym e) ∙ h))
        (inl e)
  →select (y ∷ ys) x (inr i) h = elim (Bool-cases (p y)) [
    | inl keep ↦
        subst (λ b. IsIn x (if b then y ∷ select p ys else select p ys)) (sym keep)
          (inr (→select ys x i h))
    | inr drop ↦
        subst (λ b. IsIn x (if b then y ∷ select p ys else select p ys)) (sym drop)
          (→select ys x i h)
  ]
