-- ===== src/Prelude/Outcomes.antt =====
-- What a Go call ends in: a value, an error that it returns, a run-time panic (an index or a
-- slice out of range, a division by zero). `out_of_fuel` belongs to the model only.
use Prim.Native.Nat.{ℕ, ◌-◌}
use mathlib.Core.Bool.{Bool, true, false, ◌&&◌}
use mathlib.Core.List.{List}
use sni_shaper_linux.Prelude.Tests.{ltb, leb, if◌then◌else◌}
use sni_shaper_linux.Prelude.Lists.{length, get_or, take, drop}

pub data Outcome {ℓ} (E : Type 0) (A : Type ℓ) : Type ℓ where
  ok : A → Outcome E A
  err : E → Outcome E A
  panic : Outcome E A
  out_of_fuel : Outcome E A

infixl 5 ◌>>=◌ ◌>>◌
abbrev pub ◌>>=◌ {ℓ κ} :
    {E : Type 0} {A : Type ℓ} {B : Type κ} → Outcome E A → (A → Outcome E B) → Outcome E B
ok a >>= f = f a
err e >>= f = err e
panic >>= f = panic
out_of_fuel >>= f = out_of_fuel

abbrev pub ◌>>◌ {ℓ} : {E : Type 0} {B : Type ℓ} → Outcome E (Unit {0}) → Outcome E B → Outcome E B
m >> k = m >>= λ _. k

-- `if bad { return ..., e }`
abbrev pub reject_if : {E : Type 0} → Bool → E → Outcome E (Unit {0})
reject_if true e = err e
reject_if false e = ok tt

-- `data[i]`
abbrev pub at {ℓ} : {E : Type 0} {A : Type ℓ} → A → List A → ℕ → Outcome E A
at d xs i = if ltb i (length xs) then ok (get_or xs i d) else panic

-- `data[a:b]` of a slice whose capacity is its length
abbrev pub slice {ℓ} : {E : Type 0} {A : Type ℓ} → List A → ℕ → ℕ → Outcome E (List A)
slice xs a b = if leb a b && leb b (length xs) then ok (take (b - a) (drop a xs)) else panic

-- The call returns, with no panic: a value of which `P` holds, or an error.
abbrev pub Returns {ℓ} : {E : Type 0} {A : Type ℓ} → (A → Type 0) → Outcome E A → Type 0
Returns P (ok a) = P a
Returns P (err e) = Unit
Returns P panic = ⊥
Returns P out_of_fuel = ⊥

pub Returns-bind {ℓ κ} :
    {E : Type 0} {A : Type ℓ} {B : Type κ} (P : A → Type 0) (Q : B → Type 0) (m : Outcome E A)
    (f : A → Outcome E B)
    → Returns P m
    → ((a : A) → P a → Returns Q (f a))
    → Returns Q (m >>= f)
Returns-bind P Q (ok a) f h k = k a h
Returns-bind P Q (err e) f h k = tt
Returns-bind P Q panic f h k = absurd h
Returns-bind P Q out_of_fuel f h k = absurd h
