-- ===== src/Text/Decimal.antt =====
-- `%d` of a natural number, and the digits of a text read back.
use Prim.Native.Nat.{◌*◌, ◌/◌, ◌%◌}
use sni_shaper_linux.Prelude.{
  ℕ, zero, suc, ◌+◌, ◌-◌, ◌≤◌, ◌<◌, ◌≡◌, ◌∙◌, ap, Bool-cases, inl, inr, true, arith, leb, ltb,
  if◌then◌else◌, ◌&&◌, Option, none, some, [], ◌∷◌, ◌++◌, All, All-append, if_either,
}
use sni_shaper_linux.Text.Equality.{Bytes}

digits : ℕ → ℕ → Bytes
digits zero n = []
digits (suc fuel) n =
    let more = digits fuel (n / 10) in (if ltb n 10 then [] else more) ++ (48 + n % 10) ∷ []

-- An `int` of 64 bits has nineteen digits at most.
unfoldable pub decimal : ℕ → Bytes
unfolding digits
decimal n = digits 19 n

-- The digits of a text as a number, behind what was read before.
abbrev pub read_digits : ℕ → Bytes → Option ℕ
read_digits n [] = some n
read_digits n (c ∷ s) =
    let rest = read_digits (n * 10 + (c - 48)) s in if leb 48 c && leb c 57 then rest else none

abbrev pub IsDigit : ℕ → Type 0
IsDigit c = (48 ≤ c) × (c ≤ 57)

digits-IsDigit : (fuel n : ℕ) → All IsDigit (digits fuel n)
unfolding digits
digits-IsDigit zero n = tt
digits-IsDigit (suc fuel) n =
    let last : All IsDigit ((48 + n % 10) ∷ []) = ((omega arith, omega arith), tt) in
    let more = digits-IsDigit fuel (n / 10) in
    All-append IsDigit (if ltb n 10 then [] else digits fuel (n / 10)) ((48 + n % 10) ∷ [])
      (if_either (All IsDigit) (ltb n 10) tt more) last

pub decimal-IsDigit : (n : ℕ) → All IsDigit (decimal n)
unfolding decimal
decimal-IsDigit n = digits-IsDigit 19 n

-- Ten to the power of the number of digits.
abbrev power : ℕ → ℕ
power zero = 1
power (suc k) = 10 * power k

read_digits-append :
    (a v d : ℕ) (s : Bytes)
    → read_digits a s ≡ some v
    → IsDigit (48 + d)
    → read_digits a (s ++ ((48 + d) ∷ [])) ≡ some (v * 10 + d)
read_digits-append a v d [] e (low, high) = ground arith
read_digits-append a v d (c ∷ s) e h = elim (Bool-cases (leb 48 c && leb c 57)) [
  | inl digit ↦ ground (arith, read_digits-append (a * 10 + (c - 48)) v d s (ground arith) h)
  | inr other ↦ ground arith
]

read_digits-digits :
    (fuel n : ℕ) → n < power (suc fuel) → read_digits 0 (digits (suc fuel) n) ≡ some n
unfolding digits
read_digits-digits zero n h =
    let small : ltb n 10 ≡ true = ground arith in
    let whole : n % 10 ≡ n = omega arith in rw (small, whole) (ground arith)
read_digits-digits (suc fuel) n h =
    let again : read_digits 0 (digits (suc fuel) (n / 10)) ≡ some (n / 10) =
      read_digits-digits fuel (n / 10) (omega arith) in
    elim (Bool-cases (ltb n 10)) [
      | inl small ↦ let whole : n % 10 ≡ n = ground arith in rw (small, whole) (ground arith)
      | inr large ↦ rw large (
          read_digits-append 0 (n / 10) (n % 10) (digits (suc fuel) (n / 10)) again
            (omega arith, omega arith)
          ∙ ap some (omega arith))
    ]

pub read_digits-decimal : (n : ℕ) → n < 10000000000000000000 → read_digits 0 (decimal n) ≡ some n
unfolding decimal
read_digits-decimal n h = read_digits-digits 18 n h
