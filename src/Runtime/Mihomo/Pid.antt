-- ===== src/Runtime/Mihomo/Pid.antt =====
-- The file of the process: what is written is what is read.
use mathlib.Core.List.{reverse, reverse-append, reverse-reverse}
use sni_shaper_linux.Prelude.{
  ℕ, ◌≤◌, ◌≡◌, ◌∙◌, refl, sym, ap, subst, some, [], ◌∷◌, arith, All, All-append,
}
use sni_shaper_linux.Text.{
  Bytes, is_space, trim_left, trim_space, decimal, read_digits, IsDigit, decimal-IsDigit,
  read_digits-decimal,
}
use sni_shaper_linux.Runtime.Mihomo.{unsigned, in_range, positive, read_pid}

trim_left-IsDigit : (s : Bytes) → All IsDigit s → trim_left s ≡ s
unfolding trim_left is_space
trim_left-IsDigit [] h = refl
trim_left-IsDigit (c ∷ s) ((low, high), h) = ground arith

reverse-IsDigit : (s : Bytes) → All IsDigit s → All IsDigit (reverse s)
reverse-IsDigit [] h = tt
reverse-IsDigit (c ∷ s) (d, h) =
    subst (All IsDigit) (sym (reverse-append (c ∷ []) s))
      (All-append IsDigit (reverse s) (c ∷ []) (reverse-IsDigit s h) (d, tt))

trim_space-IsDigit : (s : Bytes) → All IsDigit s → trim_space s ≡ s
unfolding trim_space
trim_space-IsDigit s h =
    rw (trim_left-IsDigit s h, trim_left-IsDigit (reverse s) (reverse-IsDigit s h))
      (reverse-reverse s)

unsigned-IsDigit : (s : Bytes) → All IsDigit s → unsigned s ≡ s
unsigned-IsDigit [] h = refl
unsigned-IsDigit (c ∷ []) h = refl
unsigned-IsDigit (c ∷ d ∷ s) ((low, high), h) = ground arith

positive-digits :
    (s : Bytes) (n : ℕ)
    → All IsDigit s
    → read_digits 0 s ≡ some n
    → n ≤ 9223372036854775807
    → positive s ≡ n
positive-digits [] n h e le = ground arith
positive-digits (c ∷ s) n h e le =
    let fits : in_range (some n) ≡ n = ground arith in
    ap (λ d. in_range (read_digits 0 d)) (unsigned-IsDigit (c ∷ s) h) ∙ ap in_range e ∙ fits

-- A process number that is written to the file is read from it.
pub read_pid-decimal : (pid : ℕ) → pid ≤ 9223372036854775807 → read_pid (some (decimal pid)) ≡ pid
unfolding read_pid
read_pid-decimal pid h =
    ap positive (trim_space-IsDigit (decimal pid) (decimal-IsDigit pid))
    ∙ positive-digits (decimal pid) pid (decimal-IsDigit pid)
        (read_digits-decimal pid (omega arith)) h
