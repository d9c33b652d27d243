-- ===== src/Tls/Fragment/Cut.antt =====
-- Where `findLastDot` cuts, and when it reads out of range.
use mathlib.Core.Path.{subst}
use native.Mathlib.Decide.{dec_le, ℕ_discrete}
use sni_shaper_linux.Prelude.{
  ◌∙◌, if◌then◌else◌, ℕ, zero, suc, ◌+◌, ◌/◌, ◌≤◌, ◌<◌, ◌≡◌, ◌≢◌, refl, Bool, true, false, Option,
  none, some, arith, length, get_or, ok, panic, ◌==◌,
}
use sni_shaper_linux.Text.{Bytes}
use sni_shaper_linux.Tls.Fragment.{last_dot, find_last_dot}

-- No byte from `lo` up to and with `hi` is a dot.
abbrev pub NoDot : Bytes → ℕ → ℕ → Type 0
NoDot d lo hi = (j : ℕ) → lo ≤ j → j ≤ hi → get_or d j 0 ≢ b'.'

-- What the cut of a name of `len` bytes at `pos` has to be.
abbrev pub IsCut : Bytes → ℕ → ℕ → ℕ × Bool → Type 0
IsCut d pos len (cut, true) =
    (pos ≤ cut) × (cut ≤ pos + len) × (get_or d cut 0 ≡ b'.') × NoDot d (suc cut) (pos + len)
IsCut d pos len (cut, false) = (cut ≡ len / 2 + pos) × NoDot d pos (pos + len)

abbrev IsLastDot : Bytes → ℕ → ℕ → Option ℕ → Type 0
IsLastDot d pos k none = NoDot d pos (pos + k)
IsLastDot d pos k (some i) =
    (pos ≤ i) × (i ≤ pos + k) × (get_or d i 0 ≡ b'.') × NoDot d (suc i) (pos + k)

NoDot-suc :
    (d : Bytes) (lo hi hi' : ℕ)
    → hi' ≡ suc hi
    → get_or d hi' 0 ≢ b'.'
    → NoDot d lo hi
    → NoDot d lo hi'
NoDot-suc d lo hi hi' e h n = λ j hl hj dot. elim (dec_le j hi) [
  | yes le ↦ n j hl le dot
  | no gt ↦ h (subst (λ x. get_or d x 0 ≡ b'.') (omega arith) dot)
]

IsLastDot-suc :
    (d : Bytes) (pos k : ℕ) (r : Option ℕ)
    → get_or d (pos + suc k) 0 ≢ b'.'
    → IsLastDot d pos k r
    → IsLastDot d pos (suc k) r
IsLastDot-suc d pos k none h n = NoDot-suc d pos (pos + k) (pos + suc k) (omega arith) h n
IsLastDot-suc d pos k (some i) h (a, b, dot, n) =
    (a, omega arith, dot, NoDot-suc d (suc i) (pos + k) (pos + suc k) (omega arith) h n)

module _ (d : Bytes) (pos : ℕ) where
  last_dot_first :
      pos < length d → last_dot d pos 0 ≡ ok (if get_or d pos 0 == b'.' then some pos else none)
  unfolding last_dot
  last_dot_first h = ground arith

  last_dot_hit :
      (k : ℕ)
      → pos + suc k < length d
      → get_or d (pos + suc k) 0 ≡ b'.'
      → last_dot d pos (suc k) ≡ ok (some (pos + suc k))
  unfolding last_dot
  last_dot_hit k h e = ground arith

  last_dot_miss :
      (k : ℕ)
      → pos + suc k < length d
      → get_or d (pos + suc k) 0 ≢ b'.'
      → last_dot d pos (suc k) ≡ last_dot d pos k
  unfolding last_dot
  last_dot_miss k h e = ground arith

  last_dot_out : (k : ℕ) → length d ≤ pos + k → last_dot d pos k ≡ panic
  unfolding last_dot
  last_dot_out zero h = ground arith
  last_dot_out (suc k) h = ground arith

  last_dot-IsLastDot :
      (k : ℕ)
      → pos + k < length d
      → (r : Option ℕ) × (last_dot d pos k ≡ ok r) × IsLastDot d pos k r
  last_dot-IsLastDot zero h = elim (ℕ_discrete (get_or d pos 0) b'.') [
    | yes e ↦ (
      some pos,
      last_dot_first (omega arith) ∙ ground arith,
      (omega arith, omega arith, e, λ j hl hj. absurd (omega arith)),
    )
    | no ne ↦ (
      none,
      last_dot_first (omega arith) ∙ ground arith,
      λ j hl hj dot. ne (subst (λ x. get_or d x 0 ≡ b'.') (omega arith) dot),
    )
  ]
  last_dot-IsLastDot (suc k) h = elim (ℕ_discrete (get_or d (pos + suc k) 0) b'.') [
    | yes e ↦ (
      some (pos + suc k),
      last_dot_hit k h e,
      (omega arith, omega arith, e, λ j hl hj. absurd (omega arith)),
    )
    | no ne ↦
        let (r, er, hr) = last_dot-IsLastDot k (omega arith) in
        (r, last_dot_miss k h ne ∙ er, IsLastDot-suc d pos k r ne hr)
  ]

IsCut-of :
    (d : Bytes) (pos len : ℕ) (r : Option ℕ)
    → last_dot d pos len ≡ ok r
    → IsLastDot d pos len r
    → (c : ℕ × Bool) × (find_last_dot d pos len ≡ ok c) × IsCut d pos len c
unfolding find_last_dot
IsCut-of d pos len none e h = ((len / 2 + pos, false), rw e, (refl, h))
IsCut-of d pos len (some i) e h = ((i, true), rw e, h)

-- If the byte behind the name is in the data, `find_last_dot` returns: the last dot of the name
-- or of the byte behind it, or else the middle of the name, and then there is no dot.
pub find_last_dot-IsCut :
    (d : Bytes) (pos len : ℕ)
    → pos + len < length d
    → (c : ℕ × Bool) × (find_last_dot d pos len ≡ ok c) × IsCut d pos len c
find_last_dot-IsCut d pos len h =
    let (r, er, hr) = last_dot-IsLastDot d pos len h in IsCut-of d pos len r er hr

-- `find_last_dot` reads one byte behind the name first: it panics on every name that ends the data.
pub find_last_dot_panics :
    (d : Bytes) (pos len : ℕ) → length d ≤ pos + len → find_last_dot d pos len ≡ panic
unfolding find_last_dot
find_last_dot_panics d pos len h = rw (last_dot_out d pos len h)

-- The cut lies in the name or just behind it.
pub IsCut-bounds :
    (d : Bytes) (pos len cut : ℕ) (dot : Bool)
    → IsCut d pos len (cut, dot)
    → (pos ≤ cut) × (cut ≤ pos + len)
IsCut-bounds d pos len cut true h = (h.0, h.1)
IsCut-bounds d pos len cut false h = (omega arith, omega arith)
