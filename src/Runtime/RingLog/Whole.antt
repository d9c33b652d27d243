-- ===== src/Runtime/RingLog/Whole.antt =====
-- A log that is given one whole line with each write.
use sni_shaper_linux.Prelude.{
  ℕ, suc, ◌≤◌, ◌≡◌, ◌∙◌, refl, ap, false, Bool, not, List, [], ◌∷◌, ◌++◌, arith, ltb, ◌==◌, length,
  All, append-nil, select, any, ◌||◌,
}
use sni_shaper_linux.Text.{Bytes, is_empty, prepend, split, split_other}
use sni_shaper_linux.Runtime.RingLog.{
  replace_crlf, keep_last, add_line, add_lines, write_log, snapshot,
}
use sni_shaper_linux.Runtime.RingLog.Lines.{keep_last-drop, keep_last_none, add_lines_lem}
use sni_shaper_linux.Runtime.RingLog.Written.{with_parts}
use sni_shaper_linux.Runtime.RingLog.Shown.{room, log_with, snapshot_lem}

-- Neither "\n" nor "\r".
abbrev pub IsPlain : ℕ → Type 0
IsPlain c = ((c == 10) ≡ false) × ((c == 13) ≡ false)

abbrev pub IsLine : Bytes → Type 0
IsLine = All IsPlain

replace_crlf-line : (s : Bytes) → IsLine s → replace_crlf (s ++ (10 ∷ [])) ≡ s ++ (10 ∷ [])
unfolding replace_crlf
replace_crlf-line [] h = refl
replace_crlf-line (c ∷ []) ((lf, cr), h) = rw cr
replace_crlf-line (c ∷ d ∷ s) ((lf, cr), h) = rw cr (ap (λ t. c ∷ t) (replace_crlf-line (d ∷ s) h))

split-line : (s : Bytes) → IsLine s → split (s ++ (10 ∷ [])) 10 ≡ s ∷ [] ∷ []
split-line [] h = unfold split in refl
split-line (c ∷ s) ((lf, cr), h) =
    split_other c (s ++ (10 ∷ [])) 10 lf ∙ ap (prepend c) (split-line s h)

pub write_log-line :
    (ls : List Bytes) (max : ℕ) (s : Bytes)
    → IsLine s
    → write_log (log_with ls [] max) (s ++ (10 ∷ [])) ≡ log_with (add_line max ls s) [] max
unfolding write_log add_lines
write_log-line ls max s h =
    ap (with_parts (log_with ls [] max))
      (ap (λ t. split t 10) (replace_crlf-line s h) ∙ split-line s h)

pub length-filled : (xs : List Bytes) → length (select (λ l. not (is_empty l)) xs) ≤ length xs
length-filled [] = omega arith
length-filled (x ∷ xs) = ground (arith, length-filled xs)

-- Where there is room, the loop of a write to an empty log keeps every line that is not empty.
pub add_lines-all :
    (n : ℕ) (xs : List Bytes)
    → length xs ≤ suc n
    → add_lines (suc n) [] xs ≡ select (λ l. not (is_empty l)) xs
add_lines-all n xs h =
    let filled = select (λ l. not (is_empty l)) xs in
    let fits : ltb (suc n) (length filled) ≡ false = ground (arith, length-filled xs) in
    add_lines_lem n xs ∙ unfold keep_last in (rw fits)

-- Where no line is cut, a snapshot shows each line.
pub snapshot-all :
    (n : ℕ) (ls : List Bytes) (max : ℕ)
    → length ls ≤ suc n
    → snapshot (suc n) (log_with ls [] max) ≡ ls
unfolding is_empty
snapshot-all n [] max h = snapshot_lem (suc n) (log_with [] [] max) ∙ keep_last_none 1
snapshot-all n (l ∷ ls) max h =
    let w = log_with (l ∷ ls) [] max in
    let whole = append-nil (l ∷ ls) in
    let all : room (suc n) w ≡ length (l ∷ ls) = ground arith in
    snapshot_lem (suc n) w
    ∙ ap (λ t. keep_last (room (suc n) w) t) whole
    ∙ keep_last-drop (room (suc n) w) 0 (l ∷ ls) (omega (arith, all))

pub any-filled :
    (p : Bytes → Bool) (xs : List Bytes)
    → p [] ≡ false
    → any p (select (λ l. not (is_empty l)) xs) ≡ any p xs
unfolding is_empty
any-filled p [] h = refl
any-filled p ([] ∷ xs) h = rw h (any-filled p xs h)
any-filled p ((c ∷ x) ∷ xs) h = ap (λ b. p (c ∷ x) || b) (any-filled p xs h)
