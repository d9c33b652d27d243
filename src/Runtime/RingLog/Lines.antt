-- ===== src/Runtime/RingLog/Lines.antt =====
-- Texts cut into lines, and the last lines of a list.
use sni_shaper_linux.Prelude.{
  ℕ, zero, suc, ◌+◌, ◌-◌, ◌≤◌, ◌≡◌, ◌∙◌, inl, inr, refl, sym, ap, true, false, Bool-cases, not,
  List, [], ◌∷◌, ◌++◌, arith, ltb, ◌==◌, ==_iff, length, drop, select, append-nil, append_assoc,
  length-append, length-drop,
}
use sni_shaper_linux.Text.{Bytes, is_empty, split, prepend, split-cons, split_at_sep, split_other}
use sni_shaper_linux.Runtime.RingLog.{
  replace_crlf, last_part, but_last, keep_last, add_line, add_lines,
}

-- The text does not end in "\r".
abbrev pub IsWhole : Bytes → Type 0
IsWhole [] = Unit
IsWhole (c ∷ []) = (c == 13) ≡ false
IsWhole (c ∷ d ∷ s) = IsWhole (d ∷ s)

pub IsWhole-append : (p q : Bytes) → IsWhole p → IsWhole q → IsWhole (p ++ q)
IsWhole-append [] q hp hq = hq
IsWhole-append (c ∷ []) [] hp hq = hp
IsWhole-append (c ∷ []) (d ∷ q) hp hq = hq
IsWhole-append (c ∷ d ∷ s) q hp hq = IsWhole-append (d ∷ s) q hp hq

pub replace_crlf-append :
    (p q : Bytes) → IsWhole p → replace_crlf (p ++ q) ≡ replace_crlf p ++ replace_crlf q
unfolding replace_crlf
replace_crlf-append [] q h = refl
replace_crlf-append (c ∷ []) [] h = refl
replace_crlf-append (c ∷ []) (d ∷ q) h = rw h
replace_crlf-append (c ∷ d ∷ s) q h =
    rw (replace_crlf-append (d ∷ s) q h) (elim (Bool-cases (c == 13)) [
      | inl cr ↦ elim (Bool-cases (d == 10)) [ inl lf ↦ rw (cr, lf) | inr other ↦ rw (cr, other) ]
      | inr other ↦ rw other
    ])

split-append_other :
    (c : ℕ) (t : Bytes) (sep : ℕ) (p : Bytes) (ps : List Bytes)
    → (c == sep) ≡ false
    → prepend c (but_last (p ∷ ps) ++ split (last_part (p ∷ ps) ++ t) sep)
      ≡ but_last ((c ∷ p) ∷ ps) ++ split (last_part ((c ∷ p) ∷ ps) ++ t) sep
split-append_other c t sep p [] h = sym (split_other c (p ++ t) sep h)
split-append_other c t sep p (q ∷ ps) h = refl

-- A text behind another: the last part of the first goes on in the second.
pub split-append :
    (s t : Bytes) (sep : ℕ)
    → split (s ++ t) sep ≡ but_last (split s sep) ++ split (last_part (split s sep) ++ t) sep
split-append [] t sep = unfold split in refl
split-append (c ∷ s) t sep =
    let (p, ps, e) = split-cons s sep in
    let again : split (s ++ t) sep ≡ but_last (p ∷ ps) ++ split (last_part (p ∷ ps) ++ t) sep =
      split-append s t sep ∙ ap (λ x. but_last x ++ split (last_part x ++ t) sep) e in
    elim (Bool-cases (c == sep)) [
      | inl cut ↦
          rw ((==_iff c sep).0 cut, split_at_sep (s ++ t) sep, split_at_sep s sep, e)
            (ap (λ x. [] ∷ x) again)
      | inr keep ↦
          rw (split_other c (s ++ t) sep keep, split_other c s sep keep, e)
            (ap (prepend c) again ∙ split-append_other c t sep p ps keep)
    ]

pub but_last-append :
    (xs : List Bytes) (y : Bytes) (ys : List Bytes)
    → but_last (xs ++ y ∷ ys) ≡ xs ++ but_last (y ∷ ys)
but_last-append [] y ys = refl
but_last-append (x ∷ []) y ys = refl
but_last-append (x ∷ z ∷ xs) y ys = ap (λ l. x ∷ l) (but_last-append (z ∷ xs) y ys)

pub last_part-append :
    (xs : List Bytes) (y : Bytes) (ys : List Bytes) → last_part (xs ++ y ∷ ys) ≡ last_part (y ∷ ys)
last_part-append [] y ys = refl
last_part-append (x ∷ []) y ys = refl
last_part-append (x ∷ z ∷ xs) y ys = last_part-append (z ∷ xs) y ys

pub add_lines-append :
    (max : ℕ) (lines xs ys : List Bytes)
    → add_lines max lines (xs ++ ys) ≡ add_lines max (add_lines max lines xs) ys
unfolding add_lines
add_lines-append max lines [] ys = refl
add_lines-append max lines (x ∷ xs) ys = add_lines-append max (add_line max lines x) xs ys

drop-append : (n : ℕ) (xs ys : List Bytes) → n ≤ length xs → drop n (xs ++ ys) ≡ drop n xs ++ ys
drop-append zero xs ys h = refl
drop-append (suc n) [] ys h = absurd (omega arith)
drop-append (suc n) (x ∷ xs) ys h = drop-append n xs ys (omega arith)

drop-suc : (n : ℕ) (xs : List Bytes) → drop 1 (drop n xs) ≡ drop (suc n) xs
drop-suc zero xs = refl
drop-suc (suc n) [] = refl
drop-suc (suc n) (x ∷ xs) = drop-suc n xs

pub keep_last-drop :
    (n k : ℕ) (lines : List Bytes) → length lines ≡ n + k → keep_last n lines ≡ drop k lines
unfolding keep_last
keep_last-drop n zero lines h = ground arith
keep_last-drop n (suc k) lines h =
    let more : ltb n (length lines) ≡ true = ground arith in
    let over : length lines - n ≡ suc k = omega arith in rw (more, over)

-- One line more, and the first of those that were left is cut off.
pub keep_last-push :
    (n k : ℕ) (lines : List Bytes) (x : Bytes)
    → length lines ≡ n + k
    → drop 1 (drop k lines ++ (x ∷ [])) ≡ keep_last n (lines ++ (x ∷ []))
keep_last-push n k lines x h =
    ap (drop 1) (sym (drop-append k lines (x ∷ []) (omega (arith, h))))
    ∙ drop-suc k (lines ++ (x ∷ []))
    ∙ sym (
        keep_last-drop n (suc k) (lines ++ (x ∷ []))
          (omega (arith, h, length-append lines (x ∷ []))))

-- Lines that have been cut off are not missed by the next cut.
keep_last-append :
    (max : ℕ) (lines : List Bytes) (x : Bytes)
    → keep_last (suc max) (keep_last (suc max) lines ++ (x ∷ []))
      ≡ keep_last (suc max) (lines ++ (x ∷ []))
keep_last-append max lines x =
    let n = suc max in
    let k = length lines - n in
    elim (Bool-cases (ltb n (length lines))) [
      | inl more ↦
          let long : length lines ≡ n + k = ground arith in
          ap (λ l. keep_last n (l ++ (x ∷ []))) (keep_last-drop n k lines long)
          ∙ keep_last-drop n 1 (drop k lines ++ (x ∷ []))
              (omega (arith, long, length-append (drop k lines) (x ∷ []), length-drop k lines))
          ∙ keep_last-push n k lines x long
      | inr fits ↦
          let all : keep_last n lines ≡ lines = unfold keep_last in (rw fits) in
          ap (λ l. keep_last n (l ++ (x ∷ []))) all
    ]

add_lines-keep_last :
    (max : ℕ) (lines xs : List Bytes)
    → add_lines (suc max) (keep_last (suc max) lines) xs
      ≡ keep_last (suc max) (lines ++ select (λ l. not (is_empty l)) xs)
unfolding add_lines add_line is_empty
add_lines-keep_last max lines [] = ap (keep_last (suc max)) (sym (append-nil lines))
add_lines-keep_last max lines ([] ∷ xs) = add_lines-keep_last max lines xs
add_lines-keep_last max lines ((c ∷ x) ∷ xs) =
    ap (λ l. add_lines (suc max) l xs) (keep_last-append max lines (c ∷ x))
    ∙ add_lines-keep_last max (lines ++ ((c ∷ x) ∷ [])) xs
    ∙ ap (keep_last (suc max))
        (append_assoc lines ((c ∷ x) ∷ []) (select (λ l. not (is_empty l)) xs))

pub keep_last_none : (max : ℕ) → keep_last max [] ≡ []
unfolding keep_last
keep_last_none max = ground arith

-- The loop of a write to an empty log.
pub add_lines_lem :
    (max : ℕ) (xs : List Bytes)
    → add_lines (suc max) [] xs ≡ keep_last (suc max) (select (λ l. not (is_empty l)) xs)
add_lines_lem max xs =
    ap (λ l. add_lines (suc max) l xs) (sym (keep_last_none (suc max)))
    ∙ add_lines-keep_last max [] xs
