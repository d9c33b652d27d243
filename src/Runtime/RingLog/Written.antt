-- ===== src/Runtime/RingLog/Written.antt =====
-- What the log holds of the text that was written to it.
use sni_shaper_linux.Prelude.{
  ℕ, zero, suc, ◌≡◌, ◌∙◌, sym, ap, not, List, [], ◌∷◌, ◌++◌, All, concat, append-nil, append_assoc,
  select,
}
use sni_shaper_linux.Text.{Bytes, is_empty, split, split-cons}
use sni_shaper_linux.Runtime.RingLog.{
  RingLog, new_ring_log, replace_crlf, last_part, but_last, keep_last, add_lines, write_log,
}
use sni_shaper_linux.Runtime.RingLog.Lines.{
  IsWhole, IsWhole-append, replace_crlf-append, split-append, but_last-append, last_part-append,
  add_lines-append, add_lines_lem, keep_last_none,
}

-- One write behind another.
abbrev pub write_all : RingLog → List Bytes → RingLog
write_all w [] = w
write_all w (p ∷ ps) = write_all (write_log w p) ps

-- The size of a log that is asked for with `max`.
abbrev pub size_of : ℕ → ℕ
size_of zero = 1000
size_of (suc n) = suc n

-- The log of a text: the last of its whole lines that are not empty, and what is behind the last line.
abbrev pub log_of : ℕ → Bytes → RingLog
log_of max text =
    let parts = split (replace_crlf text) 10 in
    record {
      lines = keep_last (size_of max) (select (λ l. not (is_empty l)) (but_last parts));
      pending = last_part parts;
      max = size_of max;
    }

-- The log after a write whose parts these are.
abbrev pub with_parts : RingLog → List Bytes → RingLog
with_parts w parts = record w {
  lines = add_lines w.max w.lines (but_last parts);
  pending = last_part parts;
}

with_parts-append :
    (w : RingLog) (first : List Bytes) (y : Bytes) (ys : List Bytes)
    → with_parts (with_parts w first) (y ∷ ys) ≡ with_parts w (but_last first ++ (y ∷ ys))
with_parts-append w first y ys = rw (
  but_last-append (but_last first) y ys,
  last_part-append (but_last first) y ys,
  add_lines-append w.max w.lines (but_last first) (but_last (y ∷ ys)),
)

-- A write with the text cut in two.
write_log-append :
    (w : RingLog) (p q : Bytes) → IsWhole p → write_log (write_log w p) q ≡ write_log w (p ++ q)
write_log-append w p q h =
    let first = split (w.pending ++ replace_crlf p) 10 in
    let (y, ys, e) = split-cons (last_part first ++ replace_crlf q) 10 in
    let text : w.pending ++ replace_crlf (p ++ q)
        ≡ (w.pending ++ replace_crlf p) ++ replace_crlf q =
      ap (λ x. w.pending ++ x) (replace_crlf-append p q h)
      ∙ sym (append_assoc w.pending (replace_crlf p) (replace_crlf q)) in
    let parts : split (w.pending ++ replace_crlf (p ++ q)) 10 ≡ but_last first ++ (y ∷ ys) =
      ap (λ x. split x 10) text
      ∙ split-append (w.pending ++ replace_crlf p) (replace_crlf q) 10
      ∙ ap (λ x. but_last first ++ x) e in
    unfold write_log in
    (ap (with_parts (with_parts w first)) e
      ∙ with_parts-append w first y ys
      ∙ ap (with_parts w) (sym parts))

written :
    (w : RingLog) (p : Bytes) (ps : List Bytes)
    → IsWhole p
    → All IsWhole ps
    → write_all (write_log w p) ps ≡ write_log w (p ++ concat ps)
written w p [] hp hps = ap (write_log w) (sym (append-nil p))
written w p (q ∷ ps) hp (hq, hps) =
    ap (λ v. write_all v ps) (write_log-append w p q hp)
    ∙ written w (p ++ q) ps (IsWhole-append p q hp hq) hps
    ∙ ap (write_log w) (append_assoc p q (concat ps))

write_log-new : (max : ℕ) (text : Bytes) → write_log (new_ring_log max) text ≡ log_of max text
unfolding write_log new_ring_log
write_log-new zero text =
    ap (λ l. record (log_of 0 text) { lines = l })
      (add_lines_lem 999 (but_last (split (replace_crlf text) 10)))
write_log-new (suc n) text =
    ap (λ l. record (log_of (suc n) text) { lines = l })
      (add_lines_lem n (but_last (split (replace_crlf text) 10)))

pub write_all_lem :
    (max : ℕ) (chunks : List Bytes)
    → All IsWhole chunks
    → write_all (new_ring_log max) chunks ≡ log_of max (concat chunks)
unfolding new_ring_log replace_crlf split
write_all_lem zero [] h = rw (keep_last_none 1000)
write_all_lem (suc n) [] h = rw (keep_last_none (suc n))
write_all_lem max (p ∷ ps) (hp, hps) =
    written (new_ring_log max) p ps hp hps ∙ write_log-new max (p ++ concat ps)
