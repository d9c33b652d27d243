-- ===== src/Runtime/RingLog/Shown.antt =====
-- What a snapshot of the log shows.
use sni_shaper_linux.Prelude.{
  ℕ, zero, suc, ◌-◌, ◌≤◌, ◌≡◌, ◌∙◌, refl, sym, ap, true, List, [], ◌∷◌, ◌++◌, arith, ltb, if_either,
  length, length-append, length-drop, drop, append-nil, if◌then◌else◌, All, concat,
}
use sni_shaper_linux.Text.{Bytes, is_empty}
use sni_shaper_linux.Runtime.RingLog.{
  RingLog, keep_last, last_lines, pending_lines, snapshot_of, snapshot, new_ring_log,
}
use sni_shaper_linux.Runtime.RingLog.Lines.{IsWhole, keep_last-drop, keep_last-push}
use sni_shaper_linux.Runtime.RingLog.Written.{write_all, log_of, write_all_lem}

-- How many lines there is room for: no more than the log has whole lines.
abbrev pub room : ℕ → RingLog → ℕ
room limit w = elim w.lines [
  | [] ↦ 1
  | l ∷ ls ↦ if ltb (length w.lines) limit then length w.lines else limit
]

-- The limit, or the 200 that stand for none.
abbrev pub limit_of : ℕ → ℕ
limit_of zero = 200
limit_of (suc n) = suc n

abbrev pub log_with : List Bytes → Bytes → ℕ → RingLog
log_with ls p max = record { lines = ls; pending = p; max = max }

last_lines_lem :
    (m : ℕ) (ls : List Bytes) (p : Bytes) (max : ℕ)
    → m ≤ length ls
    → last_lines m (log_with ls p max) ≡ keep_last m (ls ++ pending_lines (log_with ls p max))
unfolding last_lines is_empty
last_lines_lem m ls [] max h =
    sym (ap (keep_last m) (append-nil ls) ∙ keep_last-drop m (length ls - m) ls (omega (arith, h)))
last_lines_lem m ls (c ∷ p) max h =
    let k = length ls - m in
    let full : ltb m (length (drop k ls ++ ((c ∷ p) ∷ []))) ≡ true =
      ground (arith, length-append (drop k ls) ((c ∷ p) ∷ []), length-drop k ls) in
    rw full (keep_last-push m k ls (c ∷ p) (omega (arith, h)))

pending_alone : (w : RingLog) → pending_lines w ≡ keep_last 1 (pending_lines w)
unfolding keep_last
pending_alone w = if_either (λ l. l ≡ keep_last 1 l) (is_empty w.pending) refl refl

snapshot_of_lem :
    (limit : ℕ) (ls : List Bytes) (p : Bytes) (max : ℕ)
    → snapshot_of limit (log_with ls p max)
      ≡ keep_last (room limit (log_with ls p max)) (ls ++ pending_lines (log_with ls p max))
snapshot_of_lem limit [] p max = pending_alone (log_with [] p max)
snapshot_of_lem limit (l ∷ ls) p max =
    last_lines_lem (room limit (log_with (l ∷ ls) p max)) (l ∷ ls) p max (ground arith)

pub snapshot_lem :
    (limit : ℕ) (w : RingLog)
    → snapshot limit w ≡ keep_last (room (limit_of limit) w) (w.lines ++ pending_lines w)
unfolding snapshot
snapshot_lem zero w = snapshot_of_lem 200 w.lines w.pending w.max
snapshot_lem (suc n) w = snapshot_of_lem (suc n) w.lines w.pending w.max

-- In whatever pieces a text is written, where none of them ends in "\r", a snapshot shows the last of
-- its lines that are not empty (as many as the log has room for), with what stands behind the last
-- line. There are no more of them than the limit (200 where there is none), and no more than there are
-- whole lines, one at least.
pub snapshot-write_all :
    (limit max : ℕ) (chunks : List Bytes)
    → All IsWhole chunks
    → snapshot limit (write_all (new_ring_log max) chunks)
      ≡ keep_last
          (room (limit_of limit) (log_of max (concat chunks)))
          ((log_of max (concat chunks)).lines ++ pending_lines (log_of max (concat chunks)))
snapshot-write_all limit max chunks h =
    ap (snapshot limit) (write_all_lem max chunks h)
    ∙ snapshot_lem limit (log_of max (concat chunks))
