-- ===== src/Runtime/RingLog.antt =====
-- The log that is kept in memory, `ringLogWriter` of core_runtime.go. The storage behind the slice
-- of lines, which `Write` makes anew from time to time, is not modelled: only what the lines are.
mod Lines
pub mod Written
pub mod Shown
pub mod Whole
use sni_shaper_linux.Prelude.{
  ℕ, zero, suc, ◌-◌, Bool, true, false, List, [], ◌∷◌, ◌++◌, ltb, ◌==◌, if◌then◌else◌, length, drop,
}
use sni_shaper_linux.Text.{Bytes, is_empty, split}

pub record RingLog : Type 0 where
  pub lines : List Bytes
  pub pending : Bytes
  pub max : ℕ

-- newRingLogWriter; a negative size counts as none.
unfoldable pub new_ring_log : ℕ → RingLog
new_ring_log zero = record { lines = []; pending = []; max = 1000 }
new_ring_log (suc n) = record { lines = []; pending = []; max = suc n }

-- `strings.ReplaceAll(s, "\r\n", "\n")`
unfoldable pub replace_crlf : Bytes → Bytes
replace_crlf [] = []
replace_crlf (c ∷ []) = c ∷ []
replace_crlf (c ∷ d ∷ s) =
    let rest = replace_crlf (d ∷ s) in
    if c == 13 then (if d == 10 then rest else c ∷ rest) else c ∷ rest

-- The last part, `parts[len(parts)-1]`.
abbrev pub last_part : List Bytes → Bytes
last_part [] = []
last_part (p ∷ []) = p
last_part (p ∷ q ∷ ps) = last_part (q ∷ ps)

-- The parts before it, `parts[:len(parts)-1]`.
abbrev pub but_last : List Bytes → List Bytes
but_last [] = []
but_last (p ∷ []) = []
but_last (p ∷ q ∷ ps) = p ∷ but_last (q ∷ ps)

-- `lines[len(lines)-max:]`, where there are more lines than that.
unfoldable pub keep_last : ℕ → List Bytes → List Bytes
keep_last max lines = if ltb max (length lines) then drop (length lines - max) lines else lines

-- One round of the loop of `Write`; also `AppendLine`.
unfoldable pub add_line : ℕ → List Bytes → Bytes → List Bytes
add_line max lines line = if is_empty line then lines else keep_last max (lines ++ (line ∷ []))

unfoldable pub add_lines : ℕ → List Bytes → List Bytes → List Bytes
add_lines max lines [] = lines
add_lines max lines (p ∷ ps) = add_lines max (add_line max lines p) ps

-- Write
unfoldable pub write_log : RingLog → Bytes → RingLog
write_log w p =
    let parts = split (w.pending ++ replace_crlf p) 10 in
    record {
      lines = add_lines w.max w.lines (but_last parts);
      pending = last_part parts;
      max = w.max;
    }

-- AppendLine
unfoldable pub append_line : RingLog → Bytes → RingLog
append_line w line = record w { lines = add_line w.max w.lines line }

-- Clear
unfoldable pub clear_log : RingLog → RingLog
clear_log w = record w { lines = []; pending = [] }

-- What `Snapshot` does where there are lines, `limit` being at most their number.
unfoldable pub last_lines : ℕ → RingLog → List Bytes
last_lines limit w =
    let out = drop (length w.lines - limit) w.lines in
    let longer = out ++ (w.pending ∷ []) in
    if is_empty w.pending then out else if ltb limit (length longer) then drop 1 longer else longer

abbrev pub pending_lines : RingLog → List Bytes
pending_lines w = if is_empty w.pending then [] else (w.pending ∷ [])

abbrev pub snapshot_of : ℕ → RingLog → List Bytes
snapshot_of limit w = elim w.lines [
  | [] ↦ pending_lines w
  | l ∷ ls ↦ last_lines (if ltb (length w.lines) limit then length w.lines else limit) w
]

-- Snapshot; a limit of zero, or below, is one of 200.
unfoldable pub snapshot : ℕ → RingLog → List Bytes
unfolding last_lines is_empty
snapshot zero w = snapshot_of 200 w
snapshot (suc n) w = snapshot_of (suc n) w
