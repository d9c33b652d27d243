-- ===== src/Runtime/Mihomo.antt =====
-- The TUN device of an external process, external_mihomo.go: what its output says of its state, and the
-- operations of `externalMihomoManager`. The operating system is in the state as the files and the
-- processes that the manager has to do with.
pub mod Start
pub mod Started
mod Pid
use mathlib.Core.List.{reverse}
use sni_shaper_linux.Prelude.{
  ℕ, zero, suc, Bool, true, false, ◌&&◌, ◌||◌, not, Option, none, some, List, [], ◌∷◌, ◌++◌, leb,
  ltb, ◌==◌, if◌then◌else◌, any, select, drop, length,
}
use sni_shaper_linux.Text.{
  Bytes, codes, contains, has_prefix, is_empty, read_digits, to_lower, trim_space,
}
use sni_shaper_linux.Runtime.RingLog.{RingLog, clear_log, write_log, snapshot}

-- `strings.Index(s, p)`
unfoldable pub index : Bytes → Bytes → Option ℕ
unfolding has_prefix
index [] p = if is_empty p then some 0 else none
index (c ∷ s) p =
    let later = index s p in
    if has_prefix (c ∷ s) p then some 0 else elim later [ none ↦ none | some i ↦ some (suc i) ]

-- One of the texts is part of the line.
abbrev pub says : Bytes → List Bytes → Bool
says line marks = any (contains line) marks

abbrev pub listening_error : Bytes
listening_error = codes "start tun listening error:"

abbrev pub fatal_marks : List Bytes
fatal_marks =
    codes "access is denied" ∷ codes "configure tun interface" ∷ codes "failed to start tun" ∷ []

abbrev pub ready_marks : List Bytes
ready_marks =
    codes "tun adapter listening at"
    ∷ codes "[tcp]"
    ∷ codes "[udp]"
    ∷ codes "match using proxy["
    ∷ codes "start initial compatible provider"
    ∷ []

-- `fatalMihomoLine` of a line without space around it
abbrev pub fatal_of : Bytes → Bytes
fatal_of line =
    let lower_case = to_lower line in
    let tail : Bytes = elim (index lower_case listening_error) [
      | some i ↦ trim_space (drop i line)
      | none ↦ line
    ] in
    if is_empty line
    then []
    else if contains lower_case listening_error
    then tail
    else if says lower_case fatal_marks
    then line
    else []

-- fatalMihomoLine; the empty text where the line is not fatal.
unfoldable pub fatal_mihomo_line : Bytes → Bytes
unfolding index is_empty contains to_lower trim_space
fatal_mihomo_line line = fatal_of (trim_space line)

-- isReadyMihomoLine
unfoldable pub is_ready_mihomo_line : Bytes → Bool
unfolding contains to_lower trim_space is_empty
is_ready_mihomo_line line =
    let lower_case = to_lower (trim_space line) in
    not (is_empty lower_case) && says lower_case ready_marks

-- `strconv.Atoi` of a number above zero, zero where there is none: a sign may stand in front, and the
-- number has to fit into 64 bits.
abbrev pub unsigned : Bytes → Bytes
unsigned [] = []
unsigned (c ∷ []) = c ∷ []
unsigned (c ∷ d ∷ s) = if c == b'+' then d ∷ s else c ∷ d ∷ s

abbrev pub in_range : Option ℕ → ℕ
in_range none = 0
in_range (some n) = if leb n 9223372036854775807 then n else 0

abbrev pub positive : Bytes → ℕ
positive [] = 0
positive (c ∷ s) = in_range (read_digits 0 (unsigned (c ∷ s)))

-- readPIDLocked: zero where there is an error.
unfoldable pub read_pid : Option Bytes → ℕ
unfolding trim_space is_empty
read_pid none = 0
read_pid (some text) = positive (trim_space text)

pub record Manager : Type 0 where
  -- whether the program is there, the file of its process and the file of its configuration
  pub core : Bool
  pub pid_file : Option Bytes
  pub config_file : Option Bytes
  -- the processes that run
  pub processes : List ℕ
  pub log_buffer : RingLog
  -- what the log function was given, the last one first
  pub logged : List Bytes

-- processRunning
unfoldable pub process_running : Manager → ℕ → Bool
process_running m pid = any (λ p. p == pid) m.processes

-- The loop of `statusMessageLocked`, over the lines from the last one on.
unfoldable pub latest_message : List Bytes → Bytes
unfolding is_empty fatal_mihomo_line is_ready_mihomo_line trim_space
latest_message [] = codes "External Mihomo process is starting"
latest_message (l ∷ ls) =
    let line = trim_space l in
    let earlier = latest_message ls in
    if not (is_empty (fatal_mihomo_line line))
    then fatal_mihomo_line line
    else if is_ready_mihomo_line line
    then codes "External Mihomo TUN is running"
    else earlier

abbrev pub without_pid_file : Manager → Manager
without_pid_file m = record m { pid_file = none }

-- statusMessageLocked: the message, the process, and the manager behind the call.
unfoldable pub status_message : Manager → Bytes × ℕ × Manager
unfolding read_pid process_running latest_message snapshot
status_message m =
    let pid = read_pid m.pid_file in
    if pid == 0
    then (codes "External Mihomo TUN is configured but not running", 0, m)
    else if not (process_running m pid)
    then (codes "External Mihomo process is not running", 0, without_pid_file m)
    else (latest_message (reverse (snapshot 200 m.log_buffer)), pid, m)

-- runningStateLocked
unfoldable pub running_state : Manager → Bool × Bytes × Manager
unfolding status_message is_ready_mihomo_line snapshot
running_state m =
    let (message, pid, after) = status_message m in
    if pid == 0
    then (false, message, after)
    else if any is_ready_mihomo_line (snapshot 200 after.log_buffer)
    then (true, codes "External Mihomo TUN is running", after)
    else (false, message, after)

pub record TunStatus : Type 0 where
  pub supported : Bool
  pub running : Bool
  pub enabled : Bool
  pub message : Bytes

abbrev pub or_message : Bytes → Bytes → Bytes
or_message default message = if is_empty (trim_space message) then default else message

-- Status
unfoldable pub status : Bytes → Manager → TunStatus × Manager
unfolding running_state is_empty trim_space
status core_path m =
    let stopped = codes "External Mihomo TUN is configured but not running" in
    let (runs, said, after) = running_state m in
    if not m.core
    then (
      record {
        supported = true;
        running = false;
        enabled = false;
        message = codes "Mihomo core not found: " ++ core_path;
      },
      m,
    )
    else (
      record {
        supported = true;
        running = runs;
        enabled = runs;
        message = or_message stopped said;
      },
      after,
    )
