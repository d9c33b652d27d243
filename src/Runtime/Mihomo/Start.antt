-- ===== src/Runtime/Mihomo/Start.antt =====
-- Starting and stopping the external process, external_mihomo.go. The lines of its two outputs are taken
-- in the order in which they are read.
use sni_shaper_linux.Prelude.{
  ℕ, Bool, true, false, ◌&&◌, ◌||◌, not, Option, none, some, List, [], ◌∷◌, ◌++◌, ◌==◌,
  if◌then◌else◌, any, select,
}
use sni_shaper_linux.Text.{Bytes, codes, decimal, is_empty, trim_space}
use sni_shaper_linux.Runtime.RingLog.{RingLog, clear_log, write_log}
use sni_shaper_linux.Runtime.Mihomo.{
  fatal_mihomo_line, is_ready_mihomo_line, Manager, without_pid_file, read_pid, status_message,
  running_state,
}

-- What the operating system and the process do while `Start` runs.
pub record Launch : Type 0 where
  -- the errors of making the folder and of writing the configuration, and what is written
  pub folder_error : Option Bytes
  pub config_error : Option Bytes
  pub config : Bytes → Bytes
  -- the error of starting the process, or its number
  pub start_error : Option Bytes
  pub pid : ℕ
  pub pid_written : Bool
  -- the lines that are read until `Start` goes on, and the choice of the `select` where both channels
  -- hold something
  pub seen : List Bytes
  pub prefers_ready : Bool
  -- whether the process is still running by then, or the text that tells of its end
  pub exit_message : Option Bytes

-- An error, or none, and the manager behind the call.
abbrev pub Ended : Type 0
Ended = Option Bytes × Manager

abbrev pub tell : Bool → Bytes → Manager → Manager
tell logs message m = if logs then record m { logged = message ∷ m.logged } else m

abbrev pub remove : ℕ → List ℕ → List ℕ
remove pid ps = select (λ p. not (p == pid)) ps

-- stopLocked; `logs` tells whether there is a log function.
unfoldable pub stop_process : Bool → Manager → Manager
unfolding read_pid
stop_process logs m =
    let pid = read_pid m.pid_file in
    if pid == 0
    then without_pid_file m
    else tell logs (codes "[mihomo] external TUN stopped")
        (record m { pid_file = none; processes = remove pid m.processes })

-- ensureConfigLocked, of a port that is not blank
unfoldable pub ensure_config : Launch → Bytes → Bytes → Manager → Ended
ensure_config l core_path port m = elim l.folder_error [
  | some e ↦ (some e, m)
  | none ↦
      if not m.core
      then (some (codes "mihomo core not found: " ++ core_path), m)
      else elim l.config_error [
        | some e ↦ (some e, m)
        | none ↦ (none, record m { config_file = some (l.config port) })
      ]
]

-- What `pipeDrain` does with the lines.
unfoldable pub drained : RingLog → List Bytes → RingLog
unfolding write_log
drained log [] = log
drained log (line ∷ lines) = drained (write_log log (line ++ (10 ∷ []))) lines

-- What the channel for fatal lines holds.
unfoldable pub first_fatal : List Bytes → Bytes
unfolding is_ready_mihomo_line fatal_mihomo_line is_empty
first_fatal [] = []
first_fatal (line ∷ lines) =
    let later = first_fatal lines in
    if is_ready_mihomo_line line
    then later
    else if is_empty (fatal_mihomo_line line)
    then later
    else fatal_mihomo_line line

-- The process runs, and its number is in the file.
abbrev pub launched : Launch → Manager → Manager
launched l m = record m {
  pid_file = if l.pid_written then some (decimal l.pid) else none;
  processes = elim l.exit_message [ none ↦ l.pid ∷ m.processes | some e ↦ m.processes ];
  log_buffer = drained m.log_buffer l.seen;
  logged = elim l.exit_message [ none ↦ m.logged | some e ↦ e ∷ m.logged ];
}

abbrev pub timed_out : Manager → Ended
timed_out m =
    let (runs, message, after) = running_state m in
    if is_empty (trim_space message)
    then (some (codes "external mihomo TUN did not enter running state within 12s"), after)
    else (some message, after)

-- The `select` at the end of `Start`.
unfoldable pub decided : Launch → Manager → Ended
unfolding first_fatal is_ready_mihomo_line is_empty running_state trim_space
decided l m =
    let fatal = first_fatal l.seen in
    let ready = any is_ready_mihomo_line l.seen in
    if ready && (is_empty fatal || l.prefers_ready)
    then (none, tell true (codes "[mihomo] external TUN started") m)
    else if not (is_empty fatal)
    then (some fatal, m)
    else timed_out m

abbrev pub run_core : Launch → Manager → Ended
run_core l m =
    let cleared = record m { log_buffer = clear_log m.log_buffer } in
    elim l.start_error [ some e ↦ (some e, cleared) | none ↦ decided l (launched l cleared) ]

-- Start, with the log function that the runtime gives.
unfoldable pub start : Launch → Bytes → Bytes → Manager → Ended
unfolding decided ensure_config stop_process trim_space is_empty clear_log drained decimal
start l core_path listen_port m =
    let port = trim_space listen_port in
    let (e, configured) = ensure_config l core_path port m in
    if is_empty port then (some (codes "proxy listen port is empty"), m) else elim e [
      | some error ↦ (some error, configured)
      | none ↦ run_core l (stop_process false configured)
    ]

-- RestartIfRunning
unfoldable pub restart_if_running : Launch → Bytes → Bytes → Manager → Ended
unfolding status_message start
restart_if_running l core_path listen_port m =
    let (message, pid, after) = status_message m in
    if pid == 0
    then (none, after)
    else start l core_path listen_port
        (tell true (codes "[mihomo] reloading external TUN config") after)
