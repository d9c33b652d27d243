-- ===== src/Runtime/Core.antt =====
-- core_runtime.go: what the runtime keeps beside the proxy. The markers that it writes for the user are
-- left out; a call of another part is the part's operation, or what it comes to as an argument.
pub mod Events
use sni_shaper_linux.Prelude.{
  ℕ, zero, suc, ◌-◌, Bool, true, false, ◌&&◌, ◌||◌, not, Option, none, some, List, [], ◌∷◌, ◌++◌,
  leb, ltb, ◌==◌, if◌then◌else◌, drop, length,
}
use sni_shaper_linux.Text.{
  Bytes, codes, contains, decimal, has_suffix, is_empty, join, to_lower, trim_space,
}
use sni_shaper_linux.Net.Address.{split_host_port}
use sni_shaper_linux.Server.{ProxyServer, set_listen_addr}
use sni_shaper_linux.Runtime.RingLog.{RingLog, clear_log, snapshot, write_log}
use sni_shaper_linux.Runtime.Mihomo.{Manager, TunStatus, status}

pub record Core : Type 0 where
  pub log_buffer : RingLog
  pub capture_enabled : Bool
  pub tun_starting : Bool
  pub tun_start_err : Bytes
  pub route_events : List (Bytes × Bytes)

-- The callback of `start`: the events of which `popRouteEvents` tells.
unfoldable pub on_route : Bytes → Bytes → Core → Core
on_route domain mode r =
    let events = r.route_events ++ ((domain, mode) ∷ []) in
    record r {
      route_events = if ltb 200 (length events) then drop (length events - 100) events else events;
    }

-- popRouteEvents
unfoldable pub pop_route_events : Core → List (Bytes × Bytes) × Core
pop_route_events r = (r.route_events, record r { route_events = [] })

-- appendLog; the text of the time is an argument. The trimmed text does not end in a line break.
unfoldable pub append_log : Bytes → Bytes → Core → Core
unfolding trim_space is_empty write_log
append_log now message r =
    let trimmed = trim_space message in
    if is_empty trimmed
    then r
    else record r { log_buffer = write_log r.log_buffer (now ++ 32 ∷ (trimmed ++ (10 ∷ []))) }

-- recentLogs
unfoldable pub recent_logs : ℕ → Core → Bytes
unfolding join snapshot
recent_logs limit r = join (snapshot limit r.log_buffer) 10

-- startLogCapture and stopLogCapture
unfoldable pub start_log_capture : Bytes → Core → Core
unfolding append_log clear_log
start_log_capture now r =
    append_log now (codes "[core] log capture started")
      (record r { capture_enabled = true; log_buffer = clear_log r.log_buffer })

unfoldable pub stop_log_capture : Bytes → Core → Core
unfolding append_log
stop_log_capture now r = record (append_log now (codes "[core] log capture stopping") r) {
  capture_enabled = false;
}

-- clearLogs
unfoldable pub clear_logs : Bytes → Core → Core
unfolding append_log clear_log
clear_logs now r =
    append_log now (codes "[core] logs cleared") (record r { log_buffer = clear_log r.log_buffer })

-- setTUNStartState
unfoldable pub set_tun_start_state : Bool → Option Bytes → Core → Core
unfolding trim_space
set_tun_start_state true e r = record r { tun_starting = true; tun_start_err = [] }
set_tun_start_state false none r = record r { tun_starting = false; tun_start_err = [] }
set_tun_start_state false (some e) r = record r {
  tun_starting = false;
  tun_start_err = trim_space e;
}

-- The message while a start is under way.
abbrev pub progress_message : Bytes → Bytes
progress_message message =
    if is_empty (trim_space message)
      || (contains (to_lower message) (codes "selected")
          || contains (to_lower message) (codes "not running"))
    then codes "TUN startup in progress"
    else message

-- getTUNStatus, of the status that the manager of the external process gives
unfoldable pub get_tun_status : TunStatus → Core → TunStatus
unfolding is_empty trim_space contains to_lower
get_tun_status s r =
    let e = trim_space r.tun_start_err in
    if s.running
    then record s { enabled = true }
    else if r.tun_starting
    then record s { enabled = false; message = progress_message s.message }
    else if not (is_empty e)
    then record s { enabled = false; message = e }
    else record s { enabled = false }

-- currentListenPort
abbrev pub port_or : Bytes → Option (Bytes × Bytes) → Bytes
port_or other none = other
port_or other (some (host, port)) = if is_empty (trim_space port) then other else trim_space port

unfoldable pub current_listen_port : Bytes → Bytes → Bytes
unfolding is_empty trim_space split_host_port
current_listen_port listen_addr of_rules =
    let addr = trim_space listen_addr in
    let other = trim_space of_rules in
    if is_empty addr then other else port_or other (split_host_port addr)

-- setListenPort: an error, the proxy, and the port that is saved with the settings.
unfoldable pub set_listen_port_of : ℕ → ProxyServer → Option Bytes × ProxyServer × Option Bytes
unfolding set_listen_addr decimal
set_listen_port_of port p =
    let (failed, moved) = set_listen_addr (codes "127.0.0.1:" ++ decimal port) p in
    if ltb port 1 || ltb 65535 port
    then (some (codes "invalid port number: " ++ decimal port), p, none)
    else if failed
    then (some (codes "cannot change address while proxy is running"), moved, none)
    else (none, moved, some (decimal port))

-- errorsJoin
abbrev pub present : List (Option Bytes) → List Bytes
present [] = []
present (none ∷ es) = present es
present (some e ∷ es) = e ∷ present es

abbrev pub separated : Bytes → List Bytes → Bytes
separated e [] = e
separated e (f ∷ es) = e ++ codes "; " ++ separated f es

abbrev pub joined_errors : List Bytes → Option Bytes
joined_errors [] = none
joined_errors (e ∷ es) = some (separated e es)

unfoldable pub errors_join : List (Option Bytes) → Option Bytes
errors_join errs = joined_errors (present errs)

-- startTUN: what starting the proxy and the external process come to are arguments, the second one of
-- the port that the proxy listens at. The error is none where the external process runs.
abbrev pub tun_result : Option Bytes → Bytes → (Bytes → Option Bytes) → Option Bytes
tun_result (some e) port launch = some (codes "start proxy before TUN: " ++ e)
tun_result none port launch =
    if is_empty port then some (codes "proxy listen port is empty") else launch port

abbrev pub tun_ended : Bytes → Option Bytes → Core → Option Bytes × Core
tun_ended now (some e) r = (some e, set_tun_start_state false (some e) r)
tun_ended now none r = (
  none,
  set_tun_start_state false none (append_log now (codes "[core] external mihomo tun started") r),
)

unfoldable pub start_tun :
    Bytes → Bool → Option Bytes → Bytes → (Bytes → Option Bytes) → Core → Option Bytes × Core
unfolding set_tun_start_state is_empty append_log
start_tun now proxy_runs proxy_error port launch r =
    let starting = set_tun_start_state true none r in
    if proxy_runs
    then tun_ended now (tun_result none port launch) starting
    else tun_ended now (tun_result proxy_error port launch)
        (append_log now (codes "[core] proxy not running, starting proxy before TUN") starting)

-- stopTUN; stopping the external process has no error.
unfoldable pub stop_tun : Bytes → Core → Core
unfolding set_tun_start_state append_log
stop_tun now r =
    append_log now (codes "[core] external mihomo tun stopped") (set_tun_start_state false none r)
