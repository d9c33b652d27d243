-- ===== src/Runtime/Samples.antt =====
-- A log that is written to in pieces, and a start of the external process.
use sni_shaper_linux.Prelude.{◌≡◌, refl, true, false, none, List, [], ◌∷◌, concat, arith, ◌++◌, All}
use sni_shaper_linux.Text.{split, Bytes, codes}
use sni_shaper_linux.Runtime.Mihomo.{TunStatus, Manager, status}
use sni_shaper_linux.Runtime.Core.{Core, get_tun_status, start_tun, pop_route_events}
use sni_shaper_linux.Runtime.Core.Events.{IsWindow, on_routes, on_routes-pop}
use sni_shaper_linux.Runtime.RingLog.{
  add_line, add_lines, replace_crlf, new_ring_log, write_log, snapshot, keep_last, pending_lines,
}
use sni_shaper_linux.Runtime.RingLog.Written.{write_all, log_of}
use sni_shaper_linux.Runtime.RingLog.Shown.{room, log_with, snapshot-write_all}
use sni_shaper_linux.Runtime.RingLog.Whole.{IsLine}
use sni_shaper_linux.Runtime.Mihomo.Start.{Launch, start}
use sni_shaper_linux.Runtime.Mihomo.Started.{status-start}

abbrev pieces : List Bytes
pieces = (b'a' ∷ b'b' ∷ []) ∷ (b'c' ∷ 10 ∷ 10 ∷ b'd' ∷ 13 ∷ 10 ∷ []) ∷ (b'e' ∷ []) ∷ []

-- There is room for the line "abc", but the unfinished line takes its place.
first_line_is_missing :
    snapshot 200 (write_all (new_ring_log 5) pieces) ≡ codes "d" ∷ codes "e" ∷ []
unfolding snapshot write_log add_lines split new_ring_log replace_crlf add_line keep_last
first_line_is_missing = refl

snapshot-write_all_example :
    snapshot 200 (write_all (new_ring_log 5) pieces)
    ≡ keep_last
        (room 200 (log_of 5 (concat pieces)))
        ((log_of 5 (concat pieces)).lines ++ pending_lines (log_of 5 (concat pieces)))
snapshot-write_all_example = snapshot-write_all 200 5 pieces (refl, (refl, (refl, tt)))

abbrev launch : Launch
launch = record {
  folder_error = none;
  config_error = none;
  config = λ port. port;
  start_error = none;
  pid = 47;
  pid_written = true;
  seen = codes "a" ∷ codes "[TCP]" ∷ [];
  prefers_ready = true;
  exit_message = none;
}

abbrev manager : Manager
manager = record {
  core = true;
  pid_file = none;
  config_file = none;
  processes = [];
  log_buffer = log_with [] [] 50;
  logged = [];
}

plain : All IsLine launch.seen
plain = ground arith

starts : (start launch (codes "m") (codes "8080") manager).0 ≡ none
unfolding start
starts = refl

status-start_example :
    (status (codes "m") (start launch (codes "m") (codes "8080") manager).1).0.running ≡ true
status-start_example =
    status-start launch (codes "m") 49 (omega arith) (omega arith) plain refl refl refl
      (omega arith) (codes "8080") manager refl starts

abbrev core : Core
core = record {
  log_buffer = log_with [] [] 5000;
  capture_enabled = true;
  tun_starting = false;
  tun_start_err = [];
  route_events = [];
}

abbrev route : List (Bytes × Bytes)
route = (codes "a.bc", codes "mitm") ∷ []

-- A start without a proxy leaves its error, which the status tells.
abbrev stopped_status : TunStatus
stopped_status = record { supported = true; running = false; enabled = false; message = [] }

tells_error :
    (get_tun_status stopped_status
      (start_tun (codes "1") true none [] (λ port. none) core).1).message
    ≡ codes "proxy listen port is empty"
unfolding get_tun_status start_tun
tells_error = refl

on_routes-pop_example : IsWindow route (on_routes route (pop_route_events core).1).route_events
on_routes-pop_example = on_routes-pop route core
