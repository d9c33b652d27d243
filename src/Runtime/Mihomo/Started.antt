-- ===== src/Runtime/Mihomo/Started.antt =====
-- What `Status` reports behind a start.
use sni_shaper_linux.Prelude.{
  ℕ, suc, ◌≤◌, ◌≡◌, ◌∙◌, refl, ap, true, false, not, ◌&&◌, ◌||◌, Option, none, some, List, [], ◌∷◌,
  arith, ◌==◌, length, All, select, any, if_cases, if_either, ==_iff,
}
use sni_shaper_linux.Text.{Bytes, decimal, is_empty, trim_space}
use sni_shaper_linux.Runtime.RingLog.{add_line, add_lines, clear_log, snapshot}
use sni_shaper_linux.Runtime.RingLog.Shown.{log_with}
use sni_shaper_linux.Runtime.RingLog.Whole.{
  IsLine, write_log-line, add_lines-all, snapshot-all, any-filled, length-filled,
}
use sni_shaper_linux.Runtime.Mihomo.{
  is_ready_mihomo_line, Manager, TunStatus, read_pid, process_running, status_message,
  running_state, status,
}
use sni_shaper_linux.Runtime.Mihomo.Pid.{read_pid-decimal}
use sni_shaper_linux.Runtime.Mihomo.Start.{
  Launch, Ended, drained, ensure_config, stop_process, first_fatal, launched, timed_out, decided,
  run_core, start,
}

drained_lem :
    (ls : List Bytes) (max : ℕ) (xs : List Bytes)
    → All IsLine xs
    → drained (log_with ls [] max) xs ≡ log_with (add_lines max ls xs) [] max
unfolding drained add_lines
drained_lem ls max [] h = refl
drained_lem ls max (x ∷ xs) (hx, h) =
    ap (λ w. drained w xs) (write_log-line ls max x hx) ∙ drained_lem (add_line max ls x) max xs h

blank_not_ready : is_ready_mihomo_line [] ≡ false
unfolding is_ready_mihomo_line
blank_not_ready = refl

-- What is read of a process that has just been started.
module _ (n : ℕ) (xs : List Bytes) (few : length xs ≤ suc n) (lines : All IsLine xs) where
  drained-ready :
      suc n ≤ 200
      → any is_ready_mihomo_line (snapshot 200 (drained (log_with [] [] (suc n)) xs))
        ≡ any is_ready_mihomo_line xs
  drained-ready h =
      let filled = select (λ l. not (is_empty l)) xs in
      ap (λ w. any is_ready_mihomo_line (snapshot 200 w))
        (drained_lem [] (suc n) xs lines ∙ ap (λ l. log_with l [] (suc n)) (add_lines-all n xs few))
      ∙ ap (any is_ready_mihomo_line)
          (snapshot-all 199 filled (suc n) (omega (arith, length-filled xs)))
      ∙ any-filled is_ready_mihomo_line xs blank_not_ready

-- The state in which a process is reported as running.
running_state-true :
    (m : Manager) (pid : ℕ)
    → read_pid m.pid_file ≡ pid
    → (pid == 0) ≡ false
    → process_running m pid ≡ true
    → any is_ready_mihomo_line (snapshot 200 m.log_buffer) ≡ true
    → (running_state m).0 ≡ true
unfolding running_state status_message
running_state-true m pid e h runs ready = rw (e, h, runs, h, ready)

-- A property of what follows an error, and of what follows none.
error_or :
    {A : Type 0} (P : A → Type 0) (o : Option Bytes) {f : Bytes → A} {x : A}
    → ((e : Bytes) → P (f e))
    → P x
    → P (elim o as (λ _. A) [ some e ↦ f e | none ↦ x ])
error_or P none h hx = hx
error_or P (some e) h hx = h e

module _ (l : Launch) (core_path : Bytes) (n : ℕ) where
  -- The program is there, and the log has its room.
  abbrev IsReady : Manager → Type 0
  IsReady m = (m.core ≡ true) × (clear_log m.log_buffer ≡ log_with [] [] (suc n))

  abbrev Runs : Ended → Type 0
  Runs d = d.0 ≡ none → (status core_path d.1).0.running ≡ true

  abbrev Configured : Ended → Type 0
  Configured d = d.0 ≡ none → IsReady d.1

  ensure_config-IsReady :
      (port : Bytes) (m : Manager)
      → clear_log m.log_buffer ≡ log_with [] [] (suc n)
      → Configured (ensure_config l core_path port m)
  unfolding ensure_config
  ensure_config-IsReady port m h =
      error_or Configured l.folder_error (λ e bad. ground arith)
        (if_cases Configured (not m.core) (λ _ bad. ground arith)
          (λ has.
            error_or Configured l.config_error (λ e bad. ground arith) (λ _. (ground arith, h))))

  stop_process-IsReady : (m : Manager) → IsReady m → IsReady (stop_process false m)
  unfolding stop_process
  stop_process-IsReady m h = if_either IsReady (read_pid m.pid_file == 0) h h

  module _ (few : length l.seen ≤ suc n) (small : suc n ≤ 200) (lines : All IsLine l.seen)
      (written : l.pid_written ≡ true) (lives : l.exit_message ≡ none)
      (positive : (l.pid == 0) ≡ false) (fits : l.pid ≤ 9223372036854775807) where
    running-status :
        (m : Manager)
        → m.core ≡ true
        → m.pid_file ≡ some (decimal l.pid)
        → process_running m l.pid ≡ true
        → m.log_buffer ≡ drained (log_with [] [] (suc n)) l.seen
        → any is_ready_mihomo_line l.seen ≡ true
        → (status core_path m).0.running ≡ true
    unfolding status
    running-status m core file runs log ready =
        if_cases (λ (d : TunStatus × Manager). d.0.running ≡ true) (not m.core)
          (λ absent. ground arith)
          (λ _.
            running_state-true m l.pid (ap read_pid file ∙ read_pid-decimal l.pid fits) positive
              runs
              (ap (λ w. any is_ready_mihomo_line (snapshot 200 w)) log
                ∙ drained-ready n l.seen few lines small
                ∙ ready))

    timed_out-Runs : (m : Manager) → Runs (timed_out m)
    timed_out-Runs m =
        if_cases Runs (is_empty (trim_space (running_state m).1)) (λ _ bad. ground arith)
          (λ _ bad. ground arith)

    launched-Runs :
        (m : Manager) (texts : List Bytes)
        → IsReady m
        → any is_ready_mihomo_line l.seen ≡ true
        → Runs (
          none,
          record (launched l (record m { log_buffer = clear_log m.log_buffer })) { logged = texts },
        )
    launched-Runs m texts (core, log) ready _ =
        let r : Manager = record (launched l (record m { log_buffer = clear_log m.log_buffer })) {
          logged = texts;
        } in
        let file : r.pid_file ≡ some (decimal l.pid) = rw written in
        let runs : process_running r l.pid ≡ true =
          unfold process_running in (rw (lives, (==_iff l.pid l.pid).1 refl)) in
        running-status r core file runs (ap (λ w. drained w l.seen) log) ready

    decided-Runs :
        (m : Manager)
        → IsReady m
        → Runs (decided l (launched l (record m { log_buffer = clear_log m.log_buffer })))
    unfolding decided
    decided-Runs m h =
        if_cases Runs
          (any is_ready_mihomo_line l.seen && (is_empty (first_fatal l.seen) || l.prefers_ready))
          (λ yes. launched-Runs m _ h (ground arith))
          (λ _.
            if_cases Runs (not (is_empty (first_fatal l.seen))) (λ _ bad. ground arith)
              (λ _. timed_out-Runs (launched l (record m { log_buffer = clear_log m.log_buffer }))))

    run_core-Runs : (m : Manager) → IsReady m → Runs (run_core l m)
    run_core-Runs m h = error_or Runs l.start_error (λ e bad. ground arith) (decided-Runs m h)

    behind_config-Runs :
        (d : Ended)
        → Configured d
        → Runs (elim d.0 as (λ _. Ended) [
          | some error ↦ (some error, d.1)
          | none ↦ run_core l (stop_process false d.1)
        ])
    behind_config-Runs (some error, m) h = λ bad. ground arith
    behind_config-Runs (none, m) h =
        run_core-Runs (stop_process false m) (stop_process-IsReady m (h refl))

    start-Runs :
        (port : Bytes) (m : Manager)
        → clear_log m.log_buffer ≡ log_with [] [] (suc n)
        → Runs (start l core_path port m)
    unfolding start
    start-Runs port m h =
        if_cases Runs (is_empty (trim_space port)) (λ _ bad. ground arith)
          (λ _.
            behind_config-Runs (ensure_config l core_path (trim_space port) m)
              (ensure_config-IsReady (trim_space port) m h))

    -- Where the process prints no more lines than the log has room for (two hundred at most), has a
    -- number of 63 bits that is written to its file, and does not end in the meantime: a start that
    -- returns no error is followed by a status that says that the device is running.
    pub status-start :
        (port : Bytes) (m : Manager)
        → m.log_buffer.max ≡ suc n
        → (start l core_path port m).0 ≡ none
        → (status core_path (start l core_path port m).1).0.running ≡ true
    status-start port m room = start-Runs port m (unfold clear_log in (ap (log_with [] []) room))
