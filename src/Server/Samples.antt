-- ===== src/Server/Samples.antt =====
-- Two calls of `Start` at once, and what can come between their parts.
use sni_shaper_linux.Prelude.{◌≡◌, refl, true, false}
use sni_shaper_linux.Text.{codes}
use sni_shaper_linux.Server.{
  ProxyServer, new_proxy_server, set_listen_addr, start_begins, start_listens, start_finishes,
  stop_server, serve_begins, serve_fails, serve_ends, shut_early, returned,
}
use sni_shaper_linux.Server.Reach.{
  IsReachable, IsServing, begins, listens, finishes, begin, next, reachable-IsServing,
}

abbrev fresh : ProxyServer
fresh = new_proxy_server (codes "a:1")

abbrev both_listen : ProxyServer
both_listen = start_listens 1 true (start_listens 0 true (start_begins (start_begins fresh)))

-- The second one finds a server that runs.
abbrev both_started : ProxyServer
both_started = start_finishes 0 true (start_finishes 0 true both_listen)

one_server : both_started.made ≡ 1
unfolding start_finishes start_listens start_begins new_proxy_server
one_server = refl

-- A start that fails to listen stops the pool of a server that another one has started.
pool_is_stopped :
    (start_listens 0 false (
      start_finishes 0 true
        (start_listens 0 true (start_begins (start_begins fresh))))).pool_running
    ≡ false
unfolding start_listens start_finishes start_begins new_proxy_server
pool_is_stopped = refl

-- The address is changed while a start listens at the one before.
abbrev moved : ProxyServer
moved =
    start_finishes 0 true
      (set_listen_addr (codes "b:2") (start_listens 0 true (start_begins fresh))).1

moved_runs : moved.running ≡ true
unfolding start_finishes set_listen_addr start_listens start_begins new_proxy_server
moved_runs = refl

moved_addr : moved.listen_addr ≡ codes "b:2"
unfolding start_finishes set_listen_addr start_listens start_begins new_proxy_server
moved_addr = refl

-- A stop before the goroutine calls `Serve` leaves the listener open, until it does.
still_open : (stop_server both_started).serving 0 ≡ shut_early
unfolding stop_server start_finishes start_listens start_begins new_proxy_server
still_open = refl

closed_late : (serve_begins 0 (stop_server both_started)).serving 0 ≡ returned
unfolding serve_begins stop_server start_finishes start_listens start_begins new_proxy_server
closed_late = refl

-- `Serve` fails, and the proxy runs on until the goroutine has the lock.
runs_on : (serve_fails 0 (serve_begins 0 both_started)).running ≡ true
unfolding serve_fails serve_begins start_finishes start_listens start_begins new_proxy_server
runs_on = refl

runs_no_more : (serve_ends 0 (serve_fails 0 (serve_begins 0 both_started))).running ≡ false
unfolding serve_ends serve_fails serve_begins start_finishes start_listens start_begins
    new_proxy_server
runs_no_more = refl

both_started-IsReachable : IsReachable both_started
both_started-IsReachable =
    next
      (next
        (next (next (next (next (begin (codes "a:1")) (begins _)) (begins _)) (listens 0 true _))
          (listens 1 true _))
        (finishes 0 true _))
      (finishes 0 true _)

reachable-IsServing_example : IsServing both_started
reachable-IsServing_example = reachable-IsServing both_started both_started-IsReachable
