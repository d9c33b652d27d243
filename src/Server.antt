-- ===== src/Server.antt =====
-- proxy/proxy.go: the life of `ProxyServer`. `Start` holds the lock twice, with the call of net.Listen
-- between, and leaves a goroutine that calls `Serve` and then takes the lock; each part is a step of its
-- own here, so that other calls can come between them. A server of package http is its number in the
-- order of creation; `serving` tells how far its goroutine is. The pool of Cloudflare addresses is
-- always there, as `NewProxyServer` makes it.
mod Reach
mod Samples
use Prim.Native.Nat.{◌+◌}
use sni_shaper_linux.Prelude.{
  ℕ, zero, suc, Bool, true, false, ◌&&◌, ◌||◌, not, Option, none, some, List, [], ◌∷◌, ◌++◌, ltb,
  leb, ◌==◌, if◌then◌else◌, get_elem?, set, without, length, drop,
}
use sni_shaper_linux.Text.{Bytes, codes, str_eq, to_lower, trim_space}

-- How far the goroutine of a server is: it is not there, or at its end; it has not called `Serve` yet, which
-- was closed in the meantime or not; it accepts; its listener is closed, and `Serve` returns, but the lock
-- is not taken yet.
pub data Serving : Type 0 where
  absent pending shut_early accepting returned : Serving

-- A call of `Start` that is under way: the address it has read, and whether it listens there.
pub record Starting : Type 0 where
  pub addr : Bytes
  pub bound : Bool

pub record ProxyServer : Type 0 where
  pub listen_addr : Bytes
  pub socks5_addr : Bytes
  pub mode : Bytes
  pub running : Bool
  pub server : Option ℕ
  pub made : ℕ
  pub serving : ℕ → Serving
  pub starting : List Starting
  pub pool_running : Bool
  pub socks5_enabled : Bool
  -- the addresses at which a SOCKS5 server accepts
  pub socks5_served : List Bytes
  pub recent_ingress : List Bytes

-- NewProxyServer
unfoldable pub new_proxy_server : Bytes → ProxyServer
new_proxy_server addr = record {
  listen_addr = addr;
  socks5_addr = [];
  mode = codes "mitm";
  running = false;
  server = none;
  made = 0;
  serving = λ i. absent;
  starting = [];
  pool_running = false;
  socks5_enabled = false;
  socks5_served = [];
  recent_ingress = [];
}

-- SetListenAddr; the Boolean tells whether there is an error.
unfoldable pub set_listen_addr : Bytes → ProxyServer → Bool × ProxyServer
set_listen_addr addr p = if p.running then (true, p) else (false, record p { listen_addr = addr })

-- SetMode, in the same way
unfoldable pub set_mode : Bytes → ProxyServer → Bool × ProxyServer
unfolding str_eq to_lower trim_space
set_mode text p =
    let m = to_lower (trim_space text) in
    if not (str_eq m (codes "mitm"))
      && (not (str_eq m (codes "transparent"))
          && (not (str_eq m (codes "tls-rf")) && not (str_eq m (codes "quic"))))
    then (true, p)
    else (false, record p { mode = m })

-- SetSocks5Enabled and SetSocks5Addr
unfoldable pub set_socks5_enabled : Bool → ProxyServer → ProxyServer
set_socks5_enabled enabled p = record p { socks5_enabled = enabled }

unfoldable pub set_socks5_addr : Bytes → ProxyServer → ProxyServer
set_socks5_addr addr p = record p { socks5_addr = addr }

-- `p.Server == srv`
abbrev pub is_server : Option ℕ → ℕ → Bool
is_server none i = false
is_server (some j) i = j == i

-- Start, up to the call of net.Listen
unfoldable pub start_begins : ProxyServer → ProxyServer
start_begins p = if p.running then p else record p {
  starting = p.starting ++ (record { addr = p.listen_addr; bound = false } ∷ []);
  pool_running = true;
}

-- The call of net.Listen in the `i`th call of `Start`, and what follows its error.
abbrev pub listened : ℕ → Bool → Option Starting → ProxyServer → ProxyServer
listened i works none p = p
listened i works (some c) p =
    if c.bound
    then p
    else if works
    then record p { starting = set p.starting i (record c { bound = true }) }
    else record p { starting = without i p.starting; pool_running = false }

unfoldable pub start_listens : ℕ → Bool → ProxyServer → ProxyServer
start_listens i works p = listened i works (get_elem? p.starting i) p

-- startSocks5, where the SOCKS5 server is enabled
unfoldable pub start_socks5 : Bool → ProxyServer → ProxyServer
start_socks5 works p =
    if p.socks5_enabled && works
    then record p { socks5_served = p.socks5_addr ∷ p.socks5_served }
    else p

-- Start, from the second lock on: a server that runs by now closes the new listener.
abbrev pub finished : ℕ → Bool → Option Starting → ProxyServer → ProxyServer
finished i works none p = p
finished i works (some c) p =
    let rest = record p { starting = without i p.starting } in
    if not c.bound
    then p
    else if p.running
    then rest
    else start_socks5 works (record rest {
      server = some p.made;
      made = p.made + 1;
      serving = λ j. if p.made == j then pending else p.serving j;
      running = true;
    })

unfoldable pub start_finishes : ℕ → Bool → ProxyServer → ProxyServer
unfolding start_socks5
start_finishes i works p = finished i works (get_elem? p.starting i) p

-- `Serve` begins: a server that was closed before returns at once.
abbrev pub on_begin : Serving → Serving
on_begin pending = accepting
on_begin shut_early = returned
on_begin g = g

unfoldable pub serve_begins : ℕ → ProxyServer → ProxyServer
serve_begins i p = record p {
  serving = λ j. if i == j then on_begin (p.serving j) else p.serving j;
}

-- `Serve` returns an error of the listener.
abbrev pub on_failure : Serving → Serving
on_failure accepting = returned
on_failure g = g

unfoldable pub serve_fails : ℕ → ProxyServer → ProxyServer
serve_fails i p = record p {
  serving = λ j. if i == j then on_failure (p.serving j) else p.serving j;
}

-- The goroutine behind `Serve`, which takes the lock.
abbrev pub ended : ℕ → Serving → ProxyServer → ProxyServer
ended i returned p = record p {
  serving = λ j. if i == j then absent else p.serving j;
  running = if is_server p.server i then false else p.running;
}
ended i g p = p

unfoldable pub serve_ends : ℕ → ProxyServer → ProxyServer
serve_ends i p = ended i (p.serving i) p

-- `Server.Close`: a listener that `Serve` does not have yet is not closed.
abbrev pub on_close : Serving → Serving
on_close pending = shut_early
on_close accepting = returned
on_close g = g

-- Stop
unfoldable pub stop_server : ProxyServer → ProxyServer
stop_server p = if not p.running then p else record p {
  running = false;
  pool_running = false;
  serving = λ j. if is_server p.server j then on_close (p.serving j) else p.serving j;
}

-- trackAccepted
unfoldable pub track_accepted : Bytes → ProxyServer → ProxyServer
track_accepted remote p = record p {
  recent_ingress =
      (if leb 10 (length p.recent_ingress) then drop 1 p.recent_ingress else p.recent_ingress)
      ++ (remote ∷ []);
}
