-- ===== src/Handlers/Lifetime.antt =====
-- The connections of a handler, in proxy/tls_fragment.go, proxy/proxy.go and proxy/socks5.go: what is done
-- to them, in order, and the life of a connection, in which nothing is used before it is opened or behind
-- its end.
use sni_shaper_linux.Prelude.{ℕ, Bool, true, false, Option, none, some, List, [], ◌∷◌, ◌++◌, ◌≡◌}
use sni_shaper_linux.Text.{Bytes}
use sni_shaper_linux.Tls.Fragment.{Send}
use sni_shaper_linux.Tls.Fragment.Reassembly.{stream}

-- The client, the upstream that is dialled first, and the one that a fallback or a TLS connection of
-- the proxy's own dials.
pub data Conn : Type 0 where
  client upstream second : Conn

-- `replied` is `http.Error` with its status, `socks_reply` is `SendReply` (of a success, or not), and
-- `peeked` is a byte read and put back in front of the stream, `serving` is a server that handles the
-- requests of one connection. A failed call is not an event, unless it
-- ends what is written.
pub data Event : Type 0 where
  opened : Conn → Event
  replied : ℕ → Event
  socks_reply : Bool → Event
  hijacked : Event
  wrote : Conn → Bytes → Event
  sent : Conn → List Send → Event
  peeked : Conn → ℕ → Event
  serving : Conn → Event
  closed : Conn → Event
  tunnel : Conn → Conn → Event

-- Not opened, in the hands of the server that calls the handler, in those of the handler, at its end.
pub data Life : Type 0 where
  idle held live shut : Life

pub record Lives : Type 0 where
  pub client_life : Life
  pub upstream_life : Life
  pub second_life : Life

abbrev pub on_open : Life → Option Life
on_open idle = some live
on_open l = none

abbrev pub on_use : Life → Option Life
on_use live = some live
on_use l = none

-- `Close` may be called again.
abbrev pub on_close : Life → Option Life
on_close live = some shut
on_close shut = some shut
on_close l = none

-- `directTunnel` copies both ways until either side ends, and closes both.
abbrev pub on_tunnel : Life → Option Life
on_tunnel live = some shut
on_tunnel l = none

abbrev pub on_answer : Life → Option Life
on_answer held = some shut
on_answer l = none

abbrev pub on_take : Life → Option Life
on_take held = some live
on_take l = none

abbrev set_client : Lives → Option Life → Option Lives
set_client s none = none
set_client s (some l) = some (record s { client_life = l })

abbrev pub set_upstream : Lives → Option Life → Option Lives
set_upstream s none = none
set_upstream s (some l) = some (record s { upstream_life = l })

abbrev set_second : Lives → Option Life → Option Lives
set_second s none = none
set_second s (some l) = some (record s { second_life = l })

-- The life of one connection goes on, or the event may not happen.
abbrev pub apply_to : (Life → Option Life) → Conn → Lives → Option Lives
apply_to f client s = set_client s (f s.client_life)
apply_to f upstream s = set_upstream s (f s.upstream_life)
apply_to f second s = set_second s (f s.second_life)

abbrev and_apply : (Life → Option Life) → Conn → Option Lives → Option Lives
and_apply f c none = none
and_apply f c (some s) = apply_to f c s

-- What an event does; `none` if it may not happen.
abbrev pub step : Event → Lives → Option Lives
step (opened c) s = apply_to on_open c s
step (replied status) s = apply_to on_answer client s
step (socks_reply true) s = apply_to on_take client s
step (socks_reply false) s = apply_to on_answer client s
step hijacked s = apply_to on_take client s
step (wrote c b) s = apply_to on_use c s
step (sent c ss) s = apply_to on_use c s
step (peeked c b) s = apply_to on_use c s
step (serving c) s = apply_to on_use c s
step (closed c) s = apply_to on_close c s
step (tunnel c d) s = and_apply on_tunnel d (apply_to on_tunnel c s)

abbrev pub run_on : (Lives → Option Lives) → Option Lives → Option Lives
run_on f none = none
run_on f (some s) = f s

abbrev pub run : List Event → Lives → Option Lives
run [] s = some s
run (e ∷ es) s = run_on (run es) (step e s)

-- No event is out of order, and no connection is left in the handler's hands.
abbrev pub IsOver : Life → Type 0
IsOver live = ⊥
IsOver l = Unit

abbrev pub AllOver : Option Lives → Type 0
AllOver none = ⊥
AllOver (some s) = IsOver s.client_life × IsOver s.upstream_life × IsOver s.second_life

-- The same, and the client and the upstream, both open at first, are closed.
abbrev pub BothShut : Option Lives → Type 0
BothShut none = ⊥
BothShut (some s) = (s.client_life ≡ shut) × (s.upstream_life ≡ shut) × IsOver s.second_life

-- Every event is in order, and all that is opened or taken over is closed in the end.
abbrev pub Settles : Lives → List Event → Type 0
Settles s es = BothShut (run es s)

-- The bytes that a connection is given, in order.
abbrev pub given_by : Conn → Event → Bytes
given_by client (wrote client b) = b
given_by upstream (wrote upstream b) = b
given_by second (wrote second b) = b
given_by client (sent client ss) = stream ss
given_by upstream (sent upstream ss) = stream ss
given_by second (sent second ss) = stream ss
given_by c e = []

abbrev pub given_to : Conn → List Event → Bytes
given_to c [] = []
given_to c (e ∷ es) = given_by c e ++ given_to c es

-- The connection that the client is joined to, at the end.
abbrev pub joined : List Event → Option Conn
joined [] = none
joined (tunnel client d ∷ es) = some d
joined (e ∷ es) = joined es

-- How the client is answered, or taken over: the first of these events. No event but these takes a
-- client out of the hands of the server, and there is no second one in a run that is in order.
abbrev pub answer : List Event → Option Event
answer [] = none
answer (replied status ∷ es) = some (replied status)
answer (socks_reply b ∷ es) = some (socks_reply b)
answer (hijacked ∷ es) = some hijacked
answer (e ∷ es) = answer es
