-- ===== src/Handlers/Connect/Ending.antt =====
-- How a CONNECT request is to end: its answer, and what is left of its connections.
use sni_shaper_linux.Prelude.{
  arith, Bool, true, false, Option, none, some, List, ok, err, panic, out_of_fuel, ◌≡◌, refl,
}
use sni_shaper_linux.Text.{Bytes}
use sni_shaper_linux.Tls.Fragment.{Call}
use sni_shaper_linux.Connect.Prepare.{ConnectResult}
use sni_shaper_linux.Handlers.Lifetime.{
  idle, held, live, Lives, AllOver, run, Event, replied, hijacked, answer,
}
use sni_shaper_linux.Handlers.Fragment.{read_initial_tls_record}
use sni_shaper_linux.Handlers.Fragment.Ends.{NameAtEnd}
use sni_shaper_linux.Handlers.Mitm.Ends.{KeepsUpstream}
use sni_shaper_linux.Handlers.Connect.{
  Hijack, unsupported, hijack_fails, taken, Session, Route, direct, blocked, by_server, by_quic,
  by_mitm, by_tls_rf,
}

-- The server that calls the handler has the client; nothing else is open.
abbrev pub at_first : Lives
at_first = record { client_life = held; upstream_life = idle; second_life = idle }

-- Once a connection is taken over under `mitm`, the upstream that answered stays open.
abbrev pub stays_open : Option Bytes → Route → Hijack → Bool
stays_open none r h = false
stays_open (some addr) by_mitm taken = true
stays_open (some addr) r h = false

abbrev pub is_mitm : Route → Bool
is_mitm by_mitm = true
is_mitm r = false

pub only_mitm :
    (found : Option Bytes) (r : Route) (h : Hijack)
    → is_mitm r ≡ false
    → stays_open found r h ≡ false
only_mitm none r h e = refl
only_mitm (some addr) by_mitm h e = ground arith
only_mitm (some addr) r h e = refl

-- The record that the client sent ends in its server name.
abbrev pub HelloEnds : Session → Route → Type 0
HelloEnds s by_tls_rf =
    (rec : Bytes) × ((left : Bytes) × ((read_initial_tls_record s.peers.input ≡ some (rec, left))
        × NameAtEnd rec))
HelloEnds s r = ⊥

abbrev pub Leaving : Bool → Option Lives → Type 0
Leaving true o = KeepsUpstream live o
Leaving false o = AllOver o

-- The answer to a client that is to be taken over: none where that fails, since then the server
-- answers by itself.
abbrev pub on_hijack : Hijack → Option Event
on_hijack unsupported = some (replied 500)
on_hijack hijack_fails = none
on_hijack h = some hijacked

abbrev pub by_dial : Hijack → Bool → Option Event
by_dial h false = some (replied 502)
by_dial h true = on_hijack h

abbrev pub is_found : Option Bytes → Bool
is_found none = false
is_found (some addr) = true

-- The answer that a route has, by whether the target answers, and whether an upstream does.
abbrev pub answer_of : Hijack → Bool → Bool → Route → Option Event
answer_of h target up direct = by_dial h target
answer_of h target up blocked = some (replied 403)
answer_of h target up by_server = on_hijack h
answer_of h target up by_quic = on_hijack h
answer_of h target up r = by_dial h up

-- The connections are left as the route tells, and this is the answer.
abbrev pub EndsWith : Session → Route → Option Bytes → Option Event → Call (List Event) → Type 0
EndsWith s r found x (ok es) =
    Leaving (stays_open found r s.hijack) (run es at_first) × (answer es ≡ x)
EndsWith s r found x panic = HelloEnds s r
EndsWith s r found x (err e) = ⊥
EndsWith s r found x out_of_fuel = ⊥

abbrev pub ConnectEnds : Session → ConnectResult → Route → Option Bytes → Call (List Event) → Type 0
ConnectEnds s cr r found o =
    EndsWith s r found (answer_of s.hijack (s.dial cr.target_addr) (is_found found) r) o
