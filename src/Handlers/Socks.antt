-- ===== src/Handlers/Socks.antt =====
-- proxy/socks5.go, `handleSocks5Connect`: a CONNECT of SOCKS5 is answered with a reply, and its connection
-- handed to the handler of the mode. The library closes the client's connection once the handler returns.
pub mod Ends
use sni_shaper_linux.Prelude.{
  Bool, true, false, Option, none, some, List, [], ◌∷◌, ◌++◌, if◌then◌else◌, Outcome, ok, ◌>>=◌, ℕ,
}
use sni_shaper_linux.Text.{Bytes, is_empty, decimal}
use sni_shaper_linux.Rules.Domain.{Regex}
use sni_shaper_linux.Rules.Types.{Rule}
use sni_shaper_linux.Rules.Match.{Routes, match_rule}
use sni_shaper_linux.Auto.Router.{Ip, AutoRouter}
use sni_shaper_linux.Tls.Fragment.{Call}
use sni_shaper_linux.Net.Address.{normalize_host}
use sni_shaper_linux.Connect.Prepare.{ConnectResult, prepare_connect}
use sni_shaper_linux.Connect.Dial.{Report, dial_upstream}
use sni_shaper_linux.Handlers.Lifetime.{
  client, upstream, Event, opened, socks_reply, closed, tunnel,
}
use sni_shaper_linux.Handlers.Mitm.{handle_server_mitm, handle_quic_mitm}
use sni_shaper_linux.Handlers.Connect.{
  Session, Route, direct, by_server, by_quic, route_of, relay, before_call,
}

-- The target: a name, or else the text of an address; and the port.
pub record SocksRequest : Type 0 where
  pub fqdn : Bytes
  pub ip_text : Bytes
  pub port : ℕ

abbrev pub socks_host : SocksRequest → Bytes
socks_host req = if is_empty req.fqdn then req.ip_text else req.fqdn

-- `fmt.Sprintf("%s:%d", host, port)`
abbrev pub socks_target : SocksRequest → Bytes
socks_target req = socks_host req ++ b':' ∷ decimal req.port

-- By whether the target answers; the last `closed` is the deferred one.
pub socks_direct : Bool → List Event
socks_direct false = socks_reply false ∷ []
socks_direct true =
    opened upstream ∷ socks_reply true ∷ tunnel client upstream ∷ closed upstream ∷ []

-- By the upstream that answered, which is closed when the handler of the mode returns.
unfoldable pub socks_dialled : Session → ConnectResult → Route → Option Bytes → Call (List Event)
socks_dialled s cr r none = ok (socks_reply false ∷ [])
socks_dialled s cr r (some addr) =
    before_call (opened upstream ∷ socks_reply true ∷ [])
      (relay s cr addr r >>= λ es. ok (es ++ closed upstream ∷ []))

unfoldable pub socks_by_route : Session → ConnectResult → Route → Call (List Event) × List Report
unfolding socks_direct socks_dialled
socks_by_route s cr direct = (ok (socks_direct (s.dial cr.target_addr)), [])
socks_by_route s cr by_server = (
  ok (
      socks_reply true
      ∷ handle_server_mitm s.outside s.side s.network.cf_pool s.peers.server_host cr.rule),
  [],
)
socks_by_route s cr by_quic = (ok (socks_reply true ∷ handle_quic_mitm s.side), [])
socks_by_route s cr r =
    let (found, reports) = dial_upstream s.network s.dial cr in
    (socks_dialled s cr r found, reports)

-- By whether the tracker has the client's connection.
unfoldable pub serve_socks5 : Bool → Session → ConnectResult → Call (List Event) × List Report
unfolding socks_by_route
serve_socks5 false s cr = (ok (socks_reply false ∷ []), [])
serve_socks5 true s cr = socks_by_route s cr (route_of cr.effective_mode)

-- Beside the events and the reports, the automatic router that the look-ups leave. Without a connection
-- the second look-up is not made.
pub socks_prepared :
    Regex
    → (Bytes → Option (List Ip))
    → ℕ
    → ℕ
    → Routes
    → Bool
    → Session
    → Bytes
    → Bytes
    → Rule
    → (Call (List Event) × List Report) × Option AutoRouter
unfolding serve_socks5
socks_prepared regex resolve now after routes false s host target rule =
    ((ok (socks_reply false ∷ []), []), routes.auto_router)
socks_prepared regex resolve now after routes true s host target rule =
    let (cr, router) = prepare_connect regex resolve now after routes host target rule in
    (serve_socks5 true s cr, router)

unfoldable pub handle_socks5_connect :
    Regex
    → (Bytes → Option (List Ip))
    → ℕ
    → ℕ
    → Routes
    → Bytes
    → Bool
    → Session
    → SocksRequest
    → (Call (List Event) × List Report) × Option AutoRouter
unfolding socks_prepared
handle_socks5_connect regex resolve now after routes mode tracked s req =
    let host = normalize_host (socks_host req) in
    let matched = match_rule regex resolve now after routes host mode in
    socks_prepared regex resolve now after (record routes { auto_router = matched.auto_router })
      tracked s host (socks_target req) matched.rule
