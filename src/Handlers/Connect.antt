-- ===== src/Handlers/Connect.antt =====
-- proxy/proxy.go, `handleConnect` and `directConnect`: a CONNECT request is answered with an error, or its
-- connection is taken over and handed to the handler of the mode.
pub mod Ending
pub mod Ends
use sni_shaper_linux.Prelude.{
  Bool, true, false, ◌||◌, Option, none, some, List, [], ◌∷◌, ◌++◌, if◌then◌else◌, Outcome, ok,
  panic, ◌>>=◌, ℕ,
}
use sni_shaper_linux.Text.{Bytes, codes, str_eq, is_empty}
use sni_shaper_linux.Rules.Types.{Rule}
use sni_shaper_linux.Rules.Domain.{Regex}
use sni_shaper_linux.Rules.Match.{Routes}
use sni_shaper_linux.Auto.Router.{Ip, AutoRouter}
use sni_shaper_linux.Tls.Fragment.{Call}
use sni_shaper_linux.Net.Address.{normalize_host, ensure_addr_with_port}
use sni_shaper_linux.Net.Candidates.{Network}
use sni_shaper_linux.Connect.Prepare.{ConnectResult, prepare_connect}
use sni_shaper_linux.Connect.Dial.{Report, candidates_of, dial_upstream}
use sni_shaper_linux.Handlers.Lifetime.{
  client, upstream, Event, opened, replied, hijacked, wrote, closed, tunnel,
}
use sni_shaper_linux.Handlers.Fragment.{Peers, handle_tls_fragment}
use sni_shaper_linux.Handlers.Upstream.{Outside}
use sni_shaper_linux.Handlers.Mitm.{
  ClientSide, handle_mitm, handle_server_mitm, handle_quic_mitm, handle_transparent,
}

-- What comes of taking the connection over and of the answer 200: the writer is no `Hijacker`, `Hijack` or
-- the write or the flush fails, or nothing fails.
pub data Hijack : Type 0 where
  unsupported hijack_fails write_fails flush_fails taken : Hijack

-- All that is outside: the addresses, which of them answer, and what the other ends do.
pub record Session : Type 0 where
  pub network : Network
  pub dial : Bytes → Bool
  pub hijack : Hijack
  pub side : ClientSide
  pub outside : Outside
  pub peers : Peers

-- The modes that the handler tells apart.
pub data Route : Type 0 where
  direct blocked by_server by_quic by_mitm by_tls_rf by_tunnel : Route

unfoldable pub route_of : Bytes → Route
route_of mode =
    if str_eq mode (codes "direct")
    then direct
    else if str_eq mode (codes "block") || str_eq mode (codes "reject")
    then blocked
    else if str_eq mode (codes "server")
    then by_server
    else if str_eq mode (codes "quic")
    then by_quic
    else if str_eq mode (codes "mitm")
    then by_mitm
    else if str_eq mode (codes "tls-rf")
    then by_tls_rf
    else by_tunnel

abbrev pub established : Bytes
established = codes "HTTP/1.1 200 Connection Established" ++ 13 ∷ 10 ∷ 13 ∷ 10 ∷ []

-- What was done before a call.
abbrev pub before_call : List Event → Call (List Event) → Call (List Event)
before_call es call = call >>= λ later. ok (es ++ later)

-- With what is done on a failure, and what follows.
unfoldable pub take_over : Hijack → List Event → Call (List Event) → Call (List Event)
take_over unsupported give_back next = ok (replied 500 ∷ give_back)
take_over hijack_fails give_back next = ok give_back
take_over write_fails give_back next = ok (hijacked ∷ closed client ∷ give_back)
take_over flush_fails give_back next = ok (hijacked ∷ closed client ∷ give_back)
take_over taken give_back next = before_call (hijacked ∷ wrote client established ∷ []) next

-- The handler of the mode, with the address that answered; the upstream itself is not passed to
-- `handleMITM`.
unfoldable pub relay : Session → ConnectResult → Bytes → Route → Call (List Event)
relay s cr addr by_mitm =
    ok (handle_mitm s.outside s.side cr.target_host cr.rule (candidates_of s.network cr) addr)
relay s cr addr by_tls_rf = handle_tls_fragment s.peers cr.rule
relay s cr addr r = ok handle_transparent

unfoldable pub on_dialled : Session → ConnectResult → Route → Option Bytes → Call (List Event)
unfolding take_over
on_dialled s cr r none = ok (replied 502 ∷ [])
on_dialled s cr r (some addr) =
    before_call (opened upstream ∷ [])
      (take_over s.hijack (closed upstream ∷ []) (relay s cr addr r))

-- `directConnect`, by whether the target answers.
pub direct_to : Hijack → Bool → Call (List Event)
unfolding take_over
direct_to hijack false = ok (replied 502 ∷ [])
direct_to hijack true =
    before_call (opened upstream ∷ [])
      (take_over hijack (closed upstream ∷ []) (ok (tunnel client upstream ∷ [])))

unfoldable pub direct_connect : Session → Bytes → Call (List Event)
unfolding direct_to
direct_connect s target_addr = direct_to s.hijack (s.dial target_addr)

-- The modes `server` and `quic`, and those that dial an upstream, with the reports to the pool.
unfoldable pub by_route : Session → ConnectResult → Route → Call (List Event) × List Report
unfolding direct_connect take_over on_dialled
by_route s cr direct = (direct_connect s cr.target_addr, [])
by_route s cr blocked = (ok (replied 403 ∷ []), [])
by_route s cr by_server = (
  take_over s.hijack []
      (ok (handle_server_mitm s.outside s.side s.network.cf_pool s.peers.server_host cr.rule)),
  [],
)
by_route s cr by_quic = (take_over s.hijack [] (ok (handle_quic_mitm s.side)), [])
by_route s cr r =
    let (found, reports) = dial_upstream s.network s.dial cr in (on_dialled s cr r found, reports)

unfoldable pub serve_connect : Session → ConnectResult → Call (List Event) × List Report
unfolding by_route route_of
serve_connect s cr = by_route s cr (route_of cr.effective_mode)

-- The authority that the request asks for.
abbrev pub authority : Bytes → Bytes → Bytes
authority url_host req_host = if is_empty url_host then req_host else url_host

-- Beside the events and the reports, the automatic router that the look-up leaves.
unfoldable pub handle_connect :
    Regex
    → (Bytes → Option (List Ip))
    → ℕ
    → ℕ
    → Routes
    → Session
    → Bytes
    → Bytes
    → Rule
    → (Call (List Event) × List Report) × Option AutoRouter
unfolding serve_connect
handle_connect regex resolve now after routes s url_host req_host rule =
    let target = authority url_host req_host in
    let (cr, router) =
      prepare_connect regex resolve now after routes (normalize_host target)
        (ensure_addr_with_port target (codes "443")) rule in
    (serve_connect s cr, router)
