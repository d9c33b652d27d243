-- ===== src/Handlers/Http.antt =====
-- proxy/proxy.go, `handleRequest` and `handleHTTP`: a plain HTTP request is redirected, refused, or sent on, to the
-- host that it names or to a candidate for it.
use sni_shaper_linux.Prelude.{ℕ, Bool, ◌&&◌, ◌||◌, Option, List, [], ◌∷◌, if◌then◌else◌}
use sni_shaper_linux.Text.{Bytes, codes, str_eq, is_empty, to_lower}
use sni_shaper_linux.Rules.Types.{Rule}
use sni_shaper_linux.Rules.Domain.{Regex}
use sni_shaper_linux.Rules.Match.{Routes, match_rule}
use sni_shaper_linux.Auto.Router.{Ip, AutoRouter}
use sni_shaper_linux.Tls.Fragment.{Call}
use sni_shaper_linux.Net.Address.{normalize_host, ensure_addr_with_port}
use sni_shaper_linux.Net.Candidates.{Network, build_dial_candidates, dedupe_dial_candidates}
use sni_shaper_linux.Connect.Dial.{Report}
use sni_shaper_linux.Handlers.Lifetime.{Event}
use sni_shaper_linux.Handlers.Connect.{Session, handle_connect}

pub record HttpRequest : Type 0 where
  pub method : Bytes
  pub scheme : Bytes
  pub url_host : Bytes
  pub host : Bytes
  pub has_tls : Bool

-- Redirected to a host over HTTPS; refused with 403; sent to a host; or sent to a host by way of addresses,
-- which are dialled in turn.
pub data HttpPlan : Type 0 where
  redirect_to : Bytes → HttpPlan
  refuse : HttpPlan
  send_to : Bytes → HttpPlan
  send_by : List Bytes → Bytes → HttpPlan

-- The first text, or else the second one.
abbrev pub either_text : Bytes → Bytes → Bytes
either_text a b = if is_empty a then b else a

-- The copy of the request, with what it leaves out filled in.
unfoldable pub complete_request : HttpRequest → HttpRequest
complete_request req =
    let url_host : Bytes = either_text req.url_host req.host in
    record req {
      scheme = either_text req.scheme (if req.has_tls then codes "https" else codes "http");
      url_host = url_host;
      host = either_text req.host url_host;
    }

abbrev pub default_port_of : HttpRequest → Bytes
default_port_of req =
    if str_eq (to_lower req.scheme) (codes "https") then codes "443" else codes "80"

abbrev pub http_candidates : Network → Rule → HttpRequest → List Bytes
http_candidates net rule req =
    build_dial_candidates net (normalize_host req.host)
      (ensure_addr_with_port req.url_host (default_port_of req)) rule rule.mode

-- With an upstream: the first candidate takes the place of the host.
abbrev pub by_upstream : List Bytes → Bytes → HttpPlan
by_upstream [] url_host = send_to url_host
by_upstream (a ∷ rest) url_host = send_to a

-- Without one: the candidates are dialled if the first one is not the target itself.
abbrev pub by_candidates : List Bytes → Bytes → Bytes → HttpPlan
by_candidates [] target url_host = send_to url_host
by_candidates (a ∷ rest) target url_host =
    if str_eq a target
    then send_to url_host
    else send_by (dedupe_dial_candidates (a ∷ rest)) url_host

unfoldable pub handle_http : Network → Rule → HttpRequest → HttpPlan
unfolding complete_request
handle_http net rule req =
    let r = complete_request req in
    if (str_eq rule.mode (codes "mitm") || str_eq rule.mode (codes "quic"))
      && str_eq r.scheme (codes "http")
    then redirect_to (either_text r.url_host req.host)
    else if str_eq rule.mode (codes "block") || str_eq rule.mode (codes "reject")
    then refuse
    else if str_eq rule.mode (codes "direct")
    then send_to r.url_host
    else if is_empty rule.upstream
    then by_candidates (http_candidates net rule r)
        (ensure_addr_with_port r.url_host (default_port_of r)) r.url_host
    else by_upstream (http_candidates net rule r) r.url_host

-- What becomes of a request: a connection with its events and reports, or a plan.
pub data Handled : Type 0 where
  connected : Call (List Event) × List Report → Handled
  planned : HttpPlan → Handled

abbrev pub as_connected :
    (Call (List Event) × List Report) × Option AutoRouter → Handled × Option AutoRouter
as_connected (events, router) = (connected events, router)

-- Beside it, the automatic router that the look-ups leave.
unfoldable pub handle_request :
    Regex
    → (Bytes → Option (List Ip))
    → ℕ
    → ℕ
    → Routes
    → Bytes
    → Session
    → HttpRequest
    → Handled × Option AutoRouter
unfolding handle_http
handle_request regex resolve now after routes mode s req =
    let host = normalize_host (either_text req.host req.url_host) in
    let matched = match_rule regex resolve now after routes host mode in
    if str_eq req.method (codes "CONNECT")
    then as_connected (
        handle_connect regex resolve now after (record routes { auto_router = matched.auto_router })
          s req.url_host req.host matched.rule)
    else (planned (handle_http s.network matched.rule req), matched.auto_router)
