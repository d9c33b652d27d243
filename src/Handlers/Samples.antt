-- ===== src/Handlers/Samples.antt =====
-- Runs of the handlers.
use sni_shaper_linux.Prelude.{
  IsIn, ◌↔◌, ℕ, ◌*◌, ◌≡◌, refl, Bool, true, false, ◌&&◌, none, some, [], ◌∷◌, ◌++◌, arith, ltb, All,
  length, ok, panic,
}
use sni_shaper_linux.Text.{
  split, trim_prefix, has_prefix, is_empty, str_eq, to_lower, trim_space, Bytes, codes, decimal,
}
use sni_shaper_linux.Net.Address.{normalize_host}
use sni_shaper_linux.Handlers.Mitm.{handle_transparent, no_generator, ready, handle_mitm}
use sni_shaper_linux.Handlers.Connect.{relay, taken, Session, route_of, serve_connect}
use sni_shaper_linux.Net.Candidates.{build_dial_candidates}
use sni_shaper_linux.Connect.Dial.{report_of, dial_upstream}
use sni_shaper_linux.Auto.Router.{dial_fallback}
use sni_shaper_linux.Handlers.Fragment.{
  deliver, Peers, read_initial_tls_record, handle_tls_fragment,
}
use sni_shaper_linux.Tls.Fragment.{send_records}
use sni_shaper_linux.Tls.Hello.{parse_client_hello}
use sni_shaper_linux.Rules.Types.{Rule, empty_rule}
use sni_shaper_linux.Connect.Prepare.{ConnectResult}
use sni_shaper_linux.Tls.SampleHellos.{hello_bytes, hello_end_bytes}
use sni_shaper_linux.Handlers.Lifetime.{
  client, upstream, second, opened, replied, socks_reply, wrote, sent, closed, tunnel, hijacked,
}
use sni_shaper_linux.Handlers.Fragment.Reading.{IsByte}
use sni_shaper_linux.Handlers.Fragment.Ends.{Ends, handle_tls_fragment-Ends}
use sni_shaper_linux.Handlers.Upstream.{
  Attempt, refused, ech_rejected, accepted, dialled, hung_up, synced, Outside, Found,
  ordered_candidates, establish_upstream_conn,
}
use sni_shaper_linux.Handlers.Upstream.Rounds.{Established, establish_upstream_conn-Established}
use sni_shaper_linux.Handlers.Connect.Ending.{ConnectEnds}
use sni_shaper_linux.Handlers.Connect.Ends.{serve_connect-ConnectEnds}
use sni_shaper_linux.Handlers.Socks.{socks_target, serve_socks5}
use sni_shaper_linux.Handlers.Http.{redirect_to, handle_http}
use sni_shaper_linux.Handlers.Forward.{Header, remove_hop_by_hop_headers, worker_url}
use sni_shaper_linux.Handlers.Forward.Headers.{IsListed, IsOneHop, remove_hop_by_hop_headers_iff}
use sni_shaper_linux.Handlers.Socks.Ends.{SocksEnds, serve_socks5-SocksEnds}

abbrev all_bytes : Bytes → Bool
all_bytes [] = true
all_bytes (b ∷ bs) = ltb b 256 && all_bytes bs

all_bytes-IsByte : (bs : Bytes) → all_bytes bs ≡ true → All IsByte bs
all_bytes-IsByte [] h = tt
all_bytes-IsByte (b ∷ bs) h = (ground arith, all_bytes-IsByte bs (ground arith))

-- The upstream takes one of the four fragments, and the fallback answers.
abbrev peers : Peers
peers = record {
  input = hello_bytes ++ codes "more";
  capacity = 0;
  probe = none;
  dials = λ addr. true;
  takes = true;
  server_host = codes "server.example";
}

abbrev served_rule : Rule
served_rule = record empty_rule { mode = codes "tls-rf"; fallback_mode = codes "server" }

falls_back_whole :
    handle_tls_fragment peers served_rule
    ≡ ok (
        sent upstream []
        ∷ closed upstream
        ∷ opened second
        ∷ wrote second hello_bytes
        ∷ tunnel client second
        ∷ [])
unfolding handle_tls_fragment read_initial_tls_record parse_client_hello send_records deliver
    is_empty dial_fallback str_eq
falls_back_whole = refl

-- A name at the end of the record.
hello_end_panics :
    handle_tls_fragment (record peers { input = hello_end_bytes }) served_rule ≡ panic
unfolding handle_tls_fragment read_initial_tls_record parse_client_hello send_records
hello_end_panics = refl

handle_tls_fragment-Ends_example :
    Ends (read_initial_tls_record peers.input) (handle_tls_fragment peers served_rule)
handle_tls_fragment-Ends_example =
    handle_tls_fragment-Ends peers served_rule (all_bytes-IsByte peers.input refl)

-- The first attempt is rejected, the second one is not made with the same configuration.
abbrev attempts : ℕ → Bytes → Bool → Attempt
attempts n addr false = ech_rejected
attempts n addr true = accepted (codes "h2")

abbrev outside : Outside
outside = record {
  attempt = attempts;
  refresh = λ domain. some (1 ∷ 2 ∷ []);
  has_resolver = true;
  has_pool = false;
}

abbrev ech_rule : Rule
ech_rule = record empty_rule { mode = codes "mitm"; ech_enabled = true; ech_profile_id = codes "p" }

retried :
    establish_upstream_conn outside (codes "h") ech_rule (codes "a:1" ∷ [])
    ≡ some (
      some (codes "a:1", codes "h2"),
      dialled (codes "a:1")
          ∷ hung_up (codes "a:1")
          ∷ synced (codes "p") (1 ∷ 2 ∷ [])
          ∷ dialled (codes "a:1")
          ∷ [],
    )
unfolding establish_upstream_conn is_empty report_of
retried = refl

-- Every handshake fails, and so does the second round in the fallback mode `quic`, which is a TLS handshake
-- over TCP once more, now without ECH.
fallback_repeats :
    establish_upstream_conn
      (record outside { attempt = λ n addr again. refused })
      (codes "h")
      (record ech_rule { fallback_mode = codes "quic" })
      (codes "a:1" ∷ [])
    ≡ some (
      none,
      dialled (codes "a:1")
          ∷ hung_up (codes "a:1")
          ∷ dialled (codes "a:1")
          ∷ hung_up (codes "a:1")
          ∷ [],
    )
unfolding establish_upstream_conn str_eq to_lower trim_space report_of
fallback_repeats = refl

establish_upstream_conn-Established_example :
    (r : Found) × ((establish_upstream_conn outside (codes "h") ech_rule (codes "a:1" ∷ [])
        ≡ some r)
      × Established outside
          (ordered_candidates (codes "h") (codes "a:1" ∷ []))
          (4 * length (ordered_candidates (codes "h") (codes "a:1" ∷ [])))
          r)
establish_upstream_conn-Established_example =
    establish_upstream_conn-Established outside (codes "h") ech_rule (codes "a:1" ∷ [])

abbrev session : Session
session = record {
  network = record { is_ip = λ s. true; show_ip = λ ip. []; doh_resolver = none; cf_pool = none };
  dial = λ addr. true;
  hijack = taken;
  side = record { ca = ready; handshake = true; h2_wraps = true };
  outside = record outside { attempt = λ n addr again. accepted (codes "h2") };
  peers = peers;
}

abbrev result_of : Bytes → ConnectResult
result_of mode = record {
  effective_mode = mode;
  target_host = codes "h";
  target_addr = codes "h:443";
  rule = record empty_rule { mode = mode };
}

-- Without a generator of certificates the client is joined to itself.
joined_to_itself :
    handle_mitm outside
      (record { ca = no_generator; handshake = true; h2_wraps = true })
      (codes "h")
      ech_rule
      []
      (codes "a:1")
    ≡ tunnel client client ∷ []
unfolding handle_mitm
joined_to_itself = refl

-- The upstream that was dialled stays open.
mitm_events :
    (serve_connect session (result_of (codes "mitm"))).0
    ≡ ok (
        opened upstream
        ∷ hijacked
        ∷ wrote client (codes "HTTP/1.1 200 Connection Established" ++ 13 ∷ 10 ∷ 13 ∷ 10 ∷ [])
        ∷ opened second
        ∷ tunnel client second
        ∷ closed second
        ∷ [])
unfolding serve_connect str_eq dial_upstream build_dial_candidates to_lower trim_space is_empty
    has_prefix normalize_host relay handle_mitm establish_upstream_conn
mitm_events = refl

blocked_by_http : (serve_connect session (result_of (codes "block"))).0 ≡ ok (replied 403 ∷ [])
unfolding serve_connect str_eq
blocked_by_http = refl

served_by_socks :
    (serve_socks5 true session (result_of (codes "block"))).0
    ≡ ok (opened upstream ∷ socks_reply true ∷ tunnel client upstream ∷ closed upstream ∷ [])
unfolding serve_socks5 route_of str_eq dial_upstream build_dial_candidates to_lower trim_space relay
    handle_transparent
served_by_socks = refl

-- The text of an IPv6 address is not put in brackets.
socks_target_ipv6 :
    socks_target (record { fqdn = []; ip_text = codes "2001:db8::1"; port = 443 })
    ≡ codes "2001:db8::1:443"
unfolding is_empty decimal
socks_target_ipv6 = refl

serve_connect-ConnectEnds_example :
    ConnectEnds session
      (result_of (codes "mitm"))
      (route_of (codes "mitm"))
      (dial_upstream session.network session.dial (result_of (codes "mitm"))).0
      (serve_connect session (result_of (codes "mitm"))).0
serve_connect-ConnectEnds_example =
    serve_connect-ConnectEnds session (result_of (codes "mitm")) tt
      (all_bytes-IsByte session.peers.input refl)

serve_socks5-SocksEnds_example :
    SocksEnds session
      (result_of (codes "block"))
      (route_of (codes "block"))
      (dial_upstream session.network session.dial (result_of (codes "block"))).0
      (serve_socks5 true session (result_of (codes "block"))).0
serve_socks5-SocksEnds_example =
    serve_socks5-SocksEnds session (result_of (codes "block")) tt
      (all_bytes-IsByte session.peers.input refl)

abbrev header : Header
header =
    (codes "connection", codes "X-Key, Upgrade" ∷ [])
    ∷ (codes "X-Key", codes "1" ∷ [])
    ∷ (codes "Upgrade", codes "websocket" ∷ [])
    ∷ (codes "TE", codes "trailers" ∷ [])
    ∷ []

sent_on :
    remove_hop_by_hop_headers header
    ≡ (codes "connection", codes "X-Key, Upgrade" ∷ [])
      ∷ (codes "Upgrade", codes "websocket" ∷ [])
      ∷ []
unfolding remove_hop_by_hop_headers is_empty str_eq to_lower split trim_space
sent_on = refl

remove_hop_by_hop_headers_iff_example :
    IsIn (codes "Upgrade", codes "websocket" ∷ []) (remove_hop_by_hop_headers header) ↔ (
      IsIn (codes "Upgrade", codes "websocket" ∷ []) header
      × ((¬ IsListed header (codes "Upgrade", codes "websocket" ∷ []))
          × (¬ IsOneHop (codes "Upgrade", codes "websocket" ∷ []))))
remove_hop_by_hop_headers_iff_example =
    remove_hop_by_hop_headers_iff header (codes "Upgrade", codes "websocket" ∷ [])

-- A plain request for a host under `mitm` is sent to HTTPS.
redirected :
    handle_http session.network
      (record empty_rule { mode = codes "mitm" })
      (record {
        method = codes "GET";
        scheme = [];
        url_host = [];
        host = codes "a.bc";
        has_tls = false;
      })
    ≡ redirect_to (codes "a.bc")
unfolding handle_http str_eq is_empty
redirected = refl

worker_request :
    worker_url (codes "w.example") (codes "key") (codes "a.bc") (codes "p") (codes "q=1")
    ≡ codes "https://w.example/key/a.bc/p?q=1"
unfolding worker_url is_empty has_prefix trim_prefix
worker_request = refl
