-- ===== src/Handlers/Mitm.antt =====
-- proxy/proxy.go, `handleMITM`, `handleServerMITM`, `handleQUICMITM` and `handleTransparent`: what is done to
-- the client once it is taken over. Whether its TLS handshake ends is a parameter.
pub mod Ends
use sni_shaper_linux.Prelude.{
  Bool, true, false, not, ◌&&◌, ◌||◌, Option, none, some, List, [], ◌∷◌, ◌++◌, map, select, ℕ,
  if◌then◌else◌,
}
use sni_shaper_linux.Text.{Bytes, codes, str_eq, is_empty, trim_space}
use sni_shaper_linux.Rules.Types.{Rule}
use sni_shaper_linux.Net.Address.{join_host_port}
use sni_shaper_linux.Net.Candidates.{first_seen}
use sni_shaper_linux.Handlers.Lifetime.{
  client, upstream, second, Event, opened, serving, closed, tunnel,
}
use sni_shaper_linux.Handlers.Upstream.{Outside, Found, establish_upstream_conn}

-- No generator of certificates; one without the certificate or the key of its authority; one with both.
pub data CaState : Type 0 where
  no_generator no_key ready : CaState

-- Whether the client's handshake ends, and whether `NewClientConn` of HTTP/2 makes a connection.
pub record ClientSide : Type 0 where
  pub ca : CaState
  pub handshake : Bool
  pub h2_wraps : Bool

-- The address that answered comes first; blank ones are left out.
unfoldable pub order_candidates : Bytes → List Bytes → List Bytes
order_candidates initial candidates =
    (if is_empty (trim_space initial) then [] else initial ∷ [])
    ++ select (λ c. not (is_empty (trim_space c)) && not (str_eq c initial)) candidates

-- By whether the client's handshake ends; the last `closed` is the deferred one.
pub meet_client : Bool → List Event
meet_client true = opened second ∷ tunnel client second ∷ closed second ∷ []
meet_client false = opened second ∷ closed client ∷ closed second ∷ closed second ∷ []

-- By the connection that was established. The fuel is never used up.
pub with_upstream : Option Found → Bool → List Event
unfolding meet_client
with_upstream (some (some found, actions)) handshake = meet_client handshake
with_upstream (some (none, actions)) handshake = closed client ∷ []
with_upstream none handshake = closed client ∷ []

-- Without a generator the client is joined to itself.
pub with_ca : CaState → Option Found → Bool → List Event
unfolding with_upstream
with_ca no_generator found handshake = tunnel client client ∷ []
with_ca no_key found handshake = closed client ∷ []
with_ca ready found handshake = with_upstream found handshake

unfoldable pub handle_mitm : Outside → ClientSide → Bytes → Rule → List Bytes → Bytes → List Event
unfolding with_ca order_candidates
handle_mitm w side host rule candidates initial =
    with_ca side.ca (establish_upstream_conn w host rule (order_candidates initial candidates))
      side.handshake

-- The best addresses of the pool, and the server itself behind them; none of them is empty.
unfoldable pub server_candidates : Option (ℕ → List Bytes) → Rule → Bytes → List Bytes
server_candidates pool rule server_host =
    let own : List Bytes = join_host_port server_host (codes "443") ∷ [] in
    elim pool [
      | none ↦ own
      | some top_ips ↦
          first_seen
            ((if rule.use_cf_pool
                then map (λ ip. join_host_port ip (codes "443")) (top_ips 5)
                else [])
              ++ own)
            []
    ]

-- With the protocol that was agreed on: a failed HTTP/2 connection ends it.
pub serve_protocol : Bool → List Event
serve_protocol true = opened second ∷ serving client ∷ closed second ∷ closed client ∷ []
serve_protocol false = opened second ∷ closed second ∷ closed client ∷ []

pub serve_worker : Option Found → Bool → List Event
unfolding serve_protocol
serve_worker (some (some (addr, alpn), actions)) h2_wraps =
    serve_protocol (if str_eq alpn (codes "h2") then h2_wraps else true)
serve_worker (some (none, actions)) h2_wraps = closed client ∷ []
serve_worker none h2_wraps = closed client ∷ []

-- The client is ready to be served: there is a generator, and its handshake ends.
abbrev pub meets : ClientSide → Bool
meets side = elim side.ca [
  | no_generator ↦ false
  | no_key ↦ side.handshake
  | ready ↦ side.handshake
]

unfoldable pub handle_server_mitm :
    Outside → ClientSide → Option (ℕ → List Bytes) → Bytes → Rule → List Event
unfolding serve_worker server_candidates
handle_server_mitm w side pool server_host rule =
    if not (meets side) || is_empty server_host
    then closed client ∷ []
    else serve_worker
        (establish_upstream_conn w server_host rule (server_candidates pool rule server_host))
        side.h2_wraps

-- The HTTP/3 transport is made without an error, and dials when a request comes.
unfoldable pub handle_quic_mitm : ClientSide → List Event
handle_quic_mitm side =
    if meets side then serving client ∷ closed client ∷ [] else closed client ∷ []

unfoldable pub handle_transparent : List Event
handle_transparent = tunnel client upstream ∷ []
