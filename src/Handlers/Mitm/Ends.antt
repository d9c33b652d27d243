-- ===== src/Handlers/Mitm/Ends.antt =====
-- Where the client and the second connection end.
use sni_shaper_linux.Prelude.{
  refl, Bool, true, false, not, ◌||◌, Option, none, some, List, ◌≡◌, if_either, ℕ,
}
use sni_shaper_linux.Text.{Bytes, is_empty}
use sni_shaper_linux.Rules.Types.{Rule}
use sni_shaper_linux.Handlers.Lifetime.{Life, Lives, live, idle, IsOver, run, Event}
use sni_shaper_linux.Handlers.Upstream.{Outside, Found, establish_upstream_conn}
use sni_shaper_linux.Handlers.Mitm.{
  CaState, no_generator, no_key, ready, ClientSide, order_candidates, meet_client, with_upstream,
  with_ca, handle_mitm, serve_protocol, serve_worker, meets, handle_server_mitm, handle_quic_mitm,
}

abbrev pub HasGenerator : CaState → Type 0
HasGenerator no_generator = ⊥
HasGenerator no_key = Unit
HasGenerator ready = Unit

-- Whatever the upstream's life is, it stays so.
abbrev pub KeepsUpstream : Life → Option Lives → Type 0
KeepsUpstream u none = ⊥
KeepsUpstream u (some s) = IsOver s.client_life × (s.upstream_life ≡ u) × IsOver s.second_life

abbrev pub client_taken : Life → Lives
client_taken u = record { client_life = live; upstream_life = u; second_life = idle }

abbrev pub Handles : Life → List Event → Type 0
Handles u es = KeepsUpstream u (run es (client_taken u))

with_upstream-Handles : (u : Life) (f : Option Found) (b : Bool) → Handles u (with_upstream f b)
unfolding with_upstream meet_client
with_upstream-Handles u (some (some r, actions)) true = (tt, refl, tt)
with_upstream-Handles u (some (some r, actions)) false = (tt, refl, tt)
with_upstream-Handles u (some (none, actions)) b = (tt, refl, tt)
with_upstream-Handles u none b = (tt, refl, tt)

with_ca-Handles :
    (u : Life) (ca : CaState) (f : Option Found) (b : Bool)
    → HasGenerator ca
    → Handles u (with_ca ca f b)
unfolding with_ca
with_ca-Handles u no_generator f b h = absurd h
with_ca-Handles u no_key f b h = (tt, refl, tt)
with_ca-Handles u ready f b h = with_upstream-Handles u f b

pub handle_mitm-Handles :
    (u : Life) (w : Outside) (side : ClientSide) (host : Bytes) (rule : Rule) (cs : List Bytes)
    (initial : Bytes)
    → HasGenerator side.ca
    → Handles u (handle_mitm w side host rule cs initial)
unfolding handle_mitm
handle_mitm-Handles u w side host rule cs initial h =
    with_ca-Handles u side.ca (establish_upstream_conn w host rule (order_candidates initial cs))
      side.handshake h

serve_protocol-Handles : (u : Life) (b : Bool) → Handles u (serve_protocol b)
unfolding serve_protocol
serve_protocol-Handles u true = (tt, refl, tt)
serve_protocol-Handles u false = (tt, refl, tt)

serve_worker-Handles : (u : Life) (f : Option Found) (b : Bool) → Handles u (serve_worker f b)
unfolding serve_worker
serve_worker-Handles u (some (some r, actions)) b = serve_protocol-Handles u _
serve_worker-Handles u (some (none, actions)) b = (tt, refl, tt)
serve_worker-Handles u none b = (tt, refl, tt)

pub handle_server_mitm-Handles :
    (u : Life) (w : Outside) (side : ClientSide) (pool : Option (ℕ → List Bytes))
    (server_host : Bytes) (rule : Rule)
    → Handles u (handle_server_mitm w side pool server_host rule)
unfolding handle_server_mitm
handle_server_mitm-Handles u w side pool server_host rule =
    if_either (Handles u) (not (meets side) || is_empty server_host) (tt, refl, tt)
      (serve_worker-Handles u _ side.h2_wraps)

pub handle_quic_mitm-Handles : (u : Life) (side : ClientSide) → Handles u (handle_quic_mitm side)
unfolding handle_quic_mitm
handle_quic_mitm-Handles u side = if_either (Handles u) (meets side) (tt, refl, tt) (tt, refl, tt)
