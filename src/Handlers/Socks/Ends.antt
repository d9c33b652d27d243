-- ===== src/Handlers/Socks/Ends.antt =====
-- Where the connections of a SOCKS5 request end.
use sni_shaper_linux.Prelude.{
  Bool, true, false, Option, none, some, List, [], ◌∷◌, ◌++◌, ok, err, panic, out_of_fuel, arith,
  ◌≡◌, refl, subst, ap, sym, ◌>>=◌, All, ◌∙◌,
}
use sni_shaper_linux.Text.{Bytes}
use sni_shaper_linux.Tls.Fragment.{Call}
use sni_shaper_linux.Connect.Prepare.{ConnectResult}
use sni_shaper_linux.Connect.Dial.{candidates_of, dial_upstream}
use sni_shaper_linux.Handlers.Lifetime.{
  Life, idle, live, shut, Lives, IsOver, AllOver, BothShut, on_close, set_upstream, run, step,
  run_on, upstream, Event, opened, socks_reply, closed, joined, answer,
}
use sni_shaper_linux.Handlers.Fragment.{read_initial_tls_record, handle_tls_fragment}
use sni_shaper_linux.Handlers.Fragment.Reading.{IsByte}
use sni_shaper_linux.Handlers.Fragment.Carried.{both_open}
use sni_shaper_linux.Handlers.Fragment.Ends.{Ends, handle_tls_fragment-Ends}
use sni_shaper_linux.Handlers.Mitm.{
  handle_mitm, handle_server_mitm, handle_quic_mitm, handle_transparent,
}
use sni_shaper_linux.Handlers.Mitm.Ends.{
  HasGenerator, client_taken, KeepsUpstream, handle_mitm-Handles, handle_server_mitm-Handles,
  handle_quic_mitm-Handles,
}
use sni_shaper_linux.Handlers.Connect.{
  Session, Route, direct, blocked, by_server, by_quic, by_mitm, by_tls_rf, route_of, relay,
  before_call,
}
use sni_shaper_linux.Handlers.Connect.Ending.{at_first, HelloEnds, is_found}
use sni_shaper_linux.Handlers.Connect.Ends.{keeps-AllOver}
use sni_shaper_linux.Handlers.Socks.{socks_direct, socks_dialled, socks_by_route, serve_socks5}

-- Under a mode that blocks, the client is joined to an upstream that answered.
abbrev pub Joins : Option Bytes → Route → List Event → Type 0
Joins none r es = Unit
Joins (some addr) blocked es = joined es ≡ some upstream
Joins (some addr) r es = Unit

-- Whether the reply is of a success, by whether the target answers, and whether an upstream does.
abbrev pub succeeds : Bool → Bool → Route → Bool
succeeds target up direct = target
succeeds target up by_server = true
succeeds target up by_quic = true
succeeds target up r = up

abbrev EndsWith : Session → Route → Option Bytes → Bool → Call (List Event) → Type 0
EndsWith s r found b (ok es) =
    AllOver (run es at_first) × (answer es ≡ some (socks_reply b)) × Joins found r es
EndsWith s r found b panic = HelloEnds s r
EndsWith s r found b (err e) = ⊥
EndsWith s r found b out_of_fuel = ⊥

abbrev pub SocksEnds : Session → ConnectResult → Route → Option Bytes → Call (List Event) → Type 0
SocksEnds s cr r found o =
    EndsWith s r found (succeeds (s.dial cr.target_addr) (is_found found) r) o

run_on-append :
    (xs ys : List Event)
    → ((t : Lives) → run (xs ++ ys) t ≡ run_on (run ys) (run xs t))
    → (o : Option Lives) → run_on (run (xs ++ ys)) o ≡ run_on (run ys) (run_on (run xs) o)
run_on-append xs ys each none = refl
run_on-append xs ys each (some t) = each t

run-append : (xs ys : List Event) (s : Lives) → run (xs ++ ys) s ≡ run_on (run ys) (run xs s)
run-append [] ys s = refl
run-append (x ∷ xs) ys s = run_on-append xs ys (λ t. run-append xs ys t) (step x s)

-- The deferred `Close` of the upstream, where it is open or closed.
keeps-closed :
    (u : Life) (o : Option Lives)
    → on_close u ≡ some shut
    → KeepsUpstream u o
    → AllOver (run_on (run (closed upstream ∷ [])) o)
keeps-closed u none e k = k
keeps-closed u (some s) e (c, v, d) =
    subst (λ l. AllOver (run_on (run []) (set_upstream s l))) (sym (ap on_close v ∙ e)) (c, tt, d)

shut-closed : (o : Option Lives) → BothShut o → AllOver (run_on (run (closed upstream ∷ [])) o)
shut-closed o k = keeps-closed shut o refl (go o k)
  where
    go : (o : Option Lives) → BothShut o → KeepsUpstream shut o
    go none k = k
    go (some s) (c, u, d) = (subst IsOver (sym c) tt, u, d)

abbrev Over : Type 0 → Bool → Call (List Event) → Type 0
Over P b (ok es) = AllOver (run es at_first) × (answer es ≡ some (socks_reply b))
Over P b panic = P
Over P b (err e) = ⊥
Over P b out_of_fuel = ⊥

-- What the handler of the mode does, and the deferred `Close`.
abbrev then_closed : Call (List Event) → Call (List Event)
then_closed o =
    before_call (opened upstream ∷ socks_reply true ∷ [])
      (o >>= λ es. ok (es ++ closed upstream ∷ []))

closed-Over :
    (P : Type 0) (es : List Event)
    → AllOver (run_on (run (closed upstream ∷ [])) (run es both_open))
    → Over P true (then_closed (ok es))
closed-Over P es k = (subst AllOver (sym (run-append es (closed upstream ∷ []) both_open)) k, refl)

fragment-Over :
    (s : Session) (r : Option (Bytes × Bytes)) (o : Call (List Event))
    → read_initial_tls_record s.peers.input ≡ r
    → Ends r o
    → Over (HelloEnds s by_tls_rf) true (then_closed o)
fragment-Over s none (ok es) e k =
    closed-Over (HelloEnds s by_tls_rf) es (shut-closed (run es both_open) k.0)
fragment-Over s (some (rec, left)) (ok es) e k =
    closed-Over (HelloEnds s by_tls_rf) es (shut-closed (run es both_open) k.0)
fragment-Over s (some (rec, left)) panic e k = (rec, (left, (e, k)))
fragment-Over s none panic e k = absurd k
fragment-Over s none (err x) e k = absurd k
fragment-Over s none out_of_fuel e k = absurd k
fragment-Over s (some (rec, left)) (err x) e k = absurd k
fragment-Over s (some (rec, left)) out_of_fuel e k = absurd k

-- Under a route that does not block.
abbrev blocks : Route → Bool
blocks blocked = true
blocks r = false

free-Joins :
    (found : Option Bytes) (r : Route) (es : List Event) → blocks r ≡ false → Joins found r es
free-Joins none r es e = tt
free-Joins (some addr) blocked es e = ground arith
free-Joins (some addr) r es e = tt

Over-EndsWith :
    (s : Session) (r : Route) (found : Option Bytes) (b : Bool) (o : Call (List Event))
    → blocks r ≡ false
    → Over (HelloEnds s r) b o
    → EndsWith s r found b o
Over-EndsWith s r found b (ok es) e (k, a) = (k, a, free-Joins found r es e)
Over-EndsWith s r found b panic e k = k
Over-EndsWith s r found b (err x) e k = absurd k
Over-EndsWith s r found b out_of_fuel e k = absurd k

module _ (s : Session) (cr : ConnectResult) (made : HasGenerator s.side.ca)
    (bytes : All IsByte s.peers.input) where
  socks_dialled-EndsWith :
      (r : Route) (found : Option Bytes)
      → EndsWith s r found (is_found found) (socks_dialled s cr r found)
  unfolding socks_dialled relay handle_transparent
  socks_dialled-EndsWith r none = ((tt, tt, tt), refl, tt)
  socks_dialled-EndsWith by_mitm (some addr) =
      let es =
        handle_mitm s.outside s.side cr.target_host cr.rule (candidates_of s.network cr) addr in
      Over-EndsWith s by_mitm (some addr) true (then_closed (ok es)) refl (
        closed-Over (HelloEnds s by_mitm) es (
          keeps-closed live (run es both_open) refl (
            handle_mitm-Handles live s.outside s.side cr.target_host cr.rule
              (candidates_of s.network cr) addr made)))
  socks_dialled-EndsWith by_tls_rf (some addr) =
      Over-EndsWith s by_tls_rf (some addr) true (then_closed (handle_tls_fragment s.peers cr.rule))
        refl
        (fragment-Over s (read_initial_tls_record s.peers.input)
          (handle_tls_fragment s.peers cr.rule) refl
          (handle_tls_fragment-Ends s.peers cr.rule bytes))
  socks_dialled-EndsWith blocked (some addr) = ((tt, tt, tt), refl, refl)
  socks_dialled-EndsWith r (some addr) = ((tt, tt, tt), refl, tt)

  socks_direct-Over : (r : Route) (b : Bool) → Over (HelloEnds s r) b (ok (socks_direct b))
  unfolding socks_direct
  socks_direct-Over r true = ((tt, tt, tt), refl)
  socks_direct-Over r false = ((tt, tt, tt), refl)

  socks_by_route-SocksEnds :
      (r : Route) → SocksEnds s cr r (dial_upstream s.network s.dial cr).0 (socks_by_route s cr r).0
  unfolding socks_by_route
  socks_by_route-SocksEnds direct =
      Over-EndsWith s direct (dial_upstream s.network s.dial cr).0 (s.dial cr.target_addr)
        (ok (socks_direct (s.dial cr.target_addr))) refl
        (socks_direct-Over direct (s.dial cr.target_addr))
  socks_by_route-SocksEnds by_server =
      let es = handle_server_mitm s.outside s.side s.network.cf_pool s.peers.server_host cr.rule in
      Over-EndsWith s by_server (dial_upstream s.network s.dial cr).0 true
        (ok (socks_reply true ∷ es)) refl
        (
          keeps-AllOver idle (run es (client_taken idle)) tt (
              handle_server_mitm-Handles idle s.outside s.side s.network.cf_pool s.peers.server_host
                cr.rule),
          refl,
        )
  socks_by_route-SocksEnds by_quic =
      let es = handle_quic_mitm s.side in
      Over-EndsWith s by_quic (dial_upstream s.network s.dial cr).0 true
        (ok (socks_reply true ∷ es)) refl
        (
          keeps-AllOver idle (run es (client_taken idle)) tt (handle_quic_mitm-Handles idle s.side),
          refl,
        )
  socks_by_route-SocksEnds r = socks_dialled-EndsWith r (dial_upstream s.network s.dial cr).0

  -- Where there is a generator of certificates, the tracker has the client's connection, and the client
  -- sends bytes: every event is in order, there is one reply, and the client and all connections that
  -- were made are closed in the end, under `mitm` as well. The reply is of a success under `server` and
  -- `quic`, and else exactly if the dial is answered. Under a mode that blocks, the client is joined to
  -- the upstream if one answers. The call panics only under `tls-rf`, where the server name ends the
  -- record that the client sent.
  pub serve_socks5-SocksEnds :
      SocksEnds s cr
        (route_of cr.effective_mode)
        (dial_upstream s.network s.dial cr).0
        (serve_socks5 true s cr).0
  unfolding serve_socks5
  serve_socks5-SocksEnds = socks_by_route-SocksEnds (route_of cr.effective_mode)
