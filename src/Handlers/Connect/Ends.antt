-- ===== src/Handlers/Connect/Ends.antt =====
-- Where the connections of a CONNECT request end.
use sni_shaper_linux.Prelude.{
  Bool, true, false, Option, none, some, List, [], ◌∷◌, ok, err, panic, out_of_fuel, ◌≡◌, refl,
  subst, sym, All,
}
use sni_shaper_linux.Text.{Bytes}
use sni_shaper_linux.Tls.Fragment.{Call}
use sni_shaper_linux.Connect.Prepare.{ConnectResult}
use sni_shaper_linux.Connect.Dial.{candidates_of, dial_upstream}
use sni_shaper_linux.Handlers.Lifetime.{
  Life, idle, live, Lives, IsOver, AllOver, BothShut, run, client, upstream, Event, opened, replied,
  hijacked, wrote, closed, tunnel, answer,
}
use sni_shaper_linux.Handlers.Fragment.{read_initial_tls_record, handle_tls_fragment}
use sni_shaper_linux.Handlers.Fragment.Reading.{IsByte}
use sni_shaper_linux.Handlers.Fragment.Carried.{both_open}
use sni_shaper_linux.Handlers.Fragment.Ends.{Ends, handle_tls_fragment-Ends}
use sni_shaper_linux.Handlers.Mitm.{
  handle_mitm, handle_server_mitm, handle_quic_mitm, handle_transparent,
}
use sni_shaper_linux.Handlers.Mitm.Ends.{
  HasGenerator, KeepsUpstream, Handles, handle_mitm-Handles, handle_server_mitm-Handles,
  handle_quic_mitm-Handles,
}
use sni_shaper_linux.Handlers.Connect.{
  Hijack, unsupported, hijack_fails, write_fails, flush_fails, taken, Session, Route, direct,
  blocked, by_server, by_quic, by_mitm, by_tls_rf, route_of, take_over, relay, on_dialled,
  direct_to, direct_connect, by_route, serve_connect, before_call, established,
}
use sni_shaper_linux.Handlers.Connect.Ending.{
  at_first, stays_open, is_mitm, only_mitm, HelloEnds, Leaving, on_hijack, by_dial, is_found,
  EndsWith, ConnectEnds,
}

-- An outcome, with no word of the route: all is over, with an answer, or a panic that `P` explains.
abbrev Over : Type 0 → Option Event → Call (List Event) → Type 0
Over P x (ok es) = AllOver (run es at_first) × (answer es ≡ x)
Over P x panic = P
Over P x (err e) = ⊥
Over P x out_of_fuel = ⊥

pub keeps-AllOver : (u : Life) (o : Option Lives) → IsOver u → KeepsUpstream u o → AllOver o
keeps-AllOver u none h k = k
keeps-AllOver u (some s) h (c, e, d) = (c, subst IsOver (sym e) h, d)

shut-AllOver : (o : Option Lives) → BothShut o → AllOver o
shut-AllOver none k = k
shut-AllOver (some s) (c, u, d) = (subst IsOver (sym c) tt, subst IsOver (sym u) tt, d)

-- A handler of the client that is taken over with no upstream.
alone :
    (h : Hijack) (es : List Event) → Handles idle es → Over ⊥ (on_hijack h) (take_over h [] (ok es))
unfolding take_over
alone unsupported es k = ((tt, tt, tt), refl)
alone hijack_fails es k = ((tt, tt, tt), refl)
alone write_fails es k = ((tt, tt, tt), refl)
alone flush_fails es k = ((tt, tt, tt), refl)
alone taken es k = (keeps-AllOver idle (run es _) tt k, refl)

-- What follows when the client is taken over, behind an upstream that answered.
abbrev joins : Call (List Event) → Call (List Event)
joins next =
    before_call (opened upstream ∷ []) (before_call (hijacked ∷ wrote client established ∷ []) next)

abbrev behind_dial : Hijack → Call (List Event) → Call (List Event)
behind_dial h next = before_call (opened upstream ∷ []) (take_over h (closed upstream ∷ []) next)

with_upstream-Over :
    (P : Type 0) (h : Hijack) (next : Call (List Event))
    → Over P (some hijacked) (joins next)
    → Over P (on_hijack h) (behind_dial h next)
unfolding take_over
with_upstream-Over P unsupported next k = ((tt, tt, tt), refl)
with_upstream-Over P hijack_fails next k = ((tt, tt, tt), refl)
with_upstream-Over P write_fails next k = ((tt, tt, tt), refl)
with_upstream-Over P flush_fails next k = ((tt, tt, tt), refl)
with_upstream-Over P taken next k = k

direct_to-Over : (h : Hijack) (b : Bool) → Over ⊥ (by_dial h b) (direct_to h b)
unfolding direct_to
direct_to-Over h false = ((tt, tt, tt), refl)
direct_to-Over h true =
    with_upstream-Over ⊥ h (ok (tunnel client upstream ∷ [])) ((tt, tt, tt), refl)

-- The handler of fragments, for the two connections.
fragment-Over :
    (s : Session) (r : Option (Bytes × Bytes)) (o : Call (List Event))
    → read_initial_tls_record s.peers.input ≡ r
    → Ends r o
    → Over (HelloEnds s by_tls_rf) (some hijacked) (joins o)
fragment-Over s none (ok es) e k = (shut-AllOver (run es both_open) k.0, refl)
fragment-Over s (some (rec, left)) (ok es) e k = (shut-AllOver (run es both_open) k.0, refl)
fragment-Over s (some (rec, left)) panic e k = (rec, (left, (e, k)))
fragment-Over s none panic e k = absurd k
fragment-Over s none (err x) e k = absurd k
fragment-Over s none out_of_fuel e k = absurd k
fragment-Over s (some (rec, left)) (err x) e k = absurd k
fragment-Over s (some (rec, left)) out_of_fuel e k = absurd k

Over-EndsWith :
    (s : Session) (r : Route) (found : Option Bytes) (x : Option Event) (o : Call (List Event))
    → stays_open found r s.hijack ≡ false
    → Over (HelloEnds s r) x o
    → EndsWith s r found x o
Over-EndsWith s r found x (ok es) e (k, a) = (subst (λ b. Leaving b (run es at_first)) (sym e) k, a)
Over-EndsWith s r found x panic e k = k
Over-EndsWith s r found x (err y) e k = absurd k
Over-EndsWith s r found x out_of_fuel e k = absurd k

calm : (P : Type 0) (x : Option Event) (o : Call (List Event)) → Over ⊥ x o → Over P x o
calm P x (ok es) k = k
calm P x panic k = absurd k
calm P x (err y) k = absurd k
calm P x out_of_fuel k = absurd k

-- Under `mitm`, by what comes of taking the connection over.
mitm-EndsWith :
    (h : Hijack) (es : List Event) (addr : Bytes)
    → Handles live es
    → (later : List Event) × ((behind_dial h (ok es) ≡ ok later)
        × (Leaving (stays_open (some addr) by_mitm h) (run later at_first)
            × (answer later ≡ on_hijack h)))
unfolding take_over
mitm-EndsWith unsupported es addr k = (_, (refl, ((tt, tt, tt), refl)))
mitm-EndsWith hijack_fails es addr k = (_, (refl, ((tt, tt, tt), refl)))
mitm-EndsWith write_fails es addr k = (_, (refl, ((tt, tt, tt), refl)))
mitm-EndsWith flush_fails es addr k = (_, (refl, ((tt, tt, tt), refl)))
mitm-EndsWith taken es addr k = (_, (refl, (k, refl)))

module _ (s : Session) (cr : ConnectResult) (made : HasGenerator s.side.ca)
    (bytes : All IsByte s.peers.input) where
  on_dialled-EndsWith :
      (r : Route) (found : Option Bytes)
      → EndsWith s r found (by_dial s.hijack (is_found found)) (on_dialled s cr r found)
  unfolding on_dialled relay handle_transparent
  on_dialled-EndsWith r none = ((tt, tt, tt), refl)
  on_dialled-EndsWith by_mitm (some addr) =
      let es =
        handle_mitm s.outside s.side cr.target_host cr.rule (candidates_of s.network cr) addr in
      let (later, (e, k)) = mitm-EndsWith s.hijack es addr (
        handle_mitm-Handles live s.outside s.side cr.target_host cr.rule
          (candidates_of s.network cr) addr made) in
      subst (EndsWith s by_mitm (some addr) (on_hijack s.hijack)) (sym e) k
  on_dialled-EndsWith by_tls_rf (some addr) =
      Over-EndsWith s by_tls_rf (some addr) (on_hijack s.hijack)
        (behind_dial s.hijack (handle_tls_fragment s.peers cr.rule)) refl
        (with_upstream-Over (HelloEnds s by_tls_rf) s.hijack (handle_tls_fragment s.peers cr.rule) (
          fragment-Over s (read_initial_tls_record s.peers.input)
            (handle_tls_fragment s.peers cr.rule) refl
            (handle_tls_fragment-Ends s.peers cr.rule bytes)))
  on_dialled-EndsWith r (some addr) =
      let o : Call (List Event) = behind_dial s.hijack (ok handle_transparent) in
      Over-EndsWith s r (some addr) (on_hijack s.hijack) o refl (
        calm (HelloEnds s r) (on_hijack s.hijack) o
          (with_upstream-Over ⊥ s.hijack (ok handle_transparent) ((tt, tt, tt), refl)))

  -- A route that dials no upstream.
  undialled-EndsWith :
      (r : Route) (found : Option Bytes) (x : Option Event) (o : Call (List Event))
      → is_mitm r ≡ false
      → Over ⊥ x o
      → EndsWith s r found x o
  undialled-EndsWith r found x o e k =
      Over-EndsWith s r found x o (only_mitm found r s.hijack e) (calm (HelloEnds s r) x o k)

  by_route-ConnectEnds :
      (r : Route) → ConnectEnds s cr r (dial_upstream s.network s.dial cr).0 (by_route s cr r).0
  unfolding by_route direct_connect
  by_route-ConnectEnds direct =
      undialled-EndsWith direct (dial_upstream s.network s.dial cr).0
        (by_dial s.hijack (s.dial cr.target_addr)) (direct_connect s cr.target_addr) refl
        (direct_to-Over s.hijack (s.dial cr.target_addr))
  by_route-ConnectEnds blocked =
      undialled-EndsWith blocked (dial_upstream s.network s.dial cr).0 (some (replied 403))
        (ok (replied 403 ∷ [])) refl ((tt, tt, tt), refl)
  by_route-ConnectEnds by_server =
      let es = handle_server_mitm s.outside s.side s.network.cf_pool s.peers.server_host cr.rule in
      undialled-EndsWith by_server (dial_upstream s.network s.dial cr).0 (on_hijack s.hijack)
        (take_over s.hijack [] (ok es)) refl
        (alone s.hijack es (
          handle_server_mitm-Handles idle s.outside s.side s.network.cf_pool s.peers.server_host
            cr.rule))
  by_route-ConnectEnds by_quic =
      undialled-EndsWith by_quic (dial_upstream s.network s.dial cr).0 (on_hijack s.hijack)
        (take_over s.hijack [] (ok (handle_quic_mitm s.side))) refl
        (alone s.hijack (handle_quic_mitm s.side) (handle_quic_mitm-Handles idle s.side))
  by_route-ConnectEnds r = on_dialled-EndsWith r (dial_upstream s.network s.dial cr).0

  -- Where there is a generator of certificates, and the client sends bytes: every event is in order. The
  -- client is answered once, with 403 under a mode that blocks, with 502 where no dial is
  -- answered, with 500 where it cannot be taken over; else it is taken
  -- over once, but if that fails, when the handler leaves the client to the server. The client that is
  -- answered or taken over and all connections that were made are closed in the end, but for one case:
  -- under `mitm`, where an upstream answered and the client was taken over, that upstream is left open.
  -- The call panics only under `tls-rf`, where the server name ends the record that the client sent.
  pub serve_connect-ConnectEnds :
      ConnectEnds s cr
        (route_of cr.effective_mode)
        (dial_upstream s.network s.dial cr).0
        (serve_connect s cr).0
  unfolding serve_connect
  serve_connect-ConnectEnds = by_route-ConnectEnds (route_of cr.effective_mode)
