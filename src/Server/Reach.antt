-- ===== src/Server/Reach.antt =====
-- The servers that the calls lead to, in whatever order their parts come.
use sni_shaper_linux.Prelude.{
  ==_iff, subst, sym, inl, inr, Bool-cases, ℕ, ◌≡◌, refl, Bool, true, false, ◌&&◌, not, Option,
  none, some, arith, ◌==◌, if_either, if_cases, if◌then◌else◌, get_elem?,
}
use sni_shaper_linux.Text.{Bytes}
use sni_shaper_linux.Server.{
  Starting, ProxyServer, new_proxy_server, set_listen_addr, set_mode, set_socks5_enabled,
  set_socks5_addr, is_server, start_begins, listened, start_listens, start_socks5, finished,
  start_finishes, serve_ends, stop_server, track_accepted, Serving, absent, pending, shut_early,
  accepting, returned, on_begin, serve_begins, on_failure, serve_fails, ended, on_close,
}

pub data ServerStep : ProxyServer → ProxyServer → Type 0 where
  begins : (p : ProxyServer) → ServerStep p (start_begins p)
  listens : (i : ℕ) (works : Bool) (p : ProxyServer) → ServerStep p (start_listens i works p)
  finishes : (i : ℕ) (works : Bool) (p : ProxyServer) → ServerStep p (start_finishes i works p)
  serves : (i : ℕ) (p : ProxyServer) → ServerStep p (serve_begins i p)
  breaks : (i : ℕ) (p : ProxyServer) → ServerStep p (serve_fails i p)
  ends : (i : ℕ) (p : ProxyServer) → ServerStep p (serve_ends i p)
  stops : (p : ProxyServer) → ServerStep p (stop_server p)
  moves : (addr : Bytes) (p : ProxyServer) → ServerStep p (set_listen_addr addr p).1
  changes : (mode : Bytes) (p : ProxyServer) → ServerStep p (set_mode mode p).1
  enables : (enabled : Bool) (p : ProxyServer) → ServerStep p (set_socks5_enabled enabled p)
  moves_socks5 : (addr : Bytes) (p : ProxyServer) → ServerStep p (set_socks5_addr addr p)
  accepts : (remote : Bytes) (p : ProxyServer) → ServerStep p (track_accepted remote p)

pub data IsReachable : ProxyServer → Type 0 where
  begin : (addr : Bytes) → IsReachable (new_proxy_server addr)
  next : {p q : ProxyServer} → IsReachable p → ServerStep p q → IsReachable q

abbrev pub has_server : Option ℕ → Bool
has_server none = false
has_server (some i) = true

-- What is known of a goroutine, by whether its server is the current one of a proxy that runs.
abbrev pub Fits : Serving → Bool → Type 0
Fits absent current = current ≡ false
Fits pending current = current ≡ true
Fits shut_early current = current ≡ false
Fits accepting current = current ≡ true
Fits returned current = Unit

abbrev pub IsServing : ProxyServer → Type 0
IsServing p =
    ((j : ℕ) → Fits (p.serving j) (p.running && is_server p.server j))
    × ((p.running && not (has_server p.server)) ≡ false)

on_begin-Fits : (g : Serving) (c : Bool) → Fits g c → Fits (on_begin g) c
on_begin-Fits absent c h = h
on_begin-Fits pending c h = h
on_begin-Fits shut_early c h = tt
on_begin-Fits accepting c h = h
on_begin-Fits returned c h = tt

on_failure-Fits : (g : Serving) (c : Bool) → Fits g c → Fits (on_failure g) c
on_failure-Fits absent c h = h
on_failure-Fits pending c h = h
on_failure-Fits shut_early c h = h
on_failure-Fits accepting c h = tt
on_failure-Fits returned c h = tt

-- A close of the current server, which is so no more.
on_close-Fits : (g : Serving) (running : Bool) → Fits g (running && true) → Fits (on_close g) false
on_close-Fits absent running h = refl
on_close-Fits pending running h = refl
on_close-Fits shut_early running h = refl
on_close-Fits accepting running h = tt
on_close-Fits returned running h = tt

-- A server that was not the current one of a proxy that runs.
other-Fits : (g : Serving) (c : Bool) → Fits g false → c ≡ false → Fits g c
other-Fits g c h e = subst (Fits g) (sym e) h

closed-Fits :
    (g : Serving) (running this : Bool)
    → Fits g (running && this)
    → Fits (if this then on_close g else g) false
closed-Fits g running true h = on_close-Fits g running h
closed-Fits g true false h = h
closed-Fits g false false h = h

stopped_or_not : (b running : Bool) → ((if b then false else running) && b) ≡ false
stopped_or_not b running = ground arith

-- The end of a server that is not the `j`th leaves it alone.
still_current :
    (server : Option ℕ) (i j : ℕ) (running : Bool)
    → (i == j) ≡ false
    → ((if is_server server i then false else running) && is_server server j)
      ≡ (running && is_server server j)
still_current none i j running h = ground arith
still_current (some k) i j running h = ground arith

ended_at :
    (server : Option ℕ) (i j : ℕ) (running : Bool) (g : Serving)
    → Fits g (running && is_server server j)
    → Fits
        (if i == j then absent else g)
        ((if is_server server i then false else running) && is_server server j)
ended_at server i j running g h = elim (Bool-cases (i == j)) [
  | inl same ↦
      let e : i ≡ j = (==_iff i j).0 same in
      rw same (
        subst (λ k. ((if is_server server k then false else running) && is_server server j) ≡ false)
          (sym e) (stopped_or_not (is_server server j) running))
  | inr other ↦ rw other (subst (Fits g) (sym (still_current server i j running other)) h)
]

started_at :
    (made j : ℕ) (g : Serving) → Fits g false → Fits (if made == j then pending else g) (made == j)
started_at made j g h = elim (Bool-cases (made == j)) [
  | inl this ↦ rw this refl
  | inr other ↦ rw other h
]

still :
    (b running there : Bool)
    → (running && not there) ≡ false
    → ((if b then false else running) && not there) ≡ false
still b running there h = ground arith

listened-IsServing :
    (i : ℕ) (works : Bool) (o : Option Starting) (p : ProxyServer)
    → IsServing p
    → IsServing (listened i works o p)
listened-IsServing i works none p h = h
listened-IsServing i works (some c) p h =
    if_either IsServing c.bound h (if_either IsServing works h h)

start_socks5-IsServing :
    (works : Bool) (p : ProxyServer) → IsServing p → IsServing (start_socks5 works p)
unfolding start_socks5
start_socks5-IsServing works p h = if_either IsServing (p.socks5_enabled && works) h h

finished-IsServing :
    (i : ℕ) (works : Bool) (o : Option Starting) (p : ProxyServer)
    → IsServing p
    → IsServing (finished i works o p)
finished-IsServing i works none p h = h
finished-IsServing i works (some c) p (same, there) =
    if_either IsServing (not c.bound) (same, there)
      (if_cases IsServing p.running (λ _. (same, there))
        (λ stopped. start_socks5-IsServing works _ (
          (λ j.
              started_at p.made j (p.serving j)
                (subst (λ b. Fits (p.serving j) (b && is_server p.server j)) stopped (same j))),
          refl,
        )))

at_one :
    (f : Serving → Serving) (i j : ℕ) (g : Serving) (c : Bool)
    → Fits g c
    → Fits (f g) c
    → Fits (if i == j then f g else g) c
at_one f i j g c h hf = if_either (λ x. Fits x c) (i == j) hf h

serve_begins-IsServing : (i : ℕ) (p : ProxyServer) → IsServing p → IsServing (serve_begins i p)
unfolding serve_begins
serve_begins-IsServing i p (same, there) = (
  (λ j. at_one on_begin i j (p.serving j) _ (same j) (on_begin-Fits (p.serving j) _ (same j))),
  there,
)

serve_fails-IsServing : (i : ℕ) (p : ProxyServer) → IsServing p → IsServing (serve_fails i p)
unfolding serve_fails
serve_fails-IsServing i p (same, there) = (
  (λ j. at_one on_failure i j (p.serving j) _ (same j) (on_failure-Fits (p.serving j) _ (same j))),
  there,
)

ended-IsServing : (i : ℕ) (g : Serving) (p : ProxyServer) → IsServing p → IsServing (ended i g p)
ended-IsServing i returned p (same, there) = (
  (λ j. ended_at p.server i j p.running (p.serving j) (same j)),
  still (is_server p.server i) p.running (has_server p.server) there,
)
ended-IsServing i absent p h = h
ended-IsServing i pending p h = h
ended-IsServing i shut_early p h = h
ended-IsServing i accepting p h = h

stop_server-IsServing : (p : ProxyServer) → IsServing p → IsServing (stop_server p)
unfolding stop_server
stop_server-IsServing p (same, there) =
    if_either IsServing (not p.running) (same, there)
      ((λ j. closed-Fits (p.serving j) p.running (is_server p.server j) (same j)), refl)

step-IsServing : (p q : ProxyServer) → ServerStep p q → IsServing p → IsServing q
unfolding start_begins start_listens start_finishes set_listen_addr set_mode set_socks5_enabled
    set_socks5_addr track_accepted serve_ends
step-IsServing _ _ (begins p) h = if_either IsServing p.running h h
step-IsServing _ _ (listens i works p) h = listened-IsServing i works (get_elem? p.starting i) p h
step-IsServing _ _ (finishes i works p) h = finished-IsServing i works (get_elem? p.starting i) p h
step-IsServing _ _ (serves i p) h = serve_begins-IsServing i p h
step-IsServing _ _ (breaks i p) h = serve_fails-IsServing i p h
step-IsServing _ _ (ends i p) h = ended-IsServing i (p.serving i) p h
step-IsServing _ _ (stops p) h = stop_server-IsServing p h
step-IsServing _ _ (moves addr p) h =
    if_either (λ (d : Bool × ProxyServer). IsServing d.1) p.running h h
step-IsServing _ _ (changes mode p) h = if_either (λ (d : Bool × ProxyServer). IsServing d.1) _ h h
step-IsServing _ _ (enables enabled p) h = h
step-IsServing _ _ (moves_socks5 addr p) h = h
step-IsServing _ _ (accepts remote p) h = h

-- Whatever calls come between the parts of others: a server that accepts, or is still to call `Serve` and
-- was not closed, is the current one of a proxy that runs, and so there is one at most. One that was
-- closed before it called `Serve` is not, and neither is one whose goroutine is at its end; only between
-- the return of `Serve` and the lock can it be either way. A proxy that runs has a current server,
-- which is pending, accepts, or has returned.
pub reachable-IsServing : (p : ProxyServer) → IsReachable p → IsServing p
unfolding new_proxy_server
reachable-IsServing _ (begin addr) = (λ j. refl, refl)
reachable-IsServing _ (next {p = p} {q = q} r step) =
    step-IsServing p q step (reachable-IsServing p r)
