-- ===== src/Handlers/Fragment/Carried.antt =====
-- What a connection has been given that the client is joined to, and what the fallback gives it.
use sni_shaper_linux.Prelude.{
  ◌≡◌, ◌⊎◌, refl, Bool, true, false, Option, none, some, List, ◌∷◌, drop, append-nil,
}
use sni_shaper_linux.Text.{Bytes}
use sni_shaper_linux.Rules.Types.{Rule}
use sni_shaper_linux.Net.Address.{ensure_addr_with_port}
use sni_shaper_linux.Auto.Router.{dial_fallback}
use sni_shaper_linux.Tls.Fragment.Reassembly.{read_records}
use sni_shaper_linux.Handlers.Lifetime.{
  Conn, client, upstream, second, Event, opened, Lives, live, shut, idle, Settles, given_to, joined,
}
use sni_shaper_linux.Handlers.Fragment.{
  Peers, forward_saved, open_second, fallback_to, handle_tls_rf_fallback, give_up,
}

abbrev pub both_open : Lives
both_open = record { client_life = live; upstream_life = live; second_life = idle }

abbrev pub upstream_closed : Lives
upstream_closed = record { client_life = live; upstream_life = shut; second_life = idle }

-- What the connection that the client is joined to was given: the record, or records that hold its
-- payload.
abbrev pub CarriesTo : Option Conn → Bytes → Bytes → Bytes → Type 0
CarriesTo none up sec rec = Unit
CarriesTo (some client) up sec rec = ⊥
CarriesTo (some upstream) up sec rec = (up ≡ rec) ⊎ (read_records 4 up ≡ some (drop 5 rec))
CarriesTo (some second) up sec rec = sec ≡ rec

abbrev pub Carries : Bytes → List Event → Type 0
Carries rec es = CarriesTo (joined es) (given_to upstream es) (given_to second es) rec

-- The same, where it is not the upstream.
abbrev pub FallsTo : Option Conn → Bytes → Bytes → Type 0
FallsTo none sec rec = Unit
FallsTo (some client) sec rec = ⊥
FallsTo (some upstream) sec rec = ⊥
FallsTo (some second) sec rec = sec ≡ rec

abbrev pub FallsBack : Bytes → List Event → Type 0
FallsBack rec es = Settles upstream_closed es × FallsTo (joined es) (given_to second es) rec

abbrev pub Good : Bytes → List Event → Type 0
Good rec es = Settles both_open es × Carries rec es

pub falls→carries :
    (o : Option Conn) (up sec rec : Bytes) → FallsTo o sec rec → CarriesTo o up sec rec
falls→carries none up sec rec h = tt
falls→carries (some client) up sec rec h = h
falls→carries (some upstream) up sec rec h = absurd h
falls→carries (some second) up sec rec h = h

module _ (w : Peers) (rule : Rule) (rec : Bytes) where
  pub forward_saved-FallsBack :
      (takes : Bool) → FallsBack rec (opened second ∷ forward_saved takes rec)
  unfolding forward_saved
  forward_saved-FallsBack true = ((refl, refl, tt), append-nil rec)
  forward_saved-FallsBack false = ((refl, refl, tt), tt)

  pub open_second-FallsBack : (dials takes : Bool) → FallsBack rec (open_second dials takes rec)
  unfolding open_second
  open_second-FallsBack true takes = forward_saved-FallsBack takes
  open_second-FallsBack false takes = ((refl, refl, tt), tt)

  pub fallback_to-FallsBack : (o : Option Bytes) → FallsBack rec (fallback_to w o rec)
  unfolding fallback_to
  fallback_to-FallsBack none = ((refl, refl, tt), tt)
  fallback_to-FallsBack (some addr) = open_second-FallsBack (w.dials addr) w.takes

  pub give_up-FallsBack : (has_fallback : Bool) → FallsBack rec (give_up has_fallback w rule rec)
  unfolding give_up handle_tls_rf_fallback
  give_up-FallsBack true =
      fallback_to-FallsBack (dial_fallback ensure_addr_with_port rule.fallback_mode w.server_host)
  give_up-FallsBack false = ((refl, refl, tt), tt)
