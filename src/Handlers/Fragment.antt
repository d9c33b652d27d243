-- ===== src/Handlers/Fragment.antt =====
-- proxy/tls_fragment.go, `readInitialTLSRecord`, `handleTLSFragment` and `handleTLSRFFallback`: the client's
-- first record goes to the upstream in fragments, and whole to the fallback if the upstream fails.
pub mod Reading
pub mod Carried
pub mod Ends
use sni_shaper_linux.Prelude.{
  ℕ, zero, suc, ◌+◌, ◌*◌, Bool, true, false, ◌||◌, not, Option, none, some, List, [], ◌∷◌, ◌++◌,
  ltb, leb, ◌==◌, if◌then◌else◌, length, get_or, take, drop, Outcome, ok, err, panic, out_of_fuel,
  ◌>>=◌,
}
use sni_shaper_linux.Text.{Bytes, is_empty}
use sni_shaper_linux.Rules.Types.{Rule}
use sni_shaper_linux.Net.Address.{ensure_addr_with_port}
use sni_shaper_linux.Auto.Router.{dial_fallback}
use sni_shaper_linux.Tls.Hello.{HelloError, Hello, parse_client_hello}
use sni_shaper_linux.Tls.Fragment.{Call, Send, sleep, default_config, send_records}
use sni_shaper_linux.Handlers.Lifetime.{
  client, upstream, second, Event, opened, wrote, sent, peeked, closed, tunnel,
}

-- What the other ends do: what the client sends until it stops or the deadline passes; how many writes
-- the upstream takes until one fails; its first byte, if one arrives in time; whether an address answers,
-- and takes what it is given. The host of the server is that of the rules.
pub record Peers : Type 0 where
  pub input : Bytes
  pub capacity : ℕ
  pub probe : Option ℕ
  pub dials : Bytes → Bool
  pub takes : Bool
  pub server_host : Bytes

-- By whether there are `n` bytes.
abbrev pub cut_at : Bool → ℕ → Bytes → Option (Bytes × Bytes)
cut_at true n s = some (take n s, drop n s)
cut_at false n s = none

-- `io.ReadFull` of `n` bytes, and what is left.
abbrev pub read_full : ℕ → Bytes → Option (Bytes × Bytes)
read_full n s = cut_at (leb n (length s)) n s

abbrev pub join_body : Bytes → Option (Bytes × Bytes) → Option (Bytes × Bytes)
join_body header none = none
join_body header (some (body, left)) = some (header ++ body, left)

-- The record, and what is left of the stream.
abbrev pub read_body : Option (Bytes × Bytes) → Option (Bytes × Bytes)
read_body none = none
read_body (some (header, rest)) =
    join_body header (read_full (get_or header 3 0 * 256 + get_or header 4 0) rest)

unfoldable pub read_initial_tls_record : Bytes → Option (Bytes × Bytes)
read_initial_tls_record s = read_body (read_full 5 s)

-- The writes that are taken, and whether all are.
unfoldable pub deliver : ℕ → List Send → List Send × Bool
deliver k [] = ([], true)
deliver k (sleep t ∷ ss) = let (taken, all) = deliver k ss in (sleep t ∷ taken, all)
deliver zero (s ∷ ss) = ([], false)
deliver (suc k) (s ∷ ss) = let (taken, all) = deliver k ss in (s ∷ taken, all)

-- The write of the saved record to the fallback, by whether it is taken.
pub forward_saved : Bool → Bytes → List Event
forward_saved true saved = wrote second saved ∷ tunnel client second ∷ []
forward_saved false saved = closed second ∷ closed client ∷ []

-- By whether the address answers.
pub open_second : Bool → Bool → Bytes → List Event
unfolding forward_saved
open_second true takes saved = opened second ∷ forward_saved takes saved
open_second false takes saved = closed client ∷ []

pub fallback_to : Peers → Option Bytes → Bytes → List Event
unfolding open_second
fallback_to w none saved = closed client ∷ []
fallback_to w (some addr) saved = open_second (w.dials addr) w.takes saved

-- `DialFallback` has no use for the target's address.
unfoldable pub handle_tls_rf_fallback : Peers → Rule → Bytes → List Event
unfolding fallback_to
handle_tls_rf_fallback w rule saved =
    fallback_to w (dial_fallback ensure_addr_with_port rule.fallback_mode w.server_host) saved

-- Once the upstream has failed and is closed: by whether a fallback is set.
pub give_up : Bool → Peers → Rule → Bytes → List Event
unfolding handle_tls_rf_fallback
give_up true w rule saved = handle_tls_rf_fallback w rule saved
give_up false w rule saved = closed client ∷ []

-- The probe of the upstream: its first byte is put back.
pub probe_upstream : Option ℕ → Peers → Rule → Bytes → List Event
unfolding give_up
probe_upstream none w rule saved = closed upstream ∷ give_up true w rule saved
probe_upstream (some b) w rule saved = peeked upstream b ∷ tunnel client upstream ∷ []

-- Behind a send that was taken: by whether a fallback is set.
pub settle : Bool → Peers → Rule → Bytes → List Event
unfolding probe_upstream
settle true w rule saved = probe_upstream w.probe w rule saved
settle false w rule saved = tunnel client upstream ∷ []

pub after_sends : Bool → List Send × Bool → Peers → Rule → Bytes → List Event
unfolding settle give_up
after_sends has_fallback (taken, true) w rule saved =
    sent upstream taken ∷ settle has_fallback w rule saved
after_sends has_fallback (taken, false) w rule saved =
    sent upstream taken ∷ closed upstream ∷ give_up has_fallback w rule saved

-- Without a server name the record goes on as it is.
pub pass_on : ℕ → Bytes → List Event
pass_on zero rec = closed client ∷ closed upstream ∷ []
pass_on (suc k) rec = wrote upstream rec ∷ tunnel client upstream ∷ []

-- By whether there is a name to cut at.
pub cut_or_pass : Bool → Peers → Rule → Bytes → ℕ → ℕ → Call (List Event)
unfolding pass_on after_sends
cut_or_pass true w rule rec pos len = ok (pass_on w.capacity rec)
cut_or_pass false w rule rec pos len = send_records rec pos len default_config >>= λ sends.
    ok (after_sends (not (is_empty rule.fallback_mode)) (deliver w.capacity sends) w rule rec)

pub on_hello : Outcome HelloError Hello → Peers → Rule → Bytes → Call (List Event)
unfolding cut_or_pass
on_hello (ok h) w rule rec = elim h.sni_pos [
  | none ↦ ok (pass_on w.capacity rec)
  | some pos ↦ cut_or_pass (pos == 0 || h.sni_len == 0) w rule rec pos h.sni_len
]
on_hello (err e) w rule rec = ok (closed client ∷ closed upstream ∷ [])
on_hello panic w rule rec = panic
on_hello out_of_fuel w rule rec = out_of_fuel

pub on_record : Option (Bytes × Bytes) → Peers → Rule → Call (List Event)
unfolding on_hello
on_record none w rule = ok (closed client ∷ closed upstream ∷ [])
on_record (some (rec, left)) w rule = on_hello (parse_client_hello rec) w rule rec

-- What is done to the two connections, both open at first.
unfoldable pub handle_tls_fragment : Peers → Rule → Call (List Event)
unfolding on_record
handle_tls_fragment w rule = on_record (read_initial_tls_record w.input) w rule
