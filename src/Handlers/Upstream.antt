-- ===== src/Handlers/Upstream.antt =====
-- proxy/proxy.go, `establishUpstreamConn`: the candidates are dialled in turn, each with a TLS handshake, and
-- once more in the fallback mode if all fail. What comes of an attempt is a parameter, and so is the
-- answer of the resolver.
pub mod Ends
pub mod Rounds
use sni_shaper_linux.Prelude.{
  ℕ, zero, suc, Bool, true, false, not, ◌&&◌, ◌||◌, Option, none, some, List, [], ◌∷◌, ◌++◌, map,
  if◌then◌else◌, Outcome, ok, err, out_of_fuel,
}
use sni_shaper_linux.Text.{Bytes, codes, str_eq, is_empty, to_lower, trim_space}
use sni_shaper_linux.Rules.Types.{Rule}
use sni_shaper_linux.Net.Address.{join_host_port}
use sni_shaper_linux.Connect.Dial.{Report, success, failure, report_of}

-- No connection; a handshake that fails, as `ECHRejectionError` or otherwise; a handshake that ends,
-- with the protocol that it agreed on.
pub data Attempt : Type 0 where
  no_dial refused ech_rejected : Attempt
  accepted : Bytes → Attempt

-- What is done, in order.
pub data Action : Type 0 where
  dialled : Bytes → Action
  hung_up : Bytes → Action
  told : Report → Action
  synced : Bytes → Bytes → Action

-- The attempt of a round, at an address, for the first or the second time; `ResolveECHSafe` (an error is
-- `none`); whether there is a resolver, and a pool.
pub record Outside : Type 0 where
  pub attempt : ℕ → Bytes → Bool → Attempt
  pub refresh : Bytes → Option Bytes
  pub has_resolver : Bool
  pub has_pool : Bool

-- The protocol, and what was done.
abbrev pub Tried : Type 0
Tried = Option Bytes × List Action

-- What the pool is told of an address.
abbrev pub tell : Outside → Rule → (Bytes → Report) → Bytes → List Action
tell w rule make addr = map told (report_of (rule.use_cf_pool && w.has_pool) make addr)

-- A handshake that fails is cleaned up.
abbrev pub failed_handshake : Outside → Rule → Bytes → Tried
failed_handshake w rule addr = (none, dialled addr ∷ hung_up addr ∷ tell w rule failure addr)

abbrev pub good_handshake : Outside → Rule → Bytes → Bytes → Tried
good_handshake w rule addr alpn = (some alpn, dialled addr ∷ tell w rule success addr)

-- `attempt == 1`
abbrev pub last_attempt : Outside → Rule → Bytes → Attempt → Tried
last_attempt w rule addr no_dial = (none, tell w rule failure addr)
last_attempt w rule addr refused = failed_handshake w rule addr
last_attempt w rule addr ech_rejected = failed_handshake w rule addr
last_attempt w rule addr (accepted alpn) = good_handshake w rule addr alpn

abbrev pub sync_unless : Bool → Bytes → Bytes → List Action
sync_unless true id ech = []
sync_unless false id ech = synced id ech ∷ []

-- The configuration that is looked up is written to the profile of the rule, if it has one.
abbrev pub sync_profile : Rule → Bytes → List Action
sync_profile rule ech = sync_unless (is_empty rule.ech_profile_id) rule.ech_profile_id ech

abbrev pub done_before : List Action → Tried → Tried
done_before before (found, actions) = (found, before ++ actions)

-- By what the resolver says: without a new configuration the address is given up.
abbrev pub retry_with : Outside → Rule → Bytes → Attempt → Option Bytes → Tried
retry_with w rule addr again none = failed_handshake w rule addr
retry_with w rule addr again (some []) = failed_handshake w rule addr
retry_with w rule addr again (some (b ∷ bs)) =
    done_before (dialled addr ∷ hung_up addr ∷ sync_profile rule (b ∷ bs))
      (last_attempt w rule addr again)

abbrev pub lookup_domain : Bytes → Rule → Bytes
lookup_domain host rule =
    if is_empty rule.ech_discovery_domain then host else rule.ech_discovery_domain

-- By whether the configuration may be looked up again.
abbrev pub after_rejection : Bool → Outside → Bytes → Rule → Bytes → Attempt → Tried
after_rejection true w host rule addr again =
    retry_with w rule addr again (w.refresh (lookup_domain host rule))
after_rejection false w host rule addr again = failed_handshake w rule addr

-- `attempt == 0`, with what a second attempt would come to.
abbrev pub first_attempt : Outside → Bytes → Rule → Bytes → Attempt → Attempt → Tried
first_attempt w host rule addr no_dial again = (none, tell w rule failure addr)
first_attempt w host rule addr refused again = failed_handshake w rule addr
first_attempt w host rule addr ech_rejected again =
    after_rejection (rule.ech_enabled && w.has_resolver) w host rule addr again
first_attempt w host rule addr (accepted alpn) again = good_handshake w rule addr alpn

abbrev pub Found : Type 0
Found = Option (Bytes × Bytes) × List Action

-- What one address adds to what those behind it give.
abbrev pub or_next : Bytes → Tried → Found → Found
or_next addr (some alpn, actions) behind = (some (addr, alpn), actions)
or_next addr (none, actions) (found, later) = (found, actions ++ later)

-- One round over the candidates.
unfoldable pub try_each : Outside → Bytes → ℕ → Rule → List Bytes → Found
try_each w host n rule [] = (none, [])
try_each w host n rule (addr ∷ rest) =
    or_next addr (first_attempt w host rule addr (w.attempt n addr false) (w.attempt n addr true))
      (try_each w host n rule rest)

abbrev pub ordered_candidates : Bytes → List Bytes → List Bytes
ordered_candidates host [] = join_host_port host (codes "443") ∷ []
ordered_candidates host (a ∷ rest) = a ∷ rest

abbrev pub fallback_of : Rule → Bytes
fallback_of rule = to_lower (trim_space rule.fallback_mode)

abbrev pub falls_back : Rule → Bool
falls_back rule =
    (str_eq (fallback_of rule) (codes "tls-rf") || str_eq (fallback_of rule) (codes "quic"))
    && not (str_eq (fallback_of rule) rule.mode)

abbrev pub fallback_rule : Rule → Rule
fallback_rule rule = record rule { mode = fallback_of rule; ech_enabled = false }

-- The connection that is left open, with its protocol, or `none` for the error; and what was done.
-- The recursion is on fuel.
abbrev pub after_round : Bool → Found → Option Found → Option Found
after_round again (some r, actions) next = some (some r, actions)
after_round false (none, actions) next = some (none, actions)
after_round true (none, actions) none = none
after_round true (none, actions) (some (found, later)) = some (found, actions ++ later)

unfoldable pub establish : ℕ → Outside → Bytes → ℕ → Rule → List Bytes → Option Found
unfolding try_each
establish zero w host n rule candidates = none
establish (suc fuel) w host n rule candidates =
    after_round (falls_back rule) (try_each w host n rule (ordered_candidates host candidates))
      (establish fuel w host (suc n) (fallback_rule rule) candidates)

-- A rule falls back once: the rule of the second round is in its fallback mode.
unfoldable pub establish_upstream_conn : Outside → Bytes → Rule → List Bytes → Option Found
unfolding establish
establish_upstream_conn w host rule candidates = establish 2 w host 0 rule candidates
