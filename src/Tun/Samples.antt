-- ===== src/Tun/Samples.antt =====
-- Plans of flows.
use sni_shaper_linux.Prelude.{◌≡◌, refl, true, none, [], ◌∷◌, negsuc}
use sni_shaper_linux.Text.{decimal, has_prefix, is_empty, str_eq, to_lower, trim_space, codes}
use sni_shaper_linux.Net.Address.{ensure_addr_with_port, normalize_host}
use sni_shaper_linux.Net.Candidates.{build_dial_candidates, Network}
use sni_shaper_linux.Rules.Types.{Rule, empty_rule}
use sni_shaper_linux.Net.Candidates.Dial.{IsDialList}
use sni_shaper_linux.Tun.Plan.{TunFlow, plan_with}
use sni_shaper_linux.Tun.Plan.Sound.{KeepsTo, plan_with-KeepsTo}

abbrev network : Network
network = record { is_ip = λ s. true; show_ip = λ ip. []; doh_resolver = none; cf_pool = none }

abbrev flow : TunFlow
flow = record {
  protocol = codes " UDP";
  host = codes "a.bc";
  sni = [];
  dest_addr = [];
  dest_port = negsuc 0;
}

abbrev server_rule : Rule
server_rule = record empty_rule { mode = codes "server" }

udp_is_downgraded : (plan_with network flow server_rule).effective_mode ≡ codes "transparent"
unfolding plan_with str_eq to_lower trim_space
udp_is_downgraded = refl

default_port : (plan_with network flow server_rule).dial_candidates ≡ codes "a.bc:443" ∷ []
unfolding plan_with build_dial_candidates str_eq to_lower trim_space is_empty has_prefix
    normalize_host ensure_addr_with_port decimal
default_port = refl

-- An address of blanks, and no host: the address to dial is empty.
blank_address :
    (plan_with network
      (record flow { host = []; dest_addr = codes " " })
      server_rule).dial_candidates
    ≡ [] ∷ []
unfolding plan_with build_dial_candidates str_eq to_lower trim_space is_empty has_prefix
    normalize_host ensure_addr_with_port
blank_address = refl

plan_with-KeepsTo_example :
    KeepsTo
      (plan_with network flow server_rule).protocol
      (plan_with network flow server_rule).can_mitm
      (plan_with network flow server_rule).effective_mode
    × IsDialList (plan_with network flow server_rule).dial_candidates
unfolding is_empty
plan_with-KeepsTo_example = plan_with-KeepsTo network flow server_rule refl
