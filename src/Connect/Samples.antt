-- ===== src/Connect/Samples.antt =====
-- Connections, and runs on them.
use sni_shaper_linux.Prelude.{◌≡◌, refl, Bool, true, Option, none, some, List, [], ◌∷◌}
use sni_shaper_linux.Text.{
  has_prefix, mem_str, to_lower, Bytes, codes, str_eq, is_empty, trim_space,
}
use sni_shaper_linux.Net.Address.{has_byte, join_host_port, split_host_port}
use sni_shaper_linux.Rules.Types.{Rule, empty_rule}
use sni_shaper_linux.Rules.Domain.{Regex}
use sni_shaper_linux.Rules.Match.{Routes}
use sni_shaper_linux.Auto.Router.{Ip}
use sni_shaper_linux.Net.Candidates.{Network, build_dial_candidates}
use sni_shaper_linux.Connect.Prepare.{ConnectResult, merge_rule}
use sni_shaper_linux.Connect.Dial.{success, failure, dial_upstream}

abbrev no_regex : Regex
no_regex pattern = none

abbrev no_answer : Bytes → Option (List Ip)
no_answer host = none

abbrev network : Network
network = record {
  is_ip = λ s. true;
  show_ip = λ ip. [];
  doh_resolver = none;
  cf_pool = some (λ n. codes "192.0.2.7" ∷ codes "192.0.2.8" ∷ []);
}

abbrev origin_rule : Rule
origin_rule = record empty_rule {
  mode = codes "mitm";
  connect_policy = codes "tunnel_origin";
  upstream = codes "192.0.2.1:443";
}

-- The upstream has a rule of its own, with a fake name.
abbrev routes : Routes
routes = record {
  rules =
      record empty_rule {
        domain = codes "up.example";
        mode = codes "mitm";
        enabled = true;
        site_id = codes "2";
        sni_fake = codes "fake.example";
      }
      ∷ [];
  auto_router = none;
  auto_routing_config = record { mode = []; gfw_list_url = []; last_update = [] };
}

abbrev upstream_rule : Rule
upstream_rule = record empty_rule { mode = codes "mitm"; upstream = codes "up.example" }

second_rule_merged :
    (merge_rule upstream_rule (record empty_rule { sni_fake = codes "fake.example" })).sni_fake
    ≡ codes "fake.example"
unfolding merge_rule is_empty trim_space
second_rule_merged = refl

abbrev pool_result : ConnectResult
pool_result = record {
  effective_mode = codes "mitm";
  target_host = codes "t.co";
  target_addr = codes "t.co:443";
  rule = record empty_rule { use_cf_pool = true };
}

abbrev second_only : Bytes → Bool
second_only addr = str_eq addr (codes "192.0.2.8:443")

second_answers :
    dial_upstream network second_only pool_result
    ≡ (some (codes "192.0.2.8:443"), failure (codes "192.0.2.7") ∷ success (codes "192.0.2.8") ∷ [])
unfolding dial_upstream build_dial_candidates str_eq to_lower trim_space is_empty has_prefix
    join_host_port has_byte mem_str split_host_port
second_answers = refl
