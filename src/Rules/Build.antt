-- ===== src/Rules/Build.antt =====
-- proxy/proxy.go, `buildRules`: the rules that the site groups stand for. What is decoded of an ECH
-- configuration there is only logged.
mod Lookups
pub mod Origin
use sni_shaper_linux.Prelude.{
  Bool, true, false, not, ◌&&◌, Option, none, some, List, [], ◌∷◌, ◌++◌, map, if◌then◌else◌,
}
use sni_shaper_linux.Text.{Bytes, str_eq, trim_space, is_empty}
use sni_shaper_linux.Rules.Types.{Rule, SiteGroup, Upstream, EchProfile, DnsNode}
use sni_shaper_linux.Net.Candidates.{normalize_dns_mode}

-- What the operations on the rules read and write of the manager.
pub record RulesConfig : Type 0 where
  pub rules : List Rule
  pub site_groups : List SiteGroup
  pub upstreams : List Upstream
  pub dns_nodes : List DnsNode
  pub ech_profiles : List EchProfile

-- `upstreamMap[id]`: of several entries for an id, the last one stays.
unfoldable pub upstream_map : List Upstream → Bytes → Option Bytes
upstream_map [] id = none
upstream_map (up ∷ ups) id = elim (upstream_map ups id) [
  | some address ↦ some address
  | none ↦
      if up.enabled && (not (is_empty up.address) && str_eq up.id id) then some up.address else none
]

-- `echProfileMap[id]`
unfoldable pub ech_profile_map : List EchProfile → Bytes → Option EchProfile
ech_profile_map [] id = none
ech_profile_map (profile ∷ profiles) id = elim (ech_profile_map profiles id) [
  | some p ↦ some p
  | none ↦ if str_eq profile.id id then some profile else none
]

-- The address of an upstream that is named by its id; anything else stands for itself.
unfoldable pub resolve_upstream : List Upstream → Bytes → Bytes
unfolding upstream_map
resolve_upstream ups id = elim (upstream_map ups id) [ some address ↦ address | none ↦ id ]

-- `ECHProfile{}`
abbrev pub empty_ech_profile : EchProfile
empty_ech_profile = record {
  id = [];
  name = [];
  config = [];
  discovery_domain = [];
  doh_upstream = [];
  auto_update = false;
}

unfoldable pub ech_profile_of : List EchProfile → SiteGroup → EchProfile
unfolding ech_profile_map
ech_profile_of profiles sg =
    if is_empty sg.ech_profile_id
    then empty_ech_profile
    else elim (ech_profile_map profiles sg.ech_profile_id) [ some p ↦ p | none ↦ empty_ech_profile ]

unfoldable pub rule_of : List Upstream → EchProfile → SiteGroup → Bytes → Rule
unfolding resolve_upstream
rule_of ups profile sg domain = record {
  domain = domain;
  upstream = resolve_upstream ups sg.upstream;
  upstreams = map (resolve_upstream ups) sg.upstreams;
  dns_mode = normalize_dns_mode sg.dns_mode;
  mode = sg.mode;
  sni_fake = sg.sni_fake;
  connect_policy = trim_space sg.connect_policy;
  sni_policy = trim_space sg.sni_policy;
  enabled = true;
  site_id = sg.id;
  ech_enabled = sg.ech_enabled;
  ech_profile_id = sg.ech_profile_id;
  use_cf_pool = sg.use_cf_pool;
  ech_discovery_domain = profile.discovery_domain;
  ech_doh_upstream = profile.doh_upstream;
  ech_auto_update = profile.auto_update;
  cert_verify = sg.cert_verify;
  auto_routed = false;
  fallback_mode = [];
}

unfoldable pub group_rules : List Upstream → List EchProfile → SiteGroup → List Rule
unfolding rule_of ech_profile_of
group_rules ups profiles sg = map (rule_of ups (ech_profile_of profiles sg) sg) sg.domains

unfoldable pub built_rules : List Upstream → List EchProfile → List SiteGroup → List Rule
unfolding group_rules
built_rules ups profiles [] = []
built_rules ups profiles (sg ∷ sgs) =
    let rest = built_rules ups profiles sgs in
    if sg.enabled then group_rules ups profiles sg ++ rest else rest

unfoldable pub build_rules : RulesConfig → RulesConfig
unfolding built_rules
build_rules rm = record rm { rules = built_rules rm.upstreams rm.ech_profiles rm.site_groups }
