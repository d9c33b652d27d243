-- ===== src/Rules/ConfigSamples.antt =====
-- A configuration, and the operations on it.
use sni_shaper_linux.Prelude.{
  ◌≡◌, refl, ◌↔◌, true, false, none, some, [], ◌∷◌, pos, IsIn, length, get_elem?, without, map,
}
use sni_shaper_linux.Text.{join, mem_str, to_lower, Bytes, codes, str_eq, is_empty, trim_space}
use sni_shaper_linux.Rules.Types.{Rule, SiteGroup, DnsNode, empty_cert_verify}
use sni_shaper_linux.Rules.Build.{RulesConfig, build_rules, rule_of, ech_profile_of}
use sni_shaper_linux.Rules.Build.Origin.{IsRuleOf, build_rules_iff}
use sni_shaper_linux.Rules.Ech.{
  legacy_profile, find_ech_profile_by_id, normalize_ech_profile, migrate_legacy_ech_rules,
}
use sni_shaper_linux.Rules.Ech.Migration.{IsMigrated, migrate_legacy_ech_rules-IsMigrated}
use sni_shaper_linux.Rules.Manage.{
  Save, find_index, clamp, set_dns_node_priority, upsert_ech_profile,
}
use sni_shaper_linux.Rules.Manage.Order.{set_dns_node_priority_lem}
use sni_shaper_linux.Rules.Manage.Upsert.{find-upsert_ech_profile}
use sni_shaper_linux.Rules.Import.{MergeState, merge_groups}
use sni_shaper_linux.Rules.Import.Merge.{IsMergeOf, merge_groups-IsMergeOf}

abbrev plain_group : SiteGroup
plain_group = record {
  id = codes "1";
  name = codes "plain";
  website = [];
  domains = codes "t.co" ∷ codes "example.com" ∷ [];
  mode = codes "mitm";
  upstream = codes "up";
  upstreams = [];
  dns_mode = codes "prefer_ipv4";
  sni_fake = [];
  connect_policy = [];
  sni_policy = [];
  enabled = true;
  ech_enabled = true;
  ech_profile_id = [];
  ech_domain = codes " Crypto.Cloudflare.com";
  use_cf_pool = false;
  cert_verify = empty_cert_verify;
}

-- The same domains in another order and another case, under another mode name.
abbrev same_key : SiteGroup
same_key = record plain_group {
  id = codes "2";
  domains = codes "Example.com" ∷ codes "t.co " ∷ [];
  mode = codes "MITM";
}

abbrev node : Bytes → DnsNode
node id = record {
  id = id;
  name = [];
  url = [];
  sni = [];
  ips = [];
  ech_enabled = false;
  ech_profile_id = [];
  ech_auto_update = false;
  quic = false;
  cert_verify = empty_cert_verify;
  enabled = true;
}

abbrev config : RulesConfig
config = record {
  rules = [];
  site_groups = plain_group ∷ record plain_group { enabled = false; id = codes "3" } ∷ [];
  upstreams =
      record { id = codes "up"; name = []; address = codes "192.0.2.1:443"; enabled = true } ∷ [];
  dns_nodes = node (codes "a") ∷ node (codes "b") ∷ node (codes "c") ∷ [];
  ech_profiles = [];
}

abbrev no_error : Save
no_error rm = none

two_rules : length (build_rules config).rules ≡ 2
unfolding build_rules
two_rules = refl

abbrev first_rule : Rule
first_rule =
    rule_of config.upstreams (ech_profile_of config.ech_profiles plain_group) plain_group
      (codes "t.co")

build_rules_iff_example :
    IsIn first_rule (build_rules config).rules
    ↔ IsRuleOf config.upstreams config.ech_profiles config.site_groups first_rule
build_rules_iff_example = build_rules_iff config first_rule

moved_last :
    map (λ n. n.id) (set_dns_node_priority no_error (codes "a") (pos 9) config).0.dns_nodes
    ≡ codes "b" ∷ codes "c" ∷ codes "a" ∷ []
unfolding set_dns_node_priority str_eq
moved_last = refl

at_first : find_index (λ n. str_eq n.id (codes "a")) config.dns_nodes ≡ some 0
unfolding find_index str_eq
at_first = refl

set_dns_node_priority_lem_example :
    (get_elem?
        (set_dns_node_priority no_error (codes "a") (pos 9) config).0.dns_nodes
        (clamp (pos 9) (length config.dns_nodes))
      ≡ get_elem? config.dns_nodes 0)
    × (without
          (clamp (pos 9) (length config.dns_nodes))
          (set_dns_node_priority no_error (codes "a") (pos 9) config).0.dns_nodes
        ≡ without 0 config.dns_nodes)
set_dns_node_priority_lem_example =
    set_dns_node_priority_lem no_error (codes "a") (pos 9) config 0 at_first

migrated_one : (migrate_legacy_ech_rules config.site_groups []).migrated ≡ true
unfolding migrate_legacy_ech_rules is_empty trim_space str_eq to_lower
migrated_one = refl

migrate_legacy_ech_rules-IsMigrated_example :
    IsMigrated config.site_groups [] (migrate_legacy_ech_rules config.site_groups [])
migrate_legacy_ech_rules-IsMigrated_example =
    migrate_legacy_ech_rules-IsMigrated config.site_groups []

abbrev start : MergeState
start = record { merged = plain_group ∷ []; added = 0; overwritten = 0; skipped = 0 }

overwritten_one :
    (merge_groups (same_key ∷ record same_key { mode = codes "quic" } ∷ []) start).overwritten ≡ 1
unfolding merge_groups str_eq to_lower trim_space join is_empty mem_str
overwritten_one = refl

merge_groups-IsMergeOf_example :
    IsMergeOf start (length (same_key ∷ [])) (merge_groups (same_key ∷ []) start)
merge_groups-IsMergeOf_example = merge_groups-IsMergeOf (same_key ∷ []) start

id_filled : is_empty (trim_space legacy_profile.id) ≡ false
unfolding is_empty trim_space
id_filled = refl

find-upsert_ech_profile_example :
    find_ech_profile_by_id
      (upsert_ech_profile no_error (codes "9") legacy_profile config).0.ech_profiles
      legacy_profile.id
    ≡ some (normalize_ech_profile legacy_profile)
find-upsert_ech_profile_example =
    find-upsert_ech_profile no_error (codes "9") legacy_profile config id_filled
