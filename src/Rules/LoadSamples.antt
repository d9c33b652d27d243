-- ===== src/Rules/LoadSamples.antt =====
-- Runs of the loading of rules and of the sync of ECH configurations.
use sni_shaper_linux.Prelude.{◌≡◌, refl, true, false, none, some, List, [], ◌∷◌}
use sni_shaper_linux.Text.{
  is_empty, split, str_eq, to_lower, trim_prefix, trim_space, trim_suffix, Bytes, codes,
}
use sni_shaper_linux.Net.Address.{index_byte, normalize_host, trim_brackets}
use sni_shaper_linux.Rules.Types.{SiteGroup, EchProfile, empty_cert_verify}
use sni_shaper_linux.Rules.Ech.{first_profile}
use sni_shaper_linux.Rules.Website.{infer_website_from_site_group}
use sni_shaper_linux.Rules.EchSync.{
  Base64, get_binary_ech_config, profiles_after, update_ech_profile_config,
}
use sni_shaper_linux.Rules.EchSync.Sync.{get_binary_ech_config-update}

abbrev group : List Bytes → SiteGroup
group domains = record {
  id = [];
  name = [];
  website = [];
  domains = domains;
  mode = [];
  upstream = [];
  upstreams = [];
  dns_mode = [];
  sni_fake = [];
  connect_policy = [];
  sni_policy = [];
  enabled = true;
  ech_enabled = false;
  ech_profile_id = [];
  ech_domain = [];
  use_cf_pool = false;
  cert_verify = empty_cert_verify;
}

github : infer_website_from_site_group (group (codes "*.github.com" ∷ [])) ≡ codes "github"
unfolding infer_website_from_site_group split is_empty index_byte trim_brackets trim_suffix
    trim_prefix normalize_host trim_space to_lower str_eq
github = refl

by_label : infer_website_from_site_group (group (codes "www.example.org" ∷ [])) ≡ codes "example"
unfolding infer_website_from_site_group split is_empty index_byte trim_brackets trim_suffix
    trim_prefix normalize_host trim_space to_lower str_eq
by_label = refl

-- A domain with a dot in front has an empty label before the last one, so that the site stays empty, and the
-- next start infers it again.
no_site : infer_website_from_site_group (group (codes ".org" ∷ [])) ≡ []
unfolding infer_website_from_site_group split is_empty index_byte trim_brackets trim_suffix
    trim_prefix normalize_host trim_space to_lower str_eq
no_site = refl

-- A code in place of base 64: a byte in front.
abbrev base64 : Base64
base64 = record {
  encode = λ data_. 1 ∷ data_;
  decode = λ text. elim text [ [] ↦ none | b ∷ bs ↦ some bs ];
}

abbrev profile : EchProfile
profile = record {
  id = codes "p";
  name = [];
  config = [];
  discovery_domain = [];
  doh_upstream = [];
  auto_update = true;
}

found : first_profile (profile ∷ []) (codes "p") ≡ some profile
unfolding first_profile str_eq
found = refl

get_binary_ech_config-update_example :
    get_binary_ech_config base64
      (profiles_after
        (profile ∷ [])
        (update_ech_profile_config base64 (profile ∷ []) (codes "p") (7 ∷ [])))
      (codes "p")
    ≡ 7 ∷ []
get_binary_ech_config-update_example =
    get_binary_ech_config-update base64 (profile ∷ []) b'p' [] 7 [] profile refl found
