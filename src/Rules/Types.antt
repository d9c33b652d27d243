-- ===== src/Rules/Types.antt =====
-- proxy/proxy.go and proxy/cert_verify.go: the structs of the rules and of the configuration.
use sni_shaper_linux.Prelude.{Bool, false, List, []}
use sni_shaper_linux.Text.{Bytes}

pub record CertVerifyConfig : Type 0 where
  pub mode : Bytes
  pub names : List Bytes
  pub suffixes : List Bytes
  pub spki_sha256 : List Bytes
  pub allow_unknown_authority : Bool

abbrev pub empty_cert_verify : CertVerifyConfig
empty_cert_verify = record {
  mode = [];
  names = [];
  suffixes = [];
  spki_sha256 = [];
  allow_unknown_authority = false;
}

pub record Rule : Type 0 where
  pub domain : Bytes
  pub upstream : Bytes
  pub upstreams : List Bytes
  pub dns_mode : Bytes
  pub mode : Bytes
  pub sni_fake : Bytes
  pub connect_policy : Bytes
  pub sni_policy : Bytes
  pub enabled : Bool
  pub site_id : Bytes
  pub ech_enabled : Bool
  pub ech_profile_id : Bytes
  pub use_cf_pool : Bool
  pub ech_discovery_domain : Bytes
  pub ech_doh_upstream : Bytes
  pub ech_auto_update : Bool
  pub cert_verify : CertVerifyConfig
  pub auto_routed : Bool
  pub fallback_mode : Bytes

-- `Rule{}`
abbrev pub empty_rule : Rule
empty_rule = record {
  domain = [];
  upstream = [];
  upstreams = [];
  dns_mode = [];
  mode = [];
  sni_fake = [];
  connect_policy = [];
  sni_policy = [];
  enabled = false;
  site_id = [];
  ech_enabled = false;
  ech_profile_id = [];
  use_cf_pool = false;
  ech_discovery_domain = [];
  ech_doh_upstream = [];
  ech_auto_update = false;
  cert_verify = empty_cert_verify;
  auto_routed = false;
  fallback_mode = [];
}

pub record SiteGroup : Type 0 where
  pub id : Bytes
  pub name : Bytes
  pub website : Bytes
  pub domains : List Bytes
  pub mode : Bytes
  pub upstream : Bytes
  pub upstreams : List Bytes
  pub dns_mode : Bytes
  pub sni_fake : Bytes
  pub connect_policy : Bytes
  pub sni_policy : Bytes
  pub enabled : Bool
  pub ech_enabled : Bool
  pub ech_profile_id : Bytes
  pub ech_domain : Bytes
  pub use_cf_pool : Bool
  pub cert_verify : CertVerifyConfig

pub record Upstream : Type 0 where
  pub id : Bytes
  pub name : Bytes
  pub address : Bytes
  pub enabled : Bool

pub record EchProfile : Type 0 where
  pub id : Bytes
  pub name : Bytes
  pub config : Bytes
  pub discovery_domain : Bytes
  pub doh_upstream : Bytes
  pub auto_update : Bool

pub record DnsNode : Type 0 where
  pub id : Bytes
  pub name : Bytes
  pub url : Bytes
  pub sni : Bytes
  pub ips : List Bytes
  pub ech_enabled : Bool
  pub ech_profile_id : Bytes
  pub ech_auto_update : Bool
  pub quic : Bool
  pub cert_verify : CertVerifyConfig
  pub enabled : Bool
