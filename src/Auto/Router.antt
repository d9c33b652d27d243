-- ===== src/Auto/Router.antt =====
-- proxy/auto_routing.go: the decision for a host that no rule of the user names. Time is counted in
-- nanoseconds. An answer of the resolver is an input: no resolver or an error is `none`.
pub mod Decide
use sni_shaper_linux.Prelude.{
  ℕ, suc, ◌+◌, ◌-◌, ◌*◌, ◌/◌, ◌^◌, Bool, true, false, not, ◌&&◌, ◌||◌, Option, none, some, List, [],
  ◌∷◌, ltb, ◌==◌, if◌then◌else◌, any,
}
use sni_shaper_linux.Text.{Bytes, codes, str_eq, trim_space, to_lower, is_empty}
use sni_shaper_linux.Rules.Types.{Rule, empty_rule}
use sni_shaper_linux.Auto.GfwList.{GfwList, is_blocked}

pub record AutoRoutingConfig : Type 0 where
  pub mode : Bytes
  pub gfw_list_url : Bytes
  pub last_update : Bytes

abbrev pub auto_routing_server_fallback : Bytes
auto_routing_server_fallback = codes "server"

-- An address: the number of an IPv4 address (also one that is mapped into IPv6), or another one.
pub data Ip : Type 0 where
  v4 : ℕ → Ip
  v6 : ℕ → Ip

-- The four bytes of an address as a number.
abbrev quad : ℕ → ℕ → ℕ → ℕ → ℕ
quad a b c d = ((a * 256 + b) * 256 + c) * 256 + d

-- The networks of Cloudflare: an address, and how many bits of it count.
abbrev pub cloudflare_cidrs : List (ℕ × ℕ)
cloudflare_cidrs =
    (quad 173 245 48 0, 20)
    ∷ (quad 103 21 244 0, 22)
    ∷ (quad 103 22 200 0, 22)
    ∷ (quad 103 31 4 0, 22)
    ∷ (quad 141 101 64 0, 18)
    ∷ (quad 108 162 192 0, 18)
    ∷ (quad 190 93 240 0, 20)
    ∷ (quad 188 114 96 0, 20)
    ∷ (quad 197 234 240 0, 22)
    ∷ (quad 198 41 128 0, 17)
    ∷ (quad 162 158 0 0, 15)
    ∷ (quad 104 16 0 0, 13)
    ∷ (quad 104 24 0 0, 14)
    ∷ (quad 172 64 0 0, 13)
    ∷ (quad 131 0 72 0, 22)
    ∷ []

-- `n.Contains(ip)`
abbrev network_contains : ℕ × ℕ → Ip → Bool
network_contains (base, bits) (v4 n) = n / 2 ^ (32 - bits) == base / 2 ^ (32 - bits)
network_contains (base, bits) (v6 n) = false

pub record CfCacheEntry : Type 0 where
  pub is_cf : Bool
  pub checked_at : ℕ

-- 30 minutes.
abbrev pub cf_cache_ttl : ℕ
cf_cache_ttl = 1800000000000

pub record AutoRouter : Type 0 where
  pub config : AutoRoutingConfig
  pub gfw_list : GfwList
  pub cf_nets : List (ℕ × ℕ)
  pub cf_cache : List (Bytes × CfCacheEntry)

unfoldable pub new_auto_router : AutoRoutingConfig → GfwList → AutoRouter
new_auto_router config list = record {
  config = config;
  gfw_list = list;
  cf_nets = cloudflare_cidrs;
  cf_cache = [];
}

unfoldable pub is_cloudflare_ip : AutoRouter → Ip → Bool
is_cloudflare_ip ar ip = any (λ n. network_contains n ip) ar.cf_nets

-- The map of the cache: a later entry stands in front.
unfoldable pub lookup : Bytes → List (Bytes × CfCacheEntry) → Option CfCacheEntry
lookup k [] = none
lookup k ((j, e) ∷ m) = if str_eq j k then some e else lookup k m

-- The answer of the cache at the time `now`.
unfoldable pub cached : AutoRouter → Bytes → ℕ → Option Bool
unfolding lookup
cached ar host now = elim (lookup host ar.cf_cache) [
  | none ↦ none
  | some e ↦ if ltb (now - e.checked_at) cf_cache_ttl then some e.is_cf else none
]

abbrev resolved : AutoRouter → Option (List Ip) → Bool
resolved ar none = false
resolved ar (some ips) = any (is_cloudflare_ip ar) ips

-- `IsCloudflare` at the time `now`, and `after` when the answer is written down.
unfoldable pub is_cloudflare :
    (Bytes → Option (List Ip)) → ℕ → ℕ → AutoRouter → Bytes → AutoRouter × Bool
unfolding cached is_cloudflare_ip
is_cloudflare resolve now after ar host =
    let h = to_lower (trim_space host) in
    let answer = resolved ar (resolve h) in
    if is_empty h then (ar, false) else elim (cached ar h now) [
      | some b ↦ (ar, b)
      | none ↦ (
        record ar { cf_cache = (h, record { is_cf = answer; checked_at = after }) ∷ ar.cf_cache },
        answer,
      )
    ]

abbrev pub direct_rule : Rule
direct_rule = record empty_rule { mode = codes "direct"; enabled = true }

abbrev pub cloudflare_rule : Rule
cloudflare_rule = record empty_rule {
  mode = codes "mitm";
  ech_enabled = true;
  ech_profile_id = codes "legacy-cloudflare";
  ech_discovery_domain = codes "crypto.cloudflare.com";
  ech_auto_update = true;
  use_cf_pool = true;
  enabled = true;
  auto_routed = true;
}

abbrev pub fragment_rule : Rule
fragment_rule = record empty_rule { mode = codes "tls-rf"; enabled = true; auto_routed = true }

unfoldable pub decide : (Bytes → Option (List Ip)) → ℕ → ℕ → AutoRouter → Bytes → AutoRouter × Rule
decide resolve now after ar host =
    if is_empty ar.config.mode
    then (ar, direct_rule)
    else if not (is_blocked ar.gfw_list host)
    then (ar, direct_rule)
    else (let (ar', cf) = is_cloudflare resolve now after ar host in
        if cf
        then (ar', cloudflare_rule)
        else if str_eq ar.config.mode auto_routing_server_fallback
        then (ar', record fragment_rule { fallback_mode = codes "server" })
        else (ar', fragment_rule))

unfoldable pub update_config : AutoRoutingConfig → AutoRouter → AutoRouter
update_config config ar = record ar { config = config }

pub record GfwListStatus : Type 0 where
  pub enabled : Bool
  pub mode : Bytes
  pub domain_count : ℕ
  pub last_update : Bytes
  pub gfw_list_url : Bytes

unfoldable pub get_status : AutoRouter → GfwListStatus
get_status ar = record {
  enabled = not (is_empty ar.config.mode);
  mode = ar.config.mode;
  domain_count = ar.gfw_list.count;
  last_update = ar.config.last_update;
  gfw_list_url = ar.config.gfw_list_url;
}

-- What `DialFallback` dials: an address, or none for an unknown transport or no server host.
-- `with_port` is `ensureAddrWithPort`.
unfoldable pub dial_fallback : (Bytes → Bytes → Bytes) → Bytes → Bytes → Option Bytes
dial_fallback with_port mode server_host =
    if str_eq mode (codes "server")
    then (if is_empty server_host then none else some (with_port server_host (codes "443")))
    else none
