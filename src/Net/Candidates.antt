-- ===== src/Net/Candidates.antt =====
-- proxy/proxy.go: the addresses that the proxy dials for a host under a rule. A network answers the
-- questions that the code asks of other packages.
pub mod Distinct
pub mod Dial
use sni_shaper_linux.Prelude.{
  ℕ, zero, suc, Bool, true, false, not, ◌&&◌, ◌||◌, Option, none, some, List, [], ◌∷◌, ◌++◌, map,
  ◌==◌, if◌then◌else◌, take,
}
use sni_shaper_linux.Text.{
  Bytes, codes, str_eq, mem_str, trim_space, to_lower, is_empty, has_prefix, contains, split, join,
  replace_byte,
}
use sni_shaper_linux.Rules.Types.{Rule}
use sni_shaper_linux.Auto.Router.{Ip, v4, v6}
use sni_shaper_linux.Net.Address.{
  index_byte, split_host_port, join_host_port, normalize_host, ensure_addr_with_port, trim_brackets,
  is_literal_ip,
}

-- `net.ParseIP(s) != nil`, `ip.String()`, the resolver if there is one (an error is `none`, a `nil`
-- among the addresses too), and the pool if there is one.
pub record Network : Type 0 where
  pub is_ip : Bytes → Bool
  pub show_ip : Option Ip → Bytes
  pub doh_resolver : Option (Bytes → Option (List (Option Ip)))
  pub cf_pool : Option (ℕ → List Bytes)

-- `strings.ReplaceAll(s, "$1", new)`
unfoldable pub replace_dollar_one : Bytes → Bytes → Bytes
replace_dollar_one new [] = []
replace_dollar_one new (a ∷ []) = a ∷ []
replace_dollar_one new (a ∷ b ∷ s) = elim (a == b'$' && b == b'1') [
  | true ↦ new ++ replace_dollar_one new s
  | false ↦ a ∷ replace_dollar_one new (b ∷ s)
]

-- The host up to its first dot, unless the dot is its first byte.
unfoldable pub first_label : Bytes → Bytes
unfolding index_byte
first_label host = elim (index_byte host b'.') [
  | none ↦ host
  | some zero ↦ host
  | some (suc i) ↦ take (suc i) host
]

unfoldable pub resolve_upstream_host : Bytes → Bytes → Bytes
unfolding replace_dollar_one first_label
resolve_upstream_host target_host upstream =
    let s = trim_space upstream in
    if is_empty s
    then []
    else if contains s (codes "$1")
    then replace_dollar_one (first_label target_host) s
    else s

-- `$backend_ip`, `$upstream_host`, or anything else that begins with `$`.
abbrev pub is_placeholder : Bytes → Bool
is_placeholder trimmed =
    has_prefix (to_lower trimmed) (codes "$backend_ip")
    || has_prefix (to_lower trimmed) (codes "$upstream_host")
    || has_prefix trimmed (codes "$")

unfoldable pub resolve_rule_upstream : Bytes → Rule → Bytes
unfolding resolve_upstream_host
resolve_rule_upstream target_host rule =
    let resolved = resolve_upstream_host target_host rule.upstream in
    let trimmed = trim_space resolved in
    elim rule.upstreams [
      | u ∷ us ↦ if is_empty trimmed || is_placeholder trimmed then join (u ∷ us) b',' else resolved
      | [] ↦ if is_placeholder trimmed then join_host_port target_host (codes "443") else resolved
    ]

-- The loops that keep what is not empty and not seen yet.
unfoldable pub first_seen : List Bytes → List Bytes → List Bytes
first_seen [] seen = []
first_seen (a ∷ rest) seen = elim (is_empty a || mem_str a seen) [
  | true ↦ first_seen rest seen
  | false ↦ a ∷ first_seen rest (a ∷ seen)
]

unfoldable pub split_upstream_candidates : Bytes → Bytes → Bytes → List Bytes
unfolding first_seen resolve_upstream_host
split_upstream_candidates target_host upstream default_port =
    let resolved = resolve_upstream_host target_host upstream in
    if is_empty resolved
    then []
    else first_seen
        (map (λ p. ensure_addr_with_port (trim_space p) default_port) (split resolved b',')) []

unfoldable pub first_upstream_host : Bytes → Bytes → Bytes
unfolding split_upstream_candidates
first_upstream_host target_host upstream =
    elim (split_upstream_candidates target_host upstream (codes "443")) [
      | [] ↦ []
      | a ∷ rest ↦ elim (split_host_port a) [
        | none ↦ normalize_host a
        | some (host, port) ↦ normalize_host host
      ]
    ]

unfoldable pub normalize_dns_mode : Bytes → Bytes
normalize_dns_mode mode =
    let m = to_lower (trim_space mode) in
    if str_eq m (codes "prefer_ipv4")
      || str_eq m (codes "prefer_ipv6")
      || str_eq m (codes "ipv4_only")
      || str_eq m (codes "ipv6_only")
    then m
    else []

-- The addresses of either family, in order; a `nil` is of none.
unfoldable pub v4s : List (Option Ip) → List (Option Ip)
v4s [] = []
v4s (some (v4 n) ∷ ips) = some (v4 n) ∷ v4s ips
v4s (some (v6 n) ∷ ips) = v4s ips
v4s (none ∷ ips) = v4s ips

unfoldable pub v6s : List (Option Ip) → List (Option Ip)
v6s [] = []
v6s (some (v4 n) ∷ ips) = v6s ips
v6s (some (v6 n) ∷ ips) = some (v6 n) ∷ v6s ips
v6s (none ∷ ips) = v6s ips

unfoldable pub reorder_ips_by_dns_mode : List (Option Ip) → Bytes → List (Option Ip)
unfolding normalize_dns_mode v4s v6s
reorder_ips_by_dns_mode ips mode =
    let m = normalize_dns_mode mode in
    if str_eq m (codes "prefer_ipv4")
    then v4s ips ++ v6s ips
    else if str_eq m (codes "prefer_ipv6")
    then v6s ips ++ v4s ips
    else if str_eq m (codes "ipv4_only")
    then v4s ips
    else if str_eq m (codes "ipv6_only")
    then v6s ips
    else ips

unfoldable pub dedupe_dial_candidates : List Bytes → List Bytes
unfolding first_seen
dedupe_dial_candidates candidates = first_seen (map trim_space candidates) []

-- The resolver's answer in the order of the mode, with the port.
abbrev pub answers : Network → List (Option Ip) → Bytes → Bytes → List Bytes
answers net ips port dns_mode =
    dedupe_dial_candidates
      (map (λ ip. join_host_port (net.show_ip ip) port) (reorder_ips_by_dns_mode ips dns_mode))

unfoldable pub resolve_domain_candidates : Network → Bytes → Bytes → Bytes → List Bytes
unfolding reorder_ips_by_dns_mode dedupe_dial_candidates
resolve_domain_candidates net host port dns_mode =
    let h = normalize_host host in
    if is_empty h || is_literal_ip net.is_ip h then [] else elim net.doh_resolver [
      | none ↦ []
      | some resolve ↦ elim (resolve h) [ none ↦ [] | some ips ↦ answers net ips port dns_mode ]
    ]

-- The first list, or the second one if the first is empty.
abbrev pub or_else : List Bytes → List Bytes → List Bytes
or_else [] other = other
or_else (a ∷ rest) other = a ∷ rest

-- The modes that look for candidates.
abbrev pub seeks : Bytes → Bool
seeks mode =
    str_eq mode (codes "mitm")
    || str_eq mode (codes "transparent")
    || str_eq mode (codes "tls-rf")
    || str_eq mode (codes "quic")

-- With an upstream: its addresses, or those of its first host if that is a name that resolves.
unfoldable pub upstream_candidates : Network → Bytes → Bytes → Rule → Bytes → List Bytes
unfolding split_upstream_candidates first_upstream_host resolve_domain_candidates
upstream_candidates net target_host target_addr rule resolved =
    elim (split_upstream_candidates target_host resolved (codes "443")) [
      | [] ↦ target_addr ∷ []
      | a ∷ rest ↦
          let first = first_upstream_host target_host resolved in
          if not (is_empty first) && not (is_literal_ip net.is_ip first)
          then or_else (resolve_domain_candidates net first (codes "443") rule.dns_mode) (a ∷ rest)
          else a ∷ rest
    ]

-- The best five addresses of the pool, if the rule uses it.
unfoldable pub pool_candidates : Network → Rule → Option (List Bytes)
unfolding dedupe_dial_candidates
pool_candidates net rule =
    if rule.use_cf_pool
    then (elim net.cf_pool [
      | none ↦ none
      | some top_ips ↦ elim (top_ips 5) [
        | [] ↦ none
        | ip ∷ ips ↦
            some (dedupe_dial_candidates (map (λ a. join_host_port a (codes "443")) (ip ∷ ips)))
      ]
    ])
    else none

unfoldable pub build_dial_candidates : Network → Bytes → Bytes → Rule → Bytes → List Bytes
unfolding resolve_rule_upstream upstream_candidates pool_candidates resolve_domain_candidates
build_dial_candidates net target_host target_addr rule mode =
    let resolved_upstream = resolve_rule_upstream target_host rule in
    let by_name = resolve_domain_candidates net target_host (codes "443") rule.dns_mode in
    if str_eq (to_lower (trim_space rule.upstream)) (codes "warp")
    then or_else by_name (target_addr ∷ [])
    else if not (seeks mode)
    then target_addr ∷ []
    else if not (is_empty (trim_space resolved_upstream))
    then upstream_candidates net target_host target_addr rule resolved_upstream
    else elim (pool_candidates net rule) [
      | some prefs ↦ prefs
      | none ↦ or_else by_name (target_addr ∷ [])
    ]
