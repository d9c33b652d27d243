-- ===== src/Net/Candidates/Dial.antt =====
-- What `buildDialCandidates` answers with.
use mathlib.Core.List.{reverse, reverse-append}
use sni_shaper_linux.Prelude.{
  if_either, if◌then◌else◌, ℕ, ◌≡◌, refl, ◌≢◌, Bool, true, false, not, ◌&&◌, ◌||◌, Option, none,
  some, List, [], ◌∷◌, map, arith, ap, ◌∙◌,
}
use sni_shaper_linux.Text.{
  mem_str_cons, str_eq_refl, Bytes, to_lower, codes, is_empty, is_space, trim_left, trim_space,
  mem_str, str_eq,
}
use sni_shaper_linux.Auto.Router.{Ip}
use sni_shaper_linux.Net.Address.HostPort.{has_byte-append}
use sni_shaper_linux.Rules.Types.{Rule}
use sni_shaper_linux.Net.Address.{has_byte, join_host_port, normalize_host, is_literal_ip}
use sni_shaper_linux.Net.Candidates.{
  Network, dedupe_dial_candidates, split_upstream_candidates, answers, resolve_domain_candidates,
  or_else, first_upstream_host, upstream_candidates, pool_candidates, build_dial_candidates,
  resolve_rule_upstream, seeks,
}
use sni_shaper_linux.Net.Candidates.Distinct.{
  IsDistinct, split_upstream_candidates-IsDistinct, dedupe_dial_candidates_lem, none_seen,
}

-- A list to dial: there is an address, none is empty, and none stands twice.
abbrev pub IsDialList : List Bytes → Type 0
IsDialList l = (l ≢ []) × IsDistinct l

single-IsDialList : (addr : Bytes) → is_empty addr ≡ false → IsDialList (addr ∷ [])
single-IsDialList addr h = (λ e. ground arith, (h, none_seen addr, tt))

or_else-IsDialList : (l m : List Bytes) → IsDistinct l → IsDialList m → IsDialList (or_else l m)
or_else-IsDialList [] m hl hm = hm
or_else-IsDialList (a ∷ rest) m hl hm = (λ e. ground arith, hl)

-- A byte that is no space stays.
has_byte-reverse : (s : Bytes) (c : ℕ) → has_byte (reverse s) c ≡ has_byte s c
unfolding has_byte
has_byte-reverse [] c = refl
has_byte-reverse (d ∷ s) c =
    rw (reverse-append (d ∷ []) s)
      (ground (arith, has_byte-append (reverse s) (d ∷ []) c, has_byte-reverse s c))

has_byte-trim_left :
    (s : Bytes) (c : ℕ) → is_space c ≡ false → has_byte (trim_left s) c ≡ has_byte s c
unfolding trim_left has_byte is_space
has_byte-trim_left [] c h = refl
has_byte-trim_left (d ∷ s) c h = ground (arith, has_byte-trim_left s c h)

has_byte-trim_space :
    (s : Bytes) (c : ℕ) → is_space c ≡ false → has_byte (trim_space s) c ≡ has_byte s c
unfolding trim_space
has_byte-trim_space s c h =
    has_byte-reverse (trim_left (reverse (trim_left s))) c
    ∙ has_byte-trim_left (reverse (trim_left s)) c h
    ∙ has_byte-reverse (trim_left s) c
    ∙ has_byte-trim_left s c h

filled : (s : Bytes) (c : ℕ) → has_byte s c ≡ true → is_empty s ≡ false
unfolding has_byte is_empty
filled [] c h = ground arith
filled (d ∷ s) c h = refl

pub joined_not_blank :
    (host port : Bytes) → is_empty (trim_space (join_host_port host port)) ≡ false
unfolding join_host_port has_byte is_empty is_space
joined_not_blank host port =
    let colon : has_byte (join_host_port host port) b':' ≡ true = ground (
      arith,
      has_byte-append host (b':' ∷ port) b':',
      has_byte-append host (b']' ∷ b':' ∷ port) b':',
    ) in
    let kept = has_byte-trim_space (join_host_port host port) b':' refl in
    filled (trim_space (join_host_port host port)) b':' (kept ∙ colon)

answers-IsDistinct :
    (net : Network) (o : Option (List (Option Ip))) (port dns_mode : Bytes)
    → IsDistinct (elim o [ none ↦ [] | some ips ↦ answers net ips port dns_mode ])
answers-IsDistinct net none port dns_mode = tt
answers-IsDistinct net (some ips) port dns_mode = (dedupe_dial_candidates_lem _).0

resolve_domain_candidates-IsDistinct :
    (net : Network) (host port dns_mode : Bytes)
    → IsDistinct (resolve_domain_candidates net host port dns_mode)
unfolding resolve_domain_candidates
resolve_domain_candidates-IsDistinct net host port dns_mode =
    if_either IsDistinct
      (is_empty (normalize_host host) || is_literal_ip net.is_ip (normalize_host host)) tt
      (elim net.doh_resolver
        as (λ o. IsDistinct (elim o [
          | none ↦ []
          | some resolve ↦ elim (resolve (normalize_host host)) [
            | none ↦ []
            | some ips ↦ answers net ips port dns_mode
          ]
        ])) [
          | none ↦ tt
          | some resolve ↦ answers-IsDistinct net (resolve (normalize_host host)) port dns_mode
        ])

joined_pool-IsDialList :
    (ip : Bytes) (ips : List Bytes)
    → IsDialList (dedupe_dial_candidates (map (λ a. join_host_port a (codes "443")) (ip ∷ ips)))
joined_pool-IsDialList ip ips =
    let (apart, members) =
      dedupe_dial_candidates_lem (map (λ a. join_host_port a (codes "443")) (ip ∷ ips)) in
    let d : Bytes = trim_space (join_host_port ip (codes "443")) in
    (
      λ e. ground (
        arith,
        ap (mem_str d) e,
        none_seen d,
        members d,
        joined_not_blank ip (codes "443"),
        mem_str_cons d d (map trim_space (map (λ a. join_host_port a (codes "443")) ips)),
        str_eq_refl d,
      ),
      apart,
    )

abbrev IsMaybeDialList : Option (List Bytes) → Type 0
IsMaybeDialList none = Unit
IsMaybeDialList (some l) = IsDialList l

joined_all-IsMaybeDialList :
    (ips : List Bytes)
    → IsMaybeDialList (elim ips [
      | [] ↦ none
      | ip ∷ ips ↦
          some (dedupe_dial_candidates (map (λ a. join_host_port a (codes "443")) (ip ∷ ips)))
    ])
joined_all-IsMaybeDialList [] = tt
joined_all-IsMaybeDialList (ip ∷ ips) = joined_pool-IsDialList ip ips

pool_candidates-IsMaybeDialList :
    (net : Network) (rule : Rule) → IsMaybeDialList (pool_candidates net rule)
unfolding pool_candidates
pool_candidates-IsMaybeDialList net rule =
    if_either IsMaybeDialList rule.use_cf_pool
      (elim net.cf_pool
        as (λ o. IsMaybeDialList (elim o [
          | none ↦ none
          | some top_ips ↦ elim (top_ips 5) [
            | [] ↦ none
            | ip ∷ ips ↦
                some (dedupe_dial_candidates (map (λ a. join_host_port a (codes "443")) (ip ∷ ips)))
          ]
        ])) [ none ↦ tt | some top_ips ↦ joined_all-IsMaybeDialList (top_ips 5) ])
      tt

maybe-IsDialList :
    (o : Option (List Bytes)) (other : List Bytes)
    → IsMaybeDialList o
    → IsDialList other
    → IsDialList (elim o [ some prefs ↦ prefs | none ↦ other ])
maybe-IsDialList none other ho h = h
maybe-IsDialList (some l) other ho h = ho

-- With the addresses of an upstream.
listed-IsDialList :
    (cs : List Bytes) (addr : Bytes) (b : Bool) (by_name : List Bytes)
    → is_empty addr ≡ false
    → IsDistinct cs
    → IsDistinct by_name
    → IsDialList
        (elim cs [ [] ↦ addr ∷ [] | a ∷ rest ↦ if b then or_else by_name (a ∷ rest) else a ∷ rest ])
listed-IsDialList [] addr b by_name some_addr hc hn = single-IsDialList addr some_addr
listed-IsDialList (a ∷ rest) addr b by_name some_addr hc hn =
    let whole : IsDialList (a ∷ rest) = (λ e. ground arith, hc) in
    if_either IsDialList b (or_else-IsDialList by_name (a ∷ rest) hn whole) whole

upstream_candidates-IsDialList :
    (net : Network) (host addr : Bytes) (rule : Rule) (resolved : Bytes)
    → is_empty addr ≡ false
    → IsDialList (upstream_candidates net host addr rule resolved)
unfolding upstream_candidates
upstream_candidates-IsDialList net host addr rule resolved some_addr =
    let first = first_upstream_host host resolved in
    listed-IsDialList (split_upstream_candidates host resolved (codes "443")) addr
      (not (is_empty first) && not (is_literal_ip net.is_ip first))
      (resolve_domain_candidates net first (codes "443") rule.dns_mode) some_addr
      (split_upstream_candidates-IsDistinct host resolved (codes "443"))
      (resolve_domain_candidates-IsDistinct net first (codes "443") rule.dns_mode)

-- Whatever the rule, the resolver and the pool say, there is an address to dial, none is empty, and
-- none is dialled twice, provided that the address that was asked for is not empty.
pub build_dial_candidates-IsDialList :
    (net : Network) (host addr : Bytes) (rule : Rule) (mode : Bytes)
    → is_empty addr ≡ false
    → IsDialList (build_dial_candidates net host addr rule mode)
unfolding build_dial_candidates
build_dial_candidates-IsDialList net host addr rule mode some_addr =
    let resolved = resolve_rule_upstream host rule in
    let one = single-IsDialList addr some_addr in
    let named =
      or_else-IsDialList (resolve_domain_candidates net host (codes "443") rule.dns_mode)
        (addr ∷ []) (resolve_domain_candidates-IsDistinct net host (codes "443") rule.dns_mode)
        one in
    if_either IsDialList (str_eq (to_lower (trim_space rule.upstream)) (codes "warp")) named (
      if_either IsDialList (not (seeks mode)) one (
        if_either IsDialList (not (is_empty (trim_space resolved)))
          (upstream_candidates-IsDialList net host addr rule resolved some_addr)
          (maybe-IsDialList (pool_candidates net rule) _ (pool_candidates-IsMaybeDialList net rule)
            named)))
