-- ===== src/Net/Samples.antt =====
-- Addresses, and runs on them.
use sni_shaper_linux.Prelude.{◌≢◌, ◌⊎◌, arith, Option, none, some, [], ◌∷◌, true, false, ◌≡◌, refl}
use sni_shaper_linux.Text.{
  contains, split, Bytes, str_eq, mem_str, has_prefix, has_suffix, to_lower, trim_prefix,
  trim_suffix, codes, is_empty, trim_space,
}
use sni_shaper_linux.Net.ServerName.{choose_upstream_sni}
use sni_shaper_linux.Net.Address.{
  join_host_port, has_byte, split_host_port, normalize_host, ensure_addr_with_port, trim_brackets,
}
use sni_shaper_linux.Rules.Types.{Rule, empty_rule}
use sni_shaper_linux.Auto.Router.{Ip, v4, v6}
use sni_shaper_linux.Net.Candidates.{Network, build_dial_candidates, resolve_rule_upstream}
use sni_shaper_linux.Net.Candidates.Dial.{IsDialList, build_dial_candidates-IsDialList}
use sni_shaper_linux.Net.ServerName.Upstream.{IsNameOr, choose_upstream_sni-IsNameOr}
use sni_shaper_linux.Net.Address.HostPort.{IsUnbracketed}
use sni_shaper_linux.Net.Address.Ensure.{HasPort, ensure_addr_with_port-HasPort}

ipv6_with_port : split_host_port (codes "[::1]:443") ≡ some (codes "::1", codes "443")
unfolding split_host_port sni_shaper_linux.Text.has_prefix
ipv6_with_port = refl

too_many_colons : split_host_port (codes "::1") ≡ none
unfolding split_host_port sni_shaper_linux.Text.has_prefix
too_many_colons = refl

normal_bare_ipv6 : normalize_host (codes " [::A] ") ≡ codes "::a"
unfolding normalize_host is_empty trim_space has_prefix has_suffix to_lower trim_suffix trim_prefix
normal_bare_ipv6 = refl

blank_port : ensure_addr_with_port (codes "a.b:") (codes "443") ≡ codes "a.b:443"
unfolding ensure_addr_with_port is_empty trim_space has_prefix
blank_port = refl

brackets_off : trim_brackets (codes "[::1]") ≡ codes "::1"
unfolding trim_brackets
brackets_off = refl

addr_filled : is_empty (trim_space (codes "a.b ")) ≡ false
unfolding trim_space is_empty
addr_filled = refl

addr_plain : IsUnbracketed (trim_space (codes "a.b "))
unfolding trim_space has_byte
addr_plain = (refl, refl)

port_plain : IsUnbracketed (codes "443")
unfolding has_byte
port_plain = (refl, refl)

port_no_colon : has_byte (codes "443") b':' ≡ false
unfolding has_byte
port_no_colon = refl

port_filled : is_empty (codes "443") ≡ false
unfolding is_empty
port_filled = refl

ensure_addr_with_port-HasPort_example : HasPort (ensure_addr_with_port (codes "a.b ") (codes "443"))
ensure_addr_with_port-HasPort_example =
    ensure_addr_with_port-HasPort (codes "a.b ") (codes "443") addr_filled addr_plain port_plain
      port_no_colon port_filled

abbrev show_one : Option Ip → Bytes
show_one none = codes "<nil>"
show_one (some (v4 n)) = codes "192.0.2.1"
show_one (some (v6 n)) = codes "2001:db8::1"

abbrev network : Network
network = record {
  is_ip = λ s. has_prefix s (codes "192.");
  show_ip = show_one;
  doh_resolver = some (λ h. some (some (v6 1) ∷ some (v4 1) ∷ []));
  cf_pool = some (λ n. codes "192.0.2.7" ∷ codes "192.0.2.8" ∷ codes "192.0.2.7" ∷ []);
}

abbrev upstream_rule : Rule
upstream_rule = record empty_rule {
  upstream = codes "$1.example.net, 192.0.2.9:80";
  dns_mode = codes "prefer_ipv4";
}

abbrev pool_rule : Rule
pool_rule = record empty_rule { use_cf_pool = true }

by_upstream :
    build_dial_candidates network
      (codes "www.t.co")
      (codes "www.t.co:443")
      upstream_rule
      (codes "mitm")
    ≡ codes "192.0.2.1:443" ∷ codes "[2001:db8::1]:443" ∷ []
unfolding build_dial_candidates str_eq to_lower trim_space is_empty has_prefix contains split
    ensure_addr_with_port mem_str normalize_host trim_brackets
by_upstream = refl

by_pool :
    build_dial_candidates network (codes "t.co") (codes "t.co:443") pool_rule (codes "mitm")
    ≡ codes "192.0.2.7:443" ∷ codes "192.0.2.8:443" ∷ []
unfolding build_dial_candidates str_eq to_lower trim_space is_empty has_prefix join_host_port
    has_byte mem_str
by_pool = refl

upstream_name :
    choose_upstream_sni network (codes "www.t.co:443") upstream_rule ≡ codes "www.example.net"
unfolding choose_upstream_sni str_eq to_lower trim_space is_empty has_prefix contains normalize_host
    split ensure_addr_with_port mem_str
upstream_name = refl

some_target : is_empty (codes "www.t.co:443") ≡ false
unfolding is_empty
some_target = refl

no_fake : is_empty (trim_space upstream_rule.sni_fake) ≡ true
unfolding is_empty trim_space
no_fake = refl

not_none : to_lower (trim_space upstream_rule.sni_policy) ≢ codes "none"
unfolding to_lower trim_space
not_none e = ground (arith, e)

not_fake : to_lower (trim_space upstream_rule.sni_policy) ≢ codes "fake"
unfolding to_lower trim_space
not_fake e = ground (arith, e)

build_dial_candidates-IsDialList_example : IsDialList (
    build_dial_candidates network
      (codes "www.t.co")
      (codes "www.t.co:443")
      upstream_rule
      (codes "mitm"))
build_dial_candidates-IsDialList_example =
    build_dial_candidates-IsDialList network (codes "www.t.co") (codes "www.t.co:443") upstream_rule
      (codes "mitm") some_target

choose_upstream_sni-IsNameOr_example :
    ((to_lower (trim_space upstream_rule.sni_policy) ≡ codes "original")
      × (choose_upstream_sni network (codes "www.t.co:443") upstream_rule
          ≡ normalize_host (codes "www.t.co:443")))
    ⊎ ((to_lower (trim_space upstream_rule.sni_policy) ≢ codes "original")
        × IsNameOr network
            (normalize_host (codes "www.t.co:443"))
            (resolve_rule_upstream (normalize_host (codes "www.t.co:443")) upstream_rule)
            (choose_upstream_sni network (codes "www.t.co:443") upstream_rule))
choose_upstream_sni-IsNameOr_example =
    choose_upstream_sni-IsNameOr network (codes "www.t.co:443") upstream_rule no_fake not_none
      not_fake
