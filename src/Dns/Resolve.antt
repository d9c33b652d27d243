-- ===== src/Dns/Resolve.antt =====
-- proxy/doh.go, `ResolveECH`, `TestNode`, `ResolveIPAddrs` and `ResolveIPs`: what is read from the answers.
use sni_shaper_linux.Prelude.{
  ℕ, Bool, false, ◌||◌, Option, none, some, List, [], ◌∷◌, ◌++◌, any, if◌then◌else◌,
}
use sni_shaper_linux.Text.{Bytes, codes, str_eq, to_lower, trim_suffix}
use sni_shaper_linux.Rules.Types.{DnsNode}
use sni_shaper_linux.Auto.Router.{Ip}
use sni_shaper_linux.Dns.Message.{
  Qtype, type_a, type_aaaa, type_https, Answer, a_record, aaaa_record, https_record, other_record,
  Msg, set_question, Outside,
}
use sni_shaper_linux.Dns.Exchange.{ech_answer, exchange_node, exchange}

-- In which order the results of a race arrive, and how many before the context ends.
pub record Timing : Type 0 where
  pub arrivals : List (Option Msg)
  pub left : ℕ

abbrev pub ask : Outside → List DnsNode → Timing → Bytes → Qtype → Option Msg
ask w nodes t domain q = exchange w nodes t.arrivals t.left (set_question (w.fqdn domain) q)

unfoldable pub resolve_ech : Outside → List DnsNode → Timing → Bytes → Option Bytes
resolve_ech w nodes t domain = elim (ask w nodes t domain type_https) [
  | none ↦ none
  | some m ↦ ech_answer m.answer
]

-- The texts of the A records.
unfoldable pub a_texts : (Option Ip → Bytes) → List Answer → List Bytes
a_texts show [] = []
a_texts show (a_record ip ∷ rest) = show ip ∷ a_texts show rest
a_texts show (aaaa_record ip ∷ rest) = a_texts show rest
a_texts show (https_record opts ∷ rest) = a_texts show rest
a_texts show (other_record ∷ rest) = a_texts show rest

-- No text is an error.
unfoldable pub test_node :
    Outside → (Option Ip → Bytes) → List DnsNode → DnsNode → Option (List Bytes)
unfolding a_texts
test_node w show nodes node =
    elim (exchange_node w nodes node (set_question (w.fqdn (codes "cloudflare.com")) type_a)).0 [
      | none ↦ none
      | some m ↦ elim (a_texts show m.answer) [ [] ↦ none | t ∷ ts ↦ some (t ∷ ts) ]
    ]

-- `strings.EqualFold`, of ASCII
abbrev pub equal_fold : Bytes → Bytes → Bool
equal_fold a b = str_eq (to_lower a) (to_lower b)

-- The domain is the host of a node.
unfoldable pub is_doh_node : Outside → List DnsNode → Bytes → Bool
is_doh_node w nodes domain =
    any
      (λ n. elim (w.hostname n.url) [
        | none ↦ false
        | some h ↦ equal_fold h domain || equal_fold h (trim_suffix domain (codes "."))
      ])
      nodes

-- The addresses of the answers, in order.
unfoldable pub answer_ips : List Answer → List (Option Ip)
answer_ips [] = []
answer_ips (a_record ip ∷ rest) = ip ∷ answer_ips rest
answer_ips (aaaa_record ip ∷ rest) = ip ∷ answer_ips rest
answer_ips (https_record opts ∷ rest) = answer_ips rest
answer_ips (other_record ∷ rest) = answer_ips rest

pub lookup_ips : Option Msg → List (Option Ip)
unfolding answer_ips
lookup_ips none = []
lookup_ips (some m) = answer_ips m.answer

-- The two look-ups run at once; which of them adds its addresses first is `a_first`. No address is an error,
-- which is `none`.
abbrev pub some_ips : List (Option Ip) → Option (List (Option Ip))
some_ips [] = none
some_ips (ip ∷ ips) = some (ip ∷ ips)

abbrev pub as_found : List Ip → List (Option Ip)
as_found [] = []
as_found (ip ∷ ips) = some ip ∷ as_found ips

-- What the system says of a host of a node.
unfoldable pub system_ips : Outside → List DnsNode → Bytes → List (Option Ip)
unfolding is_doh_node
system_ips w nodes domain =
    if is_doh_node w nodes domain
    then (elim (w.lookup_ip domain) [ none ↦ [] | some ips ↦ as_found ips ])
    else []

unfoldable pub resolve_ip_addrs :
    Outside → List DnsNode → Timing → Timing → Bool → Bytes → Option (List (Option Ip))
unfolding system_ips lookup_ips
resolve_ip_addrs w nodes ta taaaa a_first domain = elim (system_ips w nodes domain) [
  | ip ∷ ips ↦ some (ip ∷ ips)
  | [] ↦
      let four = lookup_ips (ask w nodes ta domain type_a) in
      let six = lookup_ips (ask w nodes taaaa domain type_aaaa) in
      some_ips (if a_first then four ++ six else six ++ four)
]

unfoldable pub show_ips : (Option Ip → Bytes) → List (Option Ip) → List Bytes
show_ips show [] = []
show_ips show (none ∷ ips) = show_ips show ips
show_ips show (some ip ∷ ips) = show (some ip) ∷ show_ips show ips

unfoldable pub resolve_ips :
    Outside
    → (Option Ip → Bytes)
    → List DnsNode
    → Timing
    → Timing
    → Bool
    → Bytes
    → Option (List Bytes)
unfolding resolve_ip_addrs show_ips
resolve_ips w show nodes ta taaaa a_first domain =
    elim (resolve_ip_addrs w nodes ta taaaa a_first domain) [
      | none ↦ none
      | some ips ↦ some (show_ips show ips)
    ]
