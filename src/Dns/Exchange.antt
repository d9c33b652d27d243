-- ===== src/Dns/Exchange.antt =====
-- proxy/doh.go, `exchangeNodeWithRetry`, `exchangeSafe` and `exchange`: one request to one node, with one more
-- after a fresh configuration of ECH; the nodes without ECH in turn; the first node and then the race
-- between the others.
pub mod Answers
use sni_shaper_linux.Prelude.{
  ℕ, zero, suc, Bool, true, false, not, ◌&&◌, Option, none, some, List, [], ◌∷◌, ◌++◌, map, select,
  if◌then◌else◌,
}
use sni_shaper_linux.Text.{Bytes, codes, is_empty, trim_suffix}
use sni_shaper_linux.Rules.Types.{DnsNode}
use sni_shaper_linux.Auto.Router.{Ip, v4, v6}
use sni_shaper_linux.Dns.Message.{
  Qtype, type_a, type_aaaa, type_https, Answer, a_record, aaaa_record, https_record, other_record,
  Msg, set_question, Reply, unreached, bad, replied, Outside, Synced,
}

abbrev pub message_of : Reply → Option Msg
message_of (replied m) = some m
message_of r = none

-- `allowRetry == false`
unfoldable pub exchange_once : Outside → DnsNode → Bool → Msg → Option Msg
exchange_once w node again msg = message_of (w.request node again msg)

-- The first node that answers.
unfoldable pub first_answer : Outside → List DnsNode → Msg → Option Msg
unfolding exchange_once
first_answer w [] msg = none
first_answer w (n ∷ nodes) msg = elim (exchange_once w n false msg) [
  | some m ↦ some m
  | none ↦ first_answer w nodes msg
]

abbrev pub is_safe : DnsNode → Bool
is_safe n = n.enabled && not n.ech_enabled

unfoldable pub exchange_safe : Outside → List DnsNode → Msg → Option Msg
unfolding first_answer
exchange_safe w nodes msg = first_answer w (select is_safe nodes) msg

-- The first configuration among the options of an HTTPS record.
unfoldable pub ech_option : List (Option Bytes) → Option Bytes
ech_option [] = none
ech_option (some ech ∷ opts) = some ech
ech_option (none ∷ opts) = ech_option opts

unfoldable pub ech_answer : List Answer → Option Bytes
unfolding ech_option
ech_answer [] = none
ech_answer (https_record opts ∷ rest) = elim (ech_option opts) [
  | some ech ↦ some ech
  | none ↦ ech_answer rest
]
ech_answer (a_record ip ∷ rest) = ech_answer rest
ech_answer (aaaa_record ip ∷ rest) = ech_answer rest
ech_answer (other_record ∷ rest) = ech_answer rest

unfoldable pub resolve_ech_safe : Outside → List DnsNode → Bytes → Option Bytes
unfolding exchange_safe ech_answer
resolve_ech_safe w nodes domain =
    elim (exchange_safe w nodes (set_question (w.fqdn domain) type_https)) [
      | none ↦ none
      | some m ↦ ech_answer m.answer
    ]

-- With a configuration that was found, which is written to the profile of the node, if it has one.
pub retry_with : Outside → DnsNode → Msg → Option Bytes → Option Msg × Synced
unfolding exchange_once
retry_with w node msg none = (none, [])
retry_with w node msg (some []) = (none, [])
retry_with w node msg (some (b ∷ bs)) = (
  exchange_once w node true msg,
  if is_empty node.ech_profile_id then [] else (node.ech_profile_id, b ∷ bs) ∷ [],
)

-- The host that the configuration is asked for; none if the node may not be asked again.
unfoldable pub refresh_host : Outside → DnsNode → Option Bytes
refresh_host w node = if node.ech_enabled && node.ech_auto_update then w.hostname node.url else none

pub after_reply : Outside → List DnsNode → DnsNode → Msg → Reply → Option Msg × Synced
unfolding retry_with refresh_host
after_reply w nodes node msg (replied m) = (some m, [])
after_reply w nodes node msg bad = (none, [])
after_reply w nodes node msg unreached = elim (refresh_host w node) [
  | none ↦ (none, [])
  | some host ↦ retry_with w node msg (resolve_ech_safe w nodes host)
]

-- `allowRetry == true`
unfoldable pub exchange_node : Outside → List DnsNode → DnsNode → Msg → Option Msg × Synced
unfolding after_reply
exchange_node w nodes node msg = after_reply w nodes node msg (w.request node false msg)

-- What the race ends in: a message, the end of the context, or the failure of all.
pub data Race : Type 0 where
  won : Msg → Race
  cancelled lost : Race

-- The results in the order in which they arrive, of which `left` are read before the context ends.
unfoldable pub race : List (Option Msg) → ℕ → Race
race [] left = lost
race (r ∷ arrivals) zero = cancelled
race (some m ∷ arrivals) (suc left) = won m
race (none ∷ arrivals) (suc left) = race arrivals left

-- An address of the system, as an answer to the question: `To16` gives every address a text of sixteen
-- bytes, that of a `v4` one as well.
unfoldable pub system_answers : Qtype → List Ip → List Answer
system_answers q [] = []
system_answers type_a (v4 n ∷ ips) = a_record (some (v4 n)) ∷ system_answers type_a ips
system_answers type_a (v6 n ∷ ips) = system_answers type_a ips
system_answers type_aaaa (ip ∷ ips) = aaaa_record (some ip) ∷ system_answers type_aaaa ips
system_answers type_https (ip ∷ ips) = system_answers type_https ips

abbrev pub system_reply : Msg → Qtype → Option (List Ip) → Option Msg
system_reply msg q none = none
system_reply msg q (some []) = none
system_reply msg q (some (ip ∷ ips)) = some (record msg { answer = system_answers q (ip ∷ ips) })

-- The last resort, for questions of addresses.
unfoldable pub system_exchange : Outside → Msg → Option Msg
unfolding system_answers
system_exchange w msg = elim msg.question [
  | none ↦ none
  | some (name, q) ↦ elim q [
    | type_https ↦ none
    | type_a ↦ system_reply msg type_a (w.lookup_ip (trim_suffix name (codes ".")))
    | type_aaaa ↦ system_reply msg type_aaaa (w.lookup_ip (trim_suffix name (codes ".")))
  ]
]

pub after_race : Race → Option Msg → Option Msg
after_race (won m) system = some m
after_race cancelled system = none
after_race lost system = system

-- By the answer of the first node.
pub after_primary : Option Msg → Race → Option Msg → Option Msg
unfolding after_race
after_primary (some m) others system = some m
after_primary none others system = after_race others system

abbrev pub active_nodes : List DnsNode → List DnsNode
active_nodes nodes = select (λ n. n.enabled) nodes

-- Among the active nodes: the results of those behind the first one arrive in the order of `arrivals`.
pub exchange_among :
    Outside → List DnsNode → List DnsNode → List (Option Msg) → ℕ → Msg → Option Msg
unfolding after_primary race system_exchange exchange_node
exchange_among w nodes [] arrivals left msg = system_exchange w msg
exchange_among w nodes (primary ∷ others) arrivals left msg =
    after_primary (exchange_node w nodes primary msg).0 (race arrivals left) (system_exchange w msg)

unfoldable pub exchange : Outside → List DnsNode → List (Option Msg) → ℕ → Msg → Option Msg
unfolding exchange_among
exchange w nodes arrivals left msg = exchange_among w nodes (active_nodes nodes) arrivals left msg
