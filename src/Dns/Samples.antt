-- ===== src/Dns/Samples.antt =====
-- Nodes, and runs of the resolver on them.
use mathlib.Core.List.{Permᴰ}
use sni_shaper_linux.Prelude.{
  ◌≡◌, refl, Bool, true, false, none, some, List, [], ◌∷◌, arith, if◌then◌else◌,
}
use sni_shaper_linux.Text.{Bytes, codes, str_eq}
use sni_shaper_linux.Rules.Types.{DnsNode, empty_cert_verify}
use sni_shaper_linux.Auto.Router.{v4, v6}
use sni_shaper_linux.Dns.Message.{
  type_aaaa, a_record, aaaa_record, Msg, set_question, Reply, bad, replied, Outside,
}
use sni_shaper_linux.Dns.Exchange.{exchange_node, active_nodes, system_exchange, exchange}
use sni_shaper_linux.Dns.Exchange.Answers.{Answers, results, exchange-Answers}

abbrev node : Bytes → Bool → DnsNode
node url ech = record {
  id = url;
  name = [];
  url = url;
  sni = [];
  ips = [];
  ech_enabled = ech;
  ech_profile_id = codes "p";
  ech_auto_update = true;
  quic = false;
  cert_verify = empty_cert_verify;
  enabled = true;
}

abbrev reply : Msg
reply = record { question = none; answer = a_record (some (v4 7)) ∷ [] }

-- The node `c` answers, the others do not.
abbrev only_c : DnsNode → Bool → Msg → Reply
only_c n again msg = if str_eq n.url (codes "c") then replied reply else bad

abbrev outside : Outside
outside = record {
  request = only_c;
  hostname = λ url. some url;
  fqdn = λ name. name;
  lookup_ip = λ name. some (v4 1 ∷ v6 2 ∷ []);
}

abbrev nodes : List DnsNode
nodes = node (codes "a") false ∷ node (codes "b") true ∷ node (codes "c") false ∷ []

abbrev question : Msg
question = set_question (codes "x") type_aaaa

-- The result of `c` arrives first.
exchange-Answers_example :
    Answers
      (results outside nodes question (active_nodes nodes))
      (system_exchange outside question)
      (exchange outside nodes (some reply ∷ none ∷ []) 2 question)
unfolding exchange_node str_eq
exchange-Answers_example =
    exchange-Answers outside nodes (some reply ∷ none ∷ []) 2 question (Permᴰ.swap refl refl)
      (omega arith)

answered : exchange outside nodes (some reply ∷ none ∷ []) 2 question ≡ some reply
unfolding exchange str_eq
answered = refl

-- Of the system's addresses, a question for IPv6 gets the IPv4 ones as well.
system_aaaa :
    system_exchange outside question
    ≡ some (record question { answer = aaaa_record (some (v4 1)) ∷ aaaa_record (some (v6 2)) ∷ [] })
unfolding system_exchange
system_aaaa = refl
