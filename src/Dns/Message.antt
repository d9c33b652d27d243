-- ===== src/Dns/Message.antt =====
-- proxy/doh.go: what the resolver reads of a message of package dns, and what is outside of it.
use sni_shaper_linux.Prelude.{Bool, Option, some, List, []}
use sni_shaper_linux.Text.{Bytes}
use sni_shaper_linux.Rules.Types.{DnsNode}
use sni_shaper_linux.Auto.Router.{Ip}

pub data Qtype : Type 0 where
  type_a type_aaaa type_https : Qtype

-- A record of the answer: an address (a `nil` one is `none`), the options of an HTTPS record (the
-- configuration of ECH, or another option), or anything else.
pub data Answer : Type 0 where
  a_record : Option Ip → Answer
  aaaa_record : Option Ip → Answer
  https_record : List (Option Bytes) → Answer
  other_record : Answer

-- The first question, if there is one, and the answers.
pub record Msg : Type 0 where
  pub question : Option (Bytes × Qtype)
  pub answer : List Answer

-- `SetQuestion(dns.Fqdn(domain), qtype)`, with `Fqdn` the parameter of the resolver.
abbrev pub set_question : Bytes → Qtype → Msg
set_question name qtype = record { question = some (name, qtype); answer = [] }

-- What comes of one request to a node: `client.Do` fails; another step fails (the client, the text of the
-- message, the status, the answer); a message.
pub data Reply : Type 0 where
  unreached bad : Reply
  replied : Msg → Reply

-- The request to a node, for the first or the second time; the host of a URL, unless it does not parse;
-- `dns.Fqdn`; `net.LookupIP`, an error as `none`.
pub record Outside : Type 0 where
  pub request : DnsNode → Bool → Msg → Reply
  pub hostname : Bytes → Option Bytes
  pub fqdn : Bytes → Bytes
  pub lookup_ip : Bytes → Option (List Ip)

-- The configurations written to profiles, in order.
abbrev pub Synced : Type 0
Synced = List (Bytes × Bytes)
