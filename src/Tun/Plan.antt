-- ===== src/Tun/Plan.antt =====
-- proxy/tun_flow.go, `PlanTUNFlow`: the mode of a flow of packets, and the addresses to dial for it.
pub mod Sound
use sni_shaper_linux.Prelude.{
  ℕ, Bool, true, false, not, ◌&&◌, ◌||◌, Option, none, some, List, [], ◌∷◌, ◌++◌, ltb, ◌==◌,
  if◌then◌else◌, ℤ, pos, negsuc,
}
use sni_shaper_linux.Text.{Bytes, codes, str_eq, is_empty, to_lower, trim_space, decimal}
use sni_shaper_linux.Rules.Types.{Rule}
use sni_shaper_linux.Rules.Domain.{Regex, clean}
use sni_shaper_linux.Rules.Match.{Routes, match_rule}
use sni_shaper_linux.Auto.Router.{Ip, AutoRouter}
use sni_shaper_linux.Net.Address.{normalize_host, ensure_addr_with_port, join_host_port}
use sni_shaper_linux.Net.Candidates.{Network, build_dial_candidates, resolve_rule_upstream}

pub record TunFlow : Type 0 where
  pub protocol : Bytes
  pub host : Bytes
  pub sni : Bytes
  pub dest_addr : Bytes
  pub dest_port : ℤ

pub record TunFlowPlan : Type 0 where
  pub protocol : Bytes
  pub host : Bytes
  pub match_host : Bytes
  pub rule_mode : Bytes
  pub effective_mode : Bytes
  pub upstream : Bytes
  pub dial_candidates : List Bytes
  pub udp_strategy : Bytes
  pub can_mitm : Bool
  pub needs_sniffing : Bool
  pub notes : List Bytes

-- The first text, or the second one if the first is empty.
abbrev pub or_text : Bytes → Bytes → Bytes
or_text [] other = other
or_text (c ∷ cs) other = c ∷ cs

abbrev pub flow_protocol : TunFlow → Bytes
flow_protocol flow = or_text (clean flow.protocol) (codes "tcp")

abbrev pub flow_host : TunFlow → Bytes
flow_host flow =
    or_text (or_text (normalize_host flow.host) (normalize_host flow.sni))
      (normalize_host flow.dest_addr)

abbrev pub flow_port : ℤ → ℕ
flow_port (negsuc n) = 443
flow_port (pos n) = if n == 0 || ltb 65535 n then 443 else n

-- The mode, the strategy for UDP, whether MITM is possible, the notes.
pub record Handling : Type 0 where
  pub mode : Bytes
  pub strategy : Bytes
  pub mitm : Bool
  pub remarks : List Bytes

abbrev pub tcp_only : Bytes → Bool
tcp_only mode =
    str_eq mode (codes "mitm") || str_eq mode (codes "tls-rf") || str_eq mode (codes "server")

abbrev pub downgraded : Bytes → Bytes
downgraded mode =
    mode
    ++ codes
        " is TCP-oriented in the current TUN path; downgrade UDP handling to transparent passthrough"

unfoldable pub handle_udp : Bytes → Handling
handle_udp mode =
    if tcp_only mode
    then record {
      mode = codes "transparent";
      strategy = [];
      mitm = false;
      remarks = downgraded mode ∷ [];
    }
    else if str_eq mode (codes "quic")
    then record {
      mode = mode;
      strategy = codes "native-quic";
      mitm = false;
      remarks = codes "QUIC-specific UDP handling can be attached here later" ∷ [];
    }
    else if str_eq mode (codes "warp")
    then record {
      mode = mode;
      strategy = codes "warp";
      mitm = false;
      remarks = codes "Warp-selected UDP will need a dedicated UDP associate path" ∷ [];
    }
    else record {
      mode = mode;
      strategy = codes "passthrough";
      mitm = false;
      remarks =
          if str_eq mode (codes "direct")
          then codes
              "Direct UDP flow will bypass HTTP proxy semantics and use transparent forwarding"
            ∷ []
          else [];
    }

unfoldable pub handle_tcp : Bytes → Handling
handle_tcp mode =
    if str_eq mode (codes "quic")
    then record {
      mode = mode;
      strategy = [];
      mitm = true;
      remarks =
          codes "QUIC mode selected for TCP flow; preserve rule but dataplane may remap it later"
          ∷ [];
    }
    else if str_eq mode (codes "transparent")
    then record {
      mode = mode;
      strategy = [];
      mitm = false;
      remarks =
          codes
            "Transparent TCP flow can reuse existing upstream dial logic without TLS termination"
          ∷ [];
    }
    else if str_eq mode (codes "direct")
    then record { mode = mode; strategy = []; mitm = false; remarks = [] }
    else record {
      mode = mode;
      strategy = [];
      mitm = true;
      remarks =
          codes "TCP flow can reuse existing rule matching and upstream candidate selection" ∷ [];
    }

unfoldable pub handle_flow : Bytes → Bytes → Handling
unfolding handle_udp handle_tcp
handle_flow protocol mode =
    if str_eq protocol (codes "udp")
    then handle_udp mode
    else if str_eq protocol (codes "tcp")
    then handle_tcp mode
    else record {
      mode = codes "direct";
      strategy = [];
      mitm = false;
      remarks = codes "Unknown protocol; treating as direct" ∷ [];
    }

-- The address to reach: that of the flow, or the host's; an empty one is replaced in the end.
unfoldable pub target_addr : Bytes → Bytes → Bytes → Bytes
target_addr dest host port =
    if is_empty (trim_space dest) && not (is_empty host)
    then join_host_port host port
    else if is_empty dest
    then join_host_port (codes "0.0.0.0") port
    else dest

-- Under UDP, an empty list is replaced by the target.
abbrev pub udp_candidates : Bytes → Bytes → Bytes → List Bytes → List Bytes
udp_candidates protocol target port [] =
    if str_eq protocol (codes "udp") && not (is_empty target)
    then ensure_addr_with_port target port ∷ []
    else []
udp_candidates protocol target port (a ∷ rest) = a ∷ rest

-- The rule is looked up in the mode `transparent` under UDP.
abbrev pub match_mode : Bytes → Bytes
match_mode protocol = if str_eq protocol (codes "udp") then codes "transparent" else codes "mitm"

-- The plan under a rule that was looked up for the host of the flow.
unfoldable pub plan_with : Network → TunFlow → Rule → TunFlowPlan
unfolding handle_flow target_addr
plan_with net flow rule =
    let protocol = flow_protocol flow in
    let host = flow_host flow in
    let port = decimal (flow_port flow.dest_port) in
    let handling = handle_flow protocol (or_text (clean rule.mode) (codes "direct")) in
    let target = target_addr flow.dest_addr host port in
    record {
      protocol = protocol;
      host = host;
      match_host = host;
      rule_mode = rule.mode;
      effective_mode = handling.mode;
      upstream = resolve_rule_upstream host rule;
      dial_candidates =
          udp_candidates protocol target port
            (build_dial_candidates net host (ensure_addr_with_port target port) rule handling.mode);
      udp_strategy = handling.strategy;
      can_mitm = handling.mitm;
      needs_sniffing = is_empty host;
      notes =
          handling.remarks
          ++ (if is_empty host
              then codes
                  "No host/SNI available yet; dataplane should sniff TLS or correlate DNS before advanced routing"
                ∷ []
              else []);
    }

-- Beside the plan, the automatic router that the look-up leaves.
unfoldable pub plan_tun_flow :
    Regex
    → (Bytes → Option (List Ip))
    → ℕ
    → ℕ
    → Routes
    → Network
    → TunFlow
    → TunFlowPlan × Option AutoRouter
unfolding plan_with
plan_tun_flow regex resolve now after routes net flow =
    let matched =
      match_rule regex resolve now after routes (flow_host flow)
        (match_mode (flow_protocol flow)) in
    (plan_with net flow matched.rule, matched.auto_router)
