-- ===== src/Connect/Prepare.antt =====
-- proxy/proxy.go, `mergeRule` and `prepareConnect`: the mode of a connection, and the rule for it, in which
-- the rule for the upstream's own name is merged.
use sni_shaper_linux.Prelude.{
  ℕ, Bool, true, false, not, ◌&&◌, ◌||◌, Option, List, [], ◌∷◌, if◌then◌else◌,
}
use sni_shaper_linux.Text.{Bytes, codes, str_eq, trim_space, is_empty}
use sni_shaper_linux.Rules.Types.{Rule, CertVerifyConfig}
use sni_shaper_linux.Rules.Domain.{Regex, clean}
use sni_shaper_linux.Rules.Match.{Routes, match_rule}
use sni_shaper_linux.Auto.Router.{Ip, AutoRouter}
use sni_shaper_linux.Net.Candidates.{resolve_rule_upstream, first_upstream_host}

-- `overlay` unless it is blank
abbrev pub over : Bytes → Bytes → Bytes
over base overlay = if is_empty (trim_space overlay) then base else overlay

abbrev pub over_list : List Bytes → List Bytes → List Bytes
over_list base [] = base
over_list base (x ∷ xs) = x ∷ xs

abbrev pub no_items : List Bytes → Bool
no_items [] = true
no_items (x ∷ xs) = false

-- `IsZero`
unfoldable pub is_zero : CertVerifyConfig → Bool
is_zero c =
    is_empty (trim_space c.mode)
    && (no_items c.names
        && (no_items c.suffixes && (no_items c.spki_sha256 && not c.allow_unknown_authority)))

unfoldable pub merge_rule : Rule → Rule → Rule
unfolding is_zero
merge_rule base overlay = record base {
  upstream = over base.upstream overlay.upstream;
  upstreams = over_list base.upstreams overlay.upstreams;
  dns_mode = over base.dns_mode overlay.dns_mode;
  sni_fake = over base.sni_fake overlay.sni_fake;
  connect_policy = over base.connect_policy overlay.connect_policy;
  sni_policy = over base.sni_policy overlay.sni_policy;
  cert_verify = if is_zero overlay.cert_verify then base.cert_verify else overlay.cert_verify;
}

-- The mode that a policy asks for, and the upstream that it leaves.
unfoldable pub apply_policy : Bytes → Bytes → Bytes → Bytes × Bytes
apply_policy policy mode resolved =
    if str_eq policy (codes "tunnel_origin")
    then (codes "transparent", [])
    else if str_eq policy (codes "tunnel_upstream")
    then (codes "transparent", resolved)
    else if str_eq policy (codes "mitm")
    then (codes "mitm", resolved)
    else if str_eq policy (codes "direct")
    then (codes "direct", [])
    else (mode, resolved)

pub record ConnectResult : Type 0 where
  pub effective_mode : Bytes
  pub target_host : Bytes
  pub target_addr : Bytes
  pub rule : Rule

-- The name of the upstream whose own rule is looked up; empty if there is none.
unfoldable pub second_host : Bytes → Bytes → Bytes → Bytes
second_host target_host mode resolved =
    if (str_eq mode (codes "mitm") || str_eq mode (codes "transparent"))
      && not (is_empty (trim_space resolved))
    then first_upstream_host target_host resolved
    else []

-- Beside the result, the automatic router that the look-up leaves. (In Go the upstream is resolved once
-- more behind the merge, for the trace only.)
unfoldable pub prepare_connect :
    Regex
    → (Bytes → Option (List Ip))
    → ℕ
    → ℕ
    → Routes
    → Bytes
    → Bytes
    → Rule
    → ConnectResult × Option AutoRouter
unfolding merge_rule apply_policy second_host
prepare_connect regex resolve now after routes target_host target_addr rule =
    let (mode, resolved) =
      apply_policy (clean rule.connect_policy) rule.mode (resolve_rule_upstream target_host rule) in
    let up_host = second_host target_host mode resolved in
    let plain : ConnectResult = record {
      effective_mode = mode;
      target_host = target_host;
      target_addr = target_addr;
      rule = rule;
    } in
    if is_empty up_host
    then (plain, routes.auto_router)
    else (let matched = match_rule regex resolve now after routes up_host mode in
        if is_empty matched.rule.site_id
        then (plain, matched.auto_router)
        else (record plain { rule = merge_rule rule matched.rule }, matched.auto_router))
