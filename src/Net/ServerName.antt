-- ===== src/Net/ServerName.antt =====
-- proxy/proxy.go, `chooseUpstreamSNI`: the server name that the proxy shows to an upstream.
pub mod Upstream
use sni_shaper_linux.Prelude.{not, ◌&&◌, [], if◌then◌else◌}
use sni_shaper_linux.Text.{Bytes, codes, str_eq, trim_space, to_lower, is_empty, replace_byte}
use sni_shaper_linux.Rules.Types.{Rule}
use sni_shaper_linux.Net.Address.{normalize_host, trim_brackets, is_literal_ip}
use sni_shaper_linux.Net.Candidates.{Network, resolve_rule_upstream, first_upstream_host}

-- The host as one label, to be shown in place of it.
unfoldable pub host_as_token : Bytes → Bytes
unfolding trim_brackets replace_byte
host_as_token h =
    let s = trim_space (replace_byte b':' b'-' (replace_byte b'.' b'-' (trim_brackets h))) in
    if is_empty s then codes "g-cn" else s

-- Under the policy `upstream`, and under none, where a name equal to the host changes nothing.
unfoldable pub sni_of_upstream : Network → Bytes → Bytes → Bytes
unfolding first_upstream_host
sni_of_upstream net h resolved =
    let host = first_upstream_host h resolved in
    if not (is_empty host) && not (is_literal_ip net.is_ip host) then host else h

unfoldable pub choose_upstream_sni : Network → Bytes → Rule → Bytes
unfolding host_as_token resolve_rule_upstream sni_of_upstream
choose_upstream_sni net target_host rule =
    let h = normalize_host target_host in
    let resolved = resolve_rule_upstream h rule in
    let policy = to_lower (trim_space rule.sni_policy) in
    let no_fake = is_empty (trim_space rule.sni_fake) in
    if str_eq policy (codes "none")
    then []
    else if str_eq policy (codes "original")
    then h
    else if str_eq policy (codes "fake")
    then (if not no_fake then rule.sni_fake else if rule.ech_enabled then h else host_as_token h)
    else if str_eq policy (codes "upstream")
    then sni_of_upstream net h resolved
    else if not no_fake
    then rule.sni_fake
    else if is_empty resolved
    then h
    else sni_of_upstream net h resolved
