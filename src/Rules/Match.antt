-- ===== src/Rules/Match.antt =====
-- proxy/proxy.go, `matchRule`: the rule of the user that fits a host best, or what the automatic
-- routing decides, or a direct connection. The event that it emits is part of the result; the lines
-- that it logs are not.
pub mod Best
pub mod Routing
pub mod Transparent
use sni_shaper_linux.Prelude.{
  ℕ, Bool, true, false, not, ◌&&◌, Option, none, some, List, [], ◌∷◌, ltb, if◌then◌else◌,
}
use sni_shaper_linux.Text.{Bytes, codes, str_eq, trim_space, to_lower, is_empty}
use sni_shaper_linux.Rules.Types.{Rule}
use sni_shaper_linux.Rules.Domain.{Regex, domain_match_score}
use sni_shaper_linux.Net.Address.{normalize_host}
use sni_shaper_linux.Auto.Router.{Ip, AutoRouter, AutoRoutingConfig, decide, direct_rule}

-- `best` with `bestScore`, which is -1 as long as there is none.
abbrev pub Best : Type 0
Best = Option (Rule × ℕ)

-- The score of a rule, of which one that is not enabled has none.
unfoldable pub rule_score : Regex → Bytes → Rule → Option ℕ
rule_score regex host rule =
    if rule.enabled then domain_match_score regex host rule.domain else none

-- A rule replaces the best one so far only if it scores higher.
better : Rule → Option ℕ → Best → Best
better rule none best = best
better rule (some n) none = some (rule, n)
better rule (some n) (some (b, m)) = if ltb m n then some (rule, n) else some (b, m)

unfoldable pub best_rule : Regex → Bytes → List Rule → Best → Best
unfolding better
best_rule regex host [] best = best
best_rule regex host (rule ∷ rules) best =
    best_rule regex host rules (better rule (rule_score regex host rule) best)

-- What `matchRule` reads of the manager.
pub record Routes : Type 0 where
  pub rules : List Rule
  pub auto_router : Option AutoRouter
  pub auto_routing_config : AutoRoutingConfig

-- The rule, the event (a host and a mode), and the router that the call leaves behind.
pub record Matched : Type 0 where
  pub rule : Rule
  pub event : Bytes × Bytes
  pub auto_router : Option AutoRouter

abbrev pub announce : Bytes → Rule → Option AutoRouter → Matched
announce host rule ar = record { rule = rule; event = (host, rule.mode); auto_router = ar }

-- Under the mode `transparent` a rule of the mode `mitm` is made direct.
unfoldable pub downgrade : Bytes → Rule → Rule
downgrade mode best =
    if str_eq mode (codes "transparent") && str_eq best.mode (codes "mitm")
    then record best { mode = codes "direct" }
    else best

unfoldable pub auto_match : (Bytes → Option (List Ip)) → ℕ → ℕ → Routes → Bytes → Matched
auto_match resolve now after r host = elim r.auto_router [
  | none ↦ announce host direct_rule none
  | some ar ↦
      if is_empty r.auto_routing_config.mode
      then announce host direct_rule (some ar)
      else (let (ar', rule) = decide resolve now after ar host in
          if str_eq rule.mode (codes "direct")
          then announce host direct_rule (some ar')
          else announce host rule (some ar'))
]

unfoldable pub match_rule :
    Regex → (Bytes → Option (List Ip)) → ℕ → ℕ → Routes → Bytes → Bytes → Matched
unfolding rule_score best_rule downgrade auto_match
match_rule regex resolve now after r host mode =
    let h = normalize_host host in
    let m = to_lower (trim_space mode) in
    elim (best_rule regex h r.rules none) [
      | some (best, score) ↦ announce h (downgrade m best) r.auto_router
      | none ↦ auto_match resolve now after r h
    ]
