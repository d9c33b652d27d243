-- ===== src/Rules/Samples.antt =====
-- Rules and hosts, and runs on them.
use sni_shaper_linux.Prelude.{All, ◌≡◌, refl, ◌↔◌, ◌⊎◌, true, false, Option, some, List, [], ◌∷◌}
use sni_shaper_linux.Text.{
  Bytes, codes, str_eq, is_empty, to_lower, trim_space, has_prefix, has_suffix, trim_prefix,
  trim_suffix,
}
use sni_shaper_linux.Rules.Types.{Rule, empty_rule}
use sni_shaper_linux.Rules.Domain.{
  Regex, clean, bare_domain, host_matches_domain, domain_match_score, is_some,
}
use sni_shaper_linux.Rules.Domain.Agreement.{
  IsBelow, is_some-domain_match_score, host_matches_domain_iff,
}
use sni_shaper_linux.Rules.Match.{Routes, match_rule}
use sni_shaper_linux.Rules.Match.Transparent.{IsRoutedByMitm, match_rule-mitm_iff}
use sni_shaper_linux.Rules.Match.Routing.{Unfit, ByRule, ByDefault, match_rule_lem}
use sni_shaper_linux.Auto.GfwList.{GfwList}
use sni_shaper_linux.Auto.Router.{Ip, v4, AutoRouter, cloudflare_cidrs}
use sni_shaper_linux.Net.Address.{normalize_host}

-- An engine that knows one pattern, and takes it to match every text.
abbrev any_regex : Regex
any_regex pattern = some (λ text. true)

abbrev host : Bytes
host = codes "www.example.com"

abbrev long_regex : Bytes
long_regex =
    codes
      "~^(aaaaaaaaaabbbbbbbbbbccccccccccddddddddddeeeeeeeeeeffffffffffgggggggggghhhhhhhhhhiiiiiiiiiijjjjjjjjjjkkkkkkkkkk|www\\.example\\.com)$"

abbrev wild : Bytes
wild = codes "*.Example.com "

wild_is_plain : has_prefix (clean wild) (codes "~") ≡ false
unfolding trim_space to_lower has_prefix
wild_is_plain = refl

is_some-domain_match_score_example :
    is_some (domain_match_score any_regex host wild) ≡ host_matches_domain host wild
is_some-domain_match_score_example = is_some-domain_match_score any_regex host wild wild_is_plain

host_filled : is_empty (clean host) ≡ false
unfolding trim_space to_lower is_empty
host_filled = refl

wild_filled : is_empty (clean wild) ≡ false
unfolding trim_space to_lower is_empty
wild_filled = refl

wild_no_star : has_suffix (bare_domain (clean wild)) (codes ".*") ≡ false
unfolding trim_space to_lower has_suffix trim_prefix trim_suffix
wild_no_star = refl

host_matches_domain_iff_example :
    (host_matches_domain host wild ≡ true) ↔ IsBelow (clean host) (bare_domain (clean wild))
host_matches_domain_iff_example =
    host_matches_domain_iff host wild host_filled wild_filled wild_no_star

matched_below : host_matches_domain host wild ≡ true
unfolding host_matches_domain trim_space to_lower trim_prefix trim_suffix is_empty str_eq
matched_below = refl

abbrev star : Bytes
star = codes "example.*"

star_filled : is_empty (clean star) ≡ false
unfolding trim_space to_lower is_empty
star_filled = refl

star_base : bare_domain (clean star) ≡ codes "example.*"
unfolding trim_space to_lower trim_prefix trim_suffix
star_base = refl

base_filled : is_empty (codes "example") ≡ false
unfolding is_empty
base_filled = refl

wild_score : domain_match_score any_regex host wild ≡ some 11
unfolding domain_match_score trim_space to_lower trim_prefix trim_suffix is_empty str_eq
wild_score = refl

regex_mark : has_prefix (clean long_regex) (codes "~") ≡ true
unfolding trim_space to_lower has_prefix
regex_mark = refl

regex_scored : domain_match_score any_regex host long_regex ≡ some 1032
unfolding domain_match_score trim_space to_lower trim_prefix is_empty
regex_scored = refl

abbrev mitm_rule : Rule
mitm_rule = record empty_rule { domain = codes "example.com"; mode = codes "mitm"; enabled = true }

abbrev listed : GfwList
listed = record { domains = codes "example.com" ∷ []; count = 1; last_load = 0 }

abbrev router : AutoRouter
router = record {
  config = record { mode = codes "default"; gfw_list_url = []; last_update = [] };
  gfw_list = listed;
  cf_nets = cloudflare_cidrs;
  cf_cache = [];
}

-- Every host resolves to an address of Cloudflare.
abbrev cloudflare_everywhere : Bytes → Option (List Ip)
cloudflare_everywhere name = some (v4 1745879041 ∷ [])

abbrev routes : List Rule → Routes
routes rules = record {
  rules = rules;
  auto_router = some router;
  auto_routing_config = router.config;
}

match_rule_lem_example :
    ByRule any_regex cloudflare_everywhere 0 1 (routes (mitm_rule ∷ [])) host (codes "transparent")
    ⊎ ByDefault any_regex cloudflare_everywhere 0 1
        (routes (mitm_rule ∷ []))
        host
        (codes "transparent")
match_rule_lem_example =
    match_rule_lem any_regex cloudflare_everywhere 0 1 (routes (mitm_rule ∷ [])) host
      (codes "transparent")

is_transparent : str_eq (clean (codes "Transparent")) (codes "transparent") ≡ true
unfolding trim_space to_lower str_eq
is_transparent = refl

match_rule-mitm_iff_example :
    ((match_rule any_regex cloudflare_everywhere 0 1
        (routes [])
        host
        (codes "Transparent")).rule.mode
      ≡ codes "mitm")
    ↔ (All (Unfit any_regex (normalize_host host) (λ m. ⊥)) []
        × ((ar : AutoRouter) × IsRoutedByMitm cloudflare_everywhere 0 1
              (routes [])
              (normalize_host host)
              ar))
match_rule-mitm_iff_example =
    match_rule-mitm_iff any_regex cloudflare_everywhere 0 1 (routes []) host (codes "Transparent")
      is_transparent
