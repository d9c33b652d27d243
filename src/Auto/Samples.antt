-- ===== src/Auto/Samples.antt =====
-- A list of blocked domains, a router, and runs on them.
use sni_shaper_linux.Prelude.{
  ◌≡◌, ◌≢◌, refl, ◌↔◌, true, false, Option, none, some, List, [], ◌∷◌, arith, length,
}
use sni_shaper_linux.Text.{
  has_prefix, join, split, str_eq, Bytes, codes, is_empty, mem_str, trim_space, to_lower,
}
use sni_shaper_linux.Rules.Domain.{clean}
use sni_shaper_linux.Auto.GfwList.{GfwList, new_gfw_list, load_from_reader, is_blocked}
use sni_shaper_linux.Auto.GfwList.Blocked.{IsListed, is_blocked_iff}
use sni_shaper_linux.Auto.GfwList.Load.{named, load_from_reader_lem}
use sni_shaper_linux.Auto.Router.{
  Ip, v4, v6, AutoRouter, cloudflare_cidrs, cached, is_cloudflare, decide,
}
use sni_shaper_linux.Auto.Router.Decide.{is_cloudflare_again, decide_iff}

abbrev lines : List Bytes
lines = codes "# comment" ∷ codes " Example.com " ∷ [] ∷ codes "t.co" ∷ codes "t.co" ∷ []

abbrev loaded : GfwList
loaded = (load_from_reader lines false 7 new_gfw_list).0

loaded_domains : loaded.domains ≡ codes "t.co" ∷ codes "t.co" ∷ codes "example.com" ∷ []
unfolding load_from_reader is_empty trim_space has_prefix to_lower
loaded_domains = refl

blocked_below : is_blocked loaded (codes "WWW.example.com") ≡ true
unfolding load_from_reader is_blocked is_empty to_lower trim_space has_prefix mem_str str_eq split
    join
blocked_below = refl

not_blocked_beside : is_blocked loaded (codes "myexample.com") ≡ false
unfolding load_from_reader is_blocked is_empty to_lower trim_space has_prefix mem_str str_eq split
    join
not_blocked_beside = refl

load_from_reader_lem_example :
    (load_from_reader lines true 7 loaded ≡ (loaded, none))
    × ((load_from_reader lines false 7 loaded).1 ≡ some (length (named lines)))
    × ((load_from_reader lines false 7 loaded).0.count ≡ length (named lines))
    × ((d : Bytes)
        → mem_str d (load_from_reader lines false 7 loaded).0.domains ≡ mem_str d (named lines))
load_from_reader_lem_example = load_from_reader_lem lines 7 loaded

is_blocked_iff_example :
    (is_blocked loaded (codes "www.t.co") ≡ true)
    ↔ ((is_empty (clean (codes "www.t.co")) ≡ false) × IsListed loaded (clean (codes "www.t.co")))
is_blocked_iff_example = is_blocked_iff loaded (codes "www.t.co")

abbrev router : AutoRouter
router = record {
  config = record { mode = codes "server"; gfw_list_url = []; last_update = [] };
  gfw_list = loaded;
  cf_nets = cloudflare_cidrs;
  cf_cache = [];
}

-- 104.16.0.1 is in a network of Cloudflare, 8.8.8.8 is not.
abbrev at_cloudflare : Bytes → Option (List Ip)
at_cloudflare host = some (v4 134744072 ∷ v4 1745879041 ∷ [])

abbrev elsewhere : Bytes → Option (List Ip)
elsewhere host = some (v6 1 ∷ v4 134744072 ∷ [])

yes_cloudflare : (is_cloudflare at_cloudflare 5 6 router (codes "t.co")).1 ≡ true
unfolding is_cloudflare is_empty to_lower trim_space
yes_cloudflare = refl

not_cloudflare : (is_cloudflare elsewhere 5 6 router (codes "t.co")).1 ≡ false
unfolding is_cloudflare is_empty to_lower trim_space
not_cloudflare = refl

host_filled : is_empty (clean (codes "t.co")) ≡ false
unfolding trim_space is_empty to_lower
host_filled = refl

nothing_cached : cached router (clean (codes "t.co")) 5 ≡ none
unfolding cached
nothing_cached = refl

is_cloudflare_again_example :
    is_cloudflare elsewhere 100 101
      (is_cloudflare at_cloudflare 5 6 router (codes "t.co")).0
      (codes "t.co")
    ≡ is_cloudflare at_cloudflare 5 6 router (codes "t.co")
is_cloudflare_again_example =
    is_cloudflare_again at_cloudflare elsewhere 5 6 100 101 router (codes "t.co") host_filled
      nothing_cached (omega arith)

decide_iff_example : ((decide elsewhere 5 6 router (codes "t.co")).1.mode ≢ codes "direct") ↔ (
    (is_empty router.config.mode ≡ false)
    × ((is_empty (clean (codes "t.co")) ≡ false) × IsListed router.gfw_list (clean (codes "t.co"))))
decide_iff_example = decide_iff elsewhere 5 6 router (codes "t.co")

with_fallback : (decide elsewhere 5 6 router (codes "t.co")).1.fallback_mode ≡ codes "server"
unfolding decide is_empty is_blocked to_lower trim_space load_from_reader has_prefix mem_str str_eq
    is_cloudflare
with_fallback = refl
