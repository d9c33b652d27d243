-- ===== src/Rules/Website.antt =====
-- proxy/proxy.go, `cleanWebsiteToken`, `tokenMatchesDomain` and `inferWebsiteFromSiteGroup`: the site that a
-- group of an older configuration is filed under.
use sni_shaper_linux.Prelude.{
  ◌-◌, Bool, ◌&&◌, ◌||◌, not, Option, none, some, List, [], ◌∷◌, leb, if◌then◌else◌, length, get_or,
  any, take,
}
use sni_shaper_linux.Text.{
  Bytes, codes, str_eq, is_empty, has_suffix, trim_prefix, trim_suffix, split,
}
use sni_shaper_linux.Rules.Types.{SiteGroup}
use sni_shaper_linux.Net.Address.{index_byte, normalize_host, trim_brackets}

abbrev pub before_colon : Bytes → Bytes
before_colon token = elim (index_byte token b':') [ none ↦ token | some i ↦ take i token ]

unfoldable pub clean_website_token : Bytes → Bytes
clean_website_token token =
    before_colon
      (trim_brackets (trim_suffix (trim_prefix (normalize_host token) (codes "*.")) (codes "$")))

unfoldable pub token_matches_domain : Bytes → Bytes → Bool
unfolding clean_website_token
token_matches_domain token domain =
    let t = clean_website_token token in
    let d = clean_website_token domain in
    not (is_empty t) && (not (is_empty d) && (str_eq t d || has_suffix t (b'.' ∷ d)))

-- The tokens of a group.
abbrev pub tokens_of : SiteGroup → List Bytes
tokens_of sg = sg.name ∷ sg.upstream ∷ sg.sni_fake ∷ sg.domains

unfoldable pub has_domain : List Bytes → List Bytes → Bool
unfolding token_matches_domain
has_domain tokens domains = any (λ t. any (token_matches_domain t) domains) tokens

-- Texts separated by spaces.
abbrev pub words : Bytes → List Bytes
words s = split s b' '

-- The sites that are known by their domains, in the order of the cases.
abbrev pub known_sites : List (Bytes × List Bytes)
known_sites =
    (
      codes "google",
      words (
          codes
            "google.com youtube.com gstatic.com googlevideo.com gvt1.com ytimg.com youtu.be ggpht.com"),
    )
    ∷ (codes "github", words (codes "github.com githubusercontent.com githubassets.com github.io"))
    ∷ (
      codes "telegram",
      words (
          codes
            "telegram.org web.telegram.org cdn-telegram.org t.me telesco.pe tg.dev telegram.me"),
    )
    ∷ (codes "proton", words (codes "proton.me"))
    ∷ (codes "pixiv", words (codes "pixiv.net fanbox.cc pximg.net pixiv.org"))
    ∷ (codes "nyaa", words (codes "nyaa.si"))
    ∷ (
      codes "wikipedia",
      words (
          codes
            "wikipedia.org wikimedia.org mediawiki.org wikibooks.org wikidata.org wikifunctions.org wikinews.org wikiquote.org wikisource.org wikiversity.org wikivoyage.org wiktionary.org"),
    )
    ∷ (
      codes "ehentai",
      words (codes "e-hentai.org exhentai.org ehgt.org hentaiverse.org ehwiki.org ehtracker.org"),
    )
    ∷ (
      codes "meta",
      words (
          codes
            "facebook.com fbcdn.net instagram.com cdninstagram.com instagr.am ig.me whatsapp.com whatsapp.net"),
    )
    ∷ (codes "x", words (codes "twitter.com x.com t.co twimg.com"))
    ∷ (codes "steam", words (codes "steamcommunity.com steampowered.com"))
    ∷ (codes "mega", words (codes "mega.nz mega.io mega.co.nz"))
    ∷ (codes "dailymotion", words (codes "dailymotion.com"))
    ∷ (codes "duckduckgo", words (codes "duckduckgo.com"))
    ∷ (codes "reddit", words (codes "reddit.com redd.it redditmedia.com redditstatic.com"))
    ∷ (codes "twitch", words (codes "twitch.tv"))
    ∷ (codes "bbc", words (codes "bbc.com bbc.co.uk bbci.co.uk"))
    ∷ []

unfoldable pub known_site : List Bytes → List (Bytes × List Bytes) → Option Bytes
unfolding has_domain
known_site tokens [] = none
known_site tokens ((site, domains) ∷ rest) =
    let later = known_site tokens rest in if has_domain tokens domains then some site else later

-- The label before the last one, or the whole.
abbrev pub main_label : Bytes → Bytes
main_label d =
    let parts = split d b'.' in
    if leb 2 (length parts) then get_or parts (length parts - 2) [] else d

-- The first token that is neither empty nor `off`.
unfoldable pub first_label_of : List Bytes → Option Bytes
unfolding clean_website_token
first_label_of [] = none
first_label_of (t ∷ ts) =
    let later = first_label_of ts in
    let d = clean_website_token t in
    if is_empty d || str_eq d (codes "off") then later else some (main_label d)

abbrev pub or_else_site : Option Bytes → Bytes → Bytes
or_else_site none other = other
or_else_site (some site) other = site

unfoldable pub infer_website_from_site_group : SiteGroup → Bytes
unfolding known_site first_label_of
infer_website_from_site_group sg = or_else_site (known_site (tokens_of sg) known_sites) (
    or_else_site (first_label_of sg.domains)
      (or_else_site (first_label_of (tokens_of sg)) (codes "misc")))
