-- ===== src/Rules/Ech.antt =====
-- proxy/proxy.go: the ECH profiles, and the migration of site groups from before there were profiles.
pub mod Migration
use sni_shaper_linux.Prelude.{
  Bool, true, false, ◌&&◌, ◌||◌, Option, none, some, List, [], ◌∷◌, ◌++◌, if◌then◌else◌,
}
use sni_shaper_linux.Text.{Bytes, codes, str_eq, trim_space, to_lower, is_empty}
use sni_shaper_linux.Rules.Types.{SiteGroup, EchProfile}

-- The first profile with an id.
unfoldable pub first_profile : List EchProfile → Bytes → Option EchProfile
first_profile [] id = none
first_profile (p ∷ ps) id =
    let later = first_profile ps id in if str_eq p.id id then some p else later

unfoldable pub find_ech_profile_by_id : List EchProfile → Bytes → Option EchProfile
unfolding first_profile
find_ech_profile_by_id profiles id =
    let trimmed = trim_space id in if is_empty trimmed then none else first_profile profiles trimmed

unfoldable pub normalize_ech_profile : EchProfile → EchProfile
normalize_ech_profile p = record {
  id = trim_space p.id;
  name = trim_space p.name;
  config = trim_space p.config;
  discovery_domain = trim_space p.discovery_domain;
  doh_upstream = trim_space p.doh_upstream;
  auto_update = p.auto_update;
}

abbrev pub legacy_id : Bytes
legacy_id = codes "legacy-cloudflare"

abbrev pub legacy_domain : Bytes
legacy_domain = codes "crypto.cloudflare.com"

abbrev or_text : Bytes → Bytes → Bytes
or_text s other = if is_empty s then other else s

-- What is done, in place, to the profile that is there.
unfoldable pub completed : EchProfile → EchProfile
unfolding normalize_ech_profile
completed p =
    let n = normalize_ech_profile p in
    record n {
      name = or_text n.name (codes "Legacy Cloudflare");
      discovery_domain = or_text n.discovery_domain legacy_domain;
    }

abbrev pub legacy_profile : EchProfile
legacy_profile = record {
  id = legacy_id;
  name = codes "Legacy Cloudflare";
  config = [];
  discovery_domain = legacy_domain;
  doh_upstream = [];
  auto_update = true;
}

-- The profiles with the first legacy one completed, or with a new one at the end; and its id.
unfoldable pub ensure_legacy_cloudflare_profile : List EchProfile → List EchProfile × Bytes
unfolding completed
ensure_legacy_cloudflare_profile [] = (legacy_profile ∷ [], legacy_id)
ensure_legacy_cloudflare_profile (p ∷ ps) =
    let later = ensure_legacy_cloudflare_profile ps in
    if str_eq p.id legacy_id then (completed p ∷ ps, (completed p).id) else (p ∷ later.0, later.1)

-- A site group with its texts trimmed.
abbrev pub trimmed : SiteGroup → SiteGroup
trimmed sg = record sg {
  ech_profile_id = trim_space sg.ech_profile_id;
  ech_domain = trim_space sg.ech_domain;
}

-- A trimmed site group that is still to be given a profile.
unfoldable pub is_legacy : SiteGroup → Bool
is_legacy sg =
    sg.ech_enabled && (is_empty sg.ech_profile_id && str_eq (to_lower sg.ech_domain) legacy_domain)

pub record Migrated : Type 0 where
  pub site_groups : List SiteGroup
  pub profiles : List EchProfile
  pub migrated : Bool

-- A site group in front of those that are migrated after it.
abbrev pub with_group : SiteGroup → Bool → Migrated → Migrated
with_group sg changed m = record m {
  site_groups = sg ∷ m.site_groups;
  migrated = changed || m.migrated;
}

-- What becomes of a trimmed site group and of the profiles.
unfoldable pub migrate_group : SiteGroup → List EchProfile → Bool → SiteGroup × List EchProfile
unfolding ensure_legacy_cloudflare_profile
migrate_group sg profiles false = (sg, profiles)
migrate_group sg profiles true =
    let (profiles', id) = ensure_legacy_cloudflare_profile profiles in
    (record sg { ech_profile_id = id; ech_domain = [] }, profiles')

unfoldable pub migrate_legacy_ech_rules : List SiteGroup → List EchProfile → Migrated
unfolding is_legacy migrate_group
migrate_legacy_ech_rules [] profiles = record {
  site_groups = [];
  profiles = profiles;
  migrated = false;
}
migrate_legacy_ech_rules (sg ∷ sgs) profiles =
    let changed = is_legacy (trimmed sg) in
    let (sg', profiles') = migrate_group (trimmed sg) profiles changed in
    with_group sg' changed (migrate_legacy_ech_rules sgs profiles')
