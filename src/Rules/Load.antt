-- ===== src/Rules/Load.antt =====
-- proxy/proxy.go, `LoadConfig` behind the settings: the rules are read, brought to their normal form, migrated
-- from older versions, and written again if that changed them.
use sni_shaper_linux.Prelude.{Bool, true, false, ◌||◌, Option, none, some, List, [], ◌∷◌, map}
use sni_shaper_linux.Text.{Bytes, trim_space}
use sni_shaper_linux.Rules.Types.{SiteGroup}
use sni_shaper_linux.Rules.Build.{RulesConfig, build_rules}
use sni_shaper_linux.Rules.Ech.{normalize_ech_profile, migrate_legacy_ech_rules}
use sni_shaper_linux.Rules.Website.{infer_website_from_site_group}
use sni_shaper_linux.Net.Candidates.{normalize_dns_mode}
use sni_shaper_linux.Settings.{
  FileRead, missing, failed, holds, Settings, Coding, Saved, load_settings_config,
  apply_settings_defaults,
}

-- The rules that are left, whether they are written, and the error if any. An error of the last write is
-- only logged.
pub record Loaded : Type 0 where
  pub rules : RulesConfig
  pub written : Bool
  pub error : Option Bytes

-- `saveDefaultRulesConfig`
unfoldable pub default_rules : RulesConfig → RulesConfig
default_rules rm =
    build_rules (record rm { site_groups = []; upstreams = []; dns_nodes = []; ech_profiles = [] })

-- A group without a site gets one, and that is a migration.
abbrev pub with_site : Bytes → SiteGroup → SiteGroup × Bool
with_site [] sg =
    (record sg { website = infer_website_from_site_group (record sg { website = [] }) }, true)
with_site (c ∷ cs) sg = (record sg { website = c ∷ cs }, false)

unfoldable pub add_sites : List SiteGroup → List SiteGroup × Bool
add_sites [] = ([], false)
add_sites (sg ∷ sgs) =
    let (sg', here) = with_site (trim_space sg.website) sg in
    let (sgs', there) = add_sites sgs in (sg' ∷ sgs', here || there)

abbrev pub normal_group : SiteGroup → SiteGroup
normal_group sg = record sg { dns_mode = normalize_dns_mode sg.dns_mode }

-- What follows the reading of the rules.
unfoldable pub migrate_rules : RulesConfig → RulesConfig × Bool
unfolding add_sites
migrate_rules rm =
    let (groups, sited) = add_sites (map normal_group rm.site_groups) in
    let m = migrate_legacy_ech_rules groups (map normalize_ech_profile rm.ech_profiles) in
    (
      build_rules (record rm { site_groups = m.site_groups; ech_profiles = m.profiles }),
      sited || m.migrated,
    )

abbrev pub finish_load : RulesConfig → Bool → Loaded
finish_load rm written =
    let (rm', migrated) = migrate_rules rm in
    record { rules = rm'; written = written || migrated; error = none }

-- A missing file is written with the default rules, and that may fail: `write_error`.
unfoldable pub load_rules : FileRead RulesConfig → Option Bytes → RulesConfig → Loaded
unfolding default_rules migrate_rules
load_rules missing (some e) rm = record {
  rules = default_rules rm;
  written = false;
  error = some e;
}
load_rules missing none rm = finish_load (default_rules rm) true
load_rules (failed e) write_error rm = record { rules = rm; written = false; error = some e }
load_rules (holds c) write_error rm = finish_load (record c { rules = rm.rules }) false

-- `LoadConfig`: the rules are not read behind an error of the settings.
unfoldable pub load_config :
    Bool
    → Coding
    → (Bytes → Option Bytes)
    → FileRead Bytes
    → FileRead RulesConfig
    → Option Bytes
    → Settings
    → RulesConfig
    → Saved × Option Loaded
unfolding load_rules
load_config windows json write settings_file rules_file write_error s rm =
    let loaded = load_settings_config windows json write settings_file s in
    elim loaded.error [
      | some e ↦ (loaded, none)
      | none ↦
          let l = load_rules rules_file write_error rm in
          elim l.error [
            | some e ↦ (loaded, some l)
            | none ↦ (
              record loaded { settings = apply_settings_defaults windows loaded.settings },
              some l,
            )
          ]
    ]
