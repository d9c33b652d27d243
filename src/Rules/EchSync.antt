-- ===== src/Rules/EchSync.antt =====
-- proxy/proxy.go, `GetBinaryECHConfig`, `UpdateECHProfileConfig` and `resolveRuleECHConfig`: the configuration of
-- ECH for a rule, from its profile or freshly resolved. Base 64 is the parameters `encode` and `decode`.
pub mod Sync
use sni_shaper_linux.Prelude.{
  Bool, true, false, Option, none, some, List, [], ◌∷◌, if◌then◌else◌, ◌&&◌,
}
use sni_shaper_linux.Text.{Bytes, codes, str_eq, is_empty, trim_space}
use sni_shaper_linux.Rules.Types.{Rule, EchProfile}
use sni_shaper_linux.Rules.Ech.{first_profile}

-- `base64.StdEncoding`
pub record Base64 : Type 0 where
  pub encode : Bytes → Bytes
  pub decode : Bytes → Option Bytes

abbrev pub or_nothing : Option Bytes → Bytes
or_nothing none = []
or_nothing (some data_) = data_

abbrev pub binary_of : Base64 → Option EchProfile → Bytes
binary_of b64 none = []
binary_of b64 (some p) = or_nothing (b64.decode p.config)

-- The bytes of the first profile with the id; no bytes stand for `nil`.
unfoldable pub get_binary_ech_config : Base64 → List EchProfile → Bytes → Bytes
get_binary_ech_config b64 profiles id = binary_of b64 (first_profile profiles id)

-- What an update comes to: nothing to do, no such profile, the profiles to save.
pub data Synced : Type 0 where
  unchanged not_found : Synced
  changed : List EchProfile → Synced

abbrev pub behind : EchProfile → Synced → Synced
behind p unchanged = unchanged
behind p not_found = not_found
behind p (changed ps) = changed (p ∷ ps)

-- By whether a profile has the id, and whether it holds the text; with what those behind it come to.
abbrev pub sync_at : Bool → Bool → EchProfile → List EchProfile → Bytes → Synced → Synced
sync_at true true p ps text later = unchanged
sync_at true false p ps text later = changed (record p { config = text } ∷ ps)
sync_at false same p ps text later = behind p later

unfoldable pub sync_config : List EchProfile → Bytes → Bytes → Synced
sync_config [] id text = not_found
sync_config (p ∷ ps) id text =
    sync_at (str_eq p.id id) (str_eq p.config text) p ps text (sync_config ps id text)

unfoldable pub update_ech_profile_config : Base64 → List EchProfile → Bytes → Bytes → Synced
unfolding sync_config
update_ech_profile_config b64 profiles [] ech = unchanged
update_ech_profile_config b64 profiles (c ∷ id) [] = unchanged
update_ech_profile_config b64 profiles (c ∷ id) (b ∷ bs) =
    sync_config profiles (c ∷ id) (b64.encode (b ∷ bs))

abbrev pub profiles_after : List EchProfile → Synced → List EchProfile
profiles_after old unchanged = old
profiles_after old not_found = old
profiles_after old (changed ps) = ps

-- The domain whose configuration is looked up.
abbrev pub discovery_domain_of : Bytes → Rule → Bytes
discovery_domain_of host rule =
    if is_empty (trim_space rule.ech_discovery_domain)
    then host
    else trim_space rule.ech_discovery_domain

-- The bytes for the connection, and the profiles that are left; `fetch` is `FetchECH`, an error of which is
-- `none`.
abbrev pub fetched : Base64 → List EchProfile → Rule → Option Bytes → Bytes × List EchProfile
fetched b64 profiles rule none = ([], profiles)
fetched b64 profiles rule (some ech) =
    (ech, profiles_after profiles (update_ech_profile_config b64 profiles rule.ech_profile_id ech))

-- By the bytes of the profile that the rule names.
abbrev pub from_profile :
    Base64
    → (Bytes → Option Bytes)
    → List EchProfile
    → Bytes
    → Rule
    → Bytes
    → Bytes × List EchProfile
from_profile b64 fetch profiles host rule (b ∷ bs) = (b ∷ bs, profiles)
from_profile b64 fetch profiles host rule [] =
    if rule.ech_auto_update
    then fetched b64 profiles rule (fetch (discovery_domain_of host rule))
    else ([], profiles)

unfoldable pub resolve_rule_ech_config :
    Base64 → (Bytes → Option Bytes) → List EchProfile → Bytes → Rule → Bytes × List EchProfile
unfolding get_binary_ech_config update_ech_profile_config
resolve_rule_ech_config b64 fetch profiles host rule =
    if rule.ech_enabled
    then from_profile b64 fetch profiles host rule (
        if is_empty rule.ech_profile_id
        then []
        else get_binary_ech_config b64 profiles rule.ech_profile_id)
    else ([], profiles)
