-- ===== src/Rules/Import.antt =====
-- proxy/config.go: a configuration that is imported, from its rules on. The JSON text is decoded by
-- package json; the payloads that it holds, each with its type and its rules, are the input here.
pub mod Merge
use sni_shaper_linux.Prelude.{
  ℕ, zero, suc, ◌+◌, Bool, true, false, not, ◌&&◌, ◌||◌, Option, none, some, List, [], ◌∷◌, ◌++◌,
  map, if◌then◌else◌, length, get_elem?, set, ◌==◌, ltb, ◌⊎◌, inl, inr,
}
use sni_shaper_linux.Text.{Bytes, codes, str_eq, mem_str, trim_space, to_lower, is_empty, join}
use sni_shaper_linux.Rules.Types.{SiteGroup}
use sni_shaper_linux.Rules.Domain.{clean}
use sni_shaper_linux.Rules.Build.{RulesConfig, build_rules}
use sni_shaper_linux.Rules.Manage.{Save}
use sni_shaper_linux.Net.Candidates.{first_seen, normalize_dns_mode}

-- `s <= t` of two texts, byte by byte.
unfoldable pub str_le : Bytes → Bytes → Bool
str_le [] t = true
str_le (c ∷ s) [] = false
str_le (c ∷ s) (d ∷ t) = ltb c d || (c == d && str_le s t)

unfoldable pub insert_str : Bytes → List Bytes → List Bytes
unfolding str_le
insert_str s [] = s ∷ []
insert_str s (t ∷ ts) = let rest = insert_str s ts in if str_le s t then s ∷ t ∷ ts else t ∷ rest

-- `sort.Strings`
unfoldable pub sort_strings : List Bytes → List Bytes
unfolding insert_str
sort_strings [] = []
sort_strings (s ∷ ss) = insert_str s (sort_strings ss)

unfoldable pub normalize_domains_for_key : List Bytes → Bytes
unfolding first_seen sort_strings
normalize_domains_for_key domains = join (sort_strings (first_seen (map clean domains) [])) b','

unfoldable pub import_merge_key : SiteGroup → Bytes
unfolding normalize_domains_for_key
import_merge_key sg = clean sg.mode ++ b'|' ∷ normalize_domains_for_key sg.domains

-- A payload that is decoded: its type, and its rules as site groups without an id.
pub record ConfigFile : Type 0 where
  pub type_name : Bytes
  pub rules : List SiteGroup

abbrev pub is_import_mode : Bytes → Bool
is_import_mode mode =
    str_eq mode (codes "mitm")
    || (str_eq mode (codes "transparent")
        || (str_eq mode (codes "server")
            || (str_eq mode (codes "tls-rf")
                || (str_eq mode (codes "quic") || str_eq mode (codes "warp")))))

abbrev or_text : Bytes → Bytes → Bytes
or_text s other = if is_empty s then other else s

-- The site group of an imported rule whose first domain is `domain`; it is enabled in any case.
unfoldable pub imported_group : Bytes → Bytes → Bytes → SiteGroup → SiteGroup
imported_group new_id rule_mode domain rule = record rule {
  id = new_id;
  name = or_text (trim_space rule.name) domain;
  website = trim_space rule.website;
  mode = rule_mode;
  upstream = trim_space rule.upstream;
  dns_mode = normalize_dns_mode rule.dns_mode;
  sni_fake = trim_space rule.sni_fake;
  connect_policy = clean rule.connect_policy;
  sni_policy = clean rule.sni_policy;
  enabled = true;
}

-- A rule with no domain or with a mode that is not known is skipped: `none`.
unfoldable pub import_rule : Bytes → Bytes → SiteGroup → Option SiteGroup
unfolding imported_group
import_rule new_id mode rule = elim rule.domains [
  | [] ↦ none
  | d ∷ ds ↦
      let rule_mode = or_text (clean rule.mode) mode in
      if is_import_mode rule_mode then some (imported_group new_id rule_mode d rule) else none
]

-- The site groups of some rules, and how many rules are skipped; `new_id` gives each its id.
unfoldable pub import_rules : (ℕ → Bytes) → Bytes → List SiteGroup → ℕ → List SiteGroup × ℕ
unfolding import_rule
import_rules new_id mode [] n = ([], 0)
import_rules new_id mode (rule ∷ rules) n =
    let (sgs, skipped) = import_rules new_id mode rules (suc n) in
    elim (import_rule (new_id n) mode rule) [
      | some sg ↦ (sg ∷ sgs, skipped)
      | none ↦ (sgs, suc skipped)
    ]

-- `parseConfigPayload`, behind the decoding; an error is `none`.
unfoldable pub parse_config_payload : (ℕ → Bytes) → ConfigFile → Bytes → Option (List SiteGroup × ℕ)
unfolding import_rules
parse_config_payload new_id cfg forced_type =
    let mode = or_text (clean cfg.type_name) (clean forced_type) in
    if str_eq mode (codes "mitm") || str_eq mode (codes "transparent")
    then some (import_rules new_id mode cfg.rules 0)
    else none

-- `index[key]`: where the last group with the key stands.
unfoldable pub index_of_key : Bytes → List SiteGroup → Option ℕ
index_of_key key [] = none
index_of_key key (sg ∷ sgs) = elim (index_of_key key sgs) [
  | some i ↦ some (suc i)
  | none ↦ if str_eq (import_merge_key sg) key then some 0 else none
]

pub record MergeState : Type 0 where
  pub merged : List SiteGroup
  pub added : ℕ
  pub overwritten : ℕ
  pub skipped : ℕ

-- A group takes the place and the id of the group with its key, if there is one.
unfoldable pub overwrite : SiteGroup → MergeState → ℕ → Option SiteGroup → MergeState
overwrite sg m i none = m
overwrite sg m i (some old) = record m {
  merged = set m.merged i (record sg { id = old.id });
  overwritten = suc m.overwritten;
}

unfoldable pub merge_at : SiteGroup → MergeState → Option ℕ → MergeState
unfolding overwrite
merge_at sg m none = record m { merged = m.merged ++ sg ∷ []; added = suc m.added }
merge_at sg m (some i) = overwrite sg m i (get_elem? m.merged i)

unfoldable pub merge_group : SiteGroup → MergeState → MergeState
unfolding import_merge_key merge_at index_of_key
merge_group sg m =
    let key = import_merge_key sg in
    if str_eq key (codes "|")
    then record m { skipped = suc m.skipped }
    else merge_at sg m (index_of_key key m.merged)

unfoldable pub merge_groups : List SiteGroup → MergeState → MergeState
unfolding merge_group
merge_groups [] m = m
merge_groups (sg ∷ sgs) m = merge_groups sgs (merge_group sg m)

-- The payloads that are there, each with the type that it stands under; one that does not decode or
-- has no type is passed over. What is imported, and how many rules there were and were skipped.
unfoldable pub import_payloads :
    (Bytes → ℕ → Bytes) → List (Bytes × Option ConfigFile) → List SiteGroup × (ℕ × ℕ)
unfolding parse_config_payload
import_payloads new_id [] = ([], (0, 0))
import_payloads new_id ((key, none) ∷ payloads) = import_payloads new_id payloads
import_payloads new_id ((key, some cfg) ∷ payloads) =
    let rest = import_payloads new_id payloads in
    elim (parse_config_payload (new_id key) cfg key) [
      | none ↦ rest
      | some (sgs, skipped) ↦ (sgs ++ rest.0, (length sgs + skipped + rest.1.0, skipped + rest.1.1))
    ]

pub record ImportSummary : Type 0 where
  pub total : ℕ
  pub added : ℕ
  pub overwritten : ℕ
  pub skipped : ℕ

-- What is imported, how many rules there were, and how many of them were skipped; from there on.
unfoldable pub import_groups :
    Save → List SiteGroup → ℕ → ℕ → RulesConfig → RulesConfig × (Bytes ⊎ ImportSummary)
unfolding merge_groups
import_groups save [] total skipped rm = (rm, inl (codes "no valid rules found"))
import_groups save (sg ∷ sgs) total skipped rm =
    let imported = sg ∷ sgs in
    let m =
      merge_groups imported
        (record { merged = rm.site_groups; added = 0; overwritten = 0; skipped = skipped }) in
    let rm' = build_rules (record rm { site_groups = m.merged }) in
    elim (save rm') [
      | some e ↦ (rm', inl e)
      | none ↦ (
        rm',
        inr (record {
          total = if total == 0 then length imported + m.skipped else total;
          added = m.added;
          overwritten = m.overwritten;
          skipped = m.skipped;
        }),
      )
    ]

-- The payloads, or else the whole text as one payload, whose type it must name itself.
unfoldable pub import_config_with_summary :
    Save
    → (Bytes → ℕ → Bytes)
    → List (Bytes × Option ConfigFile)
    → Option ConfigFile
    → RulesConfig
    → RulesConfig × (Bytes ⊎ ImportSummary)
unfolding import_payloads import_groups
import_config_with_summary save new_id payloads whole rm =
    let (imported, (total, skipped)) = import_payloads new_id payloads in
    elim imported [
      | sg ∷ sgs ↦ import_groups save (sg ∷ sgs) total skipped rm
      | [] ↦
          let (sgs, (more, more_skipped)) = import_payloads new_id (([], whole) ∷ []) in
          import_groups save sgs (total + more) (skipped + more_skipped) rm
    ]
