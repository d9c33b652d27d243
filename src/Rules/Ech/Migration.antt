-- ===== src/Rules/Ech/Migration.antt =====
-- What the migration leaves.
use sni_shaper_linux.Prelude.{
  ◌≡◌, refl, sym, subst, ap, ◌∙◌, ◌⊎◌, ◌||◌, inl, inr, Bool, true, false, some, List, [], ◌∷◌,
  arith, All, IsIn, Bool-cases,
}
use sni_shaper_linux.Text.{Bytes, to_lower, str_eq, str_eq_refl, str_eq_iff, is_empty, trim_space}
use sni_shaper_linux.Rules.Types.{SiteGroup, EchProfile}
use sni_shaper_linux.Rules.Ech.{
  first_profile, find_ech_profile_by_id, completed, legacy_id, legacy_domain, legacy_profile,
  ensure_legacy_cloudflare_profile, trimmed, is_legacy, migrate_group, Migrated,
  migrate_legacy_ech_rules, normalize_ech_profile,
}

blank : (s : Bytes) → is_empty s ≡ true → s ≡ []
unfolding is_empty
blank [] h = refl
blank (c ∷ s) h = ground arith

-- The legacy profile is there, and names the domain to ask for its configuration.
abbrev pub HasLegacy : List EchProfile → Type 0
HasLegacy profiles =
    (p : EchProfile) × ((find_ech_profile_by_id profiles legacy_id ≡ some p)
      × (is_empty p.discovery_domain ≡ false))

completed_id : (p : EchProfile) → str_eq p.id legacy_id ≡ true → (completed p).id ≡ legacy_id
unfolding completed normalize_ech_profile trim_space
completed_id p e = ap trim_space ((str_eq_iff p.id legacy_id).0 e)

ensured_id :
    (profiles : List EchProfile) → (ensure_legacy_cloudflare_profile profiles).1 ≡ legacy_id
unfolding ensure_legacy_cloudflare_profile completed normalize_ech_profile
ensured_id [] = refl
ensured_id (p ∷ ps) = elim (Bool-cases (str_eq p.id legacy_id)) [
  | inl e ↦ rw e (completed_id p e)
  | inr e ↦ rw e (ensured_id ps)
]

completed_domain : (p : EchProfile) → is_empty (completed p).discovery_domain ≡ false
unfolding completed normalize_ech_profile is_empty
completed_domain p = ground arith

found : (ps : List EchProfile) → find_ech_profile_by_id ps legacy_id ≡ first_profile ps legacy_id
unfolding find_ech_profile_by_id is_empty trim_space
found ps = refl

ensured_first :
    (profiles : List EchProfile)
    → (p : EchProfile) × ((first_profile (ensure_legacy_cloudflare_profile profiles).0 legacy_id
          ≡ some p)
        × (is_empty p.discovery_domain ≡ false))
unfolding ensure_legacy_cloudflare_profile first_profile is_empty str_eq
ensured_first [] = (legacy_profile, (refl, refl))
ensured_first (p ∷ ps) = elim (Bool-cases (str_eq p.id legacy_id)) [
  | inl e ↦
      let same : (completed p).id ≡ legacy_id = completed_id p e in
      let here : str_eq (completed p).id legacy_id ≡ true =
        ap (λ s. str_eq s legacy_id) same ∙ str_eq_refl legacy_id in
      (completed p, (rw (e, here) refl, completed_domain p))
  | inr e ↦ let (q, (at_q, domain)) = ensured_first ps in (q, (rw (e, e) at_q, domain))
]

ensured : (profiles : List EchProfile) → HasLegacy (ensure_legacy_cloudflare_profile profiles).0
ensured profiles =
    let (p, (at_p, domain)) = ensured_first profiles in
    (p, (found (ensure_legacy_cloudflare_profile profiles).0 ∙ at_p, domain))

-- The group asked for the legacy domain by name, with ECH on and no profile.
abbrev pub AskedForLegacy : SiteGroup → Type 0
AskedForLegacy sg =
    (sg.ech_enabled ≡ true)
    × (trim_space sg.ech_profile_id ≡ [])
    × (to_lower (trim_space sg.ech_domain) ≡ legacy_domain)

-- What becomes of a group: if it asked for the legacy domain, it names the legacy profile instead; else
-- it stays as it is. The two texts are trimmed.
abbrev pub Becomes : SiteGroup → SiteGroup → Type 0
Becomes sg sg' =
    (AskedForLegacy sg × (sg' ≡ record sg { ech_profile_id = legacy_id; ech_domain = [] }))
    ⊎ ((¬ AskedForLegacy sg)
        × (sg' ≡ record sg {
          ech_profile_id = trim_space sg.ech_profile_id;
          ech_domain = trim_space sg.ech_domain;
        }))

abbrev pub AllBecome : List SiteGroup → List SiteGroup → Type 0
AllBecome [] [] = Unit
AllBecome [] (h ∷ hs) = ⊥
AllBecome (g ∷ gs) [] = ⊥
AllBecome (g ∷ gs) (h ∷ hs) = Becomes g h × AllBecome gs hs

-- Some group asked for the legacy domain; or none did.
abbrev pub AnyAsked : Bool → List SiteGroup → Type 0
AnyAsked true sgs = (sg : SiteGroup) × (IsIn sg sgs × AskedForLegacy sg)
AnyAsked false sgs = All (λ sg. ¬ AskedForLegacy sg) sgs

-- If there was one, the legacy profile is there.
abbrev pub ProfilesAfter : Bool → List EchProfile → List EchProfile → Type 0
ProfilesAfter true before after = HasLegacy after
ProfilesAfter false before after = after ≡ before

abbrev pub IsMigrated : List SiteGroup → List EchProfile → Migrated → Type 0
IsMigrated sgs profiles m =
    AllBecome sgs m.site_groups
    × (AnyAsked m.migrated sgs × ProfilesAfter m.migrated profiles m.profiles)

is_legacy→ : (sg : SiteGroup) → is_legacy (trimmed sg) ≡ true → AskedForLegacy sg
unfolding is_legacy
is_legacy→ sg h = (
  ground arith,
  blank (trim_space sg.ech_profile_id) (ground arith),
  (str_eq_iff (to_lower (trim_space sg.ech_domain)) legacy_domain).0 (ground arith),
)

→is_legacy : (sg : SiteGroup) → AskedForLegacy sg → is_legacy (trimmed sg) ≡ true
unfolding is_legacy is_empty
→is_legacy sg (on, no_profile, domain) =
    rw (on, no_profile, (str_eq_iff (to_lower (trim_space sg.ech_domain)) legacy_domain).1 domain)
      refl

migrate_group-Becomes :
    (sg : SiteGroup) (profiles : List EchProfile) (changed : Bool)
    → is_legacy (trimmed sg) ≡ changed
    → Becomes sg (migrate_group (trimmed sg) profiles changed).0
unfolding migrate_group
migrate_group-Becomes sg profiles true e = inl (
  is_legacy→ sg e,
  ap (λ id. record sg { ech_profile_id = id; ech_domain = [] }) (ensured_id profiles),
)
migrate_group-Becomes sg profiles false e =
    inr (λ asked. ground (arith, →is_legacy sg asked, e), refl)

-- With a group in front, whose turn comes first.
with_first :
    (sg : SiteGroup) (sgs : List SiteGroup) (profiles : List EchProfile) (changed rest : Bool)
    (after : List EchProfile)
    → is_legacy (trimmed sg) ≡ changed
    → AnyAsked rest sgs
    → ProfilesAfter rest (migrate_group (trimmed sg) profiles changed).1 after
    → AnyAsked (changed || rest) (sg ∷ sgs) × ProfilesAfter (changed || rest) profiles after
unfolding migrate_group
with_first sg sgs profiles true true after e any kept = ((sg, (inl refl, is_legacy→ sg e)), kept)
with_first sg sgs profiles true false after e any kept =
    ((sg, (inl refl, is_legacy→ sg e)), subst HasLegacy (sym kept) (ensured profiles))
with_first sg sgs profiles false true after e (found, (i, asked)) kept =
    ((found, (inr i, asked)), kept)
with_first sg sgs profiles false false after e none_asked kept =
    ((λ asked. ground (arith, →is_legacy sg asked, e), none_asked), kept)

-- The migration goes through the site groups in their order. One with ECH on and no profile that asks for
-- the legacy domain (whatever its case and the space around it) gets the legacy profile, and asks for no
-- domain; each other one stays as it is, but for the space around its profile and its domain. The
-- result says whether there was such a group: if so, the legacy profile is there, with a domain to ask
-- for its configuration; if not, the profiles are as they were.
pub migrate_legacy_ech_rules-IsMigrated :
    (sgs : List SiteGroup) (profiles : List EchProfile)
    → IsMigrated sgs profiles (migrate_legacy_ech_rules sgs profiles)
unfolding migrate_legacy_ech_rules
migrate_legacy_ech_rules-IsMigrated [] profiles = (tt, (tt, refl))
migrate_legacy_ech_rules-IsMigrated (sg ∷ sgs) profiles =
    let changed = is_legacy (trimmed sg) in
    let profiles' = (migrate_group (trimmed sg) profiles changed).1 in
    let (all, (any, after)) = migrate_legacy_ech_rules-IsMigrated sgs profiles' in
    let m = migrate_legacy_ech_rules sgs profiles' in
    (
      (migrate_group-Becomes sg profiles changed refl, all),
      with_first sg sgs profiles changed m.migrated m.profiles refl any after,
    )
