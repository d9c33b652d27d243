-- ===== src/Rules/Build/Origin.antt =====
-- Where the rules come from.
use sni_shaper_linux.Prelude.{
  ◌≡◌, refl, sym, ap, ◌∙◌, subst, ◌↔◌, inl, inr, true, false, List, [], ◌∷◌, ◌++◌, map, IsIn,
  IsIn-append, append-IsIn-left, append-IsIn-right, IsIn-map, map-IsIn, Bool-cases,
}
use sni_shaper_linux.Text.{Bytes, trim_space}
use sni_shaper_linux.Net.Candidates.{normalize_dns_mode}
use sni_shaper_linux.Rules.Types.{Rule, SiteGroup, Upstream, EchProfile}
use sni_shaper_linux.Rules.Build.{
  RulesConfig, resolve_upstream, rule_of, ech_profile_of, group_rules, built_rules, build_rules,
}
use sni_shaper_linux.Rules.Build.Lookups.{
  IsAddress, AreAddresses, IsProfile, resolve_upstream-IsAddress, IsAddress→, map-AreAddresses,
  AreAddresses→, ech_profile_of-IsProfile, IsProfile→,
}

-- What a rule has of its site group, of a domain, of addresses and of a profile.
abbrev pub made_of : SiteGroup → Bytes → Bytes → List Bytes → EchProfile → Rule
made_of sg domain address addresses profile = record {
  domain = domain;
  upstream = address;
  upstreams = addresses;
  dns_mode = normalize_dns_mode sg.dns_mode;
  mode = sg.mode;
  sni_fake = sg.sni_fake;
  connect_policy = trim_space sg.connect_policy;
  sni_policy = trim_space sg.sni_policy;
  enabled = true;
  site_id = sg.id;
  ech_enabled = sg.ech_enabled;
  ech_profile_id = sg.ech_profile_id;
  use_cf_pool = sg.use_cf_pool;
  ech_discovery_domain = profile.discovery_domain;
  ech_doh_upstream = profile.doh_upstream;
  ech_auto_update = profile.auto_update;
  cert_verify = sg.cert_verify;
  auto_routed = false;
  fallback_mode = [];
}

-- The rule of an enabled site group for one of its domains.
abbrev pub IsRuleOf : List Upstream → List EchProfile → List SiteGroup → Rule → Type 0
IsRuleOf ups profiles sgs r =
    (sg : SiteGroup) × (IsIn sg sgs
      × ((sg.enabled ≡ true)
          × ((domain : Bytes) × (IsIn domain sg.domains
                × ((address : Bytes) × (IsAddress ups sg.upstream address
                      × ((addresses : List Bytes) × (AreAddresses ups sg.upstreams addresses
                            × ((profile : EchProfile) × (IsProfile profiles sg.ech_profile_id
                                    profile
                                  × (r ≡ made_of sg domain address addresses profile)))))))))))

-- The same as `IsRuleOf`, by the look-ups.
abbrev IsBuiltOf : List Upstream → List EchProfile → List SiteGroup → Rule → Type 0
IsBuiltOf ups profiles sgs r =
    (sg : SiteGroup) × (IsIn sg sgs
      × ((sg.enabled ≡ true)
          × ((domain : Bytes) × (IsIn domain sg.domains
                × (r ≡ rule_of ups (ech_profile_of profiles sg) sg domain)))))

IsBuiltOf→ :
    (ups : List Upstream) (profiles : List EchProfile) (sgs : List SiteGroup) (r : Rule)
    → IsBuiltOf ups profiles sgs r
    → IsRuleOf ups profiles sgs r
unfolding rule_of
IsBuiltOf→ ups profiles sgs r (sg, (i, (on, (d, (j, e))))) = (
  sg,
  (
    i,
    (
      on,
      (
        d,
        (
          j,
          (
            resolve_upstream ups sg.upstream,
            (
              resolve_upstream-IsAddress ups sg.upstream,
              (
                map (resolve_upstream ups) sg.upstreams,
                (
                  map-AreAddresses ups sg.upstreams,
                  (ech_profile_of profiles sg, (ech_profile_of-IsProfile profiles sg, e)),
                ),
              ),
            ),
          ),
        ),
      ),
    ),
  ),
)

→IsBuiltOf :
    (ups : List Upstream) (profiles : List EchProfile) (sgs : List SiteGroup) (r : Rule)
    → IsRuleOf ups profiles sgs r
    → IsBuiltOf ups profiles sgs r
unfolding rule_of
→IsBuiltOf ups profiles sgs r
      (sg, (i, (on, (d, (j, (a, (is_a, (as', (are_as, (p, (is_p, e))))))))))) =
    (
      sg,
      (
        i,
        (
          on,
          (
            d,
            (
              j,
              e
                  ∙ ap (λ x. made_of sg d x as' p) (IsAddress→ ups sg.upstream a is_a)
                  ∙ ap (λ x. made_of sg d (resolve_upstream ups sg.upstream) x p)
                      (AreAddresses→ ups sg.upstreams as' are_as)
                  ∙ ap
                      (λ x.
                        made_of sg d (resolve_upstream ups sg.upstream)
                          (map (resolve_upstream ups) sg.upstreams) x)
                      (IsProfile→ profiles sg p is_p),
            ),
          ),
        ),
      ),
    )

built-on :
    (ups : List Upstream) (profiles : List EchProfile) (sg : SiteGroup) (sgs : List SiteGroup)
    → sg.enabled ≡ true
    → built_rules ups profiles (sg ∷ sgs)
      ≡ group_rules ups profiles sg ++ built_rules ups profiles sgs
unfolding built_rules
built-on ups profiles sg sgs e = rw e refl

built-off :
    (ups : List Upstream) (profiles : List EchProfile) (sg : SiteGroup) (sgs : List SiteGroup)
    → sg.enabled ≡ false
    → built_rules ups profiles (sg ∷ sgs) ≡ built_rules ups profiles sgs
unfolding built_rules
built-off ups profiles sg sgs e = rw e refl

built→ :
    (ups : List Upstream) (profiles : List EchProfile) (sgs : List SiteGroup) (r : Rule)
    → IsIn r (built_rules ups profiles sgs)
    → IsBuiltOf ups profiles sgs r
unfolding built_rules group_rules
built→ ups profiles [] r h = absurd h
built→ ups profiles (sg ∷ sgs) r h =
    let rest = built_rules ups profiles sgs in
    let behind : IsIn r rest → IsBuiltOf ups profiles (sg ∷ sgs) r =
      λ i. (let (sg', (j, more)) = built→ ups profiles sgs r i in (sg', (inr j, more))) in
    elim (Bool-cases sg.enabled) [
      | inl on ↦
          elim (IsIn-append r (group_rules ups profiles sg) rest
            (subst (λ l. IsIn r l) (built-on ups profiles sg sgs on) h)) [
              | inl here ↦
                  let (d, (i, e)) =
                    IsIn-map (rule_of ups (ech_profile_of profiles sg) sg) r sg.domains here in
                  (sg, (inl refl, (on, (d, (i, e)))))
              | inr there ↦ behind there
            ]
      | inr off ↦ behind (subst (λ l. IsIn r l) (built-off ups profiles sg sgs off) h)
    ]

-- What is built of the site groups behind is built of all.
behind :
    (ups : List Upstream) (profiles : List EchProfile) (sg : SiteGroup) (sgs : List SiteGroup)
    (r : Rule)
    → IsIn r (built_rules ups profiles sgs)
    → IsIn r (built_rules ups profiles (sg ∷ sgs))
behind ups profiles sg sgs r h = elim (Bool-cases sg.enabled) [
  | inl on ↦
      rw (built-on ups profiles sg sgs on) (append-IsIn-right r (group_rules ups profiles sg) _ h)
  | inr off ↦ rw (built-off ups profiles sg sgs off) h
]

→built :
    (ups : List Upstream) (profiles : List EchProfile) (sgs : List SiteGroup) (r : Rule)
    → IsBuiltOf ups profiles sgs r
    → IsIn r (built_rules ups profiles sgs)
unfolding group_rules
→built ups profiles [] r (sg, (i, more)) = absurd i
→built ups profiles (x ∷ sgs) r (sg, (inl same, (on, (d, (i, e))))) =
    let on' : x.enabled ≡ true = ap (λ g. g.enabled) (sym same) ∙ on in
    let e' : r ≡ rule_of ups (ech_profile_of profiles x) x d =
      e ∙ ap (λ g. rule_of ups (ech_profile_of profiles g) g d) same in
    let i' : IsIn d x.domains = subst (λ g. IsIn d g.domains) same i in
    rw (built-on ups profiles x sgs on') (
      append-IsIn-left r (group_rules ups profiles x) (built_rules ups profiles sgs)
        (map-IsIn (rule_of ups (ech_profile_of profiles x) x) r d x.domains i' e'))
→built ups profiles (x ∷ sgs) r (sg, (inr there, more)) =
    behind ups profiles x sgs r (→built ups profiles sgs r (sg, (there, more)))

-- The rules that `build_rules` leaves are those of the enabled site groups for their domains, and no
-- others: each has the settings of its site group, with the space around the policies taken off and the
-- DNS mode made normal; in place of an upstream that the group names by its id the address of the last
-- enabled upstream with this id that has an address, or the text itself if there is none; and what is
-- needed of the last profile with the id that the group gives, if any.
pub build_rules_iff :
    (rm : RulesConfig) (r : Rule)
    → IsIn r (build_rules rm).rules ↔ IsRuleOf rm.upstreams rm.ech_profiles rm.site_groups r
unfolding build_rules
build_rules_iff rm r = (
  λ i.
      IsBuiltOf→ rm.upstreams rm.ech_profiles rm.site_groups r
        (built→ rm.upstreams rm.ech_profiles rm.site_groups r i),
  λ o.
      →built rm.upstreams rm.ech_profiles rm.site_groups r
        (→IsBuiltOf rm.upstreams rm.ech_profiles rm.site_groups r o),
)
