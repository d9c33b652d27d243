-- ===== src/Rules/Build/Lookups.antt =====
-- The maps of upstreams and of ECH profiles in `buildRules`, and what is found in them.
use sni_shaper_linux.Prelude.{
  ◌≡◌, refl, ap, ◌∙◌, ◌⊎◌, inl, inr, Bool, true, false, List, [], ◌∷◌, ◌++◌, map, Bool-cases, All,
  ◌&&◌, not, none, some,
}
use sni_shaper_linux.Text.{Bytes, is_empty, str_eq}
use sni_shaper_linux.Rules.Types.{SiteGroup, Upstream, EchProfile}
use sni_shaper_linux.Rules.Build.{
  upstream_map, ech_profile_map, resolve_upstream, empty_ech_profile, ech_profile_of,
}

-- An upstream that an id names: it is enabled, has an address, and has this id.
abbrev pub is_named_upstream : Bytes → Upstream → Bool
is_named_upstream id up = up.enabled && (not (is_empty up.address) && str_eq up.id id)

abbrev pub is_named_profile : Bytes → EchProfile → Bool
is_named_profile id profile = str_eq profile.id id

-- The last element that passes a test.
abbrev pub IsLast {ℓ} : {A : Type ℓ} → (A → Bool) → List A → A → Type ℓ
IsLast {A = A} test xs x =
    (before : List A) × ((behind : List A) × ((xs ≡ before ++ x ∷ behind)
        × ((test x ≡ true) × All (λ y. test y ≡ false) behind)))

-- What an upstream of a site group stands for: the address of the last upstream that it names, or, if it
-- names none, itself.
abbrev pub IsAddress : List Upstream → Bytes → Bytes → Type 0
IsAddress ups id address =
    ((up : Upstream) × (IsLast (is_named_upstream id) ups up × (address ≡ up.address)))
    ⊎ (All (λ up. is_named_upstream id up ≡ false) ups × (address ≡ id))

abbrev pub AreAddresses : List Upstream → List Bytes → List Bytes → Type 0
AreAddresses ups [] [] = Unit
AreAddresses ups [] (a ∷ as') = ⊥
AreAddresses ups (id ∷ ids) [] = ⊥
AreAddresses ups (id ∷ ids) (a ∷ as') = IsAddress ups id a × AreAddresses ups ids as'

-- The profile of a site group: the last one with its id; an empty one if there is none, or no id.
abbrev pub IsProfile : List EchProfile → Bytes → EchProfile → Type 0
IsProfile profiles id profile =
    ((is_empty id ≡ false) × IsLast (is_named_profile id) profiles profile)
    ⊎ (((is_empty id ≡ true) ⊎ All (λ p. is_named_profile id p ≡ false) profiles)
        × (profile ≡ empty_ech_profile))

-- The look-ups of the maps find the last element that passes.
upstream_map_lem :
    (ups : List Upstream) (id : Bytes)
    → ((up : Upstream) × (IsLast (is_named_upstream id) ups up
          × (upstream_map ups id ≡ some up.address)))
      ⊎ (All (λ up. is_named_upstream id up ≡ false) ups × (upstream_map ups id ≡ none))
unfolding upstream_map
upstream_map_lem [] id = inr (tt, refl)
upstream_map_lem (up ∷ ups) id = elim (upstream_map_lem ups id) [
  | inl (found, ((before, (behind, (place, last))), e)) ↦
      inl (found, ((up ∷ before, (behind, (ap (λ l. up ∷ l) place, last))), rw e refl))
  | inr (others, e) ↦ elim (Bool-cases (is_named_upstream id up)) [
    | inl this ↦ inl (up, (([], (ups, (refl, (this, others)))), rw (e, this) refl))
    | inr other ↦ inr ((other, others), rw (e, other) refl)
  ]
]

ech_profile_map_lem :
    (profiles : List EchProfile) (id : Bytes)
    → ((p : EchProfile) × (IsLast (is_named_profile id) profiles p
          × (ech_profile_map profiles id ≡ some p)))
      ⊎ (All (λ p. is_named_profile id p ≡ false) profiles × (ech_profile_map profiles id ≡ none))
unfolding ech_profile_map
ech_profile_map_lem [] id = inr (tt, refl)
ech_profile_map_lem (p ∷ ps) id = elim (ech_profile_map_lem ps id) [
  | inl (found, ((before, (behind, (place, last))), e)) ↦
      inl (found, ((p ∷ before, (behind, (ap (λ l. p ∷ l) place, last))), rw e refl))
  | inr (others, e) ↦ elim (Bool-cases (is_named_profile id p)) [
    | inl this ↦ inl (p, (([], (ps, (refl, (this, others)))), rw (e, this) refl))
    | inr other ↦ inr ((other, others), rw (e, other) refl)
  ]
]

upstream_map-none :
    (ups : List Upstream) (id : Bytes)
    → All (λ up. is_named_upstream id up ≡ false) ups
    → upstream_map ups id ≡ none
unfolding upstream_map
upstream_map-none [] id h = refl
upstream_map-none (up ∷ ups) id (h, hs) = rw (upstream_map-none ups id hs, h) refl

upstream_map-last :
    (before behind : List Upstream) (up : Upstream) (id : Bytes)
    → is_named_upstream id up ≡ true
    → All (λ u. is_named_upstream id u ≡ false) behind
    → upstream_map (before ++ up ∷ behind) id ≡ some up.address
unfolding upstream_map
upstream_map-last [] behind up id h hs = rw (upstream_map-none behind id hs, h) refl
upstream_map-last (u ∷ before) behind up id h hs =
    rw (upstream_map-last before behind up id h hs) refl

ech_profile_map-none :
    (profiles : List EchProfile) (id : Bytes)
    → All (λ p. is_named_profile id p ≡ false) profiles
    → ech_profile_map profiles id ≡ none
unfolding ech_profile_map
ech_profile_map-none [] id h = refl
ech_profile_map-none (p ∷ ps) id (h, hs) = rw (ech_profile_map-none ps id hs, h) refl

ech_profile_map-last :
    (before behind : List EchProfile) (p : EchProfile) (id : Bytes)
    → is_named_profile id p ≡ true
    → All (λ q. is_named_profile id q ≡ false) behind
    → ech_profile_map (before ++ p ∷ behind) id ≡ some p
unfolding ech_profile_map
ech_profile_map-last [] behind p id h hs = rw (ech_profile_map-none behind id hs, h) refl
ech_profile_map-last (q ∷ before) behind p id h hs =
    rw (ech_profile_map-last before behind p id h hs) refl

-- What the look-ups give, and that they alone are it.
pub resolve_upstream-IsAddress :
    (ups : List Upstream) (id : Bytes) → IsAddress ups id (resolve_upstream ups id)
unfolding resolve_upstream
resolve_upstream-IsAddress ups id = elim (upstream_map_lem ups id) [
  | inl (up, (last, e)) ↦ inl (up, (last, rw (e, resolve_upstream) refl))
  | inr (others, e) ↦ inr (others, rw (e, resolve_upstream) refl)
]

pub IsAddress→ :
    (ups : List Upstream) (id address : Bytes)
    → IsAddress ups id address
    → address ≡ resolve_upstream ups id
unfolding resolve_upstream
IsAddress→ ups id address (inl (up, ((before, (behind, (place, (this, others)))), e))) =
    rw
      (
        ap (λ l. upstream_map l id) place ∙ upstream_map-last before behind up id this others,
        resolve_upstream,
      )
      e
IsAddress→ ups id address (inr (others, e)) =
    rw (upstream_map-none ups id others, resolve_upstream) e

pub map-AreAddresses :
    (ups : List Upstream) (ids : List Bytes) → AreAddresses ups ids (map (resolve_upstream ups) ids)
map-AreAddresses ups [] = tt
map-AreAddresses ups (id ∷ ids) = (resolve_upstream-IsAddress ups id, map-AreAddresses ups ids)

pub AreAddresses→ :
    (ups : List Upstream) (ids addresses : List Bytes)
    → AreAddresses ups ids addresses
    → addresses ≡ map (resolve_upstream ups) ids
AreAddresses→ ups [] [] h = refl
AreAddresses→ ups [] (a ∷ rest) h = absurd h
AreAddresses→ ups (id ∷ ids) [] h = absurd h
AreAddresses→ ups (id ∷ ids) (a ∷ rest) (h, hs) =
    rw (IsAddress→ ups id a h, AreAddresses→ ups ids rest hs) refl

pub ech_profile_of-IsProfile :
    (profiles : List EchProfile) (sg : SiteGroup)
    → IsProfile profiles sg.ech_profile_id (ech_profile_of profiles sg)
unfolding ech_profile_of
ech_profile_of-IsProfile profiles sg = elim (Bool-cases (is_empty sg.ech_profile_id)) [
  | inl blank ↦ inr (inl blank, rw blank refl)
  | inr filled ↦ elim (ech_profile_map_lem profiles sg.ech_profile_id) [
    | inl (p, (last, e)) ↦ inl (filled, rw (filled, e) last)
    | inr (others, e) ↦ inr (inr others, rw (filled, e) refl)
  ]
]

pub IsProfile→ :
    (profiles : List EchProfile) (sg : SiteGroup) (profile : EchProfile)
    → IsProfile profiles sg.ech_profile_id profile
    → profile ≡ ech_profile_of profiles sg
unfolding ech_profile_of
IsProfile→ profiles sg profile (inl (filled, (before, (behind, (place, (this, others)))))) =
    rw
      (
        filled,
        ap (λ l. ech_profile_map l sg.ech_profile_id) place
            ∙ ech_profile_map-last before behind profile sg.ech_profile_id this others,
      )
      refl
IsProfile→ profiles sg profile (inr (inl blank, e)) = rw blank e
IsProfile→ profiles sg profile (inr (inr others, e)) =
    elim (Bool-cases (is_empty sg.ech_profile_id)) [
      | inl blank ↦ rw blank e
      | inr filled ↦ rw (filled, ech_profile_map-none profiles sg.ech_profile_id others) e
    ]
