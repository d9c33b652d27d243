-- ===== src/Rules/Manage/Upsert.antt =====
-- A profile that is stored and looked up.
use sni_shaper_linux.Prelude.{
  ℕ, ◌≡◌, refl, inl, inr, false, Option, none, some, List, [], ◌∷◌, ◌++◌, arith, Bool-cases,
  Option-cases,
}
use sni_shaper_linux.Text.{Bytes, str_eq, str_eq_refl, is_empty, trim_space}
use sni_shaper_linux.Rules.Types.{EchProfile}
use sni_shaper_linux.Rules.Build.{RulesConfig}
use sni_shaper_linux.Rules.Ech.{first_profile, find_ech_profile_by_id, normalize_ech_profile}
use sni_shaper_linux.Rules.Manage.{Save, replace_first, find_index, upsert_at, upsert_ech_profile}

first_of_appended :
    (p : EchProfile) (ps : List EchProfile)
    → find_index (λ x. str_eq x.id p.id) ps ≡ none
    → first_profile (ps ++ p ∷ []) p.id ≡ some p
unfolding first_profile find_index
first_of_appended p [] h = rw (str_eq_refl p.id) refl
first_of_appended p (q ∷ ps) h = elim (Bool-cases (str_eq q.id p.id)) [
  | inl e ↦ ground arith
  | inr e ↦ elim (Option-cases (find_index (λ x. str_eq x.id p.id) ps)) [
    | inl missing ↦ rw e (first_of_appended p ps missing)
    | inr (i, at_i) ↦ ground arith
  ]
]

first_of_replaced :
    (p : EchProfile) (ps : List EchProfile) (i : ℕ)
    → find_index (λ x. str_eq x.id p.id) ps ≡ some i
    → first_profile (replace_first (λ x. str_eq x.id p.id) p ps) p.id ≡ some p
unfolding first_profile find_index replace_first
first_of_replaced p [] i h = ground arith
first_of_replaced p (q ∷ ps) i h = elim (Bool-cases (str_eq q.id p.id)) [
  | inl e ↦ rw (e, str_eq_refl p.id) refl
  | inr e ↦ elim (Option-cases (find_index (λ x. str_eq x.id p.id) ps)) [
    | inl missing ↦ ground arith
    | inr (j, at_j) ↦ rw (e, e) (first_of_replaced p ps j at_j)
  ]
]

first_of_upserted :
    (save : Save) (p : EchProfile) (rm : RulesConfig) (o : Option ℕ)
    → find_index (λ x. str_eq x.id p.id) rm.ech_profiles ≡ o
    → first_profile (upsert_at save p rm o).0.ech_profiles p.id ≡ some p
unfolding upsert_at
first_of_upserted save p rm none h = first_of_appended p rm.ech_profiles h
first_of_upserted save p rm (some i) h = first_of_replaced p rm.ech_profiles i h

-- A profile that is stored under an id which is not blank is what a lookup of that id finds, with the
-- space around its texts removed.
pub find-upsert_ech_profile :
    (save : Save) (new_id : Bytes) (profile : EchProfile) (rm : RulesConfig)
    → is_empty (trim_space profile.id) ≡ false
    → find_ech_profile_by_id (upsert_ech_profile save new_id profile rm).0.ech_profiles profile.id
      ≡ some (normalize_ech_profile profile)
unfolding upsert_ech_profile find_ech_profile_by_id normalize_ech_profile
find-upsert_ech_profile save new_id profile rm h =
    let p = normalize_ech_profile profile in
    rw h (first_of_upserted save p rm (find_index (λ x. str_eq x.id p.id) rm.ech_profiles) refl)
