-- ===== src/Rules/EchSync/Sync.antt =====
-- A configuration that is synced is the one that is used next.
use sni_shaper_linux.Prelude.{
  ℕ, ◌≡◌, refl, ap, sym, ◌∙◌, Bool, true, false, none, some, List, [], ◌∷◌, arith,
}
use sni_shaper_linux.Text.{Bytes, str_eq, str_eq_iff}
use sni_shaper_linux.Rules.Types.{EchProfile}
use sni_shaper_linux.Rules.Ech.{first_profile}
use sni_shaper_linux.Rules.EchSync.{
  Base64, or_nothing, binary_of, get_binary_ech_config, Synced, unchanged, not_found, changed,
  behind, sync_at, sync_config, update_ech_profile_config, profiles_after,
}

-- The first profile with the id holds the text behind the update, if there is one.
abbrev HoldsText : List EchProfile → Bytes → Bytes → Synced → Type 0
HoldsText old id text unchanged =
    (p : EchProfile) × ((first_profile old id ≡ some p) × (p.config ≡ text))
HoldsText old id text not_found = first_profile old id ≡ none
HoldsText old id text (changed ps) =
    (p : EchProfile) × ((first_profile ps id ≡ some p) × (p.config ≡ text))

first_profile-here :
    (p : EchProfile) (ps : List EchProfile) (id : Bytes)
    → str_eq p.id id ≡ true
    → first_profile (p ∷ ps) id ≡ some p
unfolding first_profile
first_profile-here p ps id h = rw h refl

first_profile-behind :
    (p : EchProfile) (ps : List EchProfile) (id : Bytes)
    → str_eq p.id id ≡ false
    → first_profile (p ∷ ps) id ≡ first_profile ps id
unfolding first_profile
first_profile-behind p ps id h = rw h refl

behind-HoldsText :
    (p : EchProfile) (ps : List EchProfile) (id text : Bytes) (s : Synced)
    → str_eq p.id id ≡ false
    → HoldsText ps id text s
    → HoldsText (p ∷ ps) id text (behind p s)
behind-HoldsText p ps id text unchanged h (q, (e, k)) = (q, (first_profile-behind p ps id h ∙ e, k))
behind-HoldsText p ps id text not_found h e = first_profile-behind p ps id h ∙ e
behind-HoldsText p ps id text (changed qs) h (q, (e, k)) =
    (q, (first_profile-behind p qs id h ∙ e, k))

sync_at-HoldsText :
    (p : EchProfile) (ps : List EchProfile) (id text : Bytes) (later : Synced) (here same : Bool)
    → str_eq p.id id ≡ here
    → str_eq p.config text ≡ same
    → HoldsText ps id text later
    → HoldsText (p ∷ ps) id text (sync_at here same p ps text later)
sync_at-HoldsText p ps id text later true true h e k =
    (p, (first_profile-here p ps id h, (str_eq_iff p.config text).0 e))
sync_at-HoldsText p ps id text later true false h e k =
    let q : EchProfile = record p { config = text } in (q, (first_profile-here q ps id h, refl))
sync_at-HoldsText p ps id text later false same h e k = behind-HoldsText p ps id text later h k

sync_config-HoldsText :
    (ps : List EchProfile) (id text : Bytes) → HoldsText ps id text (sync_config ps id text)
unfolding sync_config first_profile
sync_config-HoldsText [] id text = refl
sync_config-HoldsText (p ∷ ps) id text =
    sync_at-HoldsText p ps id text (sync_config ps id text) (str_eq p.id id) (str_eq p.config text)
      refl refl (sync_config-HoldsText ps id text)

-- What is got from the profile that holds a text.
read_back :
    (b64 : Base64) (ps : List EchProfile) (id ech : Bytes) (p : EchProfile)
    → b64.decode (b64.encode ech) ≡ some ech
    → first_profile ps id ≡ some p
    → p.config ≡ b64.encode ech
    → get_binary_ech_config b64 ps id ≡ ech
unfolding get_binary_ech_config
read_back b64 ps id ech p back found holds =
    ap (binary_of b64) found ∙ ap (λ t. or_nothing (b64.decode t)) holds ∙ ap or_nothing back

synced_back :
    (b64 : Base64) (ps : List EchProfile) (id ech : Bytes) (p : EchProfile) (s : Synced)
    → b64.decode (b64.encode ech) ≡ some ech
    → first_profile ps id ≡ some p
    → HoldsText ps id (b64.encode ech) s
    → get_binary_ech_config b64 (profiles_after ps s) id ≡ ech
synced_back b64 ps id ech p unchanged back found (q, (e, k)) = read_back b64 ps id ech q back e k
synced_back b64 ps id ech p (changed qs) back found (q, (e, k)) = read_back b64 qs id ech q back e k
synced_back b64 ps id ech p not_found back found e = let never = sym found ∙ e in ground arith

-- Where some profile has the id, and base 64 decodes what it encoded of the bytes: once a configuration is
-- written to the profile with that id, it is the configuration that is read from it.
pub get_binary_ech_config-update :
    (b64 : Base64) (ps : List EchProfile) (c : ℕ) (cs : Bytes) (b : ℕ) (bs : Bytes) (p : EchProfile)
    → b64.decode (b64.encode (b ∷ bs)) ≡ some (b ∷ bs)
    → first_profile ps (c ∷ cs) ≡ some p
    → get_binary_ech_config b64
        (profiles_after ps (update_ech_profile_config b64 ps (c ∷ cs) (b ∷ bs)))
        (c ∷ cs)
      ≡ b ∷ bs
unfolding update_ech_profile_config
get_binary_ech_config-update b64 ps c cs b bs p back found =
    synced_back b64 ps (c ∷ cs) (b ∷ bs) p (sync_config ps (c ∷ cs) (b64.encode (b ∷ bs))) back
      found (sync_config-HoldsText ps (c ∷ cs) (b64.encode (b ∷ bs)))
